-- ===== src/Control/Guarded.antt =====
-- What the control plane does for a request that shows the install token, and for any other.
use mathlib.Core.Path.{subst}
use gateway_glc_v.Common.{
  ℕ, ◌≡◌, ◌≤◌, ◌+◌, ◌*◌, ◌∙◌, ◌↔◌, ◌⊎◌, inl, inr, refl, String, String-eq, ◌==◌, Bool, true, false,
  ◌||◌, Option, none, some, Result, ok, guard, ◌>>◌, guard-eq-ok, >>=-eq-ok, arith, beq_refl, ap,
  ok-injective, Bool-cases, sec,
}
use gateway_glc_v.Common.Dict.{get-put}
use gateway_glc_v.Common.Text.{
  Text, codes, starts_with, after_prefix, strip, text_beq, text_beq_iff, text_eq,
}
use gateway_glc_v.Pairing.{
  PairingStore, code_ttl_seconds, format_code, issued_row, confirm_code, issue_code, to_record,
}
use gateway_glc_v.Control.{
  Refused, require_token, middleware, PairRequest, PairResponse, pair, pair_confirm, kill,
  is_loopback, token_mismatch, bad_trust_level, allows_remote, or_unknown,
}

-- The header is "Bearer " and the token, with white space around it or not.
abbrev pub Shows : Option Text → Text → Type 0
Shows header token =
    (h : Text) × (header ≡ some h)
    × (starts_with h (codes "Bearer ") ≡ true)
    × (strip (after_prefix h (codes "Bearer ")) ≡ token)

guard-test : (b : Bool) (e : Refused) → guard b e ≡ ok tt → b ≡ true
guard-test true e h = refl
guard-test false e h = cc

pub require-Shows :
    (header : Option Text) (expected : Text)
    → require_token header expected ≡ ok tt
    → Shows header expected
unfolding require_token
require-Shows none expected h = cc
require-Shows (some t) expected h = elim (Bool-cases (starts_with t (codes "Bearer "))) [
  | inl b ↦
      let token = strip (after_prefix t (codes "Bearer ")) in
      (
        t,
        refl,
        b,
        (text_beq_iff token expected).0
            (guard-test (text_beq token expected) token_mismatch (rw b at h)),
      )
  | inr b ↦ absurd (ground arith)
]

Shows-require :
    (header : Option Text) (expected : Text)
    → Shows header expected
    → require_token header expected ≡ ok tt
unfolding require_token
Shows-require header expected (h, e, b, t) =
    rw (e, b, t) (ground (arith, text_beq_iff expected expected))

-- A route other than "/healthz" answers 200 just if the request shows the install token and the
-- route's handler itself does; "/healthz" needs no token.
pub middleware_exact {ℓ} :
    {A : Type ℓ} (path : String) (header : Option Text) (expected : Text)
    (call_next : Result Refused A) (a : A)
    → (middleware path header expected call_next ≡ ok a)
      ↔ (((path ≡ "/healthz") ⊎ Shows header expected) × (call_next ≡ ok a))
unfolding middleware
middleware_exact path header expected call_next a = elim (Bool-cases (path == "/healthz")) [
  | inl b ↦ rw b (λ h. (inl ((String-eq.same_iff path "/healthz").0 b), h), λ (_, h). h)
  | inr b ↦ rw b (
    λ h.
        (let (_, t, k) = >>=-eq-ok (require_token header expected) (λ _. call_next) h in
          (inr (require-Shows header expected (t ∙ refl)), k)),
    λ (g, h). with-token path header expected call_next a b g h,
  )
]
  where
    with-token :
        {A : Type ℓ} (path : String) (header : Option Text) (expected : Text)
        (call_next : Result Refused A) (a : A)
        → (path == "/healthz") ≡ false
        → (path ≡ "/healthz") ⊎ Shows header expected
        → call_next ≡ ok a
        → ((require_token header expected) >> call_next) ≡ ok a
    with-token path header expected call_next a b (inl p) h =
        absurd (ground (arith, String-eq.same_iff path "/healthz"))
    with-token path header expected call_next a b (inr w) h = rw (Shows-require header expected w) h

-- The gateway is stopped only for a request that shows the install token, and that comes from the
-- loopback interface unless the environment allows any host.
pub kill_guarded :
    (allow_remote client_host : Option String) (header : Option Text) (expected : Text)
    → kill allow_remote client_host header expected ≡ ok tt
    → Shows header expected
      × ((allow_remote ≡ some "1")
          ⊎ ((host : String) × (client_host ≡ some host) × (is_loopback host ≡ true)))
unfolding kill
kill_guarded allow_remote client_host header expected h =
    let (_, t, g) = >>=-eq-ok (require_token header expected) _ h in
    (require-Shows header expected t, from allow_remote client_host (guard-test _ _ g))
  where
    from :
        (allow_remote client_host : Option String)
        → (allows_remote allow_remote || is_loopback (or_unknown client_host)) ≡ true
        → (allow_remote ≡ some "1")
          ⊎ ((host : String) × (client_host ≡ some host) × (is_loopback host ≡ true))
    from none none k = absurd (ground arith)
    from none (some host) k = inr (host, refl, k)
    from (some v) none k = inl (ground (arith, String-eq.same_iff v "1"))
    from (some v) (some host) k = elim (Bool-cases (v == "1")) [
      | inl b ↦ inl (ap some ((String-eq.same_iff v "1").0 b))
      | inr b ↦ inr (host, refl, rw b at k)
    ]

-- A code that the control plane issued is confirmed, with the token, within five minutes, with the
-- channel, user, handle and trust level of the request.
pub pair_confirm_pairs :
    (s s' : PairingStore) (req : PairRequest) (header : Option Text) (expected : Text)
    (random now at paired_at : ℕ) (resp : PairResponse)
    → pair s req header expected random now ≡ ok (s', resp)
    → at ≤ now + code_ttl_seconds * sec
    → (pair_confirm s' resp.code header expected at paired_at).answer
      ≡ ok (
          to_record req.channel req.channel_user_id (record {
            user_handle = req.user_handle;
            trust_level = req.trust_level;
            paired_at = paired_at;
          }))
unfolding pair pair_confirm issue_code confirm_code
pair_confirm_pairs s s' req header expected random now at paired_at resp h timely =
    let (_, t, h1) = >>=-eq-ok (require_token header expected) _ h in
    let (_, h2) =
      guard-eq-ok (req.trust_level == "user_paired" || req.trust_level == "owner_paired")
        (bad_trust_level req.trust_level) _ h1 in
    subst
      (λ x.
        (pair_confirm x.0 x.1.code header expected at paired_at).answer
        ≡ ok (
            to_record req.channel req.channel_user_id (record {
              user_handle = req.user_handle;
              trust_level = req.trust_level;
              paired_at = paired_at;
            })))
      (ok-injective h2)
      (rw t (
        ground (
          arith,
          get-put s.pending_codes (format_code random) (format_code random)
              (issued_row req.channel req.channel_user_id req.user_handle req.trust_level now),
          beq_refl (format_code random),
        )))
