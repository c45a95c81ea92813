-- ===== src/Pairing/Codes.antt =====
-- The life of one pairing code.
use gateway_glc_v.Common.{
  ℕ, ◌+◌, ◌*◌, ◌≡◌, ◌∙◌, refl, inl, inr, String, none, some, arith, ◌==◌, String-eq, pair_eq,
  if◌then◌else◌, sec, ltb, leb, Bool-cases, beq_refl,
}
use gateway_glc_v.Common.Dict.{get, put, get-put, get-remove}
use gateway_glc_v.Common.Text.{Text, text_eq}
use gateway_glc_v.Pairing.{
  PairingStore, Pending, Pairing, format_code, code_ttl_seconds, issue_code, confirm_code, classify,
  TrustLevel, owner_paired, user_paired, issued_row, pair_row,
}

confirmed_gone :
    (s : PairingStore) (code : Text) (now paired_at : ℕ)
    → get (confirm_code s code now paired_at).0.pending_codes code ≡ none
unfolding confirm_code
confirmed_gone s code now paired_at =
    ground (arith, get-remove s.pending_codes code code, beq_refl code)

confirm-unknown :
    (s : PairingStore) (code : Text) (now paired_at : ℕ)
    → get s.pending_codes code ≡ none
    → confirm_code s code now paired_at ≡ (s, none)
unfolding confirm_code
confirm-unknown s code now paired_at h = rw h

-- A code is used up by an attempt to confirm it, successful or not: a second attempt finds nothing
-- and changes nothing.
pub confirm_once :
    (s : PairingStore) (code : Text) (t u t' u' : ℕ)
    → confirm_code (confirm_code s code t u).0 code t' u' ≡ ((confirm_code s code t u).0, none)
confirm_once s code t u t' u' =
    confirm-unknown (confirm_code s code t u).0 code t' u' (confirmed_gone s code t u)

abbrev pub trust_asked : String → TrustLevel
trust_asked t = if t == "owner_paired" then owner_paired else user_paired

get-issued :
    (s : PairingStore) (ch u h t : String) (n now : ℕ)
    → get (issue_code s ch u h t n now).0.pending_codes (format_code n)
      ≡ some (issued_row ch u h t now)
unfolding issue_code
get-issued s ch u h t n now = ground (
  arith,
  get-put s.pending_codes (format_code n) (format_code n) (issued_row ch u h t now),
  beq_refl (format_code n),
)

classify-put :
    (s : PairingStore) (ch u : String) (row : Pairing)
    → classify (record s { pairings = put s.pairings (ch, u) row }) ch u
      ≡ trust_asked row.trust_level
unfolding classify
classify-put s ch u row =
    ground (arith, get-put s.pairings (ch, u) (ch, u) row, beq_refl {K = String × String} (ch, u))

classify-issue :
    (s : PairingStore) (ch u h t : String) (n now : ℕ) (c v : String)
    → classify (issue_code s ch u h t n now).0 c v ≡ classify s c v
unfolding classify issue_code
classify-issue s ch u h t n now c v = refl

classify-confirm :
    (s : PairingStore) (code : Text) (row : Pending) (at paired_at : ℕ)
    → get s.pending_codes code ≡ some row
    → classify (confirm_code s code at paired_at).0 row.channel row.channel_user_id ≡ (
        if ltb row.expires_at at
        then classify s row.channel row.channel_user_id
        else trust_asked row.requested_trust_level)
unfolding confirm_code
classify-confirm s code row at paired_at h = rw h (elim (Bool-cases (ltb row.expires_at at)) [
  | inl late ↦ rw late (unfold classify in refl)
  | inr timely ↦ rw timely (
      unfold classify in
      ground (
        arith,
        get-put s.pairings (row.channel, row.channel_user_id) (row.channel, row.channel_user_id)
            (pair_row row paired_at),
        beq_refl {K = String × String} (row.channel, row.channel_user_id),
      ))
])

-- A code that is confirmed within five minutes of being issued gives its user the trust level that
-- was asked for; later it leaves the user's trust level as it was before.
pub confirm-issue :
    (s : PairingStore) (ch u h t : String) (n now at paired_at : ℕ)
    → classify (confirm_code (issue_code s ch u h t n now).0 (format_code n) at paired_at).0 ch u
      ≡ (if leb at (now + code_ttl_seconds * sec) then trust_asked t else classify s ch u)
confirm-issue s ch u h t n now at paired_at =
    classify-confirm (issue_code s ch u h t n now).0 (format_code n) (issued_row ch u h t now) at
      paired_at (get-issued s ch u h t n now)
    ∙ ground (arith, classify-issue s ch u h t n now ch u)
