-- ===== src/Images/Fetch.antt =====
-- The connections of `_fetch_to_data_url` of glc/routes/chat.py.
use gateway_glc_v.Common.{
  ℕ, zero, suc, ◌+◌, ◌≤◌, ◌≡◌, refl, [], ◌∷◌, none, some, Result, ok, err, All, length, arith,
  Option-cases, inl, inr, ◌⊎◌,
}
use gateway_glc_v.Common.Text.{Text}
use gateway_glc_v.Ssrf.{Blocked, resolve_validated}
use gateway_glc_v.Ssrf.Safe.{IsSafe, resolve_validated-IsSafe}
use gateway_glc_v.Images.{
  Web, Hops, FetchError, Response, invalid_url, network_error, redirect, http_error, success,
  after_response, round, fetch_loop, fetch_to_data_url, max_gets,
}

abbrev pub Guarded : Web → Text → Hops → Type 0
Guarded w allow_env h = All (λ c. IsSafe (w.net_at c.0) allow_env c.1) h.connections

module _ (w : Web) (allow_env : Text) where
  -- A continuation that makes at most `n` connections, all of them guarded.
  abbrev pub Bounded : ℕ → (Text → Hops → Result FetchError Text × Hops) → Type 0
  Bounded n k =
      (url : Text) (h : Hops)
      → Guarded w allow_env h
      → Guarded w allow_env (k url h).1
        × (length (k url h).1.connections ≤ length h.connections + n)

  response-Bounded :
      (n : ℕ) (again : Text → Hops → Result FetchError Text × Hops)
      → Bounded n again
      → (r : Response) (current : Text) (h : Hops) → Guarded w allow_env h
      → Guarded w allow_env (after_response w again current r h).1
        × (length (after_response w again current r h).1.connections ≤ length h.connections + n)
  response-Bounded n again b invalid_url current h g = (g, omega arith)
  response-Bounded n again b network_error current h g = (g, omega arith)
  response-Bounded n again b (redirect none) current h g = (g, omega arith)
  response-Bounded n again b (redirect (some [])) current h g = (g, omega arith)
  response-Bounded n again b (redirect (some (c ∷ loc))) current h g =
      elim (Option-cases (w.join_url current (c ∷ loc))) [
        | inl bad ↦ rw (bad, after_response) (g, omega arith)
        | inr (next, joined) ↦ rw (joined, after_response) (b next h g)
      ]
  response-Bounded n again b http_error current h g = (g, omega arith)
  response-Bounded n again b (success _ _) current h g = (g, omega arith)

  pub Result-cases :
      {A : Type 0} (r : Result Blocked A) → ((e : Blocked) × (r ≡ err e)) ⊎ ((a : A) × (r ≡ ok a))
  Result-cases (err e) = inl (e, refl)
  Result-cases (ok a) = inr (a, refl)

  round-Bounded :
      (n : ℕ) (again : Text → Hops → Result FetchError Text × Hops)
      → Bounded n again
      → Bounded (suc n) (round w allow_env again)
  unfolding round
  round-Bounded n again b url h g =
      elim (Result-cases (resolve_validated (w.net_at h.count) allow_env url)) [
        | inl (e, p) ↦ rw (p, round) (g, omega arith)
        | inr (t, p) ↦
            rw (p, round)
              (let (safe, few) =
                  response-Bounded n again b (w.get_pinned h.count url t) url
                    (record { count = h.count + 1; connections = (h.count, t) ∷ h.connections })
                    (resolve_validated-IsSafe (w.net_at h.count) allow_env url t p, g) in
                (safe, omega arith))
      ]

  pub fetch-Bounded : (url : Text) (fuel : ℕ) → Bounded fuel (fetch_loop w allow_env url fuel)
  unfolding fetch_loop
  fetch-Bounded url zero current h g = (g, omega arith)
  fetch-Bounded url (suc fuel) current h g =
      round-Bounded fuel _ (fetch-Bounded url fuel) current h g

  -- Whatever the network answers, each connection that fetching one image makes, redirects included,
  -- goes to a target that passed the guard at that hop, and there are at most six.
  pub fetch-Guarded :
      (url : Text)
      → Guarded w allow_env
          (fetch_to_data_url w allow_env url (record { count = 0; connections = [] })).1
        × (length
              (fetch_to_data_url w allow_env url
                (record { count = 0; connections = [] })).1.connections
            ≤ max_gets)
  unfolding fetch_to_data_url
  fetch-Guarded url = fetch-Bounded url max_gets url (record { count = 0; connections = [] }) tt
