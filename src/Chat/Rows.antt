-- ===== src/Chat/Rows.antt =====
-- The rows of a provider in the call log, and its place among the candidates of glc/routes/chat.py.
use gateway_glc_v.Common.{
  if◌then◌else◌, ℕ, ◌+◌, ◌≤◌, ◌≡◌, refl, Bool, true, false, not, ◌&&◌, List, [], ◌∷◌, ◌++◌,
  if◌then◌else◌, keep, arith, Bool-cases, inl, inr, contains, tally, tally-append, Eq, ◌==◌, ap,
  ◌∙◌,
}
use gateway_glc_v.Routing.Providers.{Provider, provider_eq, same_provider}
use gateway_glc_v.Chat.Failover.{Logged, Status, status_ok, status_error}

abbrev pub has_status : Status → Status → Bool
has_status status_ok status_ok = true
has_status status_error status_error = true
has_status _ _ = false

-- How often a provider stands in the call log with a status.
abbrev pub count : Provider → Status → List Logged → ℕ
count p st log = tally (λ l. same_provider l.provider p && has_status l.status st) log

abbrev pub one_if : Bool → ℕ
one_if true = 1
one_if false = 0

pub one_of_both :
    (b : Bool) (st : Status)
    → one_if (b && has_status status_ok st) + one_if (b && has_status status_error st) ≤ one_if b
one_of_both true status_ok = omega arith
one_of_both true status_error = omega arith
one_of_both false st = omega arith

module _ {A : Type 0} ⦃e : Eq A⦄ where
  pub contains-keep :
      (name p : A) (cs : List A)
      → contains (keep (λ c. not (c == name)) cs) p ≡ (contains cs p && not (p == name))
  contains-keep name p [] = refl
  contains-keep name p (c ∷ cs) =
      ground (arith, contains-keep name p cs, e.same_iff c name, e.same_iff p c, e.same_iff p name)

  pub contains-middle : (name : A) (xs ys : List A) → contains (xs ++ (name ∷ ys)) name ≡ true
  contains-middle name [] ys = ground (arith, e.same_iff name name)
  contains-middle name (x ∷ xs) ys = ground (arith, contains-middle name xs ys)

  pub contains-share :
      (name p : A) (cs : List A)
      → contains cs name ≡ true
      → one_if (name == p) + one_if (contains (keep (λ c. not (c == name)) cs) p)
        ≤ one_if (contains cs p)
  contains-share name p cs h = elim (Bool-cases (name == p)) [
    | inl b ↦
        let eq : name ≡ p = (e.same_iff name p).0 b in
        ground (arith, contains-keep name p cs, e.same_iff p name)
    | inr b ↦ ground (arith, contains-keep name p cs)
  ]

-- A new row counts for its own provider and status.
pub count-snoc :
    (p : Provider) (st : Status) (log : List Logged) (l : Logged)
    → count p st (log ++ (l ∷ []))
      ≡ count p st log + one_if (same_provider l.provider p && has_status l.status st)
count-snoc p st log l =
    tally-append (λ x. same_provider x.provider p && has_status x.status st) log (l ∷ [])
    ∙ ap (λ n. count p st log + n) (one (same_provider l.provider p && has_status l.status st))
  where
    one : (b : Bool) → (if b then 1 else 0) ≡ one_if b
    one true = refl
    one false = refl
