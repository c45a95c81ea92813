-- ===== src/Cache/Fresh.antt =====
-- glc/cache.py: what the cache returns, where the parts of several calls interleave.
use gateway_glc_v.Common.{
  ℕ, ◌+◌, ◌*◌, ◌<◌, ◌≡◌, ◌⊎◌, inl, inr, refl, List, [], ◌∷◌, Option, none, some, sec, ltb, arith,
  Bool-cases, if_both,
}
use gateway_glc_v.Common.Text.{Text, text_beq, text_beq_iff, text_eq}
use gateway_glc_v.Common.Dict.{get, remove, get-put, get-remove}
use gateway_glc_v.Cache.{Entry, Entries, Response, looked, look, kept, minted_name, keep_minted}

-- One part of a call, under the lock: its look, or the keeping of what it minted.
pub data Step : Type 0 where
  looks : Text → ℕ → Step
  keeps : Text → ℕ → Text → Option Response → Step

module _ (ttl : ℕ) where
  unfoldable pub step : Entries → Step → Entries
  step s (looks key now) = (look s key now).0
  step s (keeps key now text response) = (keep_minted ttl s key now text response).0

  -- The entries after a sequence of parts, the last one first.
  abbrev pub after : List Step → Entries
  after [] = []
  after (part ∷ parts) = step (after parts) part

-- Some part kept this name under this key, minted by a call that had read this time.
abbrev Mints : Step → Text → Text → ℕ → Type 0
Mints (looks key now) k name at = ⊥
Mints (keeps key now text response) k name at =
    (key ≡ k) × (now ≡ at) × (minted_name response ≡ some name)

abbrev pub Minted : List Step → Text → Text → ℕ → Type 0
Minted [] key name at = ⊥
Minted (part ∷ parts) key name at = Mints part key name at ⊎ Minted parts key name at

abbrev Known : ℕ → List Step → Text → Option Entry → Type 0
Known ttl parts key none = Unit
Known ttl parts key (some e) =
    (at : ℕ) × Minted parts key e.name at × (e.expires_at ≡ at + ttl * sec)

Known-weaken :
    (ttl : ℕ) (part : Step) (parts : List Step) (key : Text) (o : Option Entry)
    → Known ttl parts key o
    → Known ttl (part ∷ parts) key o
Known-weaken ttl part parts key none h = tt
Known-weaken ttl part parts key (some e) (at, minted, lives) = (at, inr minted, lives)

looked-Known :
    (ttl : ℕ) (parts : List Step) (s : Entries) (k key : Text) (now : ℕ) (o : Option Entry)
    → Known ttl parts key (get s key)
    → Known ttl parts key (get (looked s k now o).0 key)
looked-Known ttl parts s k key now none h = h
looked-Known ttl parts s k key now (some e) h =
    let gone : Known ttl parts key (get (remove s k) key) =
      rw (get-remove s k key) (if_both (Known ttl parts key) (text_beq k key) _ _ tt h) in
    if_both (λ (x : Entries × Option Text). Known ttl parts key (get (x.0) key))
      (ltb (now + 5 * sec) e.expires_at) _ _ h gone

kept-Known :
    (ttl : ℕ) (parts : List Step) (s : Entries) (k key : Text) (now : ℕ) (text : Text)
    (response : Option Response) (o : Option Text)
    → minted_name response ≡ o
    → Known ttl parts key (get s key)
    → Known ttl
        (keeps k now text response ∷ parts)
        key
        (get (kept ttl s k now text response o).0 key)
kept-Known ttl parts s k key now text response none made h =
    Known-weaken ttl (keeps k now text response) parts key (get s key) h
kept-Known ttl parts s k key now text response (some name) made h =
    let e : Entry = record { name = name; expires_at = now + ttl * sec } in
    elim (Bool-cases (text_beq k key)) [
      | inl same ↦
          let k_is : k ≡ key = (text_beq_iff k key).0 same in
          rw (get-put s k key e, same) (now, inl (k_is, refl, made), refl)
      | inr other ↦
          rw (get-put s k key e, other)
            (Known-weaken ttl (keeps k now text response) parts key (get s key) h)
    ]

after-Known :
    (ttl : ℕ) (parts : List Step) (key : Text) → Known ttl parts key (get (after ttl parts) key)
unfolding step look keep_minted
after-Known ttl [] key = tt
after-Known ttl (looks k now ∷ parts) key =
    Known-weaken ttl (looks k now) parts key (get (step ttl (after ttl parts) (looks k now)) key) (
      looked-Known ttl parts (after ttl parts) k key now (get (after ttl parts) k)
        (after-Known ttl parts key))
after-Known ttl (keeps k now text response ∷ parts) key =
    kept-Known ttl parts (after ttl parts) k key now text response (minted_name response) refl
      (after-Known ttl parts key)

-- However the parts of calls on the cache interleave, a name that `get_or_create` finds under a key
-- was minted by a call for that same key, and the lifetime that the service was asked for, counted
-- from that call's reading of the clock, ends more than five seconds later.
pub look_fresh :
    (ttl : ℕ) (parts : List Step) (key name : Text) (now : ℕ)
    → (look (after ttl parts) key now).1 ≡ some name
    → (at : ℕ) × Minted parts key name at × (now + 5 * sec < at + ttl * sec)
unfolding look
look_fresh ttl parts key name now h =
    by_entry (get (after ttl parts) key) (after-Known ttl parts key) h
  where
    by_entry :
        (o : Option Entry)
        → Known ttl parts key o
        → (looked (after ttl parts) key now o).1 ≡ some name
        → (at : ℕ) × Minted parts key name at × (now + 5 * sec < at + ttl * sec)
    by_entry none known found = cc
    by_entry (some e) (at, minted, lives) found =
        elim (Bool-cases (ltb (now + 5 * sec) e.expires_at)) [
          | inr late ↦ absurd (ground (arith, late, found))
          | inl fresh ↦
              let name_is : e.name ≡ name = ground (arith, fresh, found) in
              (at, rw (← name_is) minted, ground (arith, fresh, lives))
        ]
