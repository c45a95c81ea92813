-- ===== src/Pairing/Provenance.antt =====
-- Sequences of calls on the pairing store: where a pairing comes from.
use gateway_glc_v.Common.{
  ℕ, ◌≤◌, ◌≡◌, ◌≢◌, contains, ◌⊎◌, inl, inr, String, List, [], ◌∷◌, some, arith, String-eq, pair_eq,
  pair_beq, pair_beq_iff, ltb, Option-cases, Bool-cases,
}
use gateway_glc_v.Common.Dict.{
  get, get-put, get-remove, DistinctKeys, put-DistinctKeys, remove-DistinctKeys,
}
use gateway_glc_v.Common.Text.{Text, text_eq, text_beq, text_beq_iff}
use gateway_glc_v.Pairing.Rows.{owner_ids, is_owner, owners-classify}
use gateway_glc_v.Pairing.{
  Pairing, Pending, PairingStore, empty, format_code, issue_code, confirm_code, revoke,
  force_pair_owner, pair_row, owner_row, issued_row, classify,
}

pub data Op : Type 0 where
  issue : String → String → String → String → ℕ → ℕ → Op
  confirm : Text → ℕ → ℕ → Op
  revoke_pair : String → String → Op
  force_owner : String → String → String → ℕ → Op

unfoldable pub step : PairingStore → Op → PairingStore
step s (issue ch u h t n now) = (issue_code s ch u h t n now).0
step s (confirm code now paired_at) = (confirm_code s code now paired_at).0
step s (revoke_pair ch u) = (revoke s ch u).0
step s (force_owner ch u h now) = (force_pair_owner s ch u h now).0

-- The store after a history of calls, its latest first.
unfoldable pub after : List Op → PairingStore
unfolding step issue_code confirm_code revoke force_pair_owner format_code
after [] = empty
after (op ∷ ops) = step (after ops) op

-- A call of the history issued `code` for this row.
abbrev Issues : Op → Text → Pending → Type 0
Issues (issue ch u h t n now) code row = (code ≡ format_code n) × (row ≡ issued_row ch u h t now)
Issues _ code row = ⊥

abbrev pub Issued : List Op → Text → Pending → Type 0
Issued [] code row = ⊥
Issued (op ∷ ops) code row = Issues op code row ⊎ Issued ops code row

-- A call, behind the calls `ops`, made this pairing: the confirmation, no later than it expired, of
-- a code issued for that very user and trust level, or the installer's bootstrap.
abbrev Grants : List Op → Op → String × String → Pairing → Type 0
Grants ops (confirm code now paired_at) key row =
    (p : Pending) × Issued ops code p
    × (now ≤ p.expires_at)
    × (key ≡ (p.channel, p.channel_user_id))
    × (row ≡ pair_row p paired_at)
Grants ops (force_owner ch u h now) key row = (key ≡ (ch, u)) × (row ≡ owner_row h now)
Grants ops _ key row = ⊥

abbrev pub Granted : List Op → String × String → Pairing → Type 0
Granted [] key row = ⊥
Granted (op ∷ ops) key row = Grants ops op key row ⊎ Granted ops key row

pending-confirm :
    (s : PairingStore) (c : Text) (now paired_at : ℕ) (code : Text) (row : Pending)
    → get (confirm_code s c now paired_at).0.pending_codes code ≡ some row
    → get s.pending_codes code ≡ some row
unfolding confirm_code
pending-confirm s c now paired_at code row h = ground (arith, get-remove s.pending_codes c code)

pending-Issued :
    (ops : List Op) (code : Text) (row : Pending)
    → get (after ops).pending_codes code ≡ some row
    → Issued ops code row
unfolding after issue_code revoke force_pair_owner
pending-Issued [] code row h = cc
pending-Issued (issue ch u hd t n now ∷ ops) code row h =
    elim (Bool-cases (text_beq (format_code n) code)) [
      | inl same ↦ inl (
          ground (
            arith,
            get-put (after ops).pending_codes (format_code n) code (issued_row ch u hd t now),
            text_beq_iff (format_code n) code,
          ))
      | inr other ↦ inr (
          pending-Issued ops code row (
            ground (
              arith,
              get-put (after ops).pending_codes (format_code n) code (issued_row ch u hd t now),
            )))
    ]
pending-Issued (confirm c now paired_at ∷ ops) code row h =
    inr (pending-Issued ops code row (pending-confirm (after ops) c now paired_at code row h))
pending-Issued (revoke_pair ch u ∷ ops) code row h = inr (pending-Issued ops code row (h))
pending-Issued (force_owner ch u hd now ∷ ops) code row h = inr (pending-Issued ops code row (h))

abbrev Confirmed : PairingStore → Text → ℕ → ℕ → String × String → Pairing → Type 0
Confirmed s code now paired_at key row =
    (p : Pending) × (get s.pending_codes code ≡ some p)
    × (now ≤ p.expires_at)
    × (key ≡ (p.channel, p.channel_user_id))
    × (row ≡ pair_row p paired_at)

pairing-confirm :
    (s : PairingStore) (code : Text) (now paired_at : ℕ) (key : String × String) (row : Pairing)
    → get (confirm_code s code now paired_at).0.pairings key ≡ some row
    → (get s.pairings key ≡ some row) ⊎ Confirmed s code now paired_at key row
unfolding confirm_code
pairing-confirm s code now paired_at key row h = elim (Option-cases (get s.pending_codes code)) [
  | inl e ↦ inl (ground arith)
  | inr (p, e) ↦ elim (Bool-cases (ltb p.expires_at now)) [
    | inl late ↦ inl (ground arith)
    | inr timely ↦ elim (Bool-cases (pair_beq (p.channel, p.channel_user_id) key)) [
      | inl same ↦ inr (
        p,
        e,
        ground arith,
        ground (arith, pair_beq_iff (p.channel, p.channel_user_id) key),
        ground
            (arith, get-put s.pairings (p.channel, p.channel_user_id) key (pair_row p paired_at)),
      )
      | inr other ↦ inl (
          ground
            (arith, get-put s.pairings (p.channel, p.channel_user_id) key (pair_row p paired_at)))
    ]
  ]
]

-- Every pairing in the table was granted by a call of the history: by the confirmation, no later
-- than it expired, of a code issued earlier for that channel, user and trust level, or by
-- `force_pair_owner` for that channel and user.
pub pairing-Granted :
    (ops : List Op) (ch u : String) (row : Pairing)
    → get (after ops).pairings (ch, u) ≡ some row
    → Granted ops (ch, u) row
unfolding after issue_code revoke force_pair_owner
pairing-Granted [] ch u row h = cc
pairing-Granted (issue _ _ _ _ _ _ ∷ ops) ch u row h = inr (pairing-Granted ops ch u row (h))
pairing-Granted (confirm code now paired_at ∷ ops) ch u row h =
    elim (pairing-confirm (after ops) code now paired_at (ch, u) row h) [
      | inl old ↦ inr (pairing-Granted ops ch u row old)
      | inr (p, e, timely, k, r) ↦ inl (p, pending-Issued ops code p e, timely, k, r)
    ]
pairing-Granted (revoke_pair c i ∷ ops) ch u row h =
    inr (
      pairing-Granted ops ch u row (ground (arith, get-remove (after ops).pairings (c, i) (ch, u))))
pairing-Granted (force_owner c i hd now ∷ ops) ch u row h =
    elim (Bool-cases (pair_beq (c, i) (ch, u))) [
      | inl same ↦ inl (
        ground (arith, pair_beq_iff (c, i) (ch, u)),
        ground (arith, get-put (after ops).pairings (c, i) (ch, u) (owner_row hd now)),
      )
      | inr other ↦ inr (
          pairing-Granted ops ch u row
            (ground (arith, get-put (after ops).pairings (c, i) (ch, u) (owner_row hd now))))
    ]

confirm-DistinctKeys :
    (s : PairingStore) (code : Text) (now t : ℕ)
    → DistinctKeys s.pairings
    → DistinctKeys (confirm_code s code now t).0.pairings
unfolding confirm_code
confirm-DistinctKeys s code now t h = elim (Option-cases (get s.pending_codes code)) [
  | inl e ↦ rw e h
  | inr (p, e) ↦
      rw e (
        ground (arith, put-DistinctKeys s.pairings (p.channel, p.channel_user_id) (pair_row p t) h))
]

pub after-DistinctKeys : (ops : List Op) → DistinctKeys (after ops).pairings
unfolding after issue_code revoke force_pair_owner
after-DistinctKeys [] = tt
after-DistinctKeys (issue _ _ _ _ _ _ ∷ ops) = after-DistinctKeys ops
after-DistinctKeys (confirm code now t ∷ ops) =
    confirm-DistinctKeys (after ops) code now t (after-DistinctKeys ops)
after-DistinctKeys (revoke_pair c i ∷ ops) =
    remove-DistinctKeys (after ops).pairings (c, i) (after-DistinctKeys ops)
after-DistinctKeys (force_owner c i h now ∷ ops) =
    put-DistinctKeys (after ops).pairings (c, i) _ (after-DistinctKeys ops)

-- Whatever calls were made, the owners that a channel's handlers are given are exactly the users
-- that `classify` calls `owner_paired` on that channel, if its name is not empty.
pub owners_agree :
    (ops : List Op) (ch u : String)
    → ch ≢ ""
    → contains (owner_ids (after ops) ch) u ≡ is_owner (classify (after ops) ch u)
owners_agree ops ch u h = owners-classify (after ops) ch u (after-DistinctKeys ops) h
