-- ===== src/Pairing/Rows.antt =====
-- `owners` and `classify` of glc/security, over one table.
use gateway_glc_v.Common.{
  ◌≡◌, ◌∙◌, sym, beq_ne, ◌≢◌, refl, String, Bool, true, false, List, [], ◌∷◌, Option, none, some,
  map, arith, ◌==◌, String-eq, pair_eq, contains, String-eq,
}
use gateway_glc_v.Common.Dict.{Dict, get, DistinctKeys}
use gateway_glc_v.Pairing.{
  Pairing, PairingStore, TrustLevel, owner_paired, owners_of, owners, classify,
}

-- `[p.channel_user_id for p in pairings.owners(channel=name)]`
abbrev pub owner_ids : PairingStore → String → List String
owner_ids s channel = map (λ r. r.channel_user_id) (owners s (some channel))

abbrev is_owner_row : Option Pairing → Bool
is_owner_row none = false
is_owner_row (some row) = row.trust_level == "owner_paired"

abbrev pub is_owner : TrustLevel → Bool
is_owner owner_paired = true
is_owner _ = false

owners_of-get :
    (d : Dict (String × String) Pairing) (ch u : String)
    → DistinctKeys d
    → (ch == "") ≡ false
    → contains (map (λ r. r.channel_user_id) (owners_of (some ch) d)) u
      ≡ is_owner_row (get d (ch, u))
unfolding owners_of
owners_of-get [] ch u h p = refl
owners_of-get (((c, i), row) ∷ d) ch u h p = ground (
  arith,
  owners_of-get d ch u,
  String-eq.same_iff c ch,
  String-eq.same_iff i u,
  String-eq.same_iff u i,
)

owner-row-classify :
    (s : PairingStore) (ch u : String)
    → is_owner (classify s ch u) ≡ is_owner_row (get s.pairings (ch, u))
unfolding classify
owner-row-classify s ch u = ground arith

-- In a store whose pairings have distinct keys, the owners of a channel with a nonempty name are
-- exactly the users that `classify` calls `owner_paired` there.
pub owners-classify :
    (s : PairingStore) (ch u : String)
    → DistinctKeys s.pairings
    → ch ≢ ""
    → contains (owner_ids s ch) u ≡ is_owner (classify s ch u)
unfolding owners
owners-classify s ch u h p =
    owners_of-get s.pairings ch u h (beq_ne ch "" p) ∙ sym (owner-row-classify s ch u)
