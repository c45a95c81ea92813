-- ===== src/Pairing/Tests.antt =====
-- Runs of the pairing store on concrete inputs.
use gateway_glc_v.Common.{◌≡◌, refl, List, [], ◌∷◌, some, arith, contains, String-eq, pair_eq}
use gateway_glc_v.Common.Dict.{get}
use gateway_glc_v.Common.Text.{codes}
use text.Mathlib.TextEquality.{eq_iff}
use gateway_glc_v.Pairing.{Pairing, classify, owner_paired}
use gateway_glc_v.Pairing.Rows.{owner_ids, is_owner}
use gateway_glc_v.Pairing.Provenance.{
  Op, issue, confirm, force_owner, after, Granted, pairing-Granted, owners_agree,
}

abbrev paired : List Op
paired =
    confirm (codes "000042") 100000000 100000001
    ∷ issue "sms" "bob" "Bob" "owner_paired" 42 5000000
    ∷ force_owner "sms" "ann" "owner" 1000000
    ∷ []

abbrev bob_row : Pairing
bob_row = record { user_handle = "Bob"; trust_level = "owner_paired"; paired_at = 100000001 }

bob_paired : get (after paired).pairings ("sms", "bob") ≡ some bob_row
unfolding after
bob_paired = refl

bob_owner : classify (after paired) "sms" "bob" ≡ owner_paired
unfolding after classify
bob_owner = refl

pairing-Granted_example : Granted paired ("sms", "bob") bob_row
pairing-Granted_example = pairing-Granted paired "sms" "bob" bob_row bob_paired

owners_agree_example :
    contains (owner_ids (after paired) "sms") "bob" ≡ is_owner (classify (after paired) "sms" "bob")
owners_agree_example = owners_agree paired "sms" "bob" (ground (arith, eq_iff "sms" ""))
