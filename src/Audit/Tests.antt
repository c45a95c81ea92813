-- ===== src/Audit/Tests.antt =====
-- The audit log with a toy hash: the last 64 characters of the text, padded on the right.
use gateway_glc_v.Common.{
  ℕ, zero, suc, ◌≡◌, ◌⊎◌, refl, String, [], ◌∷◌, ◌++◌, none, some, length, arith,
}
use mathlib.Core.List.{reverse}
use gateway_glc_v.Common.Text.{Text, codes}
use gateway_glc_v.Audit.{
  Codec, Event, Payload, Head, AuditDb, absent, text, fresh, append, verify_chain, intact,
  rows_deleted, row_hash_of, walk,
}
use gateway_glc_v.Audit.Chain.{append_all, verify-append_all}
use gateway_glc_v.Audit.Tamper.{SameRows, Collision, verify_chain_binds}

pad : ℕ → Text → Text
pad zero t = []
pad (suc n) [] = b'0' ∷ pad n []
pad (suc n) (c ∷ t) = c ∷ pad n t

length-pad : (n : ℕ) (t : Text) → length (pad n t) ≡ n
unfolding pad
length-pad zero t = refl
length-pad (suc n) [] = omega (arith, length-pad n [])
length-pad (suc n) (c ∷ t) = omega (arith, length-pad n t)

abbrev toy : Codec Text
toy = record {
  sha256 = λ t. pad 64 (reverse t);
  canonical = λ p. codes p.channel_user_id ++ codes p.event_type;
  dumps = λ t. t;
}

abbrev message : String → Event Text
message user = record {
  channel = "sms";
  channel_user_id = user;
  trust_level = "untrusted";
  event_type = "inbound_message";
  session_id = none;
  tool = none;
  policy_verdict = none;
  params = text (codes "hi");
  result = absent;
}

abbrev two_rows : AuditDb
two_rows = append_all toy fresh ((message "ann", 1) ∷ (message "bob", 2) ∷ [])

two_rows_intact : verify_chain toy two_rows ≡ intact
two_rows_intact = verify-append_all toy ((message "ann", 1) ∷ (message "bob", 2) ∷ [])

wiped : verify_chain toy (record two_rows { log = [] }) ≡ rows_deleted 0 2
unfolding verify_chain walk append_all append
wiped = refl

tail_head : Head
unfolding append_all append
tail_head = record {
  last_id = 2;
  last_hash =
      row_hash_of toy
        (row_hash_of toy (codes "0000000000000000000000000000000000000000000000000000000000000000")
          first)
        second;
  count = 2;
}
  where
    first : Payload
    first = record {
      ts = 1;
      session_id = none;
      channel = "sms";
      channel_user_id = "ann";
      trust_level = "untrusted";
      event_type = "inbound_message";
      tool = none;
      policy_verdict = none;
      params_json = some (codes "hi");
      result_json = none;
    }

    second : Payload
    second = record first { ts = 2; channel_user_id = "bob" }

two_rows_head : two_rows.head ≡ some tail_head
unfolding tail_head append_all append
two_rows_head = refl

verify_chain_binds_example : SameRows toy two_rows.log two_rows.log ⊎ Collision toy.sha256
verify_chain_binds_example =
    verify_chain_binds toy (λ t. length-pad 64 (reverse t)) two_rows two_rows tail_head
      two_rows_head two_rows_head two_rows_intact two_rows_intact
