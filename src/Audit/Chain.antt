-- ===== src/Audit/Chain.antt =====
-- glc/audit/store.py: `append`, and the check of what it has written.
use gateway_glc_v.Common.{
  ℕ, ◌≡◌, refl, ◌∙◌, List, [], ◌∷◌, ◌++◌, length, length-append, ℕ-eq, beq_refl, arith,
}
use gateway_glc_v.Common.Text.{Text, text_eq}
use gateway_glc_v.Audit.{
  Row, AuditDb, Event, Codec, fresh, genesis, intact, reached, walk, verify_chain, append,
  row_hash_of, count_of, last_hash_of,
}

module _ {D : Type 0} (c : Codec D) where
  -- Calls of `append` on a fresh store, each with the time that it reads.
  unfoldable pub append_all : AuditDb → List (Event D × ℕ) → AuditDb
  append_all db [] = db
  append_all db ((e, now) ∷ es) = append_all (append c db e now).0 es

  -- What is kept between two calls.
  pub record IsIntact (db : AuditDb) : Type 0 where
    pub counted : length db.log ≡ count_of db.head
    pub walks : walk c genesis db.log ≡ reached (last_hash_of db.head)

  walk-snoc :
      (prev last : Text) (rows : List Row) (r : Row)
      → walk c prev rows ≡ reached last
      → r.prev_hash ≡ last
      → r.row_hash ≡ row_hash_of c last r.payload
      → walk c prev (rows ++ r ∷ []) ≡ reached r.row_hash
  unfolding walk
  walk-snoc prev last [] r h p q = ground (
    arith,
    text_eq.same_iff r.prev_hash prev,
    text_eq.same_iff r.row_hash (row_hash_of c prev r.payload),
  )
  walk-snoc prev last (x ∷ rows) r h p q = ground (arith, walk-snoc x.row_hash last rows r)

  pub append-IsIntact :
      (db : AuditDb) (e : Event D) (now : ℕ) → IsIntact db → IsIntact (append c db e now).0
  unfolding append
  append-IsIntact db e now h = record {
    counted = length-append db.log _ ∙ omega (arith, h.counted);
    walks = walk-snoc genesis (last_hash_of db.head) db.log _ h.walks refl refl;
  }

  append_all-IsIntact :
      (db : AuditDb) (es : List (Event D × ℕ)) → IsIntact db → IsIntact (append_all db es)
  unfolding append_all
  append_all-IsIntact db [] h = h
  append_all-IsIntact db ((e, now) ∷ es) h =
      append_all-IsIntact (append c db e now).0 es (append-IsIntact db e now h)

  pub verify-IsIntact : (db : AuditDb) → IsIntact db → verify_chain c db ≡ intact
  unfolding verify_chain
  verify-IsIntact db h = rw (h.walks, h.counted) (ground (arith, beq_refl (last_hash_of db.head)))

  pub fresh-IsIntact : IsIntact fresh
  fresh-IsIntact = record { counted = refl; walks = unfold walk in refl }

  -- After any calls of `append` on a fresh store the chain is intact.
  pub verify-append_all : (es : List (Event D × ℕ)) → verify_chain c (append_all fresh es) ≡ intact
  verify-append_all es =
      verify-IsIntact (append_all fresh es) (append_all-IsIntact fresh es fresh-IsIntact)
