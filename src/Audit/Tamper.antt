-- ===== src/Audit/Tamper.antt =====
-- What the check of the chain excludes.
use gateway_glc_v.Common.{
  ◌≡◌, ◌≢◌, ◌⊎◌, inl, inr, refl, sym, ◌∙◌, List, [], ◌∷◌, ◌++◌, some, length, ℕ-eq, arith,
  append_inj, Bool-cases, eqb_iff,
}
use gateway_glc_v.Common.Text.{Text, text_eq, text_beq, text_beq_iff}
use gateway_glc_v.Audit.{
  Row, Head, AuditDb, Codec, genesis, Fault, intact, Walk, reached, stopped, walk, verify_chain,
  row_hash_of, count_of,
}

Walk-cases : (w : Walk) → ((f : Fault) × (w ≡ stopped f)) ⊎ ((t : Text) × (w ≡ reached t))
Walk-cases (stopped f) = inl (f, refl)
Walk-cases (reached t) = inr (t, refl)

-- Two different texts with one hash.
pub record Collision (hash : Text → Text) : Type 0 where
  pub left : Text
  pub right : Text
  pub differ : left ≢ right
  pub same_hash : hash left ≡ hash right

module _ {D : Type 0} (c : Codec D) where
  -- Row by row the same links and the same content, as it is hashed. The ids are not hashed.
  abbrev pub SameRows : List Row → List Row → Type 0
  SameRows [] [] = Unit
  SameRows [] (_ ∷ _) = ⊥
  SameRows (_ ∷ _) [] = ⊥
  SameRows (r ∷ rows) (s ∷ rows') =
      (r.prev_hash ≡ s.prev_hash)
      × (r.row_hash ≡ s.row_hash)
      × (c.canonical r.payload ≡ c.canonical s.payload)
      × SameRows rows rows'

  walk-step :
      (prev last : Text) (r : Row) (rows : List Row)
      → walk c prev (r ∷ rows) ≡ reached last
      → (r.prev_hash ≡ prev)
        × (r.row_hash ≡ row_hash_of c prev r.payload)
        × (walk c r.row_hash rows ≡ reached last)
  unfolding walk
  walk-step prev last r rows h = ground (
    arith,
    text_eq.same_iff r.prev_hash prev,
    text_eq.same_iff r.row_hash (row_hash_of c prev r.payload),
  )

  module _ (sixty_four : (t : Text) → length (c.sha256 t) ≡ 64) where
    same_hash_same_row :
        (p q : Text) (r s : Row)
        → length p ≡ 64
        → length q ≡ 64
        → row_hash_of c p r.payload ≡ row_hash_of c q s.payload
        → ((p ≡ q) × (c.canonical r.payload ≡ c.canonical s.payload)) ⊎ Collision c.sha256
    unfolding row_hash_of
    same_hash_same_row p q r s lp lq e =
        let a = p ++ c.canonical r.payload in
        let b = q ++ c.canonical s.payload in
        elim (Bool-cases (text_beq a b)) [
          | inl same ↦ inl (append_inj p q _ _ (lp ∙ sym lq) ((text_beq_iff a b).0 same))
          | inr other ↦ inr (record {
            left = a;
            right = b;
            differ = λ h. ground (arith, text_beq_iff a b);
            same_hash = e;
          })
        ]

    walk-same :
        (p q last : Text) (rows rows' : List Row)
        → length p ≡ 64
        → length q ≡ 64
        → length rows ≡ length rows'
        → walk c p rows ≡ reached last
        → walk c q rows' ≡ reached last
        → ((p ≡ q) × SameRows rows rows') ⊎ Collision c.sha256
    walk-same p q last [] [] lp lq n h k = inl (unfold walk in cc, tt)
    walk-same p q last [] (s ∷ rows') lp lq n h k = absurd (omega arith)
    walk-same p q last (r ∷ rows) [] lp lq n h k = absurd (omega arith)
    walk-same p q last (r ∷ rows) (s ∷ rows') lp lq n h k =
        let (hp, hr, hw) = walk-step p last r rows h in
        let (kq, ks, kw) = walk-step q last s rows' k in
        elim (walk-same r.row_hash s.row_hash last rows rows'
          (rw hr (unfold row_hash_of in sixty_four _)) (rw ks (unfold row_hash_of in sixty_four _))
          (omega arith) hw kw) [
            | inr collision ↦ inr collision
            | inl (e, rest) ↦ elim (same_hash_same_row p q r s lp lq (sym hr ∙ e ∙ ks)) [
              | inr collision ↦ inr collision
              | inl (pq, content) ↦ inl (pq, (hp ∙ pq ∙ sym kq, e, content, rest))
            ]
          ]

    intact-parts :
        (db : AuditDb) (h : Head)
        → db.head ≡ some h
        → verify_chain c db ≡ intact
        → (length db.log ≡ h.count) × (walk c genesis db.log ≡ reached h.last_hash)
    unfolding verify_chain
    intact-parts db h e v = elim (Walk-cases (walk c genesis db.log)) [
      | inl (why, w) ↦ ground (arith, eqb_iff (length db.log) (count_of db.head))
      | inr (t, w) ↦
          ground (arith, eqb_iff (length db.log) (count_of db.head), text_beq_iff t h.last_hash)
    ]

    -- Where the hash is 64 characters long: two logs that both pass the check against one head have
    -- the same links and, row by row, the same hashed content, or they show two different texts
    -- with one hash. So a log that was edited, cut or reordered behind an untouched head passes only
    -- with a collision at hand.
    pub verify_chain_binds :
        (db db' : AuditDb) (h : Head)
        → db.head ≡ some h
        → db'.head ≡ some h
        → verify_chain c db ≡ intact
        → verify_chain c db' ≡ intact
        → SameRows db.log db'.log ⊎ Collision c.sha256
    verify_chain_binds db db' h e e' v v' =
        let (n, w) = intact-parts db h e v in
        let (n', w') = intact-parts db' h e' v' in
        elim (walk-same genesis genesis h.last_hash db.log db'.log refl refl (n ∙ sym n') w w') [
          | inl (_, same) ↦ inl same
          | inr collision ↦ inr collision
        ]
