-- ===== src/Adapters/TwilioSms/Artifacts/Kept.antt =====
-- The artifact store of Twilio SMS, glc/channels/catalogue/twilio_sms/artifacts.py, over sequences
-- of its operations.
use gateway_glc_v.Common.{
  ℕ, ◌+◌, ◌≡◌, refl, sym, ◌∙◌, ap, true, List, [], ◌∷◌, ◌++◌, Option, none, some, if_both, eqb_iff,
  is_some, All, Option-cases, Bool-cases, inl, inr, arith, beq_refl, ltb,
}
use gateway_glc_v.Common.Text.{Text, text_eq, starts_with, after_prefix}
use gateway_glc_v.Common.Dict.{get, get-put, get-All, put-All, remove-All}
use gateway_glc_v.Adapters.TwilioSms.Artifacts.{
  Artifact, Store, prefix, is_sha16, validate_ref, bytes_at, get_bytes, removed_at, remove_ref,
  cleanup_session, max_age, cleanup_expired, put_blob,
}

starts-append : (p s : Text) → (starts_with (p ++ s) p ≡ true) × (after_prefix (p ++ s) p ≡ s)
starts-append [] s = (refl, refl)
starts-append (c ∷ p) s =
    let (front, rest) = starts-append p s in (ground (arith, eqb_iff c c, front), rest)

append-after_prefix : (p s : Text) → starts_with s p ≡ true → s ≡ p ++ after_prefix s p
append-after_prefix [] s h = refl
append-after_prefix (c ∷ p) [] h = cc
append-after_prefix (c ∷ p) (d ∷ s) h =
    let rest = append-after_prefix p s (ground arith) in
    let same : d ≡ c = ground (arith, eqb_iff d c) in cc (rest, same)

-- A reference that is read as a name is that name behind the prefix, 16 hexadecimal digits.
validate_ref_sound :
    (ref sha : Text) → validate_ref ref ≡ some sha → (ref ≡ prefix ++ sha) × (is_sha16 sha ≡ true)
unfolding validate_ref
validate_ref_sound ref sha h = elim (Bool-cases (starts_with ref prefix)) [
  | inr other ↦ absurd (ground (arith, other, h))
  | inl begins ↦ (elim (Bool-cases (is_sha16 (after_prefix ref prefix))) [
    | inr other ↦ absurd (ground (arith, begins, other, h))
    | inl fits ↦
        let same : after_prefix ref prefix ≡ sha = ground (arith, begins, fits, h) in
        (append-after_prefix prefix ref begins ∙ ap (λ s. prefix ++ s) same, rw (← same) fits)
  ])
]

validate_ref_complete : (sha : Text) → is_sha16 sha ≡ true → validate_ref (prefix ++ sha) ≡ some sha
unfolding validate_ref
validate_ref_complete sha fits = let (begins, rest) = starts-append prefix sha in rw (fits) refl

pub data Op : Type 0 where
  puts : List ℕ → Text → ℕ → Op
  removes : Text → Op
  ends_session : List Text → Op
  expires : ℕ → Op

module _ (sha16 : List ℕ → Text) where
  abbrev apply : Store → Op → Store
  apply s (puts blob content_type now) = (put_blob sha16 s blob content_type now).0
  apply s (removes ref) = (remove_ref s ref).0
  apply s (ends_session refs) = (cleanup_session s refs).0
  apply s (expires now) = (cleanup_expired s now).0

  -- The store after a sequence of operations, the last one first.
  abbrev pub after : List Op → Store
  after [] = []
  after (op ∷ ops) = apply (after ops) op

  -- The name of each artifact is the hash of its bytes.
  abbrev IsNamed : Text × Artifact → Type 0
  IsNamed (sha, a) = sha16 a.bytes ≡ sha

  remove_ref-IsNamed : (s : Store) (ref : Text) → All IsNamed s → All IsNamed ((remove_ref s ref).0)
  unfolding remove_ref
  remove_ref-IsNamed s ref h = by_name (validate_ref ref)
    where
      by_name : (o : Option Text) → All IsNamed ((removed_at s o).0)
      by_name none = h
      by_name (some sha) = remove-All IsNamed s sha h

  cleanup_session-IsNamed :
      (s : Store) (refs : List Text) → All IsNamed s → All IsNamed ((cleanup_session s refs).0)
  unfolding cleanup_session
  cleanup_session-IsNamed s [] h = h
  cleanup_session-IsNamed s (ref ∷ refs) h =
      cleanup_session-IsNamed ((remove_ref s ref).0) refs (remove_ref-IsNamed s ref h)

  cleanup_expired-IsNamed :
      (s : Store) (now : ℕ) → All IsNamed s → All IsNamed ((cleanup_expired s now).0)
  unfolding cleanup_expired
  cleanup_expired-IsNamed [] now h = tt
  cleanup_expired-IsNamed ((sha, a) ∷ s) now h =
      if_both (λ (x : Store × ℕ). All IsNamed (x.0)) (ltb (a.created_at + max_age) now) _ _
        (cleanup_expired-IsNamed s now h.1) (h.0, cleanup_expired-IsNamed s now h.1)

  put_blob-IsNamed :
      (s : Store) (blob : List ℕ) (content_type : Text) (now : ℕ)
      → All IsNamed s
      → All IsNamed ((put_blob sha16 s blob content_type now).0)
  unfolding put_blob
  put_blob-IsNamed s blob content_type now h =
      if_both (All IsNamed) (is_some (get s (sha16 blob))) _ _ h
        (put-All IsNamed s (sha16 blob) _ h refl)

  after-IsNamed : (ops : List Op) → All IsNamed (after ops)
  after-IsNamed [] = tt
  after-IsNamed (puts blob content_type now ∷ ops) =
      put_blob-IsNamed (after ops) blob content_type now (after-IsNamed ops)
  after-IsNamed (removes ref ∷ ops) = remove_ref-IsNamed (after ops) ref (after-IsNamed ops)
  after-IsNamed (ends_session refs ∷ ops) =
      cleanup_session-IsNamed (after ops) refs (after-IsNamed ops)
  after-IsNamed (expires now ∷ ops) = cleanup_expired-IsNamed (after ops) now (after-IsNamed ops)

  bytes_named :
      (s : Store) (o : Option Text) (b : List ℕ)
      → All IsNamed s
      → bytes_at s o ≡ some b
      → o ≡ some (sha16 b)
  bytes_named s none b h found = cc
  bytes_named s (some sha) b h found = elim (Option-cases (get s sha)) [
    | inl missing ↦ absurd (ground (arith, missing, found))
    | inr (a, here) ↦
        let same : a.bytes ≡ b = ground (arith, here, found) in
        let named = get-All IsNamed s sha a h here in ap some (sym named ∙ ap sha16 same)
  ]

  -- After any sequence of operations on an empty store, whatever reference is asked for, the bytes
  -- that `get_bytes` returns have as the first 16 digits of their hash just what follows "art:" in
  -- the reference, and that is 16 hexadecimal digits.
  pub get_bytes_named :
      (ops : List Op) (ref : Text) (b : List ℕ)
      → get_bytes (after ops) ref ≡ some b
      → (ref ≡ prefix ++ sha16 b) × (is_sha16 (sha16 b) ≡ true)
  unfolding get_bytes
  get_bytes_named ops ref b found =
      validate_ref_sound ref (sha16 b)
        (bytes_named (after ops) (validate_ref ref) b (after-IsNamed ops) found)

  stored :
      (s : Store) (blob : List ℕ) (content_type : Text) (now : ℕ)
      → (a : Artifact) × (get ((put_blob sha16 s blob content_type now).0) (sha16 blob) ≡ some a)
  unfolding put_blob
  stored s blob content_type now = elim (Option-cases (get s (sha16 blob))) [
    | inr (a, here) ↦ (a, rw (here, put_blob) here)
    | inl missing ↦
        let a : Artifact = record { bytes = blob; content_type = content_type; created_at = now } in
        (
          a,
          rw (missing, put_blob)
              (get-put s (sha16 blob) (sha16 blob) a ∙ rw (beq_refl (sha16 blob)) refl),
        )
  ]

  -- Where the hash gives 16 hexadecimal digits, the reference that `put` returns after any sequence
  -- of operations reads back bytes of the same hash.
  pub get_bytes-put_blob :
      (ops : List Op) (blob : List ℕ) (content_type : Text) (now : ℕ)
      → is_sha16 (sha16 blob) ≡ true
      → let (s, ref) = put_blob sha16 (after ops) blob content_type now in
        (b : List ℕ) × (get_bytes s ref ≡ some b) × (sha16 b ≡ sha16 blob)
  unfolding get_bytes put_blob validate_ref
  get_bytes-put_blob ops blob content_type now fits =
      let (a, here) = stored (after ops) blob content_type now in
      let kept = put_blob-IsNamed (after ops) blob content_type now (after-IsNamed ops) in
      (
        a.bytes,
        ap (bytes_at ((put_blob sha16 (after ops) blob content_type now).0))
              (validate_ref_complete (sha16 blob) fits)
            ∙ (rw (here, bytes_at) refl),
        get-All IsNamed _ (sha16 blob) a kept here,
      )
