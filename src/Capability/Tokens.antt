-- ===== src/Capability/Tokens.antt =====
-- What a token that is accepted says, and the life of one that was minted.
use mathlib.Core.List.{append_assoc}
use gateway_glc_v.Common.{
  ℕ, ◌+◌, ◌/◌, ◌≡◌, ◌≢◌, ◌⊎◌, ◌∙◌, sym, ap, refl, true, false, ◌&&◌, ◌||◌, List, [], ◌∷◌, ◌++◌,
  Option, none, some, if◌then◌else◌, sec, ltb, leb, ok, err, ◌>>=◌, arith, All, inl, inr, beq_refl,
}
use gateway_glc_v.Common.Text.{
  Text, text_beq, text_eq, text_beq_iff, join, split, join-split, split-join_cons, split-Without,
  Without,
}
use gateway_glc_v.Common.Numbers.{decimal, ℤ, parse_int, int_ltb}
use gateway_glc_v.Common.Numbers.RoundTrip.{IsDigit, decimal-All, parse_int-decimal}
use gateway_glc_v.Capability.{
  no_sign_key, token_expired, wrong_scope, bar, is_ascii, body_of, sign, mint, compare_digest,
  expiry_check, verify_parts, verify_split, verify,
}

abbrev pub token_of : Text → Text → Text → Text → Text → Text
token_of a b c d e = body_of a b c d ++ (bar ∷ e)

token-join : (a b c d e : Text) → token_of a b c d e ≡ join bar (a ∷ b ∷ c ∷ d ∷ e ∷ [])
token-join a b c d e = simp append_assoc

split-token :
    (a b c d e : Text)
    → Without bar a
    → Without bar b
    → Without bar c
    → Without bar d
    → Without bar e
    → split bar (token_of a b c d e) ≡ a ∷ b ∷ c ∷ d ∷ e ∷ []
split-token a b c d e ha hb hc hd he = rw (
  token-join a b c d e,
  split-join_cons bar a _ ha,
  split-join_cons bar b _ hb,
  split-join_cons bar c _ hc,
  split-join_cons bar d _ hd,
  split-Without bar e he,
)

digits_no_bar : (s : Text) → All IsDigit s → Without bar s
digits_no_bar [] h = tt
digits_no_bar (c ∷ s) h = (ground arith, digits_no_bar s h.1)

-- A lower-case hexadecimal digit.
abbrev pub IsHex : ℕ → Type 0
IsHex c = ((leb b'0' c && leb c b'9') || (leb b'a' c && leb c b'f')) ≡ true

hex_no_bar : (s : Text) → All IsHex s → Without bar s
hex_no_bar [] h = tt
hex_no_bar (c ∷ s) h = (ground arith, hex_no_bar s h.1)

hex_ascii : (s : Text) → All IsHex s → is_ascii s ≡ true
hex_ascii [] h = refl
hex_ascii (c ∷ s) h = ground (arith, hex_ascii s h.1)

module _ (hmac : Text → Text → Text) where
  parts_of_split :
      (key : Option Text) (provider purpose : Text) (now : ℕ) (parts : List Text)
      → verify_split hmac key provider purpose now parts ≡ ok tt
      → (a : Text) × (b : Text) × (c : Text) × (d : Text) × (e : Text) × (parts
          ≡ a ∷ b ∷ c ∷ d ∷ e ∷ [])
        × (verify_parts hmac key provider purpose now a b c d e ≡ ok tt)
  unfolding verify_split
  parts_of_split key provider purpose now (a ∷ b ∷ c ∷ d ∷ e ∷ []) h = (a, b, c, d, e, refl, h)
  parts_of_split key provider purpose now _ h = cc

  sound_parts :
      (k : ℕ) (key : Text) (provider purpose : Text) (now : ℕ) (a b c d e : Text)
      → verify_parts hmac (some (k ∷ key)) provider purpose now a b c d e ≡ ok tt
      → (a ≡ provider)
        × (b ≡ purpose)
        × (e ≡ hmac (k ∷ key) (body_of a b c d))
        × (expiry_check hmac (parse_int c) now ≡ ok tt)
  unfolding verify_parts sign compare_digest
  sound_parts k key provider purpose now a b c d e h = ground (
    arith,
    text_beq_iff a provider,
    text_beq_iff b purpose,
    text_beq_iff e (hmac (k ∷ key) (body_of a b c d)),
  )

  expiry_parts :
      (o : Option ℤ) (now : ℕ)
      → expiry_check hmac o now ≡ ok tt
      → (exp : ℤ) × (o ≡ some exp) × (int_ltb exp (now / sec) ≡ false)
  expiry_parts none now h = cc
  expiry_parts (some exp) now h = (exp, refl, ground arith)

  -- A token that `verify` accepts for a provider and a purpose is made of that provider, that
  -- purpose, an expiry that is a number and has not passed, a nonce, and the signature of these
  -- four under the key.
  pub verify_sound :
      (k : ℕ) (key token provider purpose : Text) (now : ℕ)
      → verify hmac (some (k ∷ key)) token provider purpose now ≡ ok tt
      → (exp_s : Text) × (nonce : Text) × (exp : ℤ) × (token
          ≡ token_of provider purpose exp_s nonce
              (hmac (k ∷ key) (body_of provider purpose exp_s nonce)))
        × (parse_int exp_s ≡ some exp)
        × (int_ltb exp (now / sec) ≡ false)
  unfolding verify
  verify_sound k key token provider purpose now h =
      let (a, b, c, d, e, parts, v) =
        parts_of_split (some (k ∷ key)) provider purpose now (split bar token) h in
      let (pa, pb, pe, px) = sound_parts k key provider purpose now a b c d e v in
      let (exp, read, live) = expiry_parts (parse_int c) now px in
      (
        c,
        d,
        exp,
        sym (join-split bar token)
            ∙ ap (join bar) parts
            ∙ sym (token-join a b c d e)
            ∙ (rw (pe, pa, pb)),
        read,
        live,
      )

  no_parts :
      (key : Option Text) (provider purpose : Text) (now : ℕ) (parts : List Text)
      → (key ≡ none) ⊎ (key ≡ some [])
      → verify_split hmac key provider purpose now parts ≢ ok tt
  unfolding verify_split verify_parts sign
  no_parts none provider purpose now (a ∷ b ∷ c ∷ d ∷ e ∷ []) h v = cc
  no_parts (some []) provider purpose now (a ∷ b ∷ c ∷ d ∷ e ∷ []) h v = cc
  no_parts (some (k ∷ key)) provider purpose now (a ∷ b ∷ c ∷ d ∷ e ∷ []) h v = ground arith
  no_parts _ provider purpose now _ h v = cc

  -- Without a signing key, or with an empty one, nothing is minted and no token is accepted.
  pub no_key_fails_closed :
      (key : Option Text) (token provider purpose nonce : Text) (ttl now : ℕ)
      → (key ≡ none) ⊎ (key ≡ some [])
      → (mint hmac key provider purpose ttl now nonce ≡ err no_sign_key)
        × (verify hmac key token provider purpose now ≢ ok tt)
  unfolding mint verify sign
  no_key_fails_closed none token provider purpose nonce ttl now h =
      (refl, λ v. no_parts none provider purpose now (split bar token) (inl refl) v)
  no_key_fails_closed (some []) token provider purpose nonce ttl now h =
      (refl, λ v. no_parts (some []) provider purpose now (split bar token) (inr refl) v)
  no_key_fails_closed (some (k ∷ key)) token provider purpose nonce ttl now h = ground arith

  module _ (hex : (key msg : Text) → All IsHex (hmac key msg)) where
    parts_of_mint :
        (k : ℕ) (key provider purpose nonce q v : Text) (exp now : ℕ)
        → verify_parts hmac
            (some (k ∷ key))
            q
            v
            now
            provider
            purpose
            (decimal exp)
            nonce
            (hmac (k ∷ key) (body_of provider purpose (decimal exp) nonce))
          ≡ (if text_beq provider q && text_beq purpose v
              then (if ltb exp (now / sec) then err token_expired else ok tt)
              else err wrong_scope)
    unfolding verify_parts sign compare_digest
    parts_of_mint k key provider purpose nonce q v exp now =
        let sig = hmac (k ∷ key) (body_of provider purpose (decimal exp) nonce) in
        ground (
          arith,
          hex_ascii sig (hex (k ∷ key) (body_of provider purpose (decimal exp) nonce)),
          text_beq_iff sig sig,
          parse_int-decimal exp,
        )

    -- Where the signature is hexadecimal and neither the provider, the purpose nor the nonce has a
    -- bar, a token is minted that is refused for the scope unless it is presented for that provider
    -- and that purpose, and is then accepted until its lifetime, counted in whole seconds, is over,
    -- and refused as expired later.
    pub minted_scope :
        (k : ℕ) (key provider purpose nonce : Text) (ttl now : ℕ)
        → Without bar provider
        → Without bar purpose
        → Without bar nonce
        → (token : Text) × (mint hmac (some (k ∷ key)) provider purpose ttl now nonce ≡ ok token)
          × ((q v : Text) (later : ℕ)
              → verify hmac (some (k ∷ key)) token q v later ≡ (
                  if text_beq provider q && text_beq purpose v
                  then (if ltb (now / sec + ttl) (later / sec) then err token_expired else ok tt)
                  else err wrong_scope))
    unfolding mint verify verify_split sign
    minted_scope k key provider purpose nonce ttl now hp hu hn =
        let exp = now / sec + ttl in
        let body = body_of provider purpose (decimal exp) nonce in
        (
          token_of provider purpose (decimal exp) nonce (hmac (k ∷ key) body),
          refl,
          λ q v later.
              rw
                (split-token provider purpose (decimal exp) nonce (hmac (k ∷ key) body) hp hu
                  (digits_no_bar (decimal exp) (decimal-All exp)) hn
                  (hex_no_bar (hmac (k ∷ key) body) (hex (k ∷ key) body)))
                (parts_of_mint k key provider purpose nonce q v exp later),
        )

    -- Where the signature is hexadecimal and neither the provider, the purpose nor the nonce has a
    -- bar, a minted token is accepted for its provider and purpose until its lifetime, counted in
    -- whole seconds, is over, and is then refused as expired.
    pub verify-mint :
        (k : ℕ) (key provider purpose nonce : Text) (ttl now later : ℕ)
        → Without bar provider
        → Without bar purpose
        → Without bar nonce
        → ((mint hmac (some (k ∷ key)) provider purpose ttl now nonce) >>= λ token.
            verify hmac (some (k ∷ key)) token provider purpose later)
          ≡ (if ltb (now / sec + ttl) (later / sec) then err token_expired else ok tt)
    verify-mint k key provider purpose nonce ttl now later hp hu hn =
        let (token, made, scope) = minted_scope k key provider purpose nonce ttl now hp hu hn in
        rw (made, scope provider purpose later, beq_refl provider, beq_refl purpose) refl
