-- ===== src/Capability.antt =====
-- glc/security/capabilities.py: short-lived tokens for one provider and one purpose.
-- HMAC-SHA256 (as a hexadecimal text) is an argument, and so are the environment's signing key, the
-- clock and the random nonce. The lifetime is not negsuc.
pub mod Tokens
mod Tests
use gateway_glc_v.Common.{
  ℕ, ◌+◌, ◌/◌, ◌≡◌, Bool, true, false, not, ◌&&◌, ◌||◌, List, [], ◌∷◌, ◌++◌, Option, none, some,
  if◌then◌else◌, sec, ltb, leb, Result, ok, err, ◌>>=◌, guard, ◌>>◌,
}
use gateway_glc_v.Common.Text.{Text, codes, text_beq, join, split}
use gateway_glc_v.Common.Numbers.{decimal, ℤ, parse_int, int_ltb}

-- What `mint` and `verify` raise: the messages of `CapabilityError`, and the `TypeError` of
-- `hmac.compare_digest` for a text that is not ASCII.
pub data CapabilityError : Type 0 where
  no_sign_key : CapabilityError
  malformed_token : CapabilityError
  not_ascii : CapabilityError
  bad_signature : CapabilityError
  wrong_scope : CapabilityError
  malformed_expiry : CapabilityError
  token_expired : CapabilityError

abbrev pub bar : ℕ
bar = b'|'

abbrev is_ascii : Text → Bool
is_ascii [] = true
is_ascii (c ∷ s) = leb c 127 && is_ascii s

abbrev pub body_of : Text → Text → Text → Text → Text
body_of provider purpose exp nonce = provider ++ (bar ∷ purpose ++ (bar ∷ exp ++ (bar ∷ nonce)))

-- `hmac key message`
module _ (hmac : Text → Text → Text) where
  -- `_sign_key` and `_sign`; an empty key counts as unset
  sign : Option Text → Text → Result CapabilityError Text
  sign none msg = err no_sign_key
  sign (some []) msg = err no_sign_key
  sign (some (k ∷ key)) msg = ok (hmac (k ∷ key) msg)

  unfoldable pub mint : Option Text → Text → Text → ℕ → ℕ → Text → Result CapabilityError Text
  unfolding sign
  mint key provider purpose ttl now nonce =
      let exp = now / sec + ttl in
      let body = body_of provider purpose (decimal exp) nonce in
      do sig ← sign key body; ok (body ++ (bar ∷ sig))

  -- `hmac.compare_digest(sig, expected)` of two texts
  compare_digest : Text → Text → Result CapabilityError Bool
  compare_digest sig expected =
      if is_ascii sig && is_ascii expected then ok (text_beq sig expected) else err not_ascii

  abbrev expiry_check : Option ℤ → ℕ → Result CapabilityError (Unit {0})
  expiry_check none now = err malformed_expiry
  expiry_check (some exp) now = if int_ltb exp (now / sec) then err token_expired else ok tt

  -- `verify`, once the token has five parts
  verify_parts :
      Option Text
      → Text
      → Text
      → ℕ
      → Text
      → Text
      → Text
      → Text
      → Text
      → Result CapabilityError (Unit {0})
  unfolding sign compare_digest
  verify_parts key provider purpose now tok_provider tok_purpose exp_s nonce sig = do
    expected ← sign key (body_of tok_provider tok_purpose exp_s nonce)
    same ← compare_digest sig expected
    guard same bad_signature
    guard (text_beq tok_provider provider && text_beq tok_purpose purpose) wrong_scope
    expiry_check (parse_int exp_s) now

  verify_split : Option Text → Text → Text → ℕ → List Text → Result CapabilityError (Unit {0})
  verify_split key provider purpose now (a ∷ b ∷ c ∷ d ∷ e ∷ []) =
      verify_parts key provider purpose now a b c d e
  verify_split key provider purpose now _ = err malformed_token

  unfoldable pub verify : Option Text → Text → Text → Text → ℕ → Result CapabilityError (Unit {0})
  unfolding verify_split verify_parts
  verify key token provider purpose now = verify_split key provider purpose now (split bar token)
