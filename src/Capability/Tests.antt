-- ===== src/Capability/Tests.antt =====
-- Tokens under a toy signature, which writes the message in the letters a to f.
use gateway_glc_v.Common.{
  ◌+◌, ◌/◌, ◌%◌, ◌≡◌, refl, false, [], ◌∷◌, map, some, sec, ok, err, arith, All,
}
use gateway_glc_v.Common.Text.{Text, codes, strip}
use gateway_glc_v.Common.Numbers.{ℤ, decimal, parse_int, int_ltb}
use gateway_glc_v.Capability.{body_of, mint, verify, wrong_scope}
use gateway_glc_v.Capability.Tokens.{token_of, IsHex, verify_sound}

abbrev toy : Text → Text → Text
toy key msg = map (λ c. b'a' + c % 6) msg

toy-IsHex : (key msg : Text) → All IsHex (toy key msg)
toy-IsHex key [] = tt
toy-IsHex key (c ∷ msg) = (ground arith, toy-IsHex key msg)

abbrev token : Text
token =
    token_of (codes "groq") (codes "chat") (codes "35") (codes "n1")
      (toy (codes "k") (body_of (codes "groq") (codes "chat") (codes "35") (codes "n1")))

token_minted :
    mint toy (some (codes "k")) (codes "groq") (codes "chat") 30 5000000 (codes "n1") ≡ ok token
unfolding mint decimal
token_minted = refl

token_accepted : verify toy (some (codes "k")) token (codes "groq") (codes "chat") 35999999 ≡ ok tt
unfolding verify parse_int strip
token_accepted = refl

other_provider :
    verify toy (some (codes "k")) token (codes "gemini") (codes "chat") 9000000 ≡ err wrong_scope
unfolding verify parse_int strip
other_provider = refl

verify_sound_example :
    (exp_s : Text) × (nonce : Text) × (exp : ℤ) × (token
      ≡ token_of
          (codes "groq")
          (codes "chat")
          exp_s
          nonce
          (toy (codes "k") (body_of (codes "groq") (codes "chat") exp_s nonce)))
    × (parse_int exp_s ≡ some exp)
    × (int_ltb exp (35999999 / sec) ≡ false)
verify_sound_example =
    verify_sound toy b'k' [] token (codes "groq") (codes "chat") 35999999 token_accepted
