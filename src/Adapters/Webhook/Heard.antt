-- ===== src/Adapters/Webhook/Heard.antt =====
-- glc/channels/catalogue/webhook/adapter.py: what becomes of a request that a sender signs.
use gateway_glc_v.Common.{
  ℕ, ◌*◌, ◌+◌, ◌≤◌, ◌≡◌, refl, Bool, true, false, List, [], ◌∷◌, ◌++◌, some, sec, eqb_iff, ap, ◌∙◌,
  length, ok, arith, All,
}
use gateway_glc_v.Common.Text.{
  Text, codes, text_beq_iff, text_eq, split-join_cons, split-Without, Without, strip, text_beq,
  lower,
}
use gateway_glc_v.Common.Numbers.{decimal, parse_int, pos}
use gateway_glc_v.Common.Numbers.RoundTrip.{IsDigit, decimal-All, parse_int-decimal}
use gateway_glc_v.Common.Dict.{Dict, get}
use gateway_glc_v.Capability.Tokens.{IsHex}
use gateway_glc_v.Adapters.{Security, Config}
use gateway_glc_v.Adapters.Webhook.{
  Python, request, cut, read_fields, fields, nonempty, isdigit, all_digits, is_ascii, replay_window,
  stale, overflows, signed_text, header, verify_header, compare_digest, verify_fields, header_name,
  verify, accepted, on_message,
}

cut_lem : (sep : ℕ) (k v : Text) → Without sep k → cut sep (k ++ (sep ∷ v)) ≡ some (k, v)
cut_lem sep [] v h = ground (arith, eqb_iff sep sep)
cut_lem sep (c ∷ k) v h = rw (h.0, cut_lem sep k v h.1) refl

-- The headers are read past those of other names.
header-past :
    (name value : Text) (before after : Dict Text Text)
    → lower name ≡ header_name
    → All (λ h. text_beq (lower h.0) header_name ≡ false) before
    → header (before ++ ((name, value) ∷ after)) header_name ≡ some value
header-past name value [] after same others = rw same refl
header-past name value (h ∷ before) after same others =
    rw (others.0) (header-past name value before after same others.1)

-- The header that a sender makes: `t=<seconds>,v1=<signature>`.
abbrev pub signature_header : ℕ → Text → Text
signature_header n signature = (codes "t=" ++ decimal n) ++ (b',' ∷ codes "v1=" ++ signature)

digits_plain : (s : Text) → All IsDigit s → Without b',' s
digits_plain [] h = tt
digits_plain (c ∷ s) h = (ground arith, digits_plain s h.1)

fields-signature_header :
    (n : ℕ) (signature : Text)
    → Without b',' signature
    → fields (signature_header n signature) ≡ (codes "t", decimal n) ∷ (codes "v1", signature) ∷ []
fields-signature_header n signature plain = ap (read_fields []) (
    split-join_cons b',' (codes "t=" ++ decimal n) (codes "v1=" ++ signature)
      (refl, (refl, digits_plain (decimal n) (decimal-All n)))
    ∙ ap (λ rest. (codes "t=" ++ decimal n) ∷ rest)
        (split-Without b',' (codes "v1=" ++ signature) (refl, (refl, (refl, plain)))))

hex_plain : (s : Text) → All IsHex s → Without b',' s × (is_ascii s ≡ true)
hex_plain [] h = (tt, refl)
hex_plain (c ∷ s) h =
    let (plain, ascii) = hex_plain s h.1 in ((ground arith, plain), ground (arith, ascii, h.0))

nonempty_long : (s : Text) → length s ≡ 64 → nonempty (some s) ≡ some s
nonempty_long [] h = absurd (omega (arith, h))
nonempty_long (c ∷ s) h = refl

isdigit-All :
    (digit : ℕ → Bool)
    → ((c : ℕ) → IsDigit c → digit c ≡ true)
    → (s : Text) → All IsDigit s
    → all_digits digit s ≡ true
isdigit-All digit same [] h = refl
isdigit-All digit same (c ∷ s) h = rw (same c h.0, isdigit-All digit same s h.1) refl

isdigit-parsed :
    (digit : ℕ → Bool)
    → ((c : ℕ) → IsDigit c → digit c ≡ true)
    → (n : ℕ) (s : Text) → parse_int s ≡ some (pos n)
    → All IsDigit s
    → (isdigit digit s ≡ true) × (nonempty (some s) ≡ some s)
unfolding parse_int strip
isdigit-parsed digit same n [] read all = cc
isdigit-parsed digit same n (c ∷ s) read all = (isdigit-All digit same (c ∷ s) all, refl)

module _ (py : Python) (digits : (c : ℕ) → IsDigit c → py.is_digit c ≡ true)
    (hexadecimal : (key msg : Text)
      → All IsHex (py.hmac key msg) × (length (py.hmac key msg) ≡ 64)) where
  fresh :
      (now n : ℕ)
      → now ≤ n * sec + replay_window
      → n * sec ≤ now + replay_window
      → stale now n ≡ false
  fresh now n late early = ground arith

  compare_self : (s : Text) → is_ascii s ≡ true → compare_digest s s ≡ ok true
  compare_self s ascii = ground (arith, ascii, text_beq_iff s s)

  signed_request_verified :
      (k : ℕ) (key : Text) (body : List ℕ) (n now : ℕ) (name : Text) (before after : Dict Text Text)
      → lower name ≡ header_name
      → All (λ h. text_beq (lower h.0) header_name ≡ false) before
      → py.int (decimal n) ≡ some n
      → overflows n ≡ false
      → now ≤ n * sec + replay_window
      → n * sec ≤ now + replay_window
      → verify py
          (some (k ∷ key))
          body
          (before
            ++ ((name, signature_header n (py.hmac (k ∷ key) (signed_text py (decimal n) body)))
                ∷ after))
          now
        ≡ ok true
  unfolding verify
  signed_request_verified k key body n now name before after same others reads fits late early =
      let signature = py.hmac (k ∷ key) (signed_text py (decimal n) body) in
      let (hex, long) = hexadecimal (k ∷ key) (signed_text py (decimal n) body) in
      let (plain, ascii) = hex_plain signature hex in
      let (all, full) =
        isdigit-parsed py.is_digit digits n (decimal n) (parse_int-decimal n) (decimal-All n) in
      ap (λ found. verify_header py (some (k ∷ key)) body now (nonempty found))
        (header-past name (signature_header n signature) before after same others)
      ∙ ap
          (λ fs.
            verify_fields py (k ∷ key) body now (nonempty (get fs (codes "t")))
              (nonempty (get fs (codes "v1"))))
          (fields-signature_header n signature plain)
      ∙ rw (full, nonempty_long signature long, all, reads, fits, fresh now n late early)
          (compare_self signature ascii)

  -- A request in which the signature header, whatever the case of its name, is the first of that
  -- name among any other headers, and that a sender who has the shared secret signs at a whole
  -- second, within 300 seconds of the clock, is taken as the message of its body, if the body is a
  -- message and the allowlist lets its sender in, where the secret is not empty, `isdigit` holds of
  -- the decimal digits, `int` reads the digits of that second, which is within the range of a
  -- float, and the HMAC is 64 hexadecimal digits.
  pub signed_request_heard :
      (world : Security) (config : Config) (k : ℕ) (key : Text) (body : List ℕ) (n now : ℕ)
      (name : Text) (before after : Dict Text Text)
      → lower name ≡ header_name
      → All (λ h. text_beq (lower h.0) header_name ≡ false) before
      → py.int (decimal n) ≡ some n
      → overflows n ≡ false
      → now ≤ n * sec + replay_window
      → n * sec ≤ now + replay_window
      → on_message py world config (some (k ∷ key)) now (
          request body (
            before
            ++ ((name, signature_header n (py.hmac (k ∷ key) (signed_text py (decimal n) body)))
                ∷ after)))
        ≡ ok (accepted world config (py.model_validate_json body))
  unfolding on_message
  signed_request_heard world config k key body n now name before after same others reads fits late
        early =
      rw
        (signed_request_verified k key body n now name before after same others reads fits late
          early)
        refl
