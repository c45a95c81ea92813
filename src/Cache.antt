-- ===== src/Cache.antt =====
-- glc/cache.py: `GeminiCache`, the names of cached system texts.
-- SHA-256, as a hexadecimal text, and the answer of the service are arguments; the clock is in
-- microseconds. `look` and `keep_minted` are the two parts that run under the lock.
pub mod Fresh
mod Tests
use gateway_glc_v.Common.{
  ℕ, ◌+◌, ◌*◌, ◌/◌, Bool, true, false, List, [], ◌∷◌, ◌++◌, Option, none, some, if◌then◌else◌, sec,
  ltb, eqb, length,
}
use gateway_glc_v.Common.Text.{Text, text_eq}
use gateway_glc_v.Common.Dict.{Dict, get, put, remove}

pub record Entry : Type 0 where
  pub name : Text
  pub expires_at : ℕ

-- `_store`
abbrev pub Entries : Type 0
Entries = Dict Text Entry

-- What the service answers: none if the request raised.
pub record Response : Type 0 where
  pub status_code : ℕ
  pub name : Option Text
  pub total_token_count : Option ℕ

-- `_key`
abbrev pub key_of : (Text → Text) → Text → Text → Text
key_of sha256 model text = sha256 (model ++ (0 ∷ text))

abbrev looked : Entries → Text → ℕ → Option Entry → Entries × Option Text
looked s key now none = (s, none)
looked s key now (some e) =
    if ltb (now + 5 * sec) e.expires_at then (s, some e.name) else (remove s key, none)

-- The first part of `get_or_create`: the entry, if it lives for five seconds more
unfoldable pub look : Entries → Text → ℕ → Entries × Option Text
look s key now = looked s key now (get s key)

-- `usage.get("totalTokenCount", 0) or len(text) // 4`
abbrev tokens_of : Text → Option ℕ → ℕ
tokens_of text none = length text / 4
tokens_of text (some n) = if eqb n 0 then length text / 4 else n

-- `d.get("name")`, if it is not empty
abbrev pub nonempty : Option Text → Option Text
nonempty none = none
nonempty (some []) = none
nonempty (some (c ∷ name)) = some (c ∷ name)

-- The name that a response mints.
abbrev pub minted_name : Option Response → Option Text
minted_name none = none
minted_name (some r) = if eqb r.status_code 200 then nonempty r.name else none

abbrev tokens_in : Text → Option Response → ℕ
tokens_in text none = 0
tokens_in text (some r) = tokens_of text r.total_token_count

-- The second part: a new entry, which lives for the time that the cache was built with, from the
-- time that the first part read
abbrev kept :
    ℕ → Entries → Text → ℕ → Text → Option Response → Option Text → Entries × (Option Text × ℕ)
kept ttl s key now text response none = (s, (none, 0))
kept ttl s key now text response (some name) = (
  put s key (record { name = name; expires_at = now + ttl * sec }),
  (some name, tokens_in text response),
)

unfoldable pub keep_minted :
    ℕ → Entries → Text → ℕ → Text → Option Response → Entries × (Option Text × ℕ)
keep_minted ttl s key now text response = kept ttl s key now text response (minted_name response)

abbrev after_look :
    ℕ → Text → ℕ → Text → Option Response → Entries × Option Text → Entries × (Option Text × ℕ)
after_look ttl key now text response (s, some name) = (s, (some name, 0))
after_look ttl key now text response (s, none) = keep_minted ttl s key now text response

-- `get_or_create`, when no other call runs between its parts
unfoldable pub get_or_create :
    (Text → Text) → ℕ → Entries → Text → Text → ℕ → Option Response → Entries × (Option Text × ℕ)
get_or_create sha256 ttl s model text now response =
    let key = key_of sha256 model text in after_look ttl key now text response (look s key now)
