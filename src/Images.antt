-- ===== src/Images.antt =====
-- `_resolve_image_urls` of glc/routes/chat.py: images behind http(s) URLs are fetched and put into
-- the messages as data URLs. The HTTP client, URL joining and base64 are arguments; the network may
-- differ at each hop. The connections that are tried are recorded, the last one first, each by the hop
-- and the target that the guard gave: the client is sent to the target's address, at the port that it
-- reads in the URL itself.
pub mod Fetch
pub mod Inline
mod Tests
use gateway_glc_v.Common.{
  ℕ, zero, suc, ◌+◌, Bool, true, false, ◌||◌, List, [], ◌∷◌, ◌++◌, Option, none, some,
  if◌then◌else◌, Result, ok, err,
}
use gateway_glc_v.Common.Text.{Text, codes, starts_with, split, strip}
use gateway_glc_v.Ssrf.{Net, ValidatedTarget, Blocked, value_error, resolve_validated}

-- `invalid_url` is an exception of the client that is no HTTPError, such as InvalidURL.
pub data Response : Type 0 where
  invalid_url : Response
  network_error : Response
  redirect : Option Text → Response
  http_error : Response
  success : Option Text → Text → Response

-- The messages of the HTTPException, and an exception that `_fetch_to_data_url` does not catch.
pub data FetchError : Type 0 where
  uncaught : FetchError
  blocked_image_url : Text → Blocked → FetchError
  failed_to_fetch : Text → FetchError
  redirect_without_location : Text → FetchError
  too_many_redirects : Text → FetchError

pub record Web : Type 0 where
  pub net_at : ℕ → Net
  pub get_pinned : ℕ → Text → ValidatedTarget → Response
  pub join_url : Text → Text → Option Text
  pub base64 : Text → Text

pub record Hops : Type 0 where
  pub count : ℕ
  pub connections : List (ℕ × ValidatedTarget)

-- `_MAX_REDIRECTS + 1`
abbrev pub max_gets : ℕ
max_gets = 6

-- `(r.headers.get("content-type") or "image/png").split(";")[0].strip()`
abbrev or_png : Option Text → Text
or_png none = codes "image/png"
or_png (some []) = codes "image/png"
or_png (some (c ∷ t)) = c ∷ t

abbrev first_part : List Text → Text
first_part [] = []
first_part (p ∷ _) = p

abbrev media_type : Option Text → Text
media_type h = strip (first_part (split b';' (or_png h)))

abbrev pub data_url : Web → Option Text → Text → Text
data_url w header content =
    codes "data:" ++ (media_type header ++ (codes ";base64," ++ w.base64 content))

-- What is done with a response; `again` is the loop's next round.
abbrev after_response :
    Web
    → (Text → Hops → Result FetchError Text × Hops)
    → Text
    → Response
    → Hops
    → Result FetchError Text × Hops
after_response w again current invalid_url h = (err uncaught, h)
after_response w again current network_error h = (err (failed_to_fetch current), h)
after_response w again current (redirect none) h = (err (redirect_without_location current), h)
after_response w again current (redirect (some [])) h = (err (redirect_without_location current), h)
after_response w again current (redirect (some (c ∷ loc))) h = elim (w.join_url current (c ∷ loc)) [
  | none ↦ (err uncaught, h)
  | some next ↦ again next h
]
after_response w again current http_error h = (err (failed_to_fetch current), h)
after_response w again current (success header content) h = (ok (data_url w header content), h)

-- only a `BlockedURLError` is caught
abbrev pub not_passed : Text → Blocked → FetchError
not_passed current value_error = uncaught
not_passed current e = blocked_image_url current e

-- One round: the guard, and a connection to the address that it gives.
pub round :
    Web
    → Text
    → (Text → Hops → Result FetchError Text × Hops)
    → Text
    → Hops
    → Result FetchError Text × Hops
round w allow_env again current h = elim (resolve_validated (w.net_at h.count) allow_env current) [
  | err e ↦ (err (not_passed current e), record h { count = h.count + 1 })
  | ok t ↦
      after_response w again current (w.get_pinned h.count current t)
        (record { count = h.count + 1; connections = (h.count, t) ∷ h.connections })
]

pub fetch_loop : Web → Text → Text → ℕ → Text → Hops → Result FetchError Text × Hops
fetch_loop w allow_env url zero current h = (err (too_many_redirects url), h)
fetch_loop w allow_env url (suc fuel) current h =
    round w allow_env (λ next h'. fetch_loop w allow_env url fuel next h') current h

-- `_fetch_to_data_url`
pub fetch_to_data_url : Web → Text → Text → Hops → Result FetchError Text × Hops
fetch_to_data_url w allow_env url h = fetch_loop w allow_env url max_gets url h

-- A content block: an `image_url` block with a text for its URL, or any other block, by its text.
pub data Block : Type 0 where
  image_url : Text → Block
  other_block : Text → Block

pub data Content : Type 0 where
  plain : Text → Content
  blocks : List Block → Content

pub record Message : Type 0 where
  pub role : Text
  pub content : Content

abbrev pub is_remote : Text → Bool
is_remote url = starts_with url (codes "http://") || starts_with url (codes "https://")

abbrev Step : Type 0 → Type 0
Step A = Hops → Result FetchError A × Hops

infixl 5 ◌>>=◌
abbrev pub ◌>>=◌ : {A B : Type 0} → Step A → (A → Step B) → Step B
◌>>=◌ m f h = let (r, h') = m h in elim r [ ok a ↦ f a h' | err e ↦ (err e, h') ]

abbrev pub return : {A : Type 0} → A → Step A
return a h = (ok a, h)

resolve_block : Web → Text → Block → Step Block
resolve_block w allow_env (image_url url) =
    if is_remote url
    then (do fetched ← fetch_to_data_url w allow_env url; return (image_url fetched))
    else return (image_url url)
resolve_block w allow_env (other_block b) = return (other_block b)

resolve_blocks : Web → Text → List Block → Step (List Block)
resolve_blocks w allow_env [] = return []
resolve_blocks w allow_env (b ∷ bs) = (resolve_block w allow_env b) >>= λ b'.
    (resolve_blocks w allow_env bs) >>= λ bs'. return (b' ∷ bs')

-- a message with no image to fetch is kept as it is
resolve_message : Web → Text → Message → Step Message
resolve_message w allow_env m = elim m.content [
  | plain t ↦ return m
  | blocks bs ↦ do bs' ← resolve_blocks w allow_env bs; return (record m { content = blocks bs' })
]

pub resolve_image_urls : Web → Text → List Message → Step (List Message)
resolve_image_urls w allow_env [] = return []
resolve_image_urls w allow_env (m ∷ ms) = (resolve_message w allow_env m) >>= λ m'.
    (resolve_image_urls w allow_env ms) >>= λ ms'. return (m' ∷ ms')
