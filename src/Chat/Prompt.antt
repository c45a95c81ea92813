-- ===== src/Chat/Prompt.antt =====
-- glc/routes/chat.py and glc/providers.py: what a request asks of a provider, before one is chosen.
-- A part of a message's content is a text, an image block, or another block with a text or without.
pub mod Vision
use gateway_glc_v.Common.{
  ℕ, zero, suc, ◌+◌, ◌-◌, ◌*◌, ◌/◌, Bool, true, false, not, ◌&&◌, ◌||◌, List, [], ◌∷◌, ◌++◌, map,
  Option, none, some, if◌then◌else◌, length, tally, leb,
}
use gateway_glc_v.Common.Text.{Text, codes, text_beq, join}
use gateway_glc_v.Routing.Providers.{Capability, tools, reasoning, structured, vision}

pub data Part : Type 0 where
  bare : Text → Part
  text_part : Text → Part
  silent_part : Part
  image_part : Part

-- A content that is neither a text nor a list is given by its `str`.
pub data Content : Type 0 where
  plain : Text → Content
  parts : List Part → Content
  other_content : Text → Content

pub record Message : Type 0 where
  pub role : Text
  pub content : Content

pub record SystemBlock : Type 0 where
  pub text : Text
  pub cache : Bool

pub data System : Type 0 where
  no_system : System
  system_text : Text → System
  system_blocks : List SystemBlock → System

-- The parts of `ChatRequest` that decide what is asked
pub record Request : Type 0 where
  pub messages : List Message
  pub prompt : Option Text
  pub system : System
  pub cache_system : Bool
  pub has_tools : Bool
  pub reasoning : Option Text
  pub has_response_format : Bool
  pub max_tokens : ℕ

abbrev is_image : Part → Bool
is_image (bare t) = false
is_image (text_part t) = false
is_image silent_part = false
is_image image_part = true

abbrev any_image : List Part → Bool
any_image [] = false
any_image (b ∷ bs) = is_image b || any_image bs

-- `_content_has_image`
abbrev pub content_has_image : Content → Bool
content_has_image (plain t) = false
content_has_image (parts bs) = any_image bs
content_has_image (other_content t) = false

abbrev texts_of : List Part → List Text
texts_of [] = []
texts_of (bare t ∷ bs) = t ∷ texts_of bs
texts_of (text_part t ∷ bs) = t ∷ texts_of bs
texts_of (silent_part ∷ bs) = texts_of bs
texts_of (image_part ∷ bs) = texts_of bs

-- `_extract_text_blocks`
unfoldable pub extract_text_blocks : Content → Text
extract_text_blocks (plain t) = t
extract_text_blocks (parts bs) = join 10 (texts_of bs)
extract_text_blocks (other_content t) = []

abbrev or_empty : Option Text → Text
or_empty none = []
or_empty (some t) = t

-- `_normalize_messages`
unfoldable pub normalize_messages : Request → List Message
normalize_messages req = elim req.messages [
  | [] ↦ (record { role = codes "user"; content = plain (or_empty req.prompt) }) ∷ []
  | m ∷ ms ↦ m ∷ ms
]

-- `_system_blocks`
unfoldable pub system_of : Request → System
system_of req = elim req.system [
  | no_system ↦ no_system
  | system_text t ↦
      if req.cache_system
      then system_blocks (record { text = t; cache = true } ∷ [])
      else system_text t
  | system_blocks bs ↦ system_blocks bs
]

abbrev content_chars : Content → ℕ
content_chars (plain t) = length t
content_chars (parts bs) = length (extract_text_blocks (parts bs)) + 1200 * tally is_image bs
content_chars (other_content t) = length t

abbrev message_chars : List Message → ℕ
message_chars [] = 0
message_chars (m ∷ ms) = content_chars m.content + message_chars ms

abbrev block_chars : List SystemBlock → ℕ
block_chars [] = 0
block_chars (b ∷ bs) = length b.text + block_chars bs

abbrev system_chars : System → ℕ
system_chars no_system = 0
system_chars (system_text t) = length t
system_chars (system_blocks bs) = block_chars bs

-- `_est_tokens`
unfoldable pub est_tokens : List Message → System → ℕ → ℕ
est_tokens messages system max_tokens =
    (message_chars messages + system_chars system) / 4 + max_tokens

abbrev pub any_message_image : List Message → Bool
any_message_image [] = false
any_message_image (m ∷ ms) = content_has_image m.content || any_message_image ms

abbrev pub asks_reasoning : Option Text → Bool
asks_reasoning none = false
asks_reasoning (some r) = not (text_beq r []) && not (text_beq r (codes "off"))

abbrev pub when : Bool → Capability → List Capability → List Capability
when test c cs = if test then c ∷ cs else cs

-- `_required_caps`
unfoldable pub required_caps : Request → List Capability
required_caps req = when req.has_tools tools (
    when (asks_reasoning req.reasoning) reasoning
      (when req.has_response_format structured (when (any_message_image req.messages) vision [])))

-- `text[:n]` and `text[-n:]`
abbrev pub take : ℕ → Text → Text
take zero s = []
take (suc n) [] = []
take (suc n) (c ∷ s) = c ∷ take n s

abbrev pub drop : ℕ → Text → Text
drop zero s = s
drop (suc n) [] = []
drop (suc n) (c ∷ s) = drop n s

abbrev pub sample_part : ℕ
sample_part = 400

-- `_build_sample`
unfoldable pub build_sample : Text → Text
build_sample text =
    if leb (length text) (sample_part + sample_part + 10)
    then text
    else take sample_part text ++ codes "\n...\n" ++ drop (length text - sample_part) text
