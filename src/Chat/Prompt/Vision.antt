-- ===== src/Chat/Prompt/Vision.antt =====
-- glc/routes/chat.py: the capabilities that a request asks of a provider, and the router's sample.
use gateway_glc_v.Common.{
  ℕ, zero, suc, ◌+◌, ◌-◌, ◌≤◌, ◌≡◌, inl, inr, refl, Bool, true, false, not, ◌||◌, List, [], ◌∷◌,
  ◌++◌, Option, none, some, length, length-append, leb, All, arith, Bool-cases,
}
use gateway_glc_v.Common.Text.{Text, codes}
use gateway_glc_v.Routing.Providers.{
  Provider, Capability, tools, reasoning, structured, vision, limits,
}
use gateway_glc_v.Routing.Ring.{Router, Rates, Attempt, pick}
use gateway_glc_v.Routing.Pick.{IsFit, Chosen, left_by, pick-FirstFit}
use gateway_glc_v.Chat.Prompt.{
  Request, when, any_message_image, asks_reasoning, required_caps, est_tokens, normalize_messages,
  system_of, take, drop, sample_part, build_sample,
}

All-when {κ} :
    (P : Capability → Type κ) (test : Bool) (c : Capability) (cs : List Capability)
    → All P (when test c cs)
    → All P cs
All-when P true c cs h = h.1
All-when P false c cs h = h

when-has :
    (capable : Capability → Bool) (test : Bool) (c : Capability) (cs : List Capability)
    → All (λ c. capable c ≡ true) (when test c cs)
    → (not test || capable c) ≡ true
when-has capable true c cs h = h.0
when-has capable false c cs h = refl

chosen-IsFit :
    (r : Router) (clock : ℕ → ℕ) (est : ℕ) (caps : List Capability) (names : List Provider)
    (before w : Rates) (attempts : List Attempt) (o : Option Provider) (n : Provider)
    → Chosen r clock est caps names before w attempts o
    → o ≡ some n
    → IsFit r est caps n
chosen-IsFit r clock est caps names before w attempts none n h named = cc
chosen-IsFit r clock est caps names before w attempts (some m) n h named =
    let same : m ≡ n = cc (named) in rw (← same) h.0

-- What the router's pick for a request can do: whatever the request asks, tools, reasoning, a
-- response format, or seeing an image in one of its messages, the picked provider is capable of, and
-- the estimate of the request's tokens fits its context.
pub picked_suits :
    (r : Router) (clock : ℕ → ℕ) (w : Rates) (names : List Provider) (req : Request) (n : Provider)
    → let est = est_tokens (normalize_messages req) (system_of req) req.max_tokens in
      (pick r clock w est names (required_caps req)).name ≡ some n
      → ((not req.has_tools || r.capable n tools) ≡ true)
        × ((not (asks_reasoning req.reasoning) || r.capable n reasoning) ≡ true)
        × ((not req.has_response_format || r.capable n structured) ≡ true)
        × ((not (any_message_image req.messages) || r.capable n vision) ≡ true)
        × (est_tokens (normalize_messages req) (system_of req) req.max_tokens ≤ (limits n).max_ctx)
unfolding required_caps
picked_suits r clock w names req n named =
    let est = est_tokens (normalize_messages req) (system_of req) req.max_tokens in
    let caps = required_caps req in
    let fit =
      chosen-IsFit r clock est caps names (left_by clock w (pick r clock w est names caps).attempts)
        (pick r clock w est names caps).rates (pick r clock w est names caps).attempts
        (pick r clock w est names caps).name n (pick-FirstFit r clock w est names caps).0 named in
    let image = when (any_message_image req.messages) vision [] in
    let format = when req.has_response_format structured image in
    let thinks = when (asks_reasoning req.reasoning) reasoning format in
    let h1 = All-when (λ c. r.capable n c ≡ true) req.has_tools tools thinks fit.all_caps in
    let h2 =
      All-when (λ c. r.capable n c ≡ true) (asks_reasoning req.reasoning) reasoning format h1 in
    let h3 = All-when (λ c. r.capable n c ≡ true) req.has_response_format structured image h2 in
    (
      when-has (r.capable n) req.has_tools tools thinks fit.all_caps,
      when-has (r.capable n) (asks_reasoning req.reasoning) reasoning format h1,
      when-has (r.capable n) req.has_response_format structured image h2,
      when-has (r.capable n) (any_message_image req.messages) vision [] h3,
      fit.fits,
    )

take_le : (n : ℕ) (s : Text) → length (take n s) ≤ n
take_le zero s = omega arith
take_le (suc n) [] = omega arith
take_le (suc n) (c ∷ s) = omega (arith, take_le n s)

length-drop : (n : ℕ) (s : Text) → length (drop n s) + n ≤ length s + n
length-drop zero s = omega arith
length-drop (suc n) [] = omega arith
length-drop (suc n) (c ∷ s) = omega (arith, length-drop n s)

length-drop_long : (n : ℕ) (s : Text) → n ≤ length s → length (drop n s) + n ≡ length s
length-drop_long zero s h = omega arith
length-drop_long (suc n) [] h = absurd (omega (arith, h))
length-drop_long (suc n) (c ∷ s) h = omega (arith, length-drop_long n s (omega (arith, h)))

gt_of : (a b : ℕ) → leb a b ≡ false → b ≤ a
gt_of a b h = ground (arith, h)

le_of : (a b : ℕ) → leb a b ≡ true → a ≤ b
le_of a b h = ground (arith, h)

clip_le :
    (n : ℕ) (text : Text)
    → n ≤ length text
    → length (take n text ++ codes "\n...\n" ++ drop (length text - n) text) ≤ n + 5 + n
clip_le n text h =
    let head = take_le n text in
    let tail = length-drop_long (length text - n) text (omega arith) in
    rw
      (
        length-append (take n text ++ codes "\n...\n") (drop (length text - n) text),
        length-append (take n text) (codes "\n...\n"),
      )
      (omega (arith, head, tail, h))

-- The sample of a prompt that a router model sees has at most 810 characters.
pub build_sample_le : (text : Text) → length (build_sample text) ≤ 810
unfolding build_sample
build_sample_le text = elim (Bool-cases (leb (length text) (sample_part + sample_part + 10))) [
  | inl short ↦ rw (short) (le_of (length text) 810 short)
  | inr long ↦
      let big = gt_of (length text) 810 long in
      let clipped = clip_le sample_part text (omega (arith, big)) in
      rw (long) (omega (arith, clipped))
]
