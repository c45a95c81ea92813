-- ===== src/Images/Inline.antt =====
-- The messages that come out of the image fetch.
use mathlib.Core.Path.{subst}
use gateway_glc_v.Common.{
  ok-injective, ℕ, zero, suc, ◌≡◌, refl, false, List, [], ◌∷◌, none, some, Result, ok, err, arith,
  Bool-cases, Option-cases, inl, inr,
}
use gateway_glc_v.Common.Text.{Text}
use gateway_glc_v.Ssrf.{resolve_validated}
use gateway_glc_v.Images.{
  Web, Hops, FetchError, Response, invalid_url, network_error, redirect, http_error, success,
  after_response, round, fetch_loop, fetch_to_data_url, max_gets, Block, image_url, other_block,
  Content, plain, blocks, Message, is_remote, Step, ◌>>=◌, return, resolve_block, resolve_blocks,
  resolve_message, resolve_image_urls,
}
use gateway_glc_v.Images.Fetch.{Guarded, fetch-Bounded, Result-cases}

-- A block that the provider need not fetch, with the text of any other block.
abbrev pub LocalBlock : Block → Block → Type 0
LocalBlock (image_url url) (image_url url') = is_remote url' ≡ false
LocalBlock (other_block b) (other_block b') = b ≡ b'
LocalBlock _ _ = ⊥

abbrev pub Pointwise : {A : Type 0} → (A → A → Type 0) → List A → List A → Type 0
Pointwise R [] [] = Unit
Pointwise R (x ∷ xs) (y ∷ ys) = R x y × Pointwise R xs ys
Pointwise R _ _ = ⊥

abbrev LocalContent : Content → Content → Type 0
LocalContent (plain t) (plain t') = t ≡ t'
LocalContent (blocks bs) (blocks bs') = Pointwise LocalBlock bs bs'
LocalContent _ _ = ⊥

-- The same message with its remote images put in place.
abbrev pub LocalMessage : Message → Message → Type 0
LocalMessage m m' = (m.role ≡ m'.role) × LocalContent m.content m'.content

module _ (w : Web) (allow_env : Text) where
  -- A step makes guarded connections only, and what it returns has the property.
  record Does {A : Type 0} (P : A → Type 0) (m : Step A) : Type 0 where
    guarded : (h : Hops) → Guarded w allow_env h → Guarded w allow_env (m h).1
    returns : (h : Hops) (a : A) → (m h).0 ≡ ok a → P a

  Does-return : {A : Type 0} (P : A → Type 0) (a : A) → P a → Does P (return a)
  Does-return P a p = record { guarded = λ h g. g; returns = λ h b e. subst P (ground arith) p }

  module _ {A B : Type 0} (P : A → Type 0) (Q : B → Type 0) (f : A → Step B)
      (df : (a : A) → P a → Does Q (f a)) where
    abbrev continue : Result FetchError A → Hops → Result FetchError B × Hops
    continue r h = elim r [ ok a ↦ f a h | err e ↦ (err e, h) ]

    continue-Guarded :
        (r : Result FetchError A) (h : Hops)
        → ((a : A) → r ≡ ok a → P a)
        → Guarded w allow_env h
        → Guarded w allow_env (continue r h).1
    continue-Guarded (ok a) h p g = (df a (p a refl)).guarded h g
    continue-Guarded (err e) h p g = g

    continue-returns :
        (r : Result FetchError A) (h : Hops)
        → ((a : A) → r ≡ ok a → P a)
        → (b : B) → (continue r h).0 ≡ ok b
        → Q b
    continue-returns (ok a) h p b e = (df a (p a refl)).returns h b e
    continue-returns (err x) h p b e = cc

    Does-bind : (m : Step A) → Does P m → Does Q (m >>= f)
    Does-bind m dm = record {
      guarded = λ h g. continue-Guarded (m h).0 (m h).1 (dm.returns h) (dm.guarded h g);
      returns = λ h. continue-returns (m h).0 (m h).1 (dm.returns h);
    }

  abbrev Inlined : Text → Type 0
  Inlined url = is_remote url ≡ false

  response-local :
      (again : Text → Hops → Result FetchError Text × Hops)
      → ((next : Text) (h : Hops) (u : Text) → (again next h).0 ≡ ok u → Inlined u)
      → (r : Response) (current : Text) (h : Hops) (u : Text)
      → (after_response w again current r h).0 ≡ ok u
      → Inlined u
  response-local again k invalid_url current h u e = cc
  response-local again k network_error current h u e = cc
  response-local again k (redirect none) current h u e = cc
  response-local again k (redirect (some [])) current h u e = cc
  response-local again k (redirect (some (c ∷ loc))) current h u e =
      elim (Option-cases (w.join_url current (c ∷ loc))) [
        | inl bad ↦ absurd (ground (arith, bad, e))
        | inr (next, joined) ↦ k next h u (rw (joined, after_response) at e)
      ]
  response-local again k http_error current h u e = cc
  response-local again k (success header content) current h u e =
      subst Inlined (ok-injective e) refl

  round-local :
      (again : Text → Hops → Result FetchError Text × Hops)
      → ((next : Text) (h : Hops) (u : Text) → (again next h).0 ≡ ok u → Inlined u)
      → (url : Text) (h : Hops) (u : Text) → (round w allow_env again url h).0 ≡ ok u
      → Inlined u
  unfolding round
  round-local again k url h u e =
      elim (Result-cases w allow_env (resolve_validated (w.net_at h.count) allow_env url)) [
        | inl (x, p) ↦ absurd (ground arith)
        | inr (t, p) ↦
            response-local again k (w.get_pinned h.count url t) url _ u (rw (p, round) at e)
      ]

  fetch-local :
      (url : Text) (fuel : ℕ) (current : Text) (h : Hops) (u : Text)
      → (fetch_loop w allow_env url fuel current h).0 ≡ ok u
      → Inlined u
  unfolding fetch_loop
  fetch-local url zero current h u e = cc
  fetch-local url (suc fuel) current h u e = round-local _ (fetch-local url fuel) current h u e

  fetch-Does : (url : Text) → Does Inlined (fetch_to_data_url w allow_env url)
  unfolding fetch_to_data_url
  fetch-Does url = record {
    guarded = λ h g. (fetch-Bounded w allow_env url max_gets url h g).0;
    returns = fetch-local url max_gets url;
  }

  block-Does : (b : Block) → Does (LocalBlock b) (resolve_block w allow_env b)
  unfolding resolve_block
  block-Does (other_block b) = Does-return _ (other_block b) refl
  block-Does (image_url url) = elim (Bool-cases (is_remote url)) [
    | inl remote ↦ rw remote (
        Does-bind Inlined (LocalBlock (image_url url)) _ (λ u p. Does-return _ (image_url u) p)
          (fetch_to_data_url w allow_env url) (fetch-Does url))
    | inr near ↦ rw near (Does-return _ (image_url url) near)
  ]

  blocks-Does : (bs : List Block) → Does (Pointwise LocalBlock bs) (resolve_blocks w allow_env bs)
  unfolding resolve_blocks
  blocks-Does [] = Does-return _ [] tt
  blocks-Does (b ∷ bs) =
      let rest = blocks-Does bs in
      Does-bind (LocalBlock b) _ _
        (λ b' p.
          Does-bind (Pointwise LocalBlock bs) _ _ (λ bs' q. Does-return _ (b' ∷ bs') (p, q)) _ rest)
        (resolve_block w allow_env b) (block-Does b)

  abbrev with_content : Text → Content → Message
  with_content role c = record { role = role; content = c }

  content-Does :
      (role : Text) (c : Content)
      → Does
          (LocalMessage (with_content role c))
          (resolve_message w allow_env (with_content role c))
  unfolding resolve_message
  content-Does role (plain t) =
      Does-return (LocalMessage (with_content role (plain t))) (with_content role (plain t))
        (refl, refl)
  content-Does role (blocks bs) =
      Does-bind (Pointwise LocalBlock bs) (LocalMessage (with_content role (blocks bs))) _
        (λ bs' q.
          Does-return (LocalMessage (with_content role (blocks bs)))
            (with_content role (blocks bs')) (refl, q))
        (resolve_blocks w allow_env bs) (blocks-Does bs)

  message-Does : (m : Message) → Does (LocalMessage m) (resolve_message w allow_env m)
  message-Does m = content-Does m.role m.content

  messages-Does :
      (ms : List Message) → Does (Pointwise LocalMessage ms) (resolve_image_urls w allow_env ms)
  unfolding resolve_image_urls
  messages-Does [] = Does-return _ [] tt
  messages-Does (m ∷ ms) =
      let rest = messages-Does ms in
      Does-bind (LocalMessage m) _ _
        (λ m' p.
          Does-bind (Pointwise LocalMessage ms) _ _ (λ ms' q. Does-return _ (m' ∷ ms') (p, q)) _
            rest)
        (resolve_message w allow_env m) (message-Does m)

  -- Whatever the network answers, every connection that is made for a request's messages goes to a
  -- target that passed the guard at that hop.
  pub images-Guarded :
      (ms : List Message)
      → Guarded w allow_env
          (resolve_image_urls w allow_env ms (record { count = 0; connections = [] })).1
  images-Guarded ms = (messages-Does ms).guarded (record { count = 0; connections = [] }) tt

  -- If the images of a request are resolved, the messages that come out are those that went in, in
  -- the same order and with the same other blocks, and none of them has an http(s) image URL.
  pub images_local :
      (ms : List Message) (h : Hops) (ms' : List Message)
      → (resolve_image_urls w allow_env ms h).0 ≡ ok ms'
      → Pointwise LocalMessage ms ms'
  images_local ms = (messages-Does ms).returns
