-- ===== src/RateLimits/History.antt =====
-- The limiter against the history of the checks that it admitted.
use gateway_glc_v.Common.{
  ℕ, ◌+◌, ◌-◌, ◌≤◌, ◌<◌, ◌≡◌, ◌∙◌, if_both, ap, ◌↔◌, refl, String, List, [], ◌∷◌, ◌++◌, Bool, true,
  false, ◌&&◌, Option, none, some, arith, leb, length, tally-append, minute, if◌then◌else◌, pair_eq,
  pair_beq, pair_beq_iff,
}
use gateway_glc_v.Common.Dict.{put, get-put}
use gateway_glc_v.RateLimits.{
  Window, set_deque, Kind, messages, tool_calls, RateLimiter, ChannelsYaml, Exceeded, gc, check,
  window, deque, cap_of, limits_for, get_rate_limiter,
}
use gateway_glc_v.RateLimits.Sweep.{
  Ordered, Upto, since, since-gc, length-gc, gc-Ordered, gc-Upto, Upto-mono, Ordered-snoc,
  Upto-snoc,
}

-- One call of `check_message` or `check_tool_call`, at the time that it reads.
pub record Check : Type 0 where
  pub channel : String
  pub user : String
  pub kind : Kind
  pub now : ℕ

abbrev pub kind_beq : Kind → Kind → Bool
kind_beq messages messages = true
kind_beq tool_calls tool_calls = true
kind_beq _ _ = false

abbrev pub same_window : String → String → Kind → Check → Bool
same_window c u k e = pair_beq (e.channel, e.user) (c, u) && kind_beq e.kind k

-- The times of the admitted checks of one window, newest first.
abbrev pub times : String → String → Kind → List Check → List ℕ
times c u k [] = []
times c u k (e ∷ log) =
    let rest = times c u k log in if same_window c u k e then e.now ∷ rest else rest

abbrev pub keep_admitted : Option Exceeded → Check → List Check → List Check
keep_admitted none e log = e ∷ log
keep_admitted (some _) e log = log

-- The limiter after a run of checks, and the admitted ones, newest first.
unfoldable pub serve : RateLimiter → List Check → List Check → RateLimiter × List Check
serve s log [] = (s, log)
serve s log (e ∷ es) =
    let (s', refusal) = check s e.channel e.user e.kind e.now in
    serve s' (keep_admitted refusal e log) es

-- The clock does not run backwards.
abbrev pub InOrder : ℕ → List Check → Type 0
InOrder clock [] = Unit
InOrder clock (e ∷ es) = (clock ≤ e.now) × InOrder e.now es

abbrev pub last_time : ℕ → List Check → ℕ
last_time clock [] = clock
last_time clock (e ∷ es) = last_time e.now es

-- The deques hold what the history says of the last minute.
pub record Tracks (s : RateLimiter) (log : List Check) (clock : ℕ) : Type 0 where
  pub ordered : (c u : String) (k : Kind) → Ordered 0 (deque k (window s c u))
  pub upto : (c u : String) (k : Kind) → Upto clock (deque k (window s c u))
  pub counted :
      (c u : String) (k : Kind) (h : ℕ)
      → clock - minute ≤ h
      → since h (deque k (window s c u)) ≡ since h (times c u k log)

abbrev pub swept : RateLimiter → Check → List ℕ
swept s e = gc (deque e.kind (window s e.channel e.user)) (e.now - minute)

abbrev pub stored : RateLimiter → Check → List ℕ
stored s e =
    if leb (cap_of e.kind (limits_for s e.channel)) (length (swept s e))
    then swept s e
    else swept s e ++ e.now ∷ []

abbrev pub after : RateLimiter → Check → RateLimiter
after s e = (check s e.channel e.user e.kind e.now).0

window-put :
    (s : RateLimiter) (i j : String × String) (w : Window)
    → window (record s { state = put s.state i w }) j.0 j.1
      ≡ (if pair_beq i j then w else window s j.0 j.1)
unfolding window
window-put s i j w = ground (arith, get-put s.state i j w)

deque-put :
    (s : RateLimiter) (e : Check) (q : List ℕ) (c u : String) (k : Kind)
    → deque k (
        window
          (record s {
            state =
                put s.state (e.channel, e.user) (set_deque e.kind (window s e.channel e.user) q);
          })
          c
          u)
      ≡ (if same_window c u k e then q else deque k (window s c u))
deque-put s e q c u k =
    rw (window-put s (e.channel, e.user) (c, u))
      (ground (arith, pair_beq_iff (e.channel, e.user) (c, u)))

-- A check rewrites its own deque and no other.
deque-check :
    (s : RateLimiter) (e : Check) (c u : String) (k : Kind)
    → deque k (window (after s e) c u)
      ≡ (if same_window c u k e then stored s e else deque k (window s c u))
unfolding check
deque-check s e c u k =
    ground (arith, deque-put s e (swept s e) c u k, deque-put s e (swept s e ++ e.now ∷ []) c u k)

pub limits-check :
    (s : RateLimiter) (e : Check) (c : String) → limits_for (after s e) c ≡ limits_for s c
unfolding check limits_for
limits-check s e c = ground arith

-- Admission is decided by the swept deque.
pub check-decides :
    (s : RateLimiter) (e : Check)
    → ((check s e.channel e.user e.kind e.now).1 ≡ none)
      ↔ (length (swept s e) < cap_of e.kind (limits_for s e.channel))
unfolding check
check-decides s e = ground arith

pub kind_beq_iff : (a b : Kind) → (kind_beq a b ≡ true) ↔ (a ≡ b)
kind_beq_iff a b = ground arith

pub times-same :
    (c u : String) (k : Kind) (e : Check) (log : List Check)
    → same_window c u k e ≡ true
    → times c u k log ≡ times e.channel e.user e.kind log
times-same c u k e log h = cc (
  ap (λ (i : String × String). times i.0 i.1 k log)
      ((pair_beq_iff (e.channel, e.user) (c, u)).0 (ground arith)),
  ap (λ (j : Kind). times e.channel e.user j log) ((kind_beq_iff e.kind k).0 (ground arith)),
)

module _ (s : RateLimiter) (log : List Check) (clock : ℕ) (e : Check) (t : Tracks s log clock)
    (later : clock ≤ e.now) where
  pub length-swept : length (swept s e) ≡ since (e.now - minute) (times e.channel e.user e.kind log)
  length-swept =
      length-gc 0 (deque e.kind (window s e.channel e.user)) (e.now - minute)
        (t.ordered e.channel e.user e.kind)
      ∙ t.counted e.channel e.user e.kind (e.now - minute) (omega arith)

  -- An admission adds one to the count of every span that its time is in.
  since-snoc : (h : ℕ) (q : List ℕ) → since h (q ++ e.now ∷ []) ≡ since h q + since h (e.now ∷ [])
  since-snoc h q = tally-append (leb h) q (e.now ∷ [])

  since-swept :
      (h : ℕ)
      → e.now - minute ≤ h
      → since h (swept s e) ≡ since h (times e.channel e.user e.kind log)
  since-swept h p =
      since-gc (deque e.kind (window s e.channel e.user)) (e.now - minute) h p
      ∙ t.counted e.channel e.user e.kind h (omega arith)

  Tracks-counted :
      (c u : String) (k : Kind) (h : ℕ)
      → e.now - minute ≤ h
      → since h (deque k (window (after s e) c u))
        ≡ since h (times c u k (keep_admitted (check s e.channel e.user e.kind e.now).1 e log))
  unfolding check
  Tracks-counted c u k h p = rw (deque-check s e c u k) (
      ground (
        arith,
        since-swept h p,
        since-snoc h (swept s e),
        times-same c u k e log,
        t.counted c u k h,
      ))

  stored-Ordered : Ordered 0 (stored s e)
  stored-Ordered =
      let o = gc-Ordered 0 _ (e.now - minute) (t.ordered e.channel e.user e.kind) in
      let v = Upto-mono clock e.now _ later (t.upto e.channel e.user e.kind) in
      if_both (Ordered 0) _ _ _ o
        (Ordered-snoc 0 e.now _ (omega arith) o (gc-Upto e.now _ (e.now - minute) v))

  stored-Upto : Upto e.now (stored s e)
  stored-Upto =
      let v =
        gc-Upto e.now _ (e.now - minute)
          (Upto-mono clock e.now _ later (t.upto e.channel e.user e.kind)) in
      if_both (Upto e.now) _ _ _ v (Upto-snoc e.now _ v)

  pub Tracks-check :
      Tracks (after s e) (keep_admitted (check s e.channel e.user e.kind e.now).1 e log) e.now
  Tracks-check = record {
    ordered = λ c u k.
        rw (deque-check s e c u k) (if_both (Ordered 0) _ _ _ stored-Ordered (t.ordered c u k));
    upto = λ c u k.
        rw (deque-check s e c u k)
          (if_both (Upto e.now) _ _ _ stored-Upto (Upto-mono clock e.now _ later (t.upto c u k)));
    counted = Tracks-counted;
  }

pub serve-Tracks :
    (s : RateLimiter) (log es : List Check) (clock : ℕ)
    → Tracks s log clock
    → InOrder clock es
    → Tracks (serve s log es).0 (serve s log es).1 (last_time clock es)
unfolding serve
serve-Tracks s log [] clock t o = t
serve-Tracks s log (e ∷ es) clock t o =
    serve-Tracks (after s e) _ es e.now (Tracks-check s log clock e t o.0) o.1

pub limits-serve :
    (s : RateLimiter) (log es : List Check) (c : String)
    → limits_for (serve s log es).0 c ≡ limits_for s c
unfolding serve
limits-serve s log [] c = refl
limits-serve s log (e ∷ es) c = limits-serve (after s e) _ es c ∙ limits-check s e c

pub Tracks-start : (yaml : ChannelsYaml) → Tracks (get_rate_limiter yaml) [] 0
unfolding get_rate_limiter window
Tracks-start yaml = record {
  ordered = λ c u k. ground arith;
  upto = λ c u k. ground arith;
  counted = λ c u k h p. ground arith;
}

abbrev pub start : ChannelsYaml → List Check → RateLimiter × List Check
start yaml es = serve (get_rate_limiter yaml) [] es

abbrev pub cap_for : ChannelsYaml → String → Kind → ℕ
cap_for yaml c k = cap_of k (limits_for (get_rate_limiter yaml) c)

-- After any checks, made while the clock does not run backwards, a further check at time `now` is
-- admitted exactly if fewer checks of its channel, user and kind than the cap were admitted at or
-- after `now` less one minute: refused checks, other users and other kinds count for nothing.
pub check_exact :
    (yaml : ChannelsYaml) (es : List Check) (e : Check)
    → InOrder 0 es
    → last_time 0 es ≤ e.now
    → ((check (start yaml es).0 e.channel e.user e.kind e.now).1 ≡ none) ↔ (
        since (e.now - minute) (times e.channel e.user e.kind (start yaml es).1)
        < cap_for yaml e.channel e.kind)
check_exact yaml es e o later =
    rw
      (
        ← limits-serve (get_rate_limiter yaml) [] es e.channel,
        ← length-swept (start yaml es).0 (start yaml es).1 (last_time 0 es) e
            (serve-Tracks (get_rate_limiter yaml) [] es 0 (Tracks-start yaml) o) later,
      )
      (check-decides (start yaml es).0 e)
