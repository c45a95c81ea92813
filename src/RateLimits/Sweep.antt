-- ===== src/RateLimits/Sweep.antt =====
-- Facts about `_gc` and about counting in one deque.
use gateway_glc_v.Common.{ℕ, ◌≤◌, ◌≡◌, refl, List, [], ◌∷◌, ◌++◌, arith, leb, length, tally}
use gateway_glc_v.RateLimits.{gc}

-- A deque that was filled in the order of time, with nothing later than `now`.
abbrev pub Ordered : ℕ → List ℕ → Type 0
Ordered lo [] = Unit
Ordered lo (t ∷ dq) = (lo ≤ t) × Ordered t dq

abbrev pub Upto : ℕ → List ℕ → Type 0
Upto now [] = Unit
Upto now (t ∷ dq) = (t ≤ now) × Upto now dq

-- How many entries are not before `h`.
abbrev pub since : ℕ → List ℕ → ℕ
since h = tally (leb h)

pub since-gc : (dq : List ℕ) (horizon h : ℕ) → horizon ≤ h → since h (gc dq horizon) ≡ since h dq
unfolding gc
since-gc [] horizon h p = refl
since-gc (t ∷ dq) horizon h p = ground (arith, since-gc dq horizon h)

since-Ordered : (lo h : ℕ) (dq : List ℕ) → h ≤ lo → Ordered lo dq → since h dq ≡ length dq
since-Ordered lo h [] p o = refl
since-Ordered lo h (t ∷ dq) p o = ground (arith, since-Ordered t h dq)

-- After a sweep everything that is left counts.
pub length-gc : (lo : ℕ) (dq : List ℕ) (h : ℕ) → Ordered lo dq → length (gc dq h) ≡ since h dq
unfolding gc
length-gc lo [] h o = refl
length-gc lo (t ∷ dq) h o = ground (arith, length-gc t dq h, since-Ordered t h dq)

pub gc-Ordered : (lo : ℕ) (dq : List ℕ) (h : ℕ) → Ordered lo dq → Ordered 0 (gc dq h)
unfolding gc
gc-Ordered lo [] h o = tt
gc-Ordered lo (t ∷ dq) h o = ground (arith, gc-Ordered t dq h)

pub gc-Upto : (now : ℕ) (dq : List ℕ) (h : ℕ) → Upto now dq → Upto now (gc dq h)
unfolding gc
gc-Upto now [] h o = tt
gc-Upto now (t ∷ dq) h o = ground (arith, gc-Upto now dq h)

pub Upto-mono : (now later : ℕ) (dq : List ℕ) → now ≤ later → Upto now dq → Upto later dq
Upto-mono now later [] p o = tt
Upto-mono now later (t ∷ dq) p o = (omega arith, Upto-mono now later dq p o.1)

pub Ordered-snoc :
    (lo now : ℕ) (dq : List ℕ)
    → lo ≤ now
    → Ordered lo dq
    → Upto now dq
    → Ordered lo (dq ++ now ∷ [])
Ordered-snoc lo now [] p o u = (p, tt)
Ordered-snoc lo now (t ∷ dq) p o u = (o.0, Ordered-snoc t now dq u.0 o.1 u.1)

pub Upto-snoc : (now : ℕ) (dq : List ℕ) → Upto now dq → Upto now (dq ++ now ∷ [])
Upto-snoc now [] u = (omega arith, tt)
Upto-snoc now (t ∷ dq) u = (u.0, Upto-snoc now dq u.1)
