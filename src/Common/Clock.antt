-- ===== src/Common/Clock.antt =====
-- `time.time()` is a number of microseconds here: the resolution of the system's clock.
use Prim.Native.Nat.{ℕ}

abbrev pub sec : ℕ
sec = 1000000

abbrev pub minute : ℕ
minute = 60000000
