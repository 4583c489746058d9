-- ===== src/Time.antt =====
-- include/enet6/time.h: comparing millisecond clocks that wrap at 2 ^ 32.
use enet.Base.{ℕ, ◌+◌, ◌^◌, ◌<◌, ◌≡◌, Bool, true, false, not, leb, if◌then◌else◌, u32, sub32, arith}

-- `ENET_TIME_OVERFLOW`: a day
abbrev pub time_overflow : ℕ
time_overflow = 86400000

-- `ENET_TIME_LESS`
unfoldable pub time_less : ℕ → ℕ → Bool
time_less a b = leb time_overflow (sub32 a b)

-- `ENET_TIME_GREATER`
unfoldable pub time_greater : ℕ → ℕ → Bool
time_greater a b = leb time_overflow (sub32 b a)

-- `ENET_TIME_LESS_EQUAL`
unfoldable pub time_less_equal : ℕ → ℕ → Bool
unfolding time_greater
time_less_equal a b = not (time_greater a b)

-- `ENET_TIME_GREATER_EQUAL`
unfoldable pub time_greater_equal : ℕ → ℕ → Bool
unfolding time_less
time_greater_equal a b = not (time_less a b)

-- `ENET_TIME_DIFFERENCE`
unfoldable pub time_difference : ℕ → ℕ → ℕ
time_difference a b = if leb time_overflow (sub32 a b) then sub32 b a else sub32 a b

-- For a clock value t and a later one that is less than a day ahead, wrapped at 2 ^ 32: the later
-- one is not less, the difference is the elapsed time in either order, and t is less than the
-- later one exactly if time has passed.
pub elapsed :
    (t d : ℕ)
    → t < 2 ^ 32
    → d < time_overflow
    → (time_less (u32 (t + d)) t ≡ false)
      × (time_greater_equal (u32 (t + d)) t ≡ true)
      × (time_difference (u32 (t + d)) t ≡ d)
      × (time_difference t (u32 (t + d)) ≡ d)
      × (time_less t (u32 (t + d)) ≡ leb 1 d)
unfolding time_less time_greater_equal time_difference
elapsed t d ht hd = (ground arith, ground arith, ground arith, ground arith, ground arith)
