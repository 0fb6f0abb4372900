-- ===== src/Base/Clock.antt =====
-- What the code uses of Go's package time: times and durations in nanoseconds.
use group_bridge.Base.Equality.{if◌then◌else◌}
use group_bridge.Base.Numbers.{ltb, ℤ, pos, negsuc, within}
use Prim.Native.Nat.{ℕ, suc, ◌+◌, ◌-◌, ◌*◌, ◌%◌, ◌^◌}
use mathlib.Core.Bool.{Bool, false, not}
use mathlib.Core.Option.{Option, none, some}

abbrev pub second : ℕ
second = 10 ^ 9

-- The number of an int64 whose bits are these.
unfoldable pub int64 : ℕ → ℤ
int64 bits = if ltb bits (2 ^ 63) then pos bits else negsuc (2 ^ 64 - bits - 1)

-- time.Duration(n) * time.Second, which wraps around.
unfoldable pub seconds : ℤ → ℤ
seconds (pos n) = int64 (n * second % 2 ^ 64)
seconds (negsuc n) = int64 ((2 ^ 64 - suc n * second % 2 ^ 64) % 2 ^ 64)

-- A time and a duration.
unfoldable pub later : ℕ → ℤ → ℤ
later n (pos m) = pos (n + m)
later n (negsuc m) = if ltb m n then pos (n - suc m) else negsuc (m - n)

-- Whether a time is more than thirty seconds ahead; `none` is the zero time.
unfoldable pub is_fresh : ℕ → Option ℤ → Bool
is_fresh now none = false
is_fresh now (some expiry) = not (within expiry (pos (now + 30 * second)) 0)
