-- ===== src/Prelude/Time.antt =====
-- `std::chrono::steady_clock`: a time point is a signed count of nanoseconds, and a default one is 0.
use cast_mirror.Prelude.Tests.{leb, ◌==◌, if◌then◌else◌}
use cast_mirror.Prelude.Int.{ℤ, pos, negsuc}
use Prim.Native.Nat.{ℕ, suc, ◌-◌, ◌*◌, ◌/◌}
use mathlib.Core.Bool.{Bool, false}

-- Division that truncates towards zero, as `duration_cast` does.
abbrev pub quot : ℤ → ℕ → ℤ
quot (pos n) k = pos (n / k)
quot (negsuc n) k = let q = suc n / k in if q == 0 then pos 0 else negsuc (q - 1)

abbrev pub millis : ℤ → ℤ
millis t = quot t 1000000

abbrev pub seconds : ℤ → ℤ
seconds t = quot t 1000000000

-- `count >= n` for an `n` that is not negative.
abbrev pub at_least : ℕ → ℤ → Bool
at_least n (pos m) = leb n m
at_least n (negsuc m) = false

-- `time_since_epoch().count() == 0`
abbrev pub is_unset : ℤ → Bool
is_unset (pos n) = n == 0
is_unset (negsuc n) = false

-- `now - last >= n` units of a duration of `unit` nanoseconds, compared exactly.
abbrev pub elapsed_at_least : ℕ → ℕ → ℤ → Bool
elapsed_at_least n unit d = at_least (n * unit) d
