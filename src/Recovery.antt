-- ===== src/Recovery.antt =====
-- core/src/session_recovery.cc and core/include/castcore/session_recovery.h: the window in which a
-- dropped connection is tried again. Times are the steady clock's nanoseconds; the reason of a drop,
-- which only the log shows, is left out. The attempt counter is an `int` that does not
-- reach its bound.
pub mod Windows
mod Tests
use cast_mirror.Prelude.{ℕ, ◌+◌, Bool, true, false, not, ltb, if◌then◌else◌}
use cast_mirror.Prelude.Int.{ℤ, pos, negsuc, ◌-ℤ◌, ltb_ℤ}
use cast_mirror.Prelude.Time.{seconds, elapsed_at_least}

pub record SessionRecovery : Type 0 where
  pub is_recovering : Bool
  pub max_timeout_seconds : ℕ
  pub attempt_count : ℕ
  pub recovery_start_time : ℤ

-- `SetTimeoutSeconds` of an `int`.
unfoldable pub set_timeout_seconds : SessionRecovery → ℤ → SessionRecovery
set_timeout_seconds r (pos n) = record r { max_timeout_seconds = if ltb 0 n then n else 30 }
set_timeout_seconds r (negsuc n) = record r { max_timeout_seconds = 30 }

unfoldable pub start_recovery : SessionRecovery → ℤ → Bool × SessionRecovery
start_recovery r now =
    if r.is_recovering
    then (false, r)
    else (true, record r { is_recovering = true; attempt_count = 0; recovery_start_time = now })

unfoldable pub reset : SessionRecovery → SessionRecovery
reset r = record r { is_recovering = false; attempt_count = 0 }

unfoldable pub has_timed_out : SessionRecovery → ℤ → Bool
has_timed_out r now =
    if not r.is_recovering
    then false
    else elapsed_at_least r.max_timeout_seconds 1000000000 (now -ℤ r.recovery_start_time)

unfoldable pub get_elapsed_seconds : SessionRecovery → ℤ → ℤ
get_elapsed_seconds r now =
    if not r.is_recovering then pos 0 else seconds (now -ℤ r.recovery_start_time)

unfoldable pub increment_attempt : SessionRecovery → SessionRecovery
increment_attempt r = record r { attempt_count = r.attempt_count + 1 }
