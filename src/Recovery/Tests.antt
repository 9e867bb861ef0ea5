-- ===== src/Recovery/Tests.antt =====
-- A window of 30 seconds, opened by one thread and noticed by another.
use cast_mirror.Prelude.{ℕ, ◌*◌, false}
use cast_mirror.Prelude.Int.{ℤ, pos}
use cast_mirror.Recovery.{SessionRecovery}

abbrev second : ℕ → ℤ
second n = pos (n * 1000000000)

abbrev closed : SessionRecovery
closed = record {
  is_recovering = false;
  max_timeout_seconds = 30;
  attempt_count = 0;
  recovery_start_time = pos 0;
}
