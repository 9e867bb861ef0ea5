-- ===== src/Recovery/Windows.antt =====
-- Recovery windows over sequences of calls.
use cast_mirror.Prelude.{true, false, ◌≡◌, refl, sym, subst, List, [], ◌∷◌}
use cast_mirror.Prelude.Int.{ℤ, ◌-ℤ◌}
use cast_mirror.Prelude.Time.{elapsed_at_least}
use cast_mirror.Recovery.{SessionRecovery, start_recovery, has_timed_out, increment_attempt}

-- What the threads call while a window is open, at any times: everything but `Reset`.
pub data Call : Type 0 where
  on_start : ℤ → Call
  on_attempt : Call

unfoldable pub run : SessionRecovery → List Call → SessionRecovery
run r [] = r
run r (on_start now ∷ calls) = run (start_recovery r now).1 calls
run r (on_attempt ∷ calls) = run (increment_attempt r) calls

started_again :
    (r : SessionRecovery) (now : ℤ) → r.is_recovering ≡ true → (start_recovery r now).1 ≡ r
unfolding start_recovery
started_again r now h = rw (h) refl

abbrev Opened : SessionRecovery → SessionRecovery → Type 0
Opened r s =
    (s.is_recovering ≡ true)
    × (s.recovery_start_time ≡ r.recovery_start_time)
    × (s.max_timeout_seconds ≡ r.max_timeout_seconds)

open_window :
    (r : SessionRecovery) (calls : List Call) → r.is_recovering ≡ true → Opened r (run r calls)
unfolding run increment_attempt
open_window r [] h = (h, refl, refl)
open_window r (on_start now ∷ calls) h =
    subst (λ s. Opened r (run s calls)) (sym (started_again r now h)) (open_window r calls h)
open_window r (on_attempt ∷ calls) h = open_window (increment_attempt r) calls h

timed_out_from :
    (r s : SessionRecovery) (now : ℤ)
    → Opened r s
    → has_timed_out s now
      ≡ elapsed_at_least r.max_timeout_seconds 1000000000 (now -ℤ r.recovery_start_time)
unfolding has_timed_out
timed_out_from r s now (e, t, m) = rw (e, t, m) refl

just_opened :
    (r : SessionRecovery) (opened : ℤ)
    → r.is_recovering ≡ false
    → (start_recovery r opened).1
      ≡ record r { is_recovering = true; attempt_count = 0; recovery_start_time = opened }
unfolding start_recovery
just_opened r opened closed = rw (closed) refl

-- Threads that notice the same drop do not extend its window, nor do attempts: where no window was
-- open and one is opened, then after any further starts and attempts, it has timed out exactly where
-- its time limit has gone by since it was opened.
pub window_from_first :
    (r : SessionRecovery) (opened : ℤ) (calls : List Call) (now : ℤ)
    → r.is_recovering ≡ false
    → has_timed_out (run r (on_start opened ∷ calls)) now
      ≡ elapsed_at_least r.max_timeout_seconds 1000000000 (now -ℤ opened)
unfolding run
window_from_first r opened calls now closed =
    let first = record r {
      is_recovering = true;
      attempt_count = 0;
      recovery_start_time = opened;
    } in
    subst
      (λ s.
        has_timed_out (run s calls) now
        ≡ elapsed_at_least r.max_timeout_seconds 1000000000 (now -ℤ opened))
      (sym (just_opened r opened closed))
      (timed_out_from first (run first calls) now (open_window first calls refl))
