-- ===== src/Control/Settling.antt =====
-- How sessions end.
use Prim.Native.String.{String}
use cast_mirror.Prelude.{Bool, true, false, if◌then◌else◌, ◌≡◌, refl, arith}
use cast_mirror.Session.{
  SessionState, idle, failed, is_valid_transition, StateMachine, transition_to,
}
use cast_mirror.Recovery as Window
use cast_mirror.Control.{CastSession, state, enter_stopping, settle, hang_up, stop}

module _ {C : Type 0} where
  -- Where the last transitions of a stop lead.
  pub settle-enter_stopping :
      (m : StateMachine C) (failing : Bool) (reason : String)
      → (settle (enter_stopping m) failing reason).current_state
        ≡ (if failing then failed else idle)
  unfolding settle enter_stopping transition_to is_valid_transition
  settle-enter_stopping m true reason = ground arith
  settle-enter_stopping m false reason = ground arith

  -- What holds after a stop.
  abbrev pub Settled : CastSession C → SessionState → Type 0
  Settled s to =
      (s.stop_requested ≡ true)
      × (s.is_streaming ≡ false)
      × (s.is_capturing ≡ false)
      × (s.is_frozen ≡ false)
      × (s.is_audio_muted ≡ false)
      × (s.recovery.is_recovering ≡ false)
      × (state s ≡ to)

  -- A stop, where none was requested before, ends the stream, the capture, the recovery and the two toggles, and
  -- leaves the machine failed where a failure was noted and idle where none was, from whatever state.
  pub stop-Settled :
      (s : CastSession C)
      → s.stop_requested ≡ false
      → Settled (stop s) (if s.fail_requested then failed else idle)
  unfolding stop hang_up Window.reset
  stop-Settled s fresh = rw (fresh) (
    refl,
    refl,
    refl,
    refl,
    refl,
    refl,
    settle-enter_stopping s.machine s.fail_requested s.fail_reason,
  )

  pub stopped_stays : (s : CastSession C) → s.stop_requested ≡ true → stop s ≡ s
  unfolding stop
  stopped_stays s stopped = rw (stopped) refl
