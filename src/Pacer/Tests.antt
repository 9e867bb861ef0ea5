-- ===== src/Pacer/Tests.antt =====
-- A pacer at 50 frames per second, and the theorems at concrete inputs.
use cast_mirror.Prelude.{ℕ, ◌*◌, false, ◌≡◌, refl, List, [], ◌∷◌}
use cast_mirror.Prelude.Int.{ℤ, pos, ◌-ℤ◌, ◌+ℤ◌, ◌*ℤ◌}
use cast_mirror.Pacer.{
  CapturedVideoFrame, FramePacer, no_frame, tick, submit, resync, take_pending, emit, stamp,
  elapsed_step, interval,
}
use cast_mirror.Pacer.Timestamps.{
  Call, on_submit, on_tick, on_take, stamps, stamps_of, step, emitted, Rise, stamps-Rise,
}

abbrev ms : ℕ → ℤ
ms n = pos (n * 1000000)

abbrev started : FramePacer
started = record {
  target_fps = 50;
  next_emit = ms 1000;
  last_emit_ts = pos 0;
  last_emit_now = ms 1000;
  pending = no_frame;
  pending_crop = (pos 0, pos 0);
  have_pending = false;
  spare = [];
  last = no_frame;
  last_crop = (pos 0, pos 0);
  have_last = false;
}

abbrev captured : CapturedVideoFrame
captured = record { pixels = 1 ∷ 2 ∷ []; timestamp = ms 990 }

-- A frame, a tick that emits it, an early tick, and a tick that sends it again.
abbrev calls : List Call
calls =
    on_submit captured (pos 0, pos 0)
    ∷ on_tick (ms 1000)
    ∷ on_tick (ms 1010)
    ∷ on_tick (ms 1021)
    ∷ on_take
    ∷ []

resent : stamps started calls ≡ ms 990 ∷ ms 1011 ∷ []
unfolding stamps stamps_of step emitted submit tick resync take_pending emit stamp elapsed_step
    interval ◌-ℤ◌ ◌+ℤ◌ ◌*ℤ◌
resent = refl

stamps-Rise_example : Rise (pos 0) (stamps started calls)
stamps-Rise_example = stamps-Rise started calls
