-- ===== src/Adaptive/Rungs.antt =====
-- The controller's invariant: the rung stays on the ladder, the playout delay in its range, and
-- resolution and frame rate within what the session started with.
use cast_mirror.Prelude.{ℕ, ◌%◌, ◌≤◌, ◌<◌, Bool, ◌≡◌, List, [], ◌∷◌}
use cast_mirror.Prelude.Int.{ℤ}
use cast_mirror.Prelude.Double.{Double}
use cast_mirror.Stream.{StreamStats}
use cast_mirror.Rtcp.{RtcpFeedback}
use cast_mirror.Adaptive.State.{
  AdaptiveController, reset_feedback_window, set_bitrate_cap, reset_rung_for_bitrate,
  set_playout_delay,
}
use cast_mirror.Adaptive.Feedback.{on_feedback}
use cast_mirror.Adaptive.Check.{check_adaptation}

pub record Inv {W : Type 0} (c : AdaptiveController W) : Type 0 where
  pub on_ladder : c.current_rung_idx < 8
  pub delay_low : 150 ≤ c.current_target_delay_ms
  pub delay_high : c.current_target_delay_ms ≤ 400
  pub width_fits : c.current_resolution.width ≤ c.max_encode_width
  pub height_fits : c.current_resolution.height ≤ c.max_encode_height
  pub width_even : c.current_resolution.width % 2 ≡ 0
  pub height_even : c.current_resolution.height % 2 ≡ 0
  pub rate_fits : c.current_framerate ≤ c.initial_framerate

-- The calls that change the controller.
pub data Call : Type 0 where
  feedback : RtcpFeedback → Call
  check : ℤ → StreamStats → Call
  cap : ℕ → Call
  rung_reset : ℕ → ℤ → Call
  delay : ℤ → Call
  window_reset : ℤ → Call
  enable allow_resolution : Bool → Call

module _ {W : Type 0} (d : Double W) where
  unfoldable pub step : AdaptiveController W → Call → AdaptiveController W
  step c (feedback fb) = on_feedback d c fb
  step c (check now out) = (check_adaptation d c now out).controller
  step c (cap kbps) = set_bitrate_cap d c kbps
  step c (rung_reset kbps now) = reset_rung_for_bitrate d c kbps now
  step c (delay ms) = set_playout_delay d c ms
  step c (window_reset now) = reset_feedback_window d c now
  step c (enable on) = record c { enabled = on }
  step c (allow_resolution on) = record c { allow_resolution_change = on }

  unfoldable pub run : AdaptiveController W → List Call → AdaptiveController W
  run c [] = c
  run c (x ∷ calls) = run (step c x) calls
