-- ===== src/Adaptive/Delay.antt =====
-- When the playout delay moves.
use cast_mirror.Prelude.{◌≤◌, ◌<◌, true, false, ◌≡◌, length, arith}
use cast_mirror.Prelude.Int.{ℤ}
use cast_mirror.Prelude.Double.{Double}
use cast_mirror.Stream.{StreamStats}
use cast_mirror.Adaptive.State.{AdaptiveController, step_up, step_down}
use cast_mirror.Adaptive.Check.{
  Window, apply_caps, go_down, window_of, take_window, adapt_delay, track_rtt, under_pressure,
  lift_stability_cap, ramp_up, upshift, without_pressure, derive_target, check_enabled,
  check_disabled, check_adaptation,
}

module _ {W : Type 0} (d : Double W) where
  -- Only `adapt_delay` moves the delay.
  without_pressure_delay :
      (c : AdaptiveController W) (now : ℤ)
      → (without_pressure d c now).current_target_delay_ms ≡ c.current_target_delay_ms
  unfolding without_pressure upshift ramp_up lift_stability_cap apply_caps
  without_pressure_delay c now = ground arith

  under_pressure_delay :
      (c : AdaptiveController W) (w : Window W) (now : ℤ)
      → (under_pressure d c w now).current_target_delay_ms ≡ c.current_target_delay_ms
  unfolding under_pressure go_down apply_caps
  under_pressure_delay c w now = ground arith

  check_enabled_delay :
      (c : AdaptiveController W) (w : Window W) (now : ℤ) (out : StreamStats)
      → (check_enabled d c w now out).controller.current_target_delay_ms
        ≡ (adapt_delay d c w now).current_target_delay_ms
  unfolding check_enabled derive_target track_rtt
  check_enabled_delay c w now out =
      let t = track_rtt d (adapt_delay d c w now) w in
      ground (arith, under_pressure_delay t w now, without_pressure_delay t now)

  adapt_delay_falls :
      (c : AdaptiveController W) (w : Window W) (now : ℤ)
      → c.current_target_delay_ms ≤ 400
      → (adapt_delay d c w now).current_target_delay_ms < c.current_target_delay_ms
      → (14 ≤ c.consecutive_clean_delay_intervals) × (w.nacks ≡ 0) × (w.pli ≡ false)
  unfolding adapt_delay step_up step_down
  adapt_delay_falls c w now le h = ground arith

-- The buffer is shortened only on a link that has been clean for long: an evaluation that lowers the
-- playout delay is one with adaptation enabled, after 14 clean ones, with no lost packet reported
-- and no picture loss since the last evaluation.
pub check_adaptation_delay_falls :
    {W : Type 0} (d : Double W) (c : AdaptiveController W) (now : ℤ) (out : StreamStats)
    → c.current_target_delay_ms ≤ 400
    → (check_adaptation d c now out).controller.current_target_delay_ms < c.current_target_delay_ms
    → (c.enabled ≡ true)
      × (14 ≤ c.consecutive_clean_delay_intervals)
      × (length c.recent_nack_keys ≡ 0)
      × (c.recent_pli ≡ false)
unfolding check_adaptation check_disabled go_down
check_adaptation_delay_falls {W} d c now out le h =
    let c1 : AdaptiveController W = record c { last_eval_time = now; recent_feedback = false } in
    unfold take_window window_of in
    ground (
      arith,
      check_enabled_delay d (take_window d c1) (window_of d c1) now out,
      adapt_delay_falls d (take_window d c1) (window_of d c1) now,
    )
