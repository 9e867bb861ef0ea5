-- ===== src/Adaptive/Tests.antt =====
-- A controller over fixed-point numbers, and the theorems at concrete inputs.
use cast_mirror.Prelude.{ℕ, ◌*◌, ◌≤◌, true, false, ◌≡◌, ltb, refl, [], arith}
use cast_mirror.Prelude.Int.{ℤ, pos, ◌-ℤ◌}
use cast_mirror.Prelude.Double.{fixed_point}
use cast_mirror.Stream.{balanced, StreamStats}
use cast_mirror.Adaptive.State.{AdaptiveController, rung, initial_rung, find_rung}
use cast_mirror.Adaptive.Check.{
  check_disabled, go_down, take_window, check_adaptation, severe, window_of,
}
use cast_mirror.Adaptive.Caps.{check_adaptation-Capped}

abbrev second : ℕ
second = 1000000000

abbrev target : StreamStats
target = record {
  bitrate_kbps = 1000;
  target_delay_ms = pos 400;
  current_resolution = record { width = 1920; height = 1080 };
  current_framerate = 60;
}

-- A session at a custom bitrate of 1000 kbps, with adaptation off and 20 % loss reported.
abbrev strained : AdaptiveController ℤ
strained = record {
  preset = balanced;
  current_rung_idx = 3;
  current_bitrate_kbps = 1000;
  current_target_delay_ms = 400;
  current_resolution = record { width = 1920; height = 1080 };
  current_framerate = 60;
  max_encode_width = 1920;
  max_encode_height = 1080;
  initial_framerate = 60;
  enabled = false;
  allow_resolution_change = true;
  user_bitrate_cap_kbps = 1000;
  custom_target_kbps = 1000;
  stability_cap_kbps = 0;
  recent_loss_fraction = pos 13107;
  recent_rtt_ms = pos 0;
  recent_jitter_ms = pos 0;
  ewma_rtt_ms = pos 0;
  ewma_jitter_ms = pos 0;
  ewma_initialized = false;
  recent_nack_keys = [];
  recent_pli = false;
  recent_feedback = true;
  consecutive_loss_events = 0;
  consecutive_clean_seconds = 0;
  consecutive_clean_delay_intervals = 14;
  eval_interval_ms = 1000;
  rtt_rising_ticks = 0;
  last_eval_rtt = pos 0;
  stability_cap_clean_ticks = 0;
  last_eval_time = pos 0;
  last_downshift_time = pos 0;
  last_floor_warning_time = pos 0;
}

-- The target fits no rung, so the controller starts on rung 3, of 8000 kbps.
initial_rung_low : initial_rung fixed_point target ≡ 3
unfolding initial_rung find_rung
initial_rung_low = refl

-- With adaptation disabled, the emergency downshift goes to the next rung's bitrate, above the cap that held before.
raised_over_cap :
    (strained.current_bitrate_kbps ≤ strained.user_bitrate_cap_kbps)
    × (ltb strained.user_bitrate_cap_kbps
          (check_adaptation fixed_point strained
            (pos (20 * second))
            target).controller.current_bitrate_kbps
        ≡ true)
unfolding check_adaptation check_disabled go_down take_window rung ◌-ℤ◌ severe window_of
raised_over_cap = (omega arith, refl)

abbrev rising : AdaptiveController ℤ
rising = record strained { enabled = true }

check_adaptation-Capped_example :
    let c' = (check_adaptation fixed_point rising (pos (20 * second)) target).controller in
    (c'.user_bitrate_cap_kbps ≡ 1000) × (c'.current_bitrate_kbps ≤ 1000)
check_adaptation-Capped_example =
    check_adaptation-Capped fixed_point rising (pos (20 * second)) target refl (omega arith)
      (omega arith)

abbrev calm : AdaptiveController ℤ
calm = record strained { enabled = true; recent_loss_fraction = pos 0 }
