-- ===== src/Adaptive/Check.antt =====
-- `CheckAdaptation`, phase by phase.
use cast_mirror.Prelude.{
  ℕ, suc, ◌+◌, ◌-◌, ◌*◌, ◌/◌, ◌%◌, ◌^◌, min, max, Bool, true, false, ◌&&◌, ◌||◌, not, ltb, leb,
  ◌==◌, if◌then◌else◌, [], length,
}
use cast_mirror.Prelude.Int.{ℤ, pos, ◌-ℤ◌}
use cast_mirror.Prelude.Double.{Double}
use cast_mirror.Prelude.Time.{millis, seconds, at_least, is_unset, elapsed_at_least}
use cast_mirror.Stream.{same_resolution, StreamStats}
use cast_mirror.Adaptive.State.{AdaptiveController, rung, last_rung, even, step_up, step_down}

-- What the window held when it was taken.
pub record Window (W : Type 0) : Type 0 where
  pub loss : W
  pub rtt : W
  pub jitter : W
  pub nacks : ℕ
  pub pli : Bool

-- What the call returns, the controller after it, and the settings that it may have written.
pub record Checked (W : Type 0) : Type 0 where
  pub changed : Bool
  pub controller : AdaptiveController W
  pub settings : StreamStats

module _ {W : Type 0} where
  -- The `apply_caps` lambda.
  abbrev pub effective_cap : AdaptiveController W → ℕ
  effective_cap c =
      if ltb 0 c.stability_cap_kbps
      then (if ltb 0 c.user_bitrate_cap_kbps
          then min c.user_bitrate_cap_kbps c.stability_cap_kbps
          else c.stability_cap_kbps)
      else c.user_bitrate_cap_kbps

  unfoldable pub apply_caps : AdaptiveController W → AdaptiveController W
  apply_caps c =
      let cap = effective_cap c in
      record c {
        current_bitrate_kbps =
            if ltb 0 cap && ltb cap c.current_bitrate_kbps then cap else c.current_bitrate_kbps;
      }

  -- `millis` since the last downshift, tested against a bound.
  abbrev pub since_downshift : AdaptiveController W → ℤ → ℤ
  since_downshift c now = now -ℤ c.last_downshift_time

  -- The controller's settings, written out.
  abbrev pub report : AdaptiveController W → StreamStats → StreamStats
  report c out = record out {
    bitrate_kbps = c.current_bitrate_kbps;
    current_resolution = c.current_resolution;
    current_framerate = c.current_framerate;
    target_delay_ms = pos c.current_target_delay_ms;
  }

  -- One rung down.
  unfoldable pub go_down : AdaptiveController W → ℤ → AdaptiveController W
  go_down c now = record c {
    current_rung_idx = suc c.current_rung_idx;
    current_bitrate_kbps = (rung (suc c.current_rung_idx)).bitrate_kbps;
    last_downshift_time = now;
  }

module _ {W : Type 0} (d : Double W) where
  -- The taken window, and the controller with the window cleared.
  unfoldable pub window_of : AdaptiveController W → Window W
  window_of c = record {
    loss = c.recent_loss_fraction;
    rtt = c.recent_rtt_ms;
    jitter = c.recent_jitter_ms;
    nacks = length c.recent_nack_keys;
    pli = c.recent_pli;
  }

  unfoldable pub take_window : AdaptiveController W → AdaptiveController W
  take_window c = record c {
    recent_loss_fraction = d.ratio 0 1;
    recent_rtt_ms = d.ratio 0 1;
    recent_jitter_ms = d.ratio 0 1;
    recent_nack_keys = [];
    recent_pli = false;
  }

  -- `loss > n / 100`
  abbrev pub loss_above : ℕ → Window W → Bool
  loss_above n w = d.lt (d.ratio n 100) w.loss

  unfoldable pub severe : Window W → Bool
  severe w = loss_above 10 w || w.pli || leb 50 w.nacks && loss_above 3 w

  -- The branch with adaptation disabled.
  unfoldable pub check_disabled : AdaptiveController W → Window W → ℤ → StreamStats → Checked W
  check_disabled c w now out =
      if severe w
        && at_least 3000 (millis (since_downshift c now))
        && ltb c.current_rung_idx last_rung
      then (let c' = go_down c now in
          record { changed = true; controller = c'; settings = report c' out })
      else record { changed = false; controller = c; settings = out }

  abbrev pub nack_pressure : Window W → Bool
  nack_pressure w =
      loss_above 1 w && leb (if d.lt (d.ratio 30 1) w.jitter then 6 else 4) w.nacks
      || leb 50 w.nacks

  abbrev pub severe_feedback : Window W → Bool
  severe_feedback w =
      loss_above 3 w && leb (if d.lt (d.ratio 30 1) w.jitter then 10 else 8) w.nacks
      || leb 50 w.nacks
      || w.pli

  abbrev pub can_downshift : AdaptiveController W → ℤ → Bool
  can_downshift c now = at_least (4 * c.eval_interval_ms) (millis (since_downshift c now))

  -- The playout delay.
  unfoldable pub adapt_delay : AdaptiveController W → Window W → ℤ → AdaptiveController W
  adapt_delay c w now =
      if d.lt (d.ratio 30 1) c.ewma_jitter_ms || loss_above 3 w || nack_pressure w || w.pli
      then record c {
        current_target_delay_ms =
            if can_downshift c now
            then step_up c.current_target_delay_ms
            else c.current_target_delay_ms;
        consecutive_clean_delay_intervals = 0;
      }
      else if d.le w.loss (d.ratio 1 10000)
          && w.nacks == 0
          && not w.pli
          && d.lt c.ewma_rtt_ms (d.ratio 25 1)
          && d.lt c.ewma_jitter_ms (d.ratio 8 1)
      then (if leb 15 (suc c.consecutive_clean_delay_intervals)
          then record c {
            current_target_delay_ms = step_down c.current_target_delay_ms;
            consecutive_clean_delay_intervals = 0;
          }
          else record c {
            consecutive_clean_delay_intervals = suc c.consecutive_clean_delay_intervals;
          })
      else record c { consecutive_clean_delay_intervals = 0 }

  -- The trend of the round-trip time.
  unfoldable pub track_rtt : AdaptiveController W → Window W → AdaptiveController W
  track_rtt c w =
      let sample = if d.lt (d.ratio 0 1) w.rtt then w.rtt else c.ewma_rtt_ms in
      record c {
        rtt_rising_ticks =
            if d.lt (d.ratio 0 1) c.last_eval_rtt
              && d.lt (d.add c.last_eval_rtt (d.ratio 3 1)) sample
            then suc c.rtt_rising_ticks
            else 0;
        last_eval_rtt = sample;
      }

  abbrev pub rtt_trend_pressure : AdaptiveController W → Bool
  rtt_trend_pressure c = leb 3 c.rtt_rising_ticks

  -- Under pressure: an emergency downshift, an ordinary one, or a warning at the floor.
  unfoldable pub under_pressure : AdaptiveController W → Window W → ℤ → AdaptiveController W
  under_pressure c w now =
      let events = min 2 (
        c.consecutive_loss_events + (if severe_feedback w || rtt_trend_pressure c then 2 else 1)) in
      let c1 = record c { consecutive_loss_events = events; consecutive_clean_seconds = 0 } in
      let settled = λ (x : AdaptiveController W). record (apply_caps x) {
        consecutive_loss_events = 0;
        rtt_rising_ticks = 0;
      } in
      if (d.lt (d.ratio 15 100) w.loss || leb 50 w.nacks && loss_above 3 w)
        && at_least 3000 (millis (since_downshift c now))
        && ltb c.current_rung_idx last_rung
      then settled (go_down c1 now)
      else if leb 2 events && can_downshift c now
      then (let c2 = record c1 {
        stability_cap_kbps =
            if leb c.max_encode_width 1920
              && leb c.max_encode_height 1080
              && (c.stability_cap_kbps == 0 || ltb 8000 c.stability_cap_kbps)
            then 8000
            else c.stability_cap_kbps;
      } in
          if ltb c.current_rung_idx last_rung
          then settled (go_down c2 now)
          else if is_unset c.last_floor_warning_time
              || elapsed_at_least 10 1000000000 (now -ℤ c.last_floor_warning_time)
          then record c2 { last_floor_warning_time = now; consecutive_loss_events = 0 }
          else c2)
      else c1

  -- Without pressure: the ceiling's own counter,
  unfoldable pub lift_stability_cap : AdaptiveController W → AdaptiveController W
  lift_stability_cap c =
      if ltb 0 c.stability_cap_kbps
      then record c {
        stability_cap_clean_ticks = suc c.stability_cap_clean_ticks;
        stability_cap_kbps =
            if leb 10 (suc c.stability_cap_clean_ticks) then 0 else c.stability_cap_kbps;
      }
      else record c { stability_cap_clean_ticks = 0 }

  -- the ramp back to the target,
  unfoldable pub ramp_up : AdaptiveController W → AdaptiveController W
  ramp_up c =
      if ltb 0 c.custom_target_kbps
        && leb 8 c.consecutive_clean_seconds
        && c.rtt_rising_ticks == 0
        && ltb c.current_bitrate_kbps c.custom_target_kbps
      then (let gap = c.custom_target_kbps - c.current_bitrate_kbps in
          let step = max 500 (gap / 2) in
          record (apply_caps (record c {
            current_bitrate_kbps =
                min c.custom_target_kbps ((c.current_bitrate_kbps + step) % 2 ^ 32);
          })) { consecutive_clean_seconds = 0 })
      else c

  -- and the step up the ladder.
  unfoldable pub upshift : AdaptiveController W → ℤ → AdaptiveController W
  upshift c now =
      let next = rung (c.current_rung_idx - 1) in
      if (c.custom_target_kbps == 0 || leb c.custom_target_kbps c.current_bitrate_kbps)
        && leb 10 c.consecutive_clean_seconds
        && at_least 15 (seconds (since_downshift c now))
        && ltb 0 c.current_rung_idx
      then (if leb next.resolution.width c.max_encode_width
            && leb next.resolution.height c.max_encode_height
            && leb next.framerate c.initial_framerate
          then (if ltb 0 c.user_bitrate_cap_kbps && ltb c.user_bitrate_cap_kbps next.bitrate_kbps
              then record c { consecutive_clean_seconds = 0 }
              else record (apply_caps (record c {
                current_rung_idx = c.current_rung_idx - 1;
                current_bitrate_kbps = next.bitrate_kbps;
              })) { consecutive_clean_seconds = 0 })
          else record c { consecutive_clean_seconds = 0 })
      else c

  unfoldable pub without_pressure : AdaptiveController W → ℤ → AdaptiveController W
  without_pressure c now =
      let counted = record c {
        consecutive_loss_events = 0;
        consecutive_clean_seconds = suc c.consecutive_clean_seconds;
      } in
      upshift (ramp_up (lift_stability_cap counted)) now

  abbrev pub is_pressed : AdaptiveController W → Window W → Bool
  is_pressed c w =
      loss_above 3 w
      || d.lt (d.ratio 120 1) w.rtt
      || nack_pressure w
      || w.pli
      || rtt_trend_pressure c

  -- Resolution and frame rate follow the rung, within what the session started with.
  unfoldable pub derive_target : AdaptiveController W → AdaptiveController W
  derive_target c =
      let r = rung c.current_rung_idx in
      if c.allow_resolution_change
      then record c {
        current_resolution = record {
          width = even (min r.resolution.width c.max_encode_width);
          height = even (min r.resolution.height c.max_encode_height);
        };
        current_framerate = min r.framerate c.initial_framerate;
      }
      else c

  unfoldable pub check_enabled : AdaptiveController W → Window W → ℤ → StreamStats → Checked W
  check_enabled c w now out =
      let tracked = track_rtt (adapt_delay c w now) w in
      let moved =
        if is_pressed tracked w
        then under_pressure tracked w now
        else without_pressure tracked now in
      let c' = derive_target moved in
      let same =
        c'.current_bitrate_kbps == c.current_bitrate_kbps
        && (not c.allow_resolution_change
            || same_resolution c'.current_resolution c.current_resolution)
        && (not c.allow_resolution_change || c'.current_framerate == c.current_framerate)
        && c'.current_target_delay_ms == c.current_target_delay_ms in
      record { changed = not same; controller = c'; settings = if same then out else report c' out }

  unfoldable pub check_adaptation : AdaptiveController W → ℤ → StreamStats → Checked W
  check_adaptation c now out =
      if not (at_least c.eval_interval_ms (millis (now -ℤ c.last_eval_time)))
      then record { changed = false; controller = c; settings = out }
      else (let c1 = record c { last_eval_time = now; recent_feedback = false } in
          if not c.recent_feedback
          then record { changed = false; controller = c1; settings = out }
          else (let w = window_of c1 in
              let c2 = take_window c1 in
              if c.enabled then check_enabled c2 w now out else check_disabled c2 w now out))
