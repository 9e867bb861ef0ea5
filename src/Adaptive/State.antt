-- ===== src/Adaptive/State.antt =====
-- The controller's state, the ladder, and the methods that set it up.
use cast_mirror.Prelude.{
  ℕ, suc, ◌-◌, ◌%◌, min, Bool, false, ◌&&◌, ltb, leb, if◌then◌else◌, List, [], ◌∷◌, get_or,
}
use cast_mirror.Prelude.Int.{ℤ, pos, negsuc, ◌-ℤ◌}
use cast_mirror.Prelude.Double.{Double}
use cast_mirror.Stream.{Resolution, QualityPreset, StreamStats}

pub record LadderRung : Type 0 where
  pub resolution : Resolution
  pub framerate : ℕ
  pub bitrate_kbps : ℕ

abbrev pub rung_of : ℕ → ℕ → ℕ → ℕ → LadderRung
rung_of w h fps kbps = record {
  resolution = record { width = w; height = h };
  framerate = fps;
  bitrate_kbps = kbps;
}

-- `BuildLadder`
abbrev pub ladder : List LadderRung
ladder =
    rung_of 3840 2160 60 25000
    ∷ rung_of 3840 2160 30 16000
    ∷ rung_of 2560 1440 60 12000
    ∷ rung_of 1920 1080 60 8000
    ∷ rung_of 1920 1080 30 5000
    ∷ rung_of 1280 720 60 3500
    ∷ rung_of 1280 720 30 2000
    ∷ rung_of 960 540 30 1200
    ∷ []

-- `ladder_[i]`; the index never leaves the ladder (Rungs).
unfoldable pub rung : ℕ → LadderRung
rung i = get_or ladder i (rung_of 960 540 30 1200)

abbrev pub last_rung : ℕ
last_rung = 7

-- `x & ~1`
abbrev pub even : ℕ → ℕ
even x = x - x % 2

-- `std::clamp(delay_ms, kMinPlayoutDelayMs, kMaxPlayoutDelayMs)`
unfoldable pub clamp_delay : ℤ → ℕ
clamp_delay (pos n) = if ltb n 150 then 150 else if ltb 400 n then 400 else n
clamp_delay (negsuc n) = 150

pub record AdaptiveController (W : Type 0) : Type 0 where
  pub preset : QualityPreset
  pub current_rung_idx : ℕ
  pub current_bitrate_kbps : ℕ
  pub current_target_delay_ms : ℕ
  pub current_resolution : Resolution
  pub current_framerate : ℕ
  pub max_encode_width : ℕ
  pub max_encode_height : ℕ
  pub initial_framerate : ℕ
  pub enabled : Bool
  pub allow_resolution_change : Bool
  pub user_bitrate_cap_kbps : ℕ
  pub custom_target_kbps : ℕ
  pub stability_cap_kbps : ℕ
  pub recent_loss_fraction : W
  pub recent_rtt_ms : W
  pub recent_jitter_ms : W
  pub ewma_rtt_ms : W
  pub ewma_jitter_ms : W
  pub ewma_initialized : Bool
  pub recent_nack_keys : List ℕ
  pub recent_pli : Bool
  pub recent_feedback : Bool
  pub consecutive_loss_events : ℕ
  pub consecutive_clean_seconds : ℕ
  pub consecutive_clean_delay_intervals : ℕ
  pub eval_interval_ms : ℕ
  pub rtt_rising_ticks : ℕ
  pub last_eval_rtt : W
  pub stability_cap_clean_ticks : ℕ
  pub last_eval_time : ℤ
  pub last_downshift_time : ℤ
  pub last_floor_warning_time : ℤ

-- The first rung from `i` on, of `n` that are left, that passes the test.
unfoldable pub find_rung : (LadderRung → Bool) → ℕ → List LadderRung → ℕ → ℕ
find_rung fits i [] default = default
find_rung fits i (r ∷ rs) default = if fits r then i else find_rung fits (suc i) rs default

module _ {W : Type 0} (d : Double W) where
  abbrev zero_ms : W
  zero_ms = d.ratio 0 1

  unfoldable pub reset_feedback_window : AdaptiveController W → ℤ → AdaptiveController W
  reset_feedback_window c now = record c {
    recent_loss_fraction = zero_ms;
    recent_rtt_ms = zero_ms;
    recent_jitter_ms = zero_ms;
    ewma_rtt_ms = zero_ms;
    ewma_jitter_ms = zero_ms;
    ewma_initialized = false;
    recent_pli = false;
    recent_feedback = false;
    recent_nack_keys = [];
    rtt_rising_ticks = 0;
    last_eval_rtt = zero_ms;
    consecutive_loss_events = 0;
    consecutive_clean_seconds = 0;
    consecutive_clean_delay_intervals = 0;
    last_eval_time = now;
  }

  -- The index that `Initialize` takes: 3 unless a rung fits the target.
  unfoldable pub initial_rung : StreamStats → ℕ
  initial_rung target =
      find_rung
        (λ r.
          leb r.resolution.width target.current_resolution.width
          && leb r.framerate target.current_framerate
          && leb r.bitrate_kbps target.bitrate_kbps)
        0 ladder 3

  -- `Initialize`; the clock is read once, and 10 seconds are 10 ^ 10 nanoseconds.
  unfoldable pub initialize :
      AdaptiveController W → StreamStats → QualityPreset → ℤ → AdaptiveController W
  unfolding ◌-ℤ◌
  initialize c target preset now =
      let idx = initial_rung target in
      let max_w = target.current_resolution.width in
      let max_h = target.current_resolution.height in
      let fps = if ltb 0 target.current_framerate then target.current_framerate else 60 in
      let window = reset_feedback_window c now in
      record window {
        preset = preset;
        current_target_delay_ms = elim target.target_delay_ms [
          | pos n ↦ if ltb 0 n then clamp_delay (pos n) else 200
          | negsuc n ↦ 200
        ];
        current_bitrate_kbps = target.bitrate_kbps;
        max_encode_width = max_w;
        max_encode_height = max_h;
        initial_framerate = fps;
        user_bitrate_cap_kbps = target.bitrate_kbps;
        custom_target_kbps = target.bitrate_kbps;
        stability_cap_kbps = 0;
        last_downshift_time = now -ℤ pos 10000000000;
        last_floor_warning_time = pos 0;
        current_rung_idx = idx;
        current_resolution = record {
          width = even (min (rung idx).resolution.width max_w);
          height = even (min (rung idx).resolution.height max_h);
        };
        current_framerate = min (rung idx).framerate fps;
      }

  unfoldable pub set_bitrate_cap : AdaptiveController W → ℕ → AdaptiveController W
  set_bitrate_cap c kbps = record c {
    user_bitrate_cap_kbps = kbps;
    custom_target_kbps = kbps;
    current_bitrate_kbps =
        if ltb 0 kbps && ltb kbps c.current_bitrate_kbps then kbps else c.current_bitrate_kbps;
  }

  -- The highest rung within the bitrate and within what the session started with, or the floor.
  unfoldable pub best_rung : AdaptiveController W → ℕ → ℕ
  best_rung c kbps =
      find_rung
        (λ r.
          leb r.bitrate_kbps kbps
          && leb r.resolution.width c.max_encode_width
          && leb r.resolution.height c.max_encode_height
          && leb r.framerate c.initial_framerate)
        0 ladder last_rung

  unfoldable pub reset_rung_for_bitrate : AdaptiveController W → ℕ → ℤ → AdaptiveController W
  unfolding ◌-ℤ◌
  reset_rung_for_bitrate c kbps now = record c {
    current_rung_idx = best_rung c kbps;
    current_bitrate_kbps = (rung (best_rung c kbps)).bitrate_kbps;
    stability_cap_kbps = 0;
    consecutive_loss_events = 0;
    consecutive_clean_seconds = 0;
    last_downshift_time = now -ℤ pos 10000000000;
  }

  unfoldable pub set_playout_delay : AdaptiveController W → ℤ → AdaptiveController W
  set_playout_delay c delay_ms = record c { current_target_delay_ms = clamp_delay delay_ms }

-- `StepUpPlayoutDelay` and `StepDownPlayoutDelay` on the delay.
unfoldable pub step_up : ℕ → ℕ
step_up delay =
    if ltb delay 200 then 200 else if ltb delay 300 then 300 else if ltb delay 400 then 400 else 400

unfoldable pub step_down : ℕ → ℕ
step_down delay =
    if ltb 300 delay then 300 else if ltb 200 delay then 200 else if ltb 150 delay then 150 else 150
