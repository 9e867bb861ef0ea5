-- ===== src/Engine/Tests.antt =====
-- Witnesses and runs.
use cast_mirror.Prelude.{◌≡◌, refl, ◌↔◌, inl, true, false, List, [], ◌∷◌, none, some, arith}
use cast_mirror.Prelude.Int.{pos}
use cast_mirror.Stream.{auto}
use cast_mirror.Config.{Json, null, default_config, h264}
use cast_mirror.Config.Limits.{IsValid}
use cast_mirror.Config.Reading.{reparsed}
use cast_mirror.Config.Files.{JsonText, Outcomes, copied}
use cast_mirror.Config.Options.{
  CaptureSource, window, build_session_options, no_overrides, default_options, preset_delay,
  adapts_resolution,
}
use cast_mirror.Engine.{Discovery, CastDevice, CastEngine, display_source}
use cast_mirror.Engine.Windows.{gone_window-last_source}
use cast_mirror.Engine.Calls.{
  launch, begin_casting_source, begin_casting, begin_target, find_target, detach, stop_detached,
  register, release_active, end_casting, release, is_held, drop_one,
}
use cast_mirror.Engine.Sessions.{
  Call, call, detached, stopped, registered, begin, ended, live_video, stop_all, run,
}
use cast_mirror.Engine.Accounts.{was_stopped}
use cast_mirror.Engine.Settings.{shown, shown-launch, plain_options}
use cast_mirror.Engine.LastDevice.{
  WindowInfo, last_source, last_options, last_options-build_session_options,
}

abbrev plain : JsonText
plain = record { Text = Json; empty = null; parse = λ j. some (reparsed j); dump = λ j. some j }

abbrev den : CastDevice
den = record {
  id = "den";
  name = "Den";
  model_name = "Chromecast";
  ip_address = "192.168.1.9";
  port = 8009;
  capabilities = 5;
}

-- One device, found by any name.
abbrev home : Discovery
home = record {
  State = Unit {0};
  find_device_by_id = λ id s. some den;
  find_device_by_ip = λ ip s. none;
  add_or_update_device = λ dev s. s;
}

abbrev working : Outcomes Json
working = record {
  makes_dir = true;
  opens = true;
  partial = none;
  backs_up = copied;
  renames = true;
  copies = copied;
  removes = true;
}

abbrev fresh : CastEngine home Json
fresh = record {
  config = default_config;
  files = record { target = none; backup = none; tmp = none };
  discovery = tt;
  is_initialized = true;
  active_session = none;
  session_logging = false;
  last_error = "";
  started = 0;
  calls = [];
  failed = [];
  held = [];
}

-- A start, a second one while the first still runs, a third by its steps, with the last two out of order, the failure of the
-- first, a change of the bitrate, and a stop.
abbrev busy : List (Call Json)
busy =
    begin false working "den" (pos 0) default_options
    ∷ begin false working "den" (pos 0) default_options
    ∷ detached
    ∷ registered den (pos 0) default_options
    ∷ stopped (some 1)
    ∷ ended 0 false
    ∷ live_video working 6000
    ∷ stop_all
    ∷ []

default_config-IsValid : IsValid default_config
default_config-IsValid = record {
  reconnect_window_s = (omega arith, omega arith);
  bitrate_kbps_auto = inl refl;
  bitrate_kbps_high = inl refl;
  bitrate_kbps_balanced = inl refl;
  bitrate_kbps_smooth = inl refl;
  bitrate_kbps_game = inl refl;
  bitrate_kbps_cinema = inl refl;
  max_bitrate_kbps = (omega arith, omega arith);
  capture_fps = (omega arith, omega arith);
  target_delay_ms = (omega arith, omega arith);
  window_width = (omega arith, omega arith);
  window_height = (omega arith, omega arith);
  launch_timeout_s = (omega arith, omega arith);
  answer_timeout_s = (omega arith, omega arith);
  audio_bitrate_bps = (omega arith, omega arith);
  schema_version = omega arith;
  last_source_kind = inl refl;
  adaptive_enabled = refl;
  low_latency_mode = refl;
}

shown-launch_example :
    shown (launch home plain working den (pos 1) (plain_options default_config none) fresh).config
    ≡ shown default_config
unfolding preset_delay
shown-launch_example =
    shown-launch home plain working den (pos 1) none fresh default_config-IsValid refl

last_options-build_session_options_example :
    (last_options default_config ≡ build_session_options default_config no_overrides)
    ↔ (h264 ≡ h264)
      × (true ≡ true)
      × (preset_delay auto (pos 200) ≡ pos 200)
      × (adapts_resolution auto true ≡ true)
last_options-build_session_options_example = last_options-build_session_options default_config

abbrev editor : CaptureSource
editor = record {
  kind = window;
  id = pos 73400331;
  name = "notes.txt";
  x = pos 0;
  y = pos 0;
  width = pos 800;
  height = pos 600;
}

abbrev other_window : WindowInfo
other_window = record {
  id = pos 9;
  title = "Mail";
  x = pos 0;
  y = pos 0;
  width = pos 640;
  height = pos 480;
}

editor_starts :
    (begin_casting_source home plain false working "den" editor default_options fresh).1 ≡ some 0
unfolding begin_casting begin_target find_target
editor_starts = refl

gone_window-last_source_example :
    last_source
      (begin_casting_source home plain false working "den" editor default_options fresh).0.config
      (other_window ∷ [])
    ≡ some (display_source (pos 73400331))
gone_window-last_source_example =
    gone_window-last_source home plain false working "den" editor default_options fresh
      (other_window ∷ []) 0 editor_starts refl refl (refl, tt)

-- Two starts whose steps come between each other: both detach the session that is active, and both register theirs. The first
-- one's session is held until its `Start` returns, and then stopped.
abbrev crossed : List (Call Json)
crossed =
    detached
    ∷ detached
    ∷ stopped none
    ∷ stopped none
    ∷ registered den (pos 0) default_options
    ∷ registered den (pos 0) default_options
    ∷ ended 0 true
    ∷ []

crossed_stopped : was_stopped 0 (run home plain fresh crossed).calls ≡ true
unfolding run call detach stop_detached register release_active end_casting release is_held drop_one
    was_stopped
crossed_stopped = refl
