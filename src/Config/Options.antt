-- ===== src/Config/Options.antt =====
-- core/include/castcore/types.h and core/src/config.cc: the options of a session, and how the settings and the
-- overrides of one start become options.
use Prim.Native.String.{String}
use cast_mirror.Prelude.{ℕ, Bool, true, false, Option, none, some, ltb, if◌then◌else◌}
use cast_mirror.Prelude.Int.{ℤ, pos, ltb_ℤ}
use cast_mirror.Stream.{QualityPreset, auto, high, balanced, smooth, game, cinema}
use cast_mirror.Config.{VideoCodec, h264, AppConfig}

pub data CaptureSourceKind : Type 0 where
  monitor window : CaptureSourceKind

pub record CaptureSource : Type 0 where
  pub kind : CaptureSourceKind
  pub id : ℤ
  pub name : String
  pub x : ℤ
  pub y : ℤ
  pub width : ℤ
  pub height : ℤ

pub record SessionOptions : Type 0 where
  pub preset : QualityPreset
  pub enable_audio : Bool
  pub video_codec : VideoCodec
  pub video_bitrate_kbps : ℕ
  pub audio_bitrate_bps : ℕ
  pub capture_fps : ℤ
  pub target_delay_ms : ℤ
  pub silence_host_speakers : Bool
  pub adaptive_enabled : Bool
  pub adaptive_resolution_enabled : Bool
  pub show_cursor : Bool
  pub reconnect_window_s : ℤ
  pub audio_process_name : String
  pub verify_device_cert : Bool
  pub source : Option CaptureSource

-- The members' initial values.
abbrev pub default_options : SessionOptions
default_options = record {
  preset = auto;
  enable_audio = true;
  video_codec = h264;
  video_bitrate_kbps = 0;
  audio_bitrate_bps = 192000;
  capture_fps = pos 0;
  target_delay_ms = pos 200;
  silence_host_speakers = true;
  adaptive_enabled = true;
  adaptive_resolution_enabled = true;
  show_cursor = false;
  reconnect_window_s = pos 30;
  audio_process_name = "";
  verify_device_cert = true;
  source = none;
}

pub record SessionOverrides : Type 0 where
  pub preset : Option QualityPreset
  pub enable_audio : Option Bool
  pub video_codec : Option VideoCodec
  pub video_bitrate_kbps : Option ℕ
  pub target_delay_ms : Option ℤ
  pub capture_fps : Option ℤ
  pub verify_device_cert : Option Bool
  pub source : Option CaptureSource

abbrev pub no_overrides : SessionOverrides
no_overrides = record {
  preset = none;
  enable_audio = none;
  video_codec = none;
  video_bitrate_kbps = none;
  target_delay_ms = none;
  capture_fps = none;
  verify_device_cert = none;
  source = none;
}

unfoldable pub quality_preset_default_bitrate_kbps : QualityPreset → ℕ
quality_preset_default_bitrate_kbps cinema = 16000
quality_preset_default_bitrate_kbps high = 12000
quality_preset_default_bitrate_kbps game = 8000
quality_preset_default_bitrate_kbps smooth = 5000
quality_preset_default_bitrate_kbps balanced = 8000
quality_preset_default_bitrate_kbps auto = 8000

unfoldable pub get_preset_bitrate_override_kbps : AppConfig → QualityPreset → ℕ
get_preset_bitrate_override_kbps cfg cinema = cfg.bitrate_kbps_cinema
get_preset_bitrate_override_kbps cfg high = cfg.bitrate_kbps_high
get_preset_bitrate_override_kbps cfg game = cfg.bitrate_kbps_game
get_preset_bitrate_override_kbps cfg balanced = cfg.bitrate_kbps_balanced
get_preset_bitrate_override_kbps cfg smooth = cfg.bitrate_kbps_smooth
get_preset_bitrate_override_kbps cfg auto = cfg.bitrate_kbps_auto

unfoldable pub get_preset_bitrate_kbps : AppConfig → QualityPreset → ℕ
get_preset_bitrate_kbps cfg preset =
    let override_kbps = get_preset_bitrate_override_kbps cfg preset in
    if ltb 0 override_kbps then override_kbps else quality_preset_default_bitrate_kbps preset

unfoldable pub set_preset_bitrate_kbps : AppConfig → QualityPreset → ℕ → AppConfig
set_preset_bitrate_kbps cfg cinema kbps = record cfg { bitrate_kbps_cinema = kbps }
set_preset_bitrate_kbps cfg high kbps = record cfg { bitrate_kbps_high = kbps }
set_preset_bitrate_kbps cfg game kbps = record cfg { bitrate_kbps_game = kbps }
set_preset_bitrate_kbps cfg balanced kbps = record cfg { bitrate_kbps_balanced = kbps }
set_preset_bitrate_kbps cfg smooth kbps = record cfg { bitrate_kbps_smooth = kbps }
set_preset_bitrate_kbps cfg auto kbps = record cfg { bitrate_kbps_auto = kbps }

-- `std::optional::value_or`
abbrev pub value_or {ℓ} : {A : Type ℓ} → Option A → A → A
value_or none d = d
value_or (some a) d = a

abbrev pub or_positive : Option ℤ → ℤ → ℤ
or_positive none d = d
or_positive (some v) d = if ltb_ℤ (pos 0) v then v else d

-- The delay where no override sets one.
unfoldable pub preset_delay : QualityPreset → ℤ → ℤ
preset_delay game delay = pos 150
preset_delay cinema delay = pos 400
preset_delay _ delay = delay

unfoldable pub adapts_resolution : QualityPreset → Bool → Bool
adapts_resolution game enabled = false
adapts_resolution _ enabled = enabled

unfoldable pub build_session_options : AppConfig → SessionOverrides → SessionOptions
build_session_options cfg overrides =
    let preset = value_or overrides.preset cfg.quality_preset in
    let requested_kbps = value_or overrides.video_bitrate_kbps 0 in
    record {
      preset = preset;
      enable_audio = value_or overrides.enable_audio cfg.audio_enabled;
      video_codec = value_or overrides.video_codec cfg.preferred_video_codec;
      video_bitrate_kbps =
          if ltb 0 requested_kbps then requested_kbps else get_preset_bitrate_kbps cfg preset;
      audio_bitrate_bps = cfg.audio_bitrate_bps;
      capture_fps = or_positive overrides.capture_fps cfg.capture_fps;
      target_delay_ms =
          or_positive overrides.target_delay_ms (preset_delay preset cfg.target_delay_ms);
      silence_host_speakers = cfg.silence_host_speakers;
      adaptive_enabled = cfg.adaptive_enabled;
      adaptive_resolution_enabled = adapts_resolution preset cfg.adaptive_resolution_enabled;
      show_cursor = cfg.show_cursor;
      reconnect_window_s = cfg.reconnect_window_s;
      audio_process_name = cfg.audio_process_name;
      verify_device_cert = value_or overrides.verify_device_cert cfg.verify_device_cert;
      source = overrides.source;
    }
