-- ===== src/Engine.antt =====
-- core/src/cast_engine.cc: the engine. Its discovery is an interface, and `inet_pton` and the windows on the screen
-- are inputs. A session is its number, in the order of their starts; the engine's calls of sessions are
-- recorded. The engine's lock is free between the steps of `StartCasting` and `StopCasting`, so each step is a definition,
-- and the last reference to a session that is dropped ends it. A setter's look for the session and its call of it are one
-- step.
pub mod Calls
pub mod Accounts
pub mod Sessions
pub mod Settings
pub mod LastDevice
pub mod Windows
mod Tests
use Prim.Native.String.{String, ◌++◌ as ◌<>◌}
use text.Mathlib.Text.{◌==◌ as ◌=ₛ◌, starts_with}
use cast_mirror.Prelude.{
  ℕ, suc, Bool, true, false, not, ◌&&◌, ◌||◌, ◌==◌, ltb, List, [], ◌∷◌, Option, none, some,
  if◌then◌else◌,
}
use cast_mirror.Prelude.Int.{ℤ, pos, ltb_ℤ}
use cast_mirror.Stream.{QualityPreset}
use cast_mirror.Config.{AppConfig, h264}
use cast_mirror.Config.Files.{Files, Outcomes, JsonText, save}
use cast_mirror.Config.Options.{
  CaptureSourceKind, CaptureSource, SessionOptions, monitor, window, default_options,
  get_preset_bitrate_kbps, set_preset_bitrate_kbps, no_overrides, build_session_options, value_or,
}

pub record CastDevice : Type 0 where
  pub id : String
  pub name : String
  pub model_name : String
  pub ip_address : String
  pub port : ℕ
  pub capabilities : ℕ

-- What the engine asks of the discovery.
pub record Discovery : Type 1 where
  pub State : Type 0
  pub find_device_by_id : String → State → Option CastDevice
  pub find_device_by_ip : String → State → Option CastDevice
  pub add_or_update_device : CastDevice → State → State

pub data SessionCall : Type 0 where
  start : CastDevice → ℤ → SessionOptions → SessionCall
  stop : SessionCall
  set_live_video_bitrate_kbps : ℕ → SessionCall
  set_live_audio_bitrate_bps : ℕ → SessionCall
  set_stream_frozen set_audio_muted set_adaptive_resolution_change_allowed : Bool → SessionCall
  set_playout_delay_ms : ℤ → SessionCall

abbrev is_empty : String → Bool
is_empty s = s =ₛ ""

-- A device that is no longer in the list, from its address or from the settings.
unfoldable pub remembered_device : Bool → AppConfig → String → Option CastDevice
remembered_device is_ipv4 cfg device_id =
    if is_ipv4
    then some (record {
      id = device_id;
      name =
          if not (is_empty cfg.last_device_name) && cfg.last_device_ip =ₛ device_id
          then cfg.last_device_name
          else ("Cast Device (" <> device_id <> ")");
      model_name = "Chromecast";
      ip_address = device_id;
      port = 8009;
      capabilities = 5;
    })
    else if not (is_empty cfg.last_device_ip)
        && (device_id =ₛ cfg.last_device_id || device_id =ₛ cfg.last_device_name)
    then some (record {
      id = if is_empty cfg.last_device_id then cfg.last_device_ip else cfg.last_device_id;
      name = if is_empty cfg.last_device_name then cfg.last_device_ip else cfg.last_device_name;
      model_name = "Chromecast";
      ip_address = cfg.last_device_ip;
      port = 8009;
      capabilities = 5;
    })
    else none

unfoldable pub has_stale_port : CastDevice → Bool
has_stale_port dev =
    not (dev.model_name =ₛ "Custom Chromecast" || starts_with dev.ip_address "127.")
    && not (dev.port == 8009)
    && not (dev.port == 8008)

abbrev pub kind_to_string : CaptureSourceKind → String
kind_to_string monitor = "monitor"
kind_to_string window = "window"

abbrev pub kind_from_string : String → CaptureSourceKind
kind_from_string str =
    if str =ₛ "window" || str =ₛ "Window" || str =ₛ "WINDOW" then window else monitor

-- A source that is a whole display.
abbrev pub display_source : ℤ → CaptureSource
display_source display_id = record {
  kind = monitor;
  id = display_id;
  name = "";
  x = pos 0;
  y = pos 0;
  width = pos 0;
  height = pos 0;
}

-- The last assignments before `Save`: a bitrate becomes that of its preset.
unfoldable pub keep_bitrate : SessionOptions → AppConfig → AppConfig
keep_bitrate options cfg =
    if ltb 0 options.video_bitrate_kbps
    then record (set_preset_bitrate_kbps cfg options.preset options.video_bitrate_kbps) {
      max_bitrate_kbps = options.video_bitrate_kbps;
    }
    else cfg

-- The settings of a session, kept as those last used.
unfoldable pub keep_options : CastDevice → ℤ → SessionOptions → AppConfig → AppConfig
keep_options dev display_id options cfg =
    let source = value_or options.source (display_source display_id) in
    keep_bitrate options (record cfg {
      last_device_id = dev.id;
      last_device_name = dev.name;
      last_device_ip = dev.ip_address;
      last_display_id = display_id;
      last_source_kind = kind_to_string source.kind;
      last_source_id = source.id;
      last_source_name = source.name;
      quality_preset = options.preset;
      audio_enabled = options.enable_audio;
      capture_fps = options.capture_fps;
      audio_bitrate_bps = options.audio_bitrate_bps;
      silence_host_speakers = options.silence_host_speakers;
      adaptive_enabled = options.adaptive_enabled;
      target_delay_ms =
          if ltb_ℤ (pos 0) options.target_delay_ms
          then options.target_delay_ms
          else cfg.target_delay_ms;
    })

module _ (d : Discovery) (Text : Type 0) where
  pub record CastEngine : Type 0 where
    pub config : AppConfig
    pub files : Files Text
    pub discovery : d.State
    pub is_initialized : Bool
    pub active_session : Option ℕ
    pub session_logging : Bool
    pub last_error : String
    pub started : ℕ
    pub calls : List (ℕ × SessionCall)
    pub failed : List ℕ
    -- The sessions that calls hold outside of the engine's lock, one entry for each reference.
    pub held : List ℕ
