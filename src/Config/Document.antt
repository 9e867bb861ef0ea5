-- ===== src/Config/Document.antt =====
-- core/src/config.cc: how `ConfigStore::Load` reads a document into the settings.
use Prim.Native.String.{String}
use cast_mirror.Prelude.{
  ℕ, Bool, true, false, not, ◌&&◌, ◌==◌, List, [], Option, none, some, ltb, if◌then◌else◌,
}
use cast_mirror.Prelude.Int.{ℤ, pos, ltb_ℤ}
use cast_mirror.Stream.{QualityPreset}
use text.Mathlib.Text.{◌==◌ as ◌=ₛ◌}
use cast_mirror.Config.{
  Json, string, object, Members, nil, member, DeviceProfile, default_profile, AppConfig, assign,
  quality_preset_from_string, get_int64, config_read_int, config_read_u32, config_read_bool,
  config_read_string,
}

unfoldable pub find : String → Members → Option Json
find k nil = none
find k (member j v m) = if j =ₛ k then some v else find k m

abbrev pub members : Json → Members
members (object m) = m
members _ = nil

abbrev pub is_some {ℓ} : {A : Type ℓ} → Option A → Bool
is_some none = false
is_some (some _) = true

-- `j.contains(key)`
unfoldable pub contains : Members → String → Bool
contains m k = is_some (find k m)

-- `if (j.contains(key)) read(j, key, &out)`
unfoldable pub read {ℓ} : {A : Type ℓ} → (Json → A → A) → Members → String → A → A
read f m k out = elim (find k m) [ none ↦ out | some v ↦ f v out ]

unfoldable pub read_preset : Json → QualityPreset → QualityPreset
read_preset (string s) out = quality_preset_from_string s
read_preset _ out = out

unfoldable pub read_profile : Members → DeviceProfile
read_profile m = record default_profile {
  target_width = read config_read_int m "target_width" default_profile.target_width;
  target_height = read config_read_int m "target_height" default_profile.target_height;
  target_fps = read config_read_int m "target_fps" default_profile.target_fps;
  bitrate_kbps = read config_read_u32 m "bitrate_kbps" default_profile.bitrate_kbps;
  target_delay_ms = read config_read_int m "target_delay_ms" default_profile.target_delay_ms;
  preset = read read_preset m "preset" default_profile.preset;
}

-- The loop over `device_profiles`: an entry that is no object is left out.
unfoldable pub read_profiles :
    Members → List (String × DeviceProfile) → List (String × DeviceProfile)
read_profiles nil profiles = profiles
read_profiles (member dev_id (object m) rest) profiles =
    read_profiles rest (assign dev_id (read_profile m) profiles)
read_profiles (member dev_id _ rest) profiles = read_profiles rest profiles

unfoldable pub read_device_profiles :
    Json → List (String × DeviceProfile) → List (String × DeviceProfile)
read_device_profiles (object m) out = read_profiles m []
read_device_profiles _ out = out

-- One reader for each key that is read straight into its field.
unfoldable pub read_fields : Members → AppConfig → AppConfig
read_fields m cfg = record cfg {
  last_device_id = read config_read_string m "last_device_id" cfg.last_device_id;
  last_device_name = read config_read_string m "last_device_name" cfg.last_device_name;
  last_device_ip = read config_read_string m "last_device_ip" cfg.last_device_ip;
  last_display_id = read config_read_int m "last_display_id" cfg.last_display_id;
  last_source_kind = read config_read_string m "last_source_kind" cfg.last_source_kind;
  last_source_id = read config_read_int m "last_source_id" cfg.last_source_id;
  last_source_name = read config_read_string m "last_source_name" cfg.last_source_name;
  audio_enabled = read config_read_bool m "audio_enabled" cfg.audio_enabled;
  quality_preset = read read_preset m "quality_preset" cfg.quality_preset;
  target_delay_ms = read config_read_int m "target_delay_ms" cfg.target_delay_ms;
  max_bitrate_kbps = read config_read_u32 m "max_bitrate_kbps" cfg.max_bitrate_kbps;
  bitrate_kbps_auto = read config_read_u32 m "bitrate_kbps_auto" cfg.bitrate_kbps_auto;
  bitrate_kbps_high = read config_read_u32 m "bitrate_kbps_high" cfg.bitrate_kbps_high;
  bitrate_kbps_balanced = read config_read_u32 m "bitrate_kbps_balanced" cfg.bitrate_kbps_balanced;
  bitrate_kbps_smooth = read config_read_u32 m "bitrate_kbps_smooth" cfg.bitrate_kbps_smooth;
  bitrate_kbps_game = read config_read_u32 m "bitrate_kbps_game" cfg.bitrate_kbps_game;
  bitrate_kbps_cinema = read config_read_u32 m "bitrate_kbps_cinema" cfg.bitrate_kbps_cinema;
  enable_tray_on_startup =
      read config_read_bool m "enable_tray_on_startup" cfg.enable_tray_on_startup;
  low_latency_mode = read config_read_bool m "low_latency_mode" cfg.low_latency_mode;
  capture_border_hint = read config_read_bool m "capture_border_hint" cfg.capture_border_hint;
  capture_fps = read config_read_int m "capture_fps" cfg.capture_fps;
  audio_bitrate_bps = read config_read_u32 m "audio_bitrate_bps" cfg.audio_bitrate_bps;
  silence_host_speakers = read config_read_bool m "silence_host_speakers" cfg.silence_host_speakers;
  adaptive_enabled = read config_read_bool m "adaptive_enabled" cfg.adaptive_enabled;
  subnet_scan_enabled = read config_read_bool m "subnet_scan_enabled" cfg.subnet_scan_enabled;
  portal_restore_token = read config_read_string m "portal_restore_token" cfg.portal_restore_token;
  first_run_complete = read config_read_bool m "first_run_complete" cfg.first_run_complete;
  window_width = read config_read_int m "window_width" cfg.window_width;
  window_height = read config_read_int m "window_height" cfg.window_height;
  notify_on_events = read config_read_bool m "notify_on_events" cfg.notify_on_events;
  force_software_encode = read config_read_bool m "force_software_encode" cfg.force_software_encode;
  force_x11_capture = read config_read_bool m "force_x11_capture" cfg.force_x11_capture;
  close_to_tray = read config_read_bool m "close_to_tray" cfg.close_to_tray;
  verbose_json_logging = read config_read_bool m "verboseJson" (
      read config_read_bool m "verbose_json"
        (read config_read_bool m "verbose_json_logging" cfg.verbose_json_logging));
  launch_timeout_s = read config_read_int m "launch_timeout_s" cfg.launch_timeout_s;
  answer_timeout_s = read config_read_int m "answer_timeout_s" cfg.answer_timeout_s;
  adaptive_resolution_enabled =
      read config_read_bool m "adaptive_resolution_enabled" cfg.adaptive_resolution_enabled;
  verify_device_cert = read config_read_bool m "verify_device_cert" cfg.verify_device_cert;
  latency_hud_enabled = read config_read_bool m "latency_hud_enabled" cfg.latency_hud_enabled;
  show_cursor = read config_read_bool m "show_cursor" cfg.show_cursor;
  global_hotkeys = read config_read_bool m "global_hotkeys" cfg.global_hotkeys;
  audio_process_name = read config_read_string m "audio_process_name" cfg.audio_process_name;
  reconnect_window_s = read config_read_int m "reconnect_window_s" cfg.reconnect_window_s;
  ui_theme = read config_read_string m "ui_theme" cfg.ui_theme;
  device_profiles = read read_device_profiles m "device_profiles" cfg.device_profiles;
}

-- Schema 1 had one bitrate for all presets; a value other than its default becomes that of `Auto`.
unfoldable pub migrated_auto : Members → ℕ → ℕ
migrated_auto m out =
    if not (contains m "schema_version") && not (contains m "bitrate_kbps_auto")
    then elim (find "max_bitrate_kbps" m) [
      | none ↦ out
      | some value ↦ elim (get_int64 value) [
        | some (pos v) ↦ if ltb 0 v && not (ltb 4294967295 v) && not (v == 8000) then v else out
        | _ ↦ out
      ]
    ]
    else out

unfoldable pub read_schema : Members → ℤ → ℤ
read_schema m out = elim (find "schema_version" m) [
  | none ↦ pos 2
  | some value ↦ config_read_int value out
]

-- Below schema 3, a document with neither source key takes the display as its source.
unfoldable pub lacks_source : Members → ℤ → Bool
lacks_source m version =
    ltb_ℤ version (pos 3)
    && not (contains m "last_source_kind")
    && not (contains m "last_source_id")

unfoldable pub from_display : AppConfig → AppConfig
from_display cfg = record cfg {
  last_source_kind = "monitor";
  last_source_id = cfg.last_display_id;
  last_source_name = "";
}

unfoldable pub migrate_source : Members → ℤ → AppConfig → AppConfig
migrate_source m version cfg = if lacks_source m version then from_display cfg else cfg

-- The body of the `try` of `Load`, before `Validate`.
unfoldable pub from_json : Json → AppConfig → AppConfig
from_json j cfg =
    let read_cfg = read_fields (members j) cfg in
    record (migrate_source (members j) (read_schema (members j) cfg.schema_version)
      (record read_cfg {
        bitrate_kbps_auto = migrated_auto (members j) read_cfg.bitrate_kbps_auto;
      })) { schema_version = pos 3 }
