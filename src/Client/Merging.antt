-- ===== src/Client/Merging.antt =====
-- Settings that a client reads and gives back.
use cast_mirror.Prelude.{◌≡◌, arith}
use cast_mirror.Config.{AppConfig, config_read_bool, config_read_string}
use cast_mirror.Config.Limits.{IsValid}
use cast_mirror.Config.Document.{members, read, find, read_preset}
use cast_mirror.Config.Written.{of_entries}
use cast_mirror.Config.Reading.{reparsed, int_back, u32_back, preset_back}
use cast_mirror.Config.RoundTrip.{kbps-U32}
use cast_mirror.Client.{client_entries, build_config_json, merge_config_json}

-- `d` with the settings of `c` that a client may change.
abbrev pub with_client_settings : AppConfig → AppConfig → AppConfig
with_client_settings c d = record d {
  quality_preset = c.quality_preset;
  max_bitrate_kbps = c.max_bitrate_kbps;
  bitrate_kbps_auto = c.bitrate_kbps_auto;
  bitrate_kbps_high = c.bitrate_kbps_high;
  bitrate_kbps_balanced = c.bitrate_kbps_balanced;
  bitrate_kbps_smooth = c.bitrate_kbps_smooth;
  bitrate_kbps_game = c.bitrate_kbps_game;
  bitrate_kbps_cinema = c.bitrate_kbps_cinema;
  capture_fps = c.capture_fps;
  audio_enabled = c.audio_enabled;
  audio_bitrate_bps = c.audio_bitrate_bps;
  silence_host_speakers = c.silence_host_speakers;
  target_delay_ms = c.target_delay_ms;
  latency_hud_enabled = c.latency_hud_enabled;
  show_cursor = c.show_cursor;
  audio_process_name = c.audio_process_name;
  global_hotkeys = c.global_hotkeys;
  reconnect_window_s = c.reconnect_window_s;
  adaptive_enabled = c.adaptive_enabled;
  adaptive_resolution_enabled = c.adaptive_resolution_enabled;
  subnet_scan_enabled = c.subnet_scan_enabled;
  force_software_encode = c.force_software_encode;
  enable_tray_on_startup = c.enable_tray_on_startup;
  close_to_tray = c.close_to_tray;
  notify_on_events = c.notify_on_events;
  verify_device_cert = c.verify_device_cert;
  first_run_complete = c.first_run_complete;
  ui_theme = c.ui_theme;
  window_width = c.window_width;
  window_height = c.window_height;
}

-- A document of valid settings, as a parser gives it back, merged into any others, sets everything that a client may change
-- as it was, and nothing else.
pub merge_config_json-build_config_json :
    (c d : AppConfig)
    → IsValid c
    → merge_config_json (members (reparsed (build_config_json c))) d ≡ with_client_settings c d
unfolding merge_config_json build_config_json client_entries of_entries find read reparsed
    config_read_bool config_read_string read_preset
merge_config_json-build_config_json c d v = λ i. record (with_client_settings c d) {
  quality_preset = preset_back c.quality_preset i;
  max_bitrate_kbps =
      u32_back c.max_bitrate_kbps d.max_bitrate_kbps (omega (arith, v.max_bitrate_kbps)) i;
  bitrate_kbps_auto =
      u32_back c.bitrate_kbps_auto d.bitrate_kbps_auto
        (kbps-U32 c.bitrate_kbps_auto v.bitrate_kbps_auto) i;
  bitrate_kbps_high =
      u32_back c.bitrate_kbps_high d.bitrate_kbps_high
        (kbps-U32 c.bitrate_kbps_high v.bitrate_kbps_high) i;
  bitrate_kbps_balanced =
      u32_back c.bitrate_kbps_balanced d.bitrate_kbps_balanced
        (kbps-U32 c.bitrate_kbps_balanced v.bitrate_kbps_balanced) i;
  bitrate_kbps_smooth =
      u32_back c.bitrate_kbps_smooth d.bitrate_kbps_smooth
        (kbps-U32 c.bitrate_kbps_smooth v.bitrate_kbps_smooth) i;
  bitrate_kbps_game =
      u32_back c.bitrate_kbps_game d.bitrate_kbps_game
        (kbps-U32 c.bitrate_kbps_game v.bitrate_kbps_game) i;
  bitrate_kbps_cinema =
      u32_back c.bitrate_kbps_cinema d.bitrate_kbps_cinema
        (kbps-U32 c.bitrate_kbps_cinema v.bitrate_kbps_cinema) i;
  capture_fps = int_back c.capture_fps d.capture_fps (omega (arith, v.capture_fps)) i;
  audio_bitrate_bps =
      u32_back c.audio_bitrate_bps d.audio_bitrate_bps (omega (arith, v.audio_bitrate_bps)) i;
  target_delay_ms =
      int_back c.target_delay_ms d.target_delay_ms (omega (arith, v.target_delay_ms)) i;
  reconnect_window_s =
      int_back c.reconnect_window_s d.reconnect_window_s (omega (arith, v.reconnect_window_s)) i;
  window_width = int_back c.window_width d.window_width (omega (arith, v.window_width)) i;
  window_height = int_back c.window_height d.window_height (omega (arith, v.window_height)) i;
}
