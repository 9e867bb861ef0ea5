-- ===== src/Client.antt =====
-- core/src/c_api.cc: the settings as a client of the C interface sees and changes them. A document is cached as its
-- bytes; what writes and parses it is a parameter.
pub mod Merging
pub mod Buffers
mod Tests
use Prim.Native.String.{String}
use cast_mirror.Prelude.{
  ℕ, suc, ◌+◌, ◌-◌, Bool, true, false, ◌++◌, List, [], ◌∷◌, Option, none, some, ltb, leb, min,
  length, take, zero, if◌then◌else◌,
}
use cast_mirror.Prelude.Int.{ℤ}
use cast_mirror.Config.{
  Json, boolean, number_integer, number_unsigned, string, object, Members, AppConfig,
  quality_preset_to_string, config_read_int, config_read_u32, config_read_bool, config_read_string,
}
use cast_mirror.Config.Limits.{validate}
use cast_mirror.Config.Document.{read, read_preset}
use cast_mirror.Config.Written.{of_entries}
use cast_mirror.Config.Files.{JsonText, Outcomes, save}
use cast_mirror.Engine.{Discovery, CastEngine}
use cast_mirror.Engine.Calls.{set_live_video, set_live_audio}

unfoldable pub client_entries : AppConfig → List (String × Json)
client_entries cfg =
    ("quality_preset", string (quality_preset_to_string cfg.quality_preset))
    ∷ ("max_bitrate_kbps", number_unsigned cfg.max_bitrate_kbps)
    ∷ ("bitrate_kbps_auto", number_unsigned cfg.bitrate_kbps_auto)
    ∷ ("bitrate_kbps_high", number_unsigned cfg.bitrate_kbps_high)
    ∷ ("bitrate_kbps_balanced", number_unsigned cfg.bitrate_kbps_balanced)
    ∷ ("bitrate_kbps_smooth", number_unsigned cfg.bitrate_kbps_smooth)
    ∷ ("bitrate_kbps_game", number_unsigned cfg.bitrate_kbps_game)
    ∷ ("bitrate_kbps_cinema", number_unsigned cfg.bitrate_kbps_cinema)
    ∷ ("capture_fps", number_integer cfg.capture_fps)
    ∷ ("audio_enabled", boolean cfg.audio_enabled)
    ∷ ("audio_bitrate_bps", number_unsigned cfg.audio_bitrate_bps)
    ∷ ("silence_host_speakers", boolean cfg.silence_host_speakers)
    ∷ ("target_delay_ms", number_integer cfg.target_delay_ms)
    ∷ ("latency_hud_enabled", boolean cfg.latency_hud_enabled)
    ∷ ("show_cursor", boolean cfg.show_cursor)
    ∷ ("audio_process_name", string cfg.audio_process_name)
    ∷ ("global_hotkeys", boolean cfg.global_hotkeys)
    ∷ ("reconnect_window_s", number_integer cfg.reconnect_window_s)
    ∷ ("adaptive_enabled", boolean cfg.adaptive_enabled)
    ∷ ("adaptive_resolution_enabled", boolean cfg.adaptive_resolution_enabled)
    ∷ ("subnet_scan_enabled", boolean cfg.subnet_scan_enabled)
    ∷ ("force_software_encode", boolean cfg.force_software_encode)
    ∷ ("enable_tray_on_startup", boolean cfg.enable_tray_on_startup)
    ∷ ("close_to_tray", boolean cfg.close_to_tray)
    ∷ ("notify_on_events", boolean cfg.notify_on_events)
    ∷ ("verify_device_cert", boolean cfg.verify_device_cert)
    ∷ ("first_run_complete", boolean cfg.first_run_complete)
    ∷ ("ui_theme", string cfg.ui_theme)
    ∷ ("window_width", number_integer cfg.window_width)
    ∷ ("window_height", number_integer cfg.window_height)
    ∷ ("last_device_id", string cfg.last_device_id)
    ∷ ("last_source_kind", string cfg.last_source_kind)
    ∷ ("last_source_id", number_integer cfg.last_source_id)
    ∷ []

unfoldable pub build_config_json : AppConfig → Json
build_config_json cfg = object (of_entries (client_entries cfg))

unfoldable pub merge_config_json : Members → AppConfig → AppConfig
merge_config_json m cfg = record cfg {
  quality_preset = read read_preset m "quality_preset" cfg.quality_preset;
  max_bitrate_kbps = read config_read_u32 m "max_bitrate_kbps" cfg.max_bitrate_kbps;
  bitrate_kbps_auto = read config_read_u32 m "bitrate_kbps_auto" cfg.bitrate_kbps_auto;
  bitrate_kbps_high = read config_read_u32 m "bitrate_kbps_high" cfg.bitrate_kbps_high;
  bitrate_kbps_balanced = read config_read_u32 m "bitrate_kbps_balanced" cfg.bitrate_kbps_balanced;
  bitrate_kbps_smooth = read config_read_u32 m "bitrate_kbps_smooth" cfg.bitrate_kbps_smooth;
  bitrate_kbps_game = read config_read_u32 m "bitrate_kbps_game" cfg.bitrate_kbps_game;
  bitrate_kbps_cinema = read config_read_u32 m "bitrate_kbps_cinema" cfg.bitrate_kbps_cinema;
  capture_fps = read config_read_int m "capture_fps" cfg.capture_fps;
  audio_enabled = read config_read_bool m "audio_enabled" cfg.audio_enabled;
  audio_bitrate_bps = read config_read_u32 m "audio_bitrate_bps" cfg.audio_bitrate_bps;
  silence_host_speakers = read config_read_bool m "silence_host_speakers" cfg.silence_host_speakers;
  target_delay_ms = read config_read_int m "target_delay_ms" cfg.target_delay_ms;
  latency_hud_enabled = read config_read_bool m "latency_hud_enabled" cfg.latency_hud_enabled;
  show_cursor = read config_read_bool m "show_cursor" cfg.show_cursor;
  audio_process_name = read config_read_string m "audio_process_name" cfg.audio_process_name;
  global_hotkeys = read config_read_bool m "global_hotkeys" cfg.global_hotkeys;
  reconnect_window_s = read config_read_int m "reconnect_window_s" cfg.reconnect_window_s;
  adaptive_enabled = read config_read_bool m "adaptive_enabled" cfg.adaptive_enabled;
  adaptive_resolution_enabled =
      read config_read_bool m "adaptive_resolution_enabled" cfg.adaptive_resolution_enabled;
  subnet_scan_enabled = read config_read_bool m "subnet_scan_enabled" cfg.subnet_scan_enabled;
  force_software_encode = read config_read_bool m "force_software_encode" cfg.force_software_encode;
  enable_tray_on_startup =
      read config_read_bool m "enable_tray_on_startup" cfg.enable_tray_on_startup;
  close_to_tray = read config_read_bool m "close_to_tray" cfg.close_to_tray;
  notify_on_events = read config_read_bool m "notify_on_events" cfg.notify_on_events;
  verify_device_cert = read config_read_bool m "verify_device_cert" cfg.verify_device_cert;
  first_run_complete = read config_read_bool m "first_run_complete" cfg.first_run_complete;
  ui_theme = read config_read_string m "ui_theme" cfg.ui_theme;
  window_width = read config_read_int m "window_width" cfg.window_width;
  window_height = read config_read_int m "window_height" cfg.window_height;
}

-- What a call writes into a buffer of that length, and what it returns; no length is no buffer.
unfoldable pub write_json_out : List ℕ → ℕ → List ℕ × ℕ
write_json_out json zero = ([], suc (length json))
write_json_out json (suc room) = let len = min (length json) room in (take len json ++ 0 ∷ [], len)

unfoldable pub json_out_size_hint : ℕ → ℕ
json_out_size_hint required = if ltb 8192 required then required else 8192

abbrev pub out_of : List ℕ → ℕ → List ℕ × ℕ
out_of bytes zero = ([], json_out_size_hint (suc (length bytes)))
out_of bytes (suc room) = write_json_out bytes (suc room)

module _ (d : Discovery) (json : JsonText) (dump : Json → List ℕ)
    (parse : List ℕ → Option Json) where
  pub record Client : Type 0 where
    pub engine : CastEngine d json.Text
    pub cache : Option (List ℕ)

  unfoldable pub cached_or_built : Option (List ℕ) → Client → List ℕ × Client
  cached_or_built (some bytes) c = (bytes, c)
  cached_or_built none c =
      let bytes = dump (build_config_json c.engine.config) in
      (bytes, record c { cache = some bytes })

  abbrev pub cached_config_json : Client → List ℕ × Client
  cached_config_json c = cached_or_built c.cache c

  unfoldable pub castmirror_get_config_json : ℕ → Client → (List ℕ × ℕ) × Client
  castmirror_get_config_json buf_len c =
      let (bytes, c') = cached_config_json c in (out_of bytes buf_len, c')

  abbrev merged : Outcomes json.Text → Members → Client → Client × Bool
  merged o m c =
      let e = c.engine in
      let saved = save json o (validate (merge_config_json m e.config)) e.files in
      (
        record c { engine = record e { config = saved.config; files = saved.files }; cache = none },
        saved.result,
      )

  abbrev merge_parsed : Outcomes json.Text → Option Json → Client → Client × Bool
  merge_parsed o (some (object m)) c = merged o m c
  merge_parsed o _ c = (c, false)

  unfoldable pub castmirror_set_config_json : Outcomes json.Text → List ℕ → Client → Client × Bool
  castmirror_set_config_json o bytes c = merge_parsed o (parse bytes) c

  unfoldable pub castmirror_set_bitrate : Outcomes json.Text → ℕ → Client → Client
  castmirror_set_bitrate o kbps c = record c { engine = set_live_video d json o kbps c.engine }

  unfoldable pub castmirror_set_audio_bitrate : Outcomes json.Text → ℕ → Client → Client
  castmirror_set_audio_bitrate o bps c = record c { engine = set_live_audio d json o bps c.engine }
