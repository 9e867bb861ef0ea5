-- ===== src/Engine/LastDevice.antt =====
-- core/src/cast_engine.cc: `StartCastingLastDevice`, which makes its options itself.
use Prim.Native.String.{String}
use text.Mathlib.Text.{◌==◌ as ◌=ₛ◌}
use cast_mirror.Prelude.{
  ℕ, ◌≡◌, sym, ap, ◌↔◌, Bool, true, ◌&&◌, List, [], ◌∷◌, Option, none, some, if◌then◌else◌,
}
use cast_mirror.Prelude.Int.{ℤ}
use cast_mirror.Config.{AppConfig, h264}
use cast_mirror.Config.Files.{Outcomes, JsonText}
use cast_mirror.Config.Options.{
  CaptureSourceKind, CaptureSource, SessionOptions, monitor, window, default_options,
  get_preset_bitrate_kbps, build_session_options, no_overrides, preset_delay, adapts_resolution,
}
use cast_mirror.Engine.{Discovery, CastEngine, kind_from_string, display_source}
use cast_mirror.Engine.Calls.{begin_casting}

pub record WindowInfo : Type 0 where
  pub id : ℤ
  pub title : String
  pub x : ℤ
  pub y : ℤ
  pub width : ℤ
  pub height : ℤ

-- The options, without a source.
unfoldable pub last_options : AppConfig → SessionOptions
last_options cfg = record default_options {
  preset = cfg.quality_preset;
  enable_audio = cfg.audio_enabled;
  video_bitrate_kbps = get_preset_bitrate_kbps cfg cfg.quality_preset;
  audio_bitrate_bps = cfg.audio_bitrate_bps;
  capture_fps = cfg.capture_fps;
  target_delay_ms = cfg.target_delay_ms;
  silence_host_speakers = cfg.silence_host_speakers;
  show_cursor = cfg.show_cursor;
  audio_process_name = cfg.audio_process_name;
  reconnect_window_s = cfg.reconnect_window_s;
  adaptive_resolution_enabled = cfg.adaptive_resolution_enabled;
  adaptive_enabled = cfg.adaptive_enabled;
}

-- The first window of that title, or the last display.
unfoldable pub last_window : String → ℤ → List WindowInfo → CaptureSource
last_window name display_id [] = display_source display_id
last_window name display_id (w ∷ ws) =
    if w.title =ₛ name
    then record {
      kind = window;
      id = w.id;
      name = w.title;
      x = w.x;
      y = w.y;
      width = w.width;
      height = w.height;
    }
    else last_window name display_id ws

unfoldable pub recalled_source : CaptureSourceKind → String → CaptureSource → Option CaptureSource
recalled_source monitor name found = none
recalled_source window name found = if name =ₛ "" then none else some found

unfoldable pub last_source : AppConfig → List WindowInfo → Option CaptureSource
last_source cfg windows =
    recalled_source (kind_from_string cfg.last_source_kind) cfg.last_source_name
      (last_window cfg.last_source_name cfg.last_display_id windows)

module _ (d : Discovery) (json : JsonText) where
  abbrev last_target : AppConfig → String
  last_target cfg = if cfg.last_device_id =ₛ "" then cfg.last_device_ip else cfg.last_device_id

  unfoldable pub begin_source :
      Option CaptureSource
      → Bool
      → Outcomes json.Text
      → CastEngine d json.Text
      → CastEngine d json.Text × Option ℕ
  begin_source none is_ipv4 o e =
      begin_casting d json is_ipv4 o (last_target e.config) e.config.last_display_id
        (last_options e.config) e
  begin_source (some source) is_ipv4 o e =
      begin_casting d json is_ipv4 o (last_target e.config) source.id
        (record (last_options e.config) { source = some source }) e

  -- `StartCastingLastDevice` up to the call of `Start`.
  unfoldable pub begin_casting_last :
      Bool
      → Outcomes json.Text
      → List WindowInfo
      → CastEngine d json.Text
      → CastEngine d json.Text × Option ℕ
  begin_casting_last is_ipv4 o windows e =
      if e.config.last_device_id =ₛ "" && e.config.last_device_ip =ₛ ""
      then (e, none)
      else begin_source (last_source e.config windows) is_ipv4 o e

-- Casting to the last device uses the options of every other start without overrides exactly where the settings have the
-- default codec, verify certificates, and have a preset and values by which neither the delay nor the
-- adaption of the resolution differs from the settings'.
pub last_options-build_session_options :
    (cfg : AppConfig)
    → (last_options cfg ≡ build_session_options cfg no_overrides)
      ↔ (cfg.preferred_video_codec ≡ h264)
        × (cfg.verify_device_cert ≡ true)
        × (preset_delay cfg.quality_preset cfg.target_delay_ms ≡ cfg.target_delay_ms)
        × (adapts_resolution cfg.quality_preset cfg.adaptive_resolution_enabled
            ≡ cfg.adaptive_resolution_enabled)
unfolding last_options build_session_options
last_options-build_session_options cfg = (
  λ same. (
    sym (ap (λ o. o.video_codec) same),
    sym (ap (λ o. o.verify_device_cert) same),
    sym (ap (λ o. o.target_delay_ms) same),
    sym (ap (λ o. o.adaptive_resolution_enabled) same),
  ),
  λ (c, v, t, r). λ i. record (last_options cfg) {
    video_codec = sym c i;
    verify_device_cert = sym v i;
    target_delay_ms = sym t i;
    adaptive_resolution_enabled = sym r i;
  },
)
