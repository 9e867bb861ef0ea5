-- ===== src/Config/Written.antt =====
-- core/src/config.cc: the document that `ConfigStore::Save` writes of the settings.
use Prim.Native.String.{String}
use cast_mirror.Prelude.{List, [], ◌∷◌}
use cast_mirror.Config.{
  Json, boolean, number_integer, number_unsigned, string, object, Members, nil, member,
  DeviceProfile, AppConfig, quality_preset_to_string,
}

unfoldable pub profile_to_json : DeviceProfile → Json
profile_to_json prof = object (
    member "target_width" (number_integer prof.target_width) (
      member "target_height" (number_integer prof.target_height) (
        member "target_fps" (number_integer prof.target_fps) (
          member "bitrate_kbps" (number_unsigned prof.bitrate_kbps) (
            member "target_delay_ms" (number_integer prof.target_delay_ms)
              (member "preset" (string (quality_preset_to_string prof.preset)) nil))))))

unfoldable pub profiles_to_json : List (String × DeviceProfile) → Members
profiles_to_json [] = nil
profiles_to_json ((dev_id, prof) ∷ rest) =
    member dev_id (profile_to_json prof) (profiles_to_json rest)

-- The entries in the order in which `Save` assigns them.
unfoldable pub entries : AppConfig → List (String × Json)
entries cfg =
    ("schema_version", number_integer cfg.schema_version)
    ∷ ("last_device_id", string cfg.last_device_id)
    ∷ ("last_device_name", string cfg.last_device_name)
    ∷ ("last_device_ip", string cfg.last_device_ip)
    ∷ ("last_display_id", number_integer cfg.last_display_id)
    ∷ ("last_source_kind", string cfg.last_source_kind)
    ∷ ("last_source_id", number_integer cfg.last_source_id)
    ∷ ("last_source_name", string cfg.last_source_name)
    ∷ ("audio_enabled", boolean cfg.audio_enabled)
    ∷ ("quality_preset", string (quality_preset_to_string cfg.quality_preset))
    ∷ ("target_delay_ms", number_integer cfg.target_delay_ms)
    ∷ ("max_bitrate_kbps", number_unsigned cfg.max_bitrate_kbps)
    ∷ ("bitrate_kbps_auto", number_unsigned cfg.bitrate_kbps_auto)
    ∷ ("bitrate_kbps_high", number_unsigned cfg.bitrate_kbps_high)
    ∷ ("bitrate_kbps_balanced", number_unsigned cfg.bitrate_kbps_balanced)
    ∷ ("bitrate_kbps_smooth", number_unsigned cfg.bitrate_kbps_smooth)
    ∷ ("bitrate_kbps_game", number_unsigned cfg.bitrate_kbps_game)
    ∷ ("bitrate_kbps_cinema", number_unsigned cfg.bitrate_kbps_cinema)
    ∷ ("device_profiles", object (profiles_to_json cfg.device_profiles))
    ∷ ("enable_tray_on_startup", boolean cfg.enable_tray_on_startup)
    ∷ ("low_latency_mode", boolean cfg.low_latency_mode)
    ∷ ("capture_border_hint", boolean cfg.capture_border_hint)
    ∷ ("capture_fps", number_integer cfg.capture_fps)
    ∷ ("audio_bitrate_bps", number_unsigned cfg.audio_bitrate_bps)
    ∷ ("silence_host_speakers", boolean cfg.silence_host_speakers)
    ∷ ("adaptive_enabled", boolean cfg.adaptive_enabled)
    ∷ ("subnet_scan_enabled", boolean cfg.subnet_scan_enabled)
    ∷ ("portal_restore_token", string cfg.portal_restore_token)
    ∷ ("first_run_complete", boolean cfg.first_run_complete)
    ∷ ("window_width", number_integer cfg.window_width)
    ∷ ("window_height", number_integer cfg.window_height)
    ∷ ("notify_on_events", boolean cfg.notify_on_events)
    ∷ ("force_software_encode", boolean cfg.force_software_encode)
    ∷ ("force_x11_capture", boolean cfg.force_x11_capture)
    ∷ ("close_to_tray", boolean cfg.close_to_tray)
    ∷ ("verbose_json_logging", boolean cfg.verbose_json_logging)
    ∷ ("verbose_json", boolean cfg.verbose_json_logging)
    ∷ ("launch_timeout_s", number_integer cfg.launch_timeout_s)
    ∷ ("answer_timeout_s", number_integer cfg.answer_timeout_s)
    ∷ ("adaptive_resolution_enabled", boolean cfg.adaptive_resolution_enabled)
    ∷ ("verify_device_cert", boolean cfg.verify_device_cert)
    ∷ ("latency_hud_enabled", boolean cfg.latency_hud_enabled)
    ∷ ("show_cursor", boolean cfg.show_cursor)
    ∷ ("audio_process_name", string cfg.audio_process_name)
    ∷ ("global_hotkeys", boolean cfg.global_hotkeys)
    ∷ ("reconnect_window_s", number_integer cfg.reconnect_window_s)
    ∷ ("ui_theme", string cfg.ui_theme)
    ∷ []

unfoldable pub of_entries : List (String × Json) → Members
of_entries [] = nil
of_entries ((k, v) ∷ rest) = member k v (of_entries rest)

unfoldable pub to_json : AppConfig → Json
to_json cfg = object (of_entries (entries cfg))
