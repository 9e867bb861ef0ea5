-- ===== src/Config/RoundTrip.antt =====
-- Settings within their bounds, written as a document and read back.
use cast_mirror.Prelude.{ℕ, ◌≡◌, refl, ap, ◌∙◌, Bool, true, false, ◌&&◌, if◌then◌else◌, arith}
use cast_mirror.Prelude.Int.{pos, ltb_ℤ}
use cast_mirror.Config.{AppConfig, config_read_bool, config_read_string}
use cast_mirror.Config.Limits.{IsValid, IsKbps}
use cast_mirror.Config.Document.{
  from_json, read_fields, find, members, read, read_preset, contains, migrated_auto, migrate_source,
  lacks_source, read_schema,
}
use cast_mirror.Config.Written.{to_json, entries, of_entries}
use cast_mirror.Config.Reading.{
  reparsed, IsU32, Fits, reloaded, int_back, u32_back, preset_back, profiles_back, without_codecs,
}

pub kbps-U32 : (v : ℕ) → IsKbps v → IsU32 v
kbps-U32 v h = ground arith

fields_back :
    (c d : AppConfig)
    → IsValid c
    → Fits c
    → read_fields (members (reparsed (to_json c))) d ≡ record c {
      schema_version = d.schema_version;
      preferred_video_codec = d.preferred_video_codec;
      device_profiles = without_codecs c.device_profiles;
    }
unfolding read_fields to_json entries of_entries find read reparsed config_read_bool
    config_read_string read_preset
fields_back c d v f = λ i. record c {
  schema_version = d.schema_version;
  preferred_video_codec = d.preferred_video_codec;
  last_display_id = int_back c.last_display_id d.last_display_id f.last_display_id i;
  last_source_id = int_back c.last_source_id d.last_source_id f.last_source_id i;
  quality_preset = preset_back c.quality_preset i;
  target_delay_ms =
      int_back c.target_delay_ms d.target_delay_ms (omega (arith, v.target_delay_ms)) i;
  max_bitrate_kbps =
      u32_back c.max_bitrate_kbps d.max_bitrate_kbps (omega (arith, v.max_bitrate_kbps)) i;
  bitrate_kbps_auto =
      u32_back c.bitrate_kbps_auto d.bitrate_kbps_auto
        (kbps-U32 c.bitrate_kbps_auto v.bitrate_kbps_auto) i;
  bitrate_kbps_high =
      u32_back c.bitrate_kbps_high d.bitrate_kbps_high
        (kbps-U32 c.bitrate_kbps_high v.bitrate_kbps_high) i;
  bitrate_kbps_balanced =
      u32_back c.bitrate_kbps_balanced d.bitrate_kbps_balanced
        (kbps-U32 c.bitrate_kbps_balanced v.bitrate_kbps_balanced) i;
  bitrate_kbps_smooth =
      u32_back c.bitrate_kbps_smooth d.bitrate_kbps_smooth
        (kbps-U32 c.bitrate_kbps_smooth v.bitrate_kbps_smooth) i;
  bitrate_kbps_game =
      u32_back c.bitrate_kbps_game d.bitrate_kbps_game
        (kbps-U32 c.bitrate_kbps_game v.bitrate_kbps_game) i;
  bitrate_kbps_cinema =
      u32_back c.bitrate_kbps_cinema d.bitrate_kbps_cinema
        (kbps-U32 c.bitrate_kbps_cinema v.bitrate_kbps_cinema) i;
  capture_fps = int_back c.capture_fps d.capture_fps (omega (arith, v.capture_fps)) i;
  audio_bitrate_bps =
      u32_back c.audio_bitrate_bps d.audio_bitrate_bps (omega (arith, v.audio_bitrate_bps)) i;
  window_width = int_back c.window_width d.window_width (omega (arith, v.window_width)) i;
  window_height = int_back c.window_height d.window_height (omega (arith, v.window_height)) i;
  launch_timeout_s =
      int_back c.launch_timeout_s d.launch_timeout_s (omega (arith, v.launch_timeout_s)) i;
  answer_timeout_s =
      int_back c.answer_timeout_s d.answer_timeout_s (omega (arith, v.answer_timeout_s)) i;
  reconnect_window_s =
      int_back c.reconnect_window_s d.reconnect_window_s (omega (arith, v.reconnect_window_s)) i;
  device_profiles = profiles_back c.device_profiles d.device_profiles f.device_profiles i;
}

not_migrated : {A : Type 0} (b : Bool) (x y : A) → (if b && false && false then x else y) ≡ y
not_migrated true x y = refl
not_migrated false x y = refl

abbrev current : AppConfig → AppConfig
current c = record c { schema_version = pos 3 }

-- The document that `Save` writes of settings within their bounds, as a parser gives it back, is read as the same
-- settings: only the preferred codecs are not in it, and the schema is the current one.
pub document_back :
    (c d : AppConfig)
    → IsValid c
    → Fits c
    → from_json (reparsed (to_json c)) d ≡ reloaded c d.preferred_video_codec
unfolding from_json to_json entries of_entries migrated_auto migrate_source lacks_source contains
    find reparsed
document_back c d v f =
    ap current (
      not_migrated {A = AppConfig}
        (ltb_ℤ (read_schema (members (reparsed (to_json c))) d.schema_version) (pos 3)) _ _)
    ∙ ap current (fields_back c d v f)
