-- ===== src/Config.antt =====
-- core/include/castcore/config.h and core/src/config.cc: the settings, the values a JSON document holds,
-- and the strict getters. An `int` is an integer, a `uint32_t` a number; a `std::map` is an association list, which
-- does not keep the order of the keys.
pub mod Limits
pub mod Document
pub mod Written
pub mod Files
pub mod Reading
pub mod RoundTrip
pub mod Reloading
pub mod Loaded
pub mod Options
mod Tests
use Prim.Native.String.{String}
use text.Mathlib.Text.{◌==◌ as ◌=ₛ◌}
use cast_mirror.Prelude.{
  ℕ, ◌-◌, Bool, true, false, not, ◌||◌, List, [], ◌∷◌, Option, none, some, ltb, if◌then◌else◌,
}
use cast_mirror.Prelude.Int.{ℤ, pos, negsuc, ltb_ℤ}
use cast_mirror.Stream.{QualityPreset, auto, high, balanced, smooth, game, cinema}

pub data VideoCodec : Type 0 where
  h264 vp8 vp9 hevc av1 : VideoCodec

-- `nlohmann::json`; the parser makes a `number_unsigned` of an integer without a sign.
mutual
  pub data Json : Type 0 where
    null other : Json
    boolean : Bool → Json
    number_integer : ℤ → Json
    number_unsigned : ℕ → Json
    string : String → Json
    object : Members → Json

  pub data Members : Type 0 where
    nil : Members
    member : String → Json → Members → Members

pub record DeviceProfile : Type 0 where
  pub target_width : ℤ
  pub target_height : ℤ
  pub target_fps : ℤ
  pub bitrate_kbps : ℕ
  pub target_delay_ms : ℤ
  pub preset : QualityPreset
  pub preferred_video_codec : VideoCodec

abbrev pub default_profile : DeviceProfile
default_profile = record {
  target_width = pos 0;
  target_height = pos 0;
  target_fps = pos 0;
  bitrate_kbps = 0;
  target_delay_ms = pos 200;
  preset = auto;
  preferred_video_codec = h264;
}

pub record AppConfig : Type 0 where
  pub last_device_id : String
  pub last_device_name : String
  pub last_device_ip : String
  pub last_display_id : ℤ
  pub last_source_kind : String
  pub last_source_id : ℤ
  pub last_source_name : String
  pub audio_enabled : Bool
  pub quality_preset : QualityPreset
  pub target_delay_ms : ℤ
  pub preferred_video_codec : VideoCodec
  pub max_bitrate_kbps : ℕ
  pub bitrate_kbps_auto : ℕ
  pub bitrate_kbps_high : ℕ
  pub bitrate_kbps_balanced : ℕ
  pub bitrate_kbps_smooth : ℕ
  pub bitrate_kbps_game : ℕ
  pub bitrate_kbps_cinema : ℕ
  pub enable_tray_on_startup : Bool
  pub low_latency_mode : Bool
  pub capture_border_hint : Bool
  pub capture_fps : ℤ
  pub audio_bitrate_bps : ℕ
  pub silence_host_speakers : Bool
  pub adaptive_enabled : Bool
  pub subnet_scan_enabled : Bool
  pub portal_restore_token : String
  pub first_run_complete : Bool
  pub window_width : ℤ
  pub window_height : ℤ
  pub notify_on_events : Bool
  pub force_software_encode : Bool
  pub force_x11_capture : Bool
  pub close_to_tray : Bool
  pub schema_version : ℤ
  pub verbose_json_logging : Bool
  pub launch_timeout_s : ℤ
  pub answer_timeout_s : ℤ
  pub adaptive_resolution_enabled : Bool
  pub verify_device_cert : Bool
  pub latency_hud_enabled : Bool
  pub show_cursor : Bool
  pub global_hotkeys : Bool
  pub audio_process_name : String
  pub reconnect_window_s : ℤ
  pub ui_theme : String
  pub device_profiles : List (String × DeviceProfile)

-- The members' initial values.
abbrev pub default_config : AppConfig
default_config = record {
  last_device_id = "";
  last_device_name = "";
  last_device_ip = "";
  last_display_id = pos 0;
  last_source_kind = "monitor";
  last_source_id = pos 0;
  last_source_name = "";
  audio_enabled = true;
  quality_preset = auto;
  target_delay_ms = pos 200;
  preferred_video_codec = h264;
  max_bitrate_kbps = 8000;
  bitrate_kbps_auto = 0;
  bitrate_kbps_high = 0;
  bitrate_kbps_balanced = 0;
  bitrate_kbps_smooth = 0;
  bitrate_kbps_game = 0;
  bitrate_kbps_cinema = 0;
  enable_tray_on_startup = false;
  low_latency_mode = false;
  capture_border_hint = true;
  capture_fps = pos 0;
  audio_bitrate_bps = 192000;
  silence_host_speakers = true;
  adaptive_enabled = true;
  subnet_scan_enabled = false;
  portal_restore_token = "";
  first_run_complete = false;
  window_width = pos 920;
  window_height = pos 700;
  notify_on_events = true;
  force_software_encode = false;
  force_x11_capture = false;
  close_to_tray = true;
  schema_version = pos 3;
  verbose_json_logging = false;
  launch_timeout_s = pos 8;
  answer_timeout_s = pos 5;
  adaptive_resolution_enabled = true;
  verify_device_cert = true;
  latency_hud_enabled = false;
  show_cursor = true;
  global_hotkeys = false;
  audio_process_name = "";
  reconnect_window_s = pos 30;
  ui_theme = "";
  device_profiles = [];
}

unfoldable pub lookup {ℓ} : {V : Type ℓ} → String → List (String × V) → Option V
lookup k [] = none
lookup k ((j, v) ∷ m) = if j =ₛ k then some v else lookup k m

unfoldable pub assign {ℓ} : {V : Type ℓ} → String → V → List (String × V) → List (String × V)
assign k v [] = (k, v) ∷ []
assign k v ((j, w) ∷ m) = if j =ₛ k then (j, v) ∷ m else (j, w) ∷ assign k v m

unfoldable pub get_device_profile : AppConfig → String → Option DeviceProfile
get_device_profile cfg device_id = lookup device_id cfg.device_profiles

unfoldable pub set_device_profile : AppConfig → String → DeviceProfile → AppConfig
set_device_profile cfg device_id profile =
    if device_id =ₛ ""
    then cfg
    else record cfg { device_profiles = assign device_id profile cfg.device_profiles }

unfoldable pub quality_preset_to_string : QualityPreset → String
quality_preset_to_string auto = "Auto"
quality_preset_to_string high = "High"
quality_preset_to_string balanced = "Balanced"
quality_preset_to_string smooth = "Smooth"
quality_preset_to_string game = "Game"
quality_preset_to_string cinema = "Cinema"

unfoldable pub quality_preset_from_string : String → QualityPreset
quality_preset_from_string str =
    if str =ₛ "High"
    then high
    else if str =ₛ "Balanced"
    then balanced
    else if str =ₛ "Smooth"
    then smooth
    else if str =ₛ "Game"
    then game
    else if str =ₛ "Cinema"
    then cinema
    else auto

-- `get<int64_t>` where `is_number_integer` holds: a `uint64_t` from 2 ^ 63 on wraps around.
unfoldable pub get_int64 : Json → Option ℤ
get_int64 (number_integer i) = some i
get_int64 (number_unsigned n) =
    some (if ltb n 9223372036854775808 then pos n else negsuc (18446744073709551615 - n))
get_int64 _ = none

unfoldable pub config_read_int : Json → ℤ → ℤ
config_read_int value out = elim (get_int64 value) [
  | none ↦ out
  | some raw ↦ if ltb_ℤ raw (negsuc 2147483647) || ltb_ℤ (pos 2147483647) raw then out else raw
]

unfoldable pub config_read_u32 : Json → ℕ → ℕ
config_read_u32 value out = elim (get_int64 value) [
  | none ↦ out
  | some (negsuc _) ↦ out
  | some (pos raw) ↦ if ltb 4294967295 raw then out else raw
]

unfoldable pub config_read_bool : Json → Bool → Bool
config_read_bool (boolean b) out = b
config_read_bool _ out = out

unfoldable pub config_read_string : Json → String → String
config_read_string (string s) out = s
config_read_string _ out = out
