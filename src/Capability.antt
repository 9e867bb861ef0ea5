-- ===== src/Capability.antt =====
-- core/src/capability_model.cc and core/include/castcore/capability_model.h: what a Cast device can
-- decode, by its model name, and the settings that a preset starts with. Of a `CastDevice` only the
-- model name counts; a text is the list of its bytes. Display sizes and rates are the code's `int`s
-- where they are not negative.
pub mod Bounds
mod Tests
use Prim.Native.Char.{code}
use Prim.Native.String.{String}
use cast_mirror.Prelude.{
  ℕ, ◌+◌, min, Bool, true, false, ◌&&◌, ◌||◌, not, ltb, leb, ◌==◌, if◌then◌else◌, List, [], ◌∷◌,
  map,
}
use cast_mirror.Prelude.Int.{ℤ, pos}
use cast_mirror.Stream.{
  Resolution, QualityPreset, auto, high, balanced, smooth, game, cinema, StreamStats,
}

abbrev pub codes : String → List ℕ
codes String.[] = []
codes (String.◌∷◌ c s) = code c ∷ codes s

-- `std::tolower` in the C locale.
unfoldable pub lower_byte : ℕ → ℕ
lower_byte c = if leb 65 c && leb c 90 then c + 32 else c

unfoldable pub to_lower : List ℕ → List ℕ
to_lower = map lower_byte

unfoldable pub starts_with : List ℕ → List ℕ → Bool
starts_with [] text = true
starts_with (c ∷ needle) [] = false
starts_with (c ∷ needle) (b ∷ text) = c == b && starts_with needle text

-- `text.find(needle) != std::string::npos`
unfoldable pub contains : List ℕ → List ℕ → Bool
unfolding starts_with
contains needle [] = starts_with needle []
contains needle (b ∷ text) = starts_with needle (b ∷ text) || contains needle text

pub record DeviceCapabilities : Type 0 where
  pub device_family : String
  pub max_resolution : Resolution
  pub max_fps : ℕ
  pub max_bitrate_kbps : ℕ
  pub h264_profile : String
  pub h264_level : String
  pub supports_vp8 : Bool
  pub supports_vp9 : Bool
  pub supports_hevc : Bool
  pub default_target_delay_ms : ℤ
  pub supported_resolutions : List Resolution

abbrev pub size : ℕ → ℕ → Resolution
size w h = record { width = w; height = h }

abbrev common_resolutions : List Resolution
common_resolutions =
    size 3840 2160
    ∷ size 2560 1440
    ∷ size 1920 1080
    ∷ size 1280 720
    ∷ size 960 540
    ∷ size 640 360
    ∷ []

-- The capabilities that a branch of `Evaluate` sets; the rest keep their initial values.
abbrev family : String → Resolution → ℕ → ℕ → String → Bool → Bool → DeviceCapabilities
family name max fps kbps level vp9 hevc = record {
  device_family = name;
  max_resolution = max;
  max_fps = fps;
  max_bitrate_kbps = kbps;
  h264_profile = "high";
  h264_level = level;
  supports_vp8 = true;
  supports_vp9 = vp9;
  supports_hevc = hevc;
  default_target_delay_ms = pos 200;
  supported_resolutions = common_resolutions;
}

unfoldable pub evaluate : List ℕ → DeviceCapabilities
evaluate model_name =
    let model = to_lower model_name in
    let has = λ (s : String). contains (codes s) model in
    if has "nest hub" || has "google home hub"
    then family "Nest Hub" (size 1280 720) 60 5000 "3.1" false false
    else if has "ultra"
    then family "Chromecast Ultra" (size 3840 2160) 60 25000 "5.1" true false
    else if has "h2g2-42" || has "nc2-6a5" && not (has "nc2-6a5-d")
    then family "Chromecast Gen 1/2" (size 1920 1080) 30 8000 "4.1" false false
    else if has "google tv" || has "streamer" || has "android tv" || has "bravia"
    then family "Chromecast with Google TV" (size 3840 2160) 60 25000 "5.1" true true
    else if has "chromecast"
    then family "Chromecast Gen 3" (size 1920 1080) 60 15000 "4.2" false false
    else family "Generic Cast TV" (size 1920 1080) 60 12000 "4.2" false false

-- The `switch` over the presets, on the bounded size and rate.
unfoldable pub settings_for : DeviceCapabilities → QualityPreset → ℕ → ℕ → ℕ → ℕ → StreamStats
settings_for caps preset w h fps capture_fps = by_preset preset
  where
    settings : Resolution → ℕ → ℕ → ℕ → StreamStats
    settings resolution rate kbps delay = record {
      bitrate_kbps = min caps.max_bitrate_kbps kbps;
      target_delay_ms = pos delay;
      current_resolution = resolution;
      current_framerate = rate;
    }

    rate_up_to : ℕ → ℕ
    rate_up_to limit = if ltb 0 capture_fps then fps else min fps limit

    full_hd : Resolution
    full_hd = size (min w 1920) (min h 1080)

    by_preset : QualityPreset → StreamStats
    by_preset high =
        settings (size w h) fps (if leb 3840 w then 20000 else if leb 60 fps then 12000 else 8000)
          200
    by_preset balanced = settings full_hd (rate_up_to 60) 8000 200
    by_preset smooth = settings (size (min w 1280) (min h 720)) (rate_up_to 60) 5000 200
    by_preset game = settings full_hd (rate_up_to 60) 8000 150
    by_preset cinema =
        settings full_hd (rate_up_to (if ltb caps.max_fps 30 then caps.max_fps else 30)) 16000 400
    by_preset auto = settings full_hd (rate_up_to 60) 8000 200

-- `GetRecommendedSettings`: model name, preset, display width, height and refresh rate, and the frame
-- rate that the user chose, 0 for none.
unfoldable pub recommended_settings : List ℕ → QualityPreset → ℕ → ℕ → ℕ → ℕ → StreamStats
recommended_settings model_name preset display_width display_height refresh_rate capture_fps =
    let caps = evaluate model_name in
    settings_for caps preset (min display_width caps.max_resolution.width)
      (min display_height caps.max_resolution.height)
      (if ltb 0 capture_fps
        then min capture_fps caps.max_fps
        else min (if ltb 0 refresh_rate then refresh_rate else 60) caps.max_fps)
      capture_fps
