-- ===== src/Capability/Bounds.antt =====
-- The recommended settings against the device, the display and the user's choice.
use cast_mirror.Prelude.{ℕ, ◌≤◌, min, ltb, if◌then◌else◌, ◌≡◌, refl, ap₂, List, [], ◌∷◌, arith}
use cast_mirror.Prelude.Int.{pos, ◌≤ℤ◌}
use cast_mirror.Stream.{QualityPreset, auto, StreamStats}
use cast_mirror.Capability.{
  lower_byte, to_lower, DeviceCapabilities, evaluate, settings_for, recommended_settings,
}

-- What the receiver decodes and the display shows bounds the settings.
pub record Within (caps : DeviceCapabilities) (w h rate : ℕ) (s : StreamStats) : Type 0 where
  pub bitrate : s.bitrate_kbps ≤ caps.max_bitrate_kbps
  pub width : s.current_resolution.width ≤ w
  pub height : s.current_resolution.height ≤ h
  pub framerate : s.current_framerate ≤ rate
  pub delay_low : pos 150 ≤ℤ s.target_delay_ms
  pub delay_high : s.target_delay_ms ≤ℤ pos 400

settings_for-Within :
    (caps : DeviceCapabilities) (preset : QualityPreset) (w h fps capture_fps : ℕ)
    → Within caps w h fps (settings_for caps preset w h fps capture_fps)
unfolding settings_for
settings_for-Within caps auto w h fps capture_fps = ground arith
settings_for-Within caps preset w h fps capture_fps = ground arith

chosen_rate :
    (chosen other limit : ℕ)
    → (if ltb 0 chosen then min chosen limit else min other limit)
      ≡ min (if ltb 0 chosen then chosen else other) limit
chosen_rate chosen other limit = ground arith

-- For every device name, preset, display and frame rate, the recommended bitrate, size and rate are
-- within what the device decodes, the size also within the display, the rate also within the user's
-- choice, or within the display's refresh rate where none is made (60 where that is unknown), and the
-- delay is between 150 and 400 ms.
pub recommended_settings-Within :
    (name : List ℕ) (preset : QualityPreset) (width height refresh capture_fps : ℕ)
    → let caps = evaluate name in
      Within caps
        (min width caps.max_resolution.width)
        (min height caps.max_resolution.height)
        (min
          (if ltb 0 capture_fps then capture_fps else (if ltb 0 refresh then refresh else 60))
          caps.max_fps)
        (recommended_settings name preset width height refresh capture_fps)
unfolding recommended_settings
recommended_settings-Within name preset width height refresh capture_fps =
    let caps = evaluate name in
    let rate = if ltb 0 capture_fps then capture_fps else (if ltb 0 refresh then refresh else 60) in
    rw (chosen_rate capture_fps (if ltb 0 refresh then refresh else 60) caps.max_fps) (
      settings_for-Within caps preset (min width caps.max_resolution.width)
        (min height caps.max_resolution.height) (min rate caps.max_fps) capture_fps)

lower_byte_idem : (c : ℕ) → lower_byte (lower_byte c) ≡ lower_byte c
unfolding lower_byte
lower_byte_idem c = ground arith

to_lower_idem : (s : List ℕ) → to_lower (to_lower s) ≡ to_lower s
unfolding to_lower
to_lower_idem [] = refl
to_lower_idem (c ∷ s) = ap₂ ◌∷◌ (lower_byte_idem c) (to_lower_idem s)

-- The case of the letters of a device's name plays no part.
pub evaluate-to_lower : (name : List ℕ) → evaluate (to_lower name) ≡ evaluate name
unfolding evaluate
evaluate-to_lower name = rw (to_lower_idem name)
