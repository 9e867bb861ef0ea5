-- ===== src/Capability/Tests.antt =====
-- Device names, and the theorems at concrete inputs.
use cast_mirror.Prelude.{ℕ, min, ltb, if◌then◌else◌, ◌≡◌, refl, List}
use cast_mirror.Stream.{balanced, cinema}
use cast_mirror.Capability.{
  codes, to_lower, evaluate, recommended_settings, settings_for, contains, starts_with, lower_byte,
}
use cast_mirror.Capability.Bounds.{Within, recommended_settings-Within}

abbrev ultra : List ℕ
ultra = codes "Chromecast ULTRA"

abbrev gen_1 : List ℕ
gen_1 = codes "H2G2-42"

ultra_fps : (evaluate ultra).max_resolution.width ≡ 3840
unfolding evaluate to_lower lower_byte contains starts_with
ultra_fps = refl

gen_1_cinema : (recommended_settings gen_1 cinema 3840 2160 144 0).current_framerate ≡ 30
unfolding recommended_settings settings_for evaluate to_lower lower_byte contains starts_with
gen_1_cinema = refl

recommended_settings-Within_example :
    let caps = evaluate ultra in
    Within caps
      (min 2560 caps.max_resolution.width)
      (min 1440 caps.max_resolution.height)
      (min (if ltb 0 0 then 0 else (if ltb 0 144 then 144 else 60)) caps.max_fps)
      (recommended_settings ultra balanced 2560 1440 144 0)
recommended_settings-Within_example = recommended_settings-Within ultra balanced 2560 1440 144 0
