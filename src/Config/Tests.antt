-- ===== src/Config/Tests.antt =====
-- Witnesses and runs.
use cast_mirror.Prelude.{◌≡◌, refl, sym, ap, inr, true, false, [], ◌∷◌, none, some, arith}
use cast_mirror.Prelude.Int.{pos, negsuc}
use cast_mirror.Stream.{game}
use cast_mirror.Config.{
  Json, null, number_unsigned, string, object, member, nil, AppConfig, default_config,
  default_profile, h264, vp9, config_read_int, get_int64,
}
use cast_mirror.Config.Limits.{validate}
use cast_mirror.Config.Written.{to_json}
use cast_mirror.Config.Reading.{reparsed, Fits, FitsProfile, reloaded, has}
use cast_mirror.Config.Loaded.{AreTaken, load-AreTaken}
use cast_mirror.Config.Document.{members}
use cast_mirror.Config.Files.{
  JsonText, Files, Outcomes, copied, broken, content, found, load, save, save-IsWhole, IsWhole,
  replace, write, copy,
}
use cast_mirror.Config.Reloading.{ReadsBack, load-save}

-- A text that is the document.
abbrev plain : JsonText
plain = record { Text = Json; empty = null; parse = λ j. some (reparsed j); dump = λ j. some j }

plain-ReadsBack : ReadsBack plain
plain-ReadsBack j t e = ap (λ o. elim o [ none ↦ none | some k ↦ some (reparsed k) ]) (sym e)

abbrev odd_config : AppConfig
odd_config = record default_config {
  last_display_id = negsuc 3;
  target_delay_ms = pos 50;
  bitrate_kbps_auto = 30000;
  preferred_video_codec = vp9;
  device_profiles =
      ("den", record default_profile { preset = game; preferred_video_codec = vp9 })
      ∷ ("attic", default_profile)
      ∷ [];
}

default_profile-FitsProfile : FitsProfile default_profile
default_profile-FitsProfile = record {
  target_width = omega arith;
  target_height = omega arith;
  target_fps = omega arith;
  bitrate_kbps = omega arith;
  target_delay_ms = omega arith;
}

game_profile-FitsProfile :
    FitsProfile (record default_profile { preset = game; preferred_video_codec = vp9 })
game_profile-FitsProfile = record {
  target_width = omega arith;
  target_height = omega arith;
  target_fps = omega arith;
  bitrate_kbps = omega arith;
  target_delay_ms = omega arith;
}

odd_config-Fits : Fits odd_config
unfolding has
odd_config-Fits = record {
  last_display_id = omega arith;
  last_source_id = omega arith;
  schema_version = omega arith;
  device_profiles = (refl, game_profile-FitsProfile, (refl, default_profile-FitsProfile, tt));
}

-- The rename fails and the copy works.
abbrev copying : Outcomes Json
copying = record {
  makes_dir = true;
  opens = true;
  partial = none;
  backs_up = broken none;
  renames = false;
  copies = copied;
  removes = true;
}

abbrev no_files : Files Json
no_files = record { target = none; backup = none; tmp = none }

save-IsWhole_example : IsWhole (some (to_json (validate odd_config))) no_files (
  (save plain copying odd_config no_files).files,
  (save plain copying odd_config no_files).result,
)
save-IsWhole_example = save-IsWhole plain copying odd_config no_files (inr refl)

load-save_example :
    load plain (found (save plain copying odd_config no_files).files.target) default_config
    ≡ (reloaded (save plain copying odd_config no_files).config h264, true)
unfolding save write replace copy
load-save_example =
    load-save plain copying odd_config default_config no_files plain-ReadsBack (inr refl)
      odd_config-Fits refl

abbrev hostile : Json
hostile = object (
    member "last_display_id" (number_unsigned 4294967296)
      (member "window_width" (string "wide") (member "launch_timeout_s" (number_unsigned 99) nil)))

load-AreTaken_example :
    AreTaken (members (reparsed hostile)) odd_config (load plain (content hostile) odd_config).0
load-AreTaken_example = load-AreTaken plain hostile (reparsed hostile) odd_config refl

-- A number of 64 bits that is no `int` is taken for one: 2 ^ 64 - 5 for -5.
wrapped_number : config_read_int (number_unsigned 18446744073709551611) (pos 0) ≡ negsuc 4
unfolding config_read_int get_int64
wrapped_number = refl

-- The rename and the copy fail, the new text is removed, and the result is true.
lost_settings :
    (save plain (record copying { copies = broken none }) odd_config no_files).result ≡ true
unfolding save write replace copy
lost_settings = refl

lost_file :
    (save plain (record copying { copies = broken none }) odd_config no_files).files ≡ no_files
unfolding save write replace copy
lost_file = refl
