-- ===== src/Stream.antt =====
-- core/include/castcore/types.h: resolutions, quality presets and the fields of `StreamStats` that the
-- capability model and the adaptive controller read and write. Widths, heights and frame rates are
-- the code's `int`s where they are not negative.
use cast_mirror.Prelude.{ℕ, Bool, ◌&&◌, ◌==◌}
use cast_mirror.Prelude.Int.{ℤ}

pub record Resolution : Type 0 where
  pub width : ℕ
  pub height : ℕ

-- `operator==`
abbrev pub same_resolution : Resolution → Resolution → Bool
same_resolution a b = a.width == b.width && a.height == b.height

pub data QualityPreset : Type 0 where
  auto high balanced smooth game cinema : QualityPreset

pub record StreamStats : Type 0 where
  pub bitrate_kbps : ℕ
  pub target_delay_ms : ℤ
  pub current_resolution : Resolution
  pub current_framerate : ℕ
