-- ===== src/Hud.antt =====
-- core/src/latency_hud.cc: the badge with the time and the frame's number. Pixels are written into the frame's buffer as
-- in `Pixels`; the coordinates are not negative, and the two printed texts are parameters.
pub mod Font
pub mod Bounds
mod Tests
use cast_mirror.Prelude.{
  ℕ, zero, suc, ◌+◌, ◌-◌, ◌*◌, ◌/◌, ◌%◌, ◌^◌, Bool, ◌&&◌, ◌||◌, List, [], ◌∷◌, Option, none, some,
  ltb, leb, ◌==◌, if◌then◌else◌, get_elem?,
}
use cast_mirror.Pixels.{Buffer, Pixel, write_pixel, ◌>>=◌}
use cast_mirror.Hud.Font.{font_5x7}

-- `for (i = from; i < from + count; ++i)`
unfoldable pub for_up : (ℕ → Buffer → Option Buffer) → ℕ → ℕ → Buffer → Option Buffer
for_up f zero i b = some b
for_up f (suc count) i b = f i b >>= λ b'. for_up f count (suc i) b'

-- A frame's sizes.
pub record Canvas : Type 0 where
  pub stride : ℕ
  pub width : ℕ
  pub height : ℕ

pub record Color : Type 0 where
  pub blue : ℕ
  pub green : ℕ
  pub red : ℕ
  pub alpha : ℕ

abbrev pub color : ℕ → Color
color bgra = record {
  blue = bgra % 256;
  green = bgra / 256 % 256;
  red = bgra / 65536 % 256;
  alpha = bgra / 16777216 % 256;
}

abbrev solid : Color → Pixel
solid c = record { blue = c.blue; green = c.green; red = c.red; alpha = 255 }

abbrev blend : Color → Buffer → ℕ → Pixel
blend c b i =
    let inv = 255 - c.alpha in
    record {
      blue = (b.byte i * inv + c.blue * c.alpha) / 255 % 256;
      green = (b.byte (i + 1) * inv + c.green * c.alpha) / 255 % 256;
      red = (b.byte (i + 2) * inv + c.red * c.alpha) / 255 % 256;
      alpha = 255;
    }

-- The place of a pixel, where it is on the canvas.
unfoldable pub on_canvas : Canvas → ℕ → ℕ → (ℕ → Buffer → Option Buffer) → Buffer → Option Buffer
on_canvas v px py paint b =
    if ltb py v.height && ltb px v.width then paint (py * v.stride + px * 4) b else some b

unfoldable pub paint_rect : Color → ℕ → Buffer → Option Buffer
paint_rect c i b = write_pixel b i (if c.alpha == 255 then solid c else blend c b i)

unfoldable pub draw_rect : Canvas → ℕ → ℕ → ℕ → ℕ → Color → Buffer → Option Buffer
draw_rect v x y w h c = for_up (λ py. for_up (λ px. on_canvas v px py (paint_rect c)) w x) h y

-- The character whose glyph is drawn.
unfoldable pub drawn : ℕ → ℕ
drawn c =
    let upper = if leb 97 c && leb c 122 then c - 32 else c in
    if ltb upper 32 || ltb 90 upper then 32 else upper

abbrev bit_of : ℕ → ℕ → Bool
bit_of bits row = bits / 2 ^ row % 2 == 1

unfoldable pub paint_char : Color → ℕ → Buffer → Option Buffer
paint_char c i b = write_pixel b i (solid c)

-- One bit of a glyph, twice as high and as wide.
unfoldable pub draw_bit : Canvas → ℕ → ℕ → Color → Bool → Buffer → Option Buffer
draw_bit v x y c set b =
    if set then for_up (λ py. for_up (λ px. on_canvas v px py (paint_char c)) 2 x) 2 y b else some b

unfoldable pub draw_column : Canvas → ℕ → ℕ → Color → ℕ → Buffer → Option Buffer
draw_column v x y c bits = for_up (λ row. draw_bit v x (y + row * 2) c (bit_of bits row)) 7 0

unfoldable pub draw_columns : Canvas → ℕ → ℕ → Color → List ℕ → Buffer → Option Buffer
draw_columns v x y c [] b = some b
draw_columns v x y c (bits ∷ glyph) b =
    draw_column v x y c bits b >>= λ b'. draw_columns v (x + 2) y c glyph b'

-- A character outside the table would be `none`.
unfoldable pub draw_char : Canvas → ℕ → ℕ → Color → ℕ → Buffer → Option Buffer
draw_char v x y c ch b =
    get_elem? font_5x7 (drawn ch - 32) >>= λ glyph. draw_columns v x y c glyph b

unfoldable pub draw_string : Canvas → ℕ → ℕ → Color → List ℕ → Buffer → Option Buffer
draw_string v x y c [] b = some b
draw_string v x y c (ch ∷ str) b =
    draw_char v x y c ch b >>= λ b'. draw_string v (x + 12) y c str b'

-- The two texts are what `snprintf` prints of the minutes, seconds and milliseconds, and of the frame's number.
unfoldable pub render :
    (ℕ → ℕ → ℕ → List ℕ) → (ℕ → List ℕ) → ℕ → ℕ → Canvas → Buffer → Option Buffer
render print_time print_frame fid elapsed_ms v b =
    let time_text =
      print_time (elapsed_ms / 1000 / 60 % 60) (elapsed_ms / 1000 % 60) (elapsed_ms % 1000) in
    if b.size == 0 || ltb v.width 320 || ltb v.height 180
    then some b
    else (draw_rect v 20 20 260 44 (color 3994556440) b >>= λ b₁.
        draw_rect v 20 20 260 2 (color 4278244522) b₁ >>= λ b₂.
        draw_string v 30 28 (color 4278255615) time_text b₂ >>= λ b₃.
        draw_string v 30 44 (color 4294967295) (print_frame fid) b₃)
