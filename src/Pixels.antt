-- ===== src/Pixels.antt =====
-- core/src/pixel_convert.cc, `ConvertToBgra8`: a buffer is its size and its bytes, and an access past its end is
-- `none`. The conversion of a 16-bit float channel by tables is a parameter.
pub mod Conversion
pub mod Rows
pub mod Whole
mod Tests
use cast_mirror.Prelude.{
  ℕ, zero, suc, ◌+◌, ◌*◌, ◌/◌, ◌%◌, Bool, true, false, ◌||◌, Option, none, some, ltb, ◌==◌,
  if◌then◌else◌,
}

pub data SourcePixelFormat : Type 0 where
  bgra8 rgba8 rgb10_a2 rgba_f16 : SourcePixelFormat

pub record Buffer : Type 0 where
  pub size : ℕ
  pub byte : ℕ → ℕ

pub record Pixel : Type 0 where
  pub blue : ℕ
  pub green : ℕ
  pub red : ℕ
  pub alpha : ℕ

abbrev pub put : ℕ → ℕ → (ℕ → ℕ) → ℕ → ℕ
put i v byte j = if j == i then v else byte j

-- The four bytes of a pixel.
unfoldable pub write_pixel : Buffer → ℕ → Pixel → Option Buffer
write_pixel b i p =
    if ltb (i + 3) b.size
    then some (record b {
      byte = put (i + 3) p.alpha (put (i + 2) p.red (put (i + 1) p.green (put i p.blue b.byte)));
    })
    else none

abbrev pub bytes_per_pixel : SourcePixelFormat → ℕ
bytes_per_pixel rgba_f16 = 8
bytes_per_pixel _ = 4

-- The last byte that a format's pixel is read from.
abbrev pub reach : SourcePixelFormat → ℕ
reach rgba_f16 = 5
reach _ = 3

infixl 5 ◌>>=◌
abbrev pub ◌>>=◌ {ℓ κ} : {A : Type ℓ} {B : Type κ} → Option A → (A → Option B) → Option B
none >>= f = none
some a >>= f = f a

module _ (to8 : ℕ → ℕ) where
  -- The pixel that four bytes, or the first six of eight, stand for.
  unfoldable pub convert : SourcePixelFormat → (ℕ → ℕ) → ℕ → Pixel
  convert bgra8 byte s = record {
    blue = byte s;
    green = byte (s + 1);
    red = byte (s + 2);
    alpha = byte (s + 3);
  }
  convert rgba8 byte s = record {
    blue = byte (s + 2);
    green = byte (s + 1);
    red = byte s;
    alpha = 255;
  }
  convert rgb10_a2 byte s =
      let v = byte s + 256 * byte (s + 1) + 65536 * byte (s + 2) + 16777216 * byte (s + 3) in
      record {
        blue = v / 1048576 % 1024 / 4;
        green = v / 1024 % 1024 / 4;
        red = v % 1024 / 4;
        alpha = 255;
      }
  convert rgba_f16 byte s = record {
    blue = to8 (byte (s + 4) + 256 * byte (s + 5));
    green = to8 (byte (s + 2) + 256 * byte (s + 3));
    red = to8 (byte s + 256 * byte (s + 1));
    alpha = 255;
  }

  unfoldable pub read_pixel : SourcePixelFormat → Buffer → ℕ → Option Pixel
  read_pixel fmt src s =
      if ltb (s + reach fmt) src.size then some (convert fmt src.byte s) else none

  -- The loop over `x`, with the two pointers.
  unfoldable pub convert_row : SourcePixelFormat → Buffer → ℕ → ℕ → ℕ → Buffer → Option Buffer
  convert_row fmt src zero s d dst = some dst
  convert_row fmt src (suc n) s d dst = read_pixel fmt src s >>= λ p.
      write_pixel dst d p >>= λ dst'. convert_row fmt src n (s + bytes_per_pixel fmt) (d + 4) dst'

  -- The loop over `y`, from the row that is next.
  unfoldable pub convert_rows :
      SourcePixelFormat → Buffer → ℕ → ℕ → ℕ → ℕ → ℕ → Buffer → Option Buffer
  convert_rows fmt src src_pitch dst_pitch width zero y dst = some dst
  convert_rows fmt src src_pitch dst_pitch width (suc n) y dst =
      convert_row fmt src width (y * src_pitch) (y * dst_pitch) dst >>= λ dst'.
      convert_rows fmt src src_pitch dst_pitch width n (suc y) dst'

  -- The result is the buffer and what the function returns.
  unfoldable pub convert_to_bgra8 :
      Buffer → ℕ → SourcePixelFormat → ℕ → ℕ → Buffer → ℕ → Option (Buffer × Bool)
  convert_to_bgra8 src src_pitch fmt width height dst dst_pitch =
      if width == 0
        || height == 0
        || ltb src_pitch (width * bytes_per_pixel fmt)
        || ltb dst_pitch (width * 4)
      then some (dst, false)
      else (convert_rows fmt src src_pitch dst_pitch width height 0 dst >>= λ dst'.
          some (dst', true))
