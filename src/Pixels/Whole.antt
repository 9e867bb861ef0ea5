-- ===== src/Pixels/Whole.antt =====
-- The whole call.
use cast_mirror.Prelude.{
  ℕ, ◌+◌, ◌*◌, ◌<◌, ◌≤◌, ◌≡◌, refl, ◌/◌, ◌%◌, sym, subst, ap, Bool, true, false, ◌||◌, some, arith,
  ltb, ◌==◌,
}
use cast_mirror.Pixels.{
  bgra8, rgba8, rgb10_a2, rgba_f16, Pixel, SourcePixelFormat, Buffer, bytes_per_pixel, convert,
  convert_to_bgra8, ◌>>=◌,
}
use cast_mirror.Pixels.Conversion.{pixel_at}
use cast_mirror.Pixels.Rows.{convert_rows-RowsWritten}

is_refused : SourcePixelFormat → (width height src_pitch dst_pitch : ℕ) → Bool
is_refused fmt width height src_pitch dst_pitch =
    width == 0
    || height == 0
    || ltb src_pitch (width * bytes_per_pixel fmt)
    || ltb dst_pitch (width * 4)

goes_on :
    (fmt : SourcePixelFormat) (width height src_pitch dst_pitch : ℕ)
    → 0 < width
    → 0 < height
    → width * bytes_per_pixel fmt ≤ src_pitch
    → width * 4 ≤ dst_pitch
    → is_refused fmt width height src_pitch dst_pitch ≡ false
unfolding is_refused
goes_on fmt width height src_pitch dst_pitch w h ws wd = ground arith

plus_zero : (y : ℕ) → 0 + y ≡ y
plus_zero y = omega arith

-- What a format says of a pixel at `s`, in the order blue, green, red and alpha of the target: the same four bytes; red,
-- green and blue in three bytes; red, green and blue from the lowest of three fields of ten bits in a little-endian
-- word, without their two lowest bits; or red, green and blue in three little-endian halves. All but the first are
-- opaque.
abbrev pub IsPixel : (ℕ → ℕ) → SourcePixelFormat → (ℕ → ℕ) → ℕ → Pixel → Type 0
IsPixel to8 bgra8 byte s p =
    (p.blue ≡ byte s) × (p.green ≡ byte (s + 1)) × (p.red ≡ byte (s + 2)) × (p.alpha ≡ byte (s + 3))
IsPixel to8 rgba8 byte s p =
    (p.red ≡ byte s) × (p.green ≡ byte (s + 1)) × (p.blue ≡ byte (s + 2)) × (p.alpha ≡ 255)
IsPixel to8 rgb10_a2 byte s p =
    (red : ℕ) × (green : ℕ) × (blue : ℕ) × (top : ℕ) × (red < 1024)
    × (green < 1024)
    × (blue < 1024)
    × (byte s + 256 * (byte (s + 1) + 256 * (byte (s + 2) + 256 * byte (s + 3)))
        ≡ red + 1024 * (green + 1024 * (blue + 1024 * top)))
    × (p.red ≡ red / 4)
    × (p.green ≡ green / 4)
    × (p.blue ≡ blue / 4)
    × (p.alpha ≡ 255)
IsPixel to8 rgba_f16 byte s p =
    (p.red ≡ to8 (byte s + 256 * byte (s + 1)))
    × (p.green ≡ to8 (byte (s + 2) + 256 * byte (s + 3)))
    × (p.blue ≡ to8 (byte (s + 4) + 256 * byte (s + 5)))
    × (p.alpha ≡ 255)

convert-IsPixel :
    (to8 : ℕ → ℕ) (fmt : SourcePixelFormat) (byte : ℕ → ℕ) (s : ℕ)
    → IsPixel to8 fmt byte s (convert to8 fmt byte s)
unfolding convert
convert-IsPixel to8 bgra8 byte s = (refl, refl, refl, refl)
convert-IsPixel to8 rgba8 byte s = (refl, refl, refl, refl)
convert-IsPixel to8 rgb10_a2 byte s =
    let v = byte s + 256 * byte (s + 1) + 65536 * byte (s + 2) + 16777216 * byte (s + 3) in
    (
      v % 1024,
      v / 1024 % 1024,
      v / 1048576 % 1024,
      v / 1073741824,
      omega arith,
      omega arith,
      omega arith,
      omega arith,
      refl,
      refl,
      refl,
      refl,
    )
convert-IsPixel to8 rgba_f16 byte s = (refl, refl, refl, refl)

-- Every pixel of the block stands in the target as its format says, and nothing past the rows changed.
pub record IsConverted (to8 : ℕ → ℕ) (fmt : SourcePixelFormat) (src : Buffer)
    (src_pitch dst_pitch width height : ℕ) (dst b : Buffer) : Type 0 where
  pub size : b.size ≡ dst.size
  pub pixels :
      (y x : ℕ)
      → y < height
      → x < width
      → IsPixel to8 fmt src.byte
          (y * src_pitch + x * bytes_per_pixel fmt)
          (pixel_at b (y * dst_pitch + x * 4))
  pub rest : (i : ℕ) → height * dst_pitch ≤ i → b.byte i ≡ dst.byte i

-- A block of pixels that is not empty, with pitches that hold its rows and buffers that hold its rows with their pitches, is
-- converted with no access outside the buffers: the result is true, every pixel stands in the target as its format says, with
-- its channels in the target's order, alpha 255 except for the format whose pixels are copied, and ten bits cut to the
-- upper eight, and what follows the rows is as it was.
pub convert_to_bgra8-IsConverted :
    (to8 : ℕ → ℕ) (fmt : SourcePixelFormat) (src dst : Buffer)
    (src_pitch dst_pitch width height : ℕ)
    → 0 < width
    → 0 < height
    → width * bytes_per_pixel fmt ≤ src_pitch
    → width * 4 ≤ dst_pitch
    → height * src_pitch ≤ src.size
    → height * dst_pitch ≤ dst.size
    → (b : Buffer) × (convert_to_bgra8 to8 src src_pitch fmt width height dst dst_pitch
        ≡ some (b, true))
      × IsConverted to8 fmt src src_pitch dst_pitch width height dst b
unfolding convert_to_bgra8 is_refused
convert_to_bgra8-IsConverted to8 fmt src dst src_pitch dst_pitch width height w h ws wd hs hd =
    let (b, e, done) =
      convert_rows-RowsWritten to8 fmt src src_pitch dst_pitch width height 0 dst ws wd
        (omega arith) (omega arith) in
    (
      b,
      rw (goes_on fmt width height src_pitch dst_pitch w h ws wd)
          (ap (λ r. r >>= λ dst'. some (dst', true)) e),
      record {
        size = done.within.size;
        pixels = λ y x h l.
            subst (IsPixel to8 fmt src.byte (y * src_pitch + x * bytes_per_pixel fmt))
              (sym (
                subst
                  (λ j.
                    pixel_at b (j * dst_pitch + x * 4)
                    ≡ convert to8 fmt src.byte (j * src_pitch + x * bytes_per_pixel fmt))
                  (plus_zero y) (done.pixels y x h l)))
              (convert-IsPixel to8 fmt src.byte (y * src_pitch + x * bytes_per_pixel fmt));
        rest = λ i h. done.within.above i (omega arith);
      },
    )
