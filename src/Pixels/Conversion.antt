-- ===== src/Pixels/Conversion.antt =====
-- The conversion stays in its buffers and converts every pixel.
use cast_mirror.Prelude.{
  ℕ, zero, suc, ◌+◌, ◌*◌, ◌<◌, ◌≤◌, ◌≡◌, refl, sym, ap, subst, ◌∙◌, lt→ltb, some, arith,
}
use cast_mirror.Pixels.{
  SourcePixelFormat, Buffer, Pixel, write_pixel, bytes_per_pixel, put, convert, read_pixel,
  convert_row, reach, bgra8, rgba8, rgb10_a2, rgba_f16,
}

-- The pixel that stands at a place.
abbrev pub pixel_at : Buffer → ℕ → Pixel
pixel_at b i = record {
  blue = b.byte i;
  green = b.byte (i + 1);
  red = b.byte (i + 2);
  alpha = b.byte (i + 3);
}

-- The bytes from `lo` on, before `hi`, are the only ones that differ.
pub record Within (lo hi : ℕ) (a b : Buffer) : Type 0 where
  pub size : b.size ≡ a.size
  pub below : (i : ℕ) → i < lo → b.byte i ≡ a.byte i
  pub above : (i : ℕ) → hi ≤ i → b.byte i ≡ a.byte i

reach_lt : (fmt : SourcePixelFormat) → reach fmt < bytes_per_pixel fmt
reach_lt bgra8 = omega arith
reach_lt rgba8 = omega arith
reach_lt rgb10_a2 = omega arith
reach_lt rgba_f16 = omega arith

module _ (to8 : ℕ → ℕ) (fmt : SourcePixelFormat) (src : Buffer) where
  -- What a row leaves.
  pub record RowDone (n s d : ℕ) (a b : Buffer) : Type 0 where
    pub within : Within d (d + n * 4) a b
    pub pixels :
        (x : ℕ)
        → x < n
        → pixel_at b (d + x * 4) ≡ convert to8 fmt src.byte (s + x * bytes_per_pixel fmt)

  abbrev pub RowWritten : (n s d : ℕ) → Buffer → Type 0
  RowWritten n s d dst =
      (b : Buffer) × (convert_row to8 fmt src n s d dst ≡ some b) × RowDone n s d dst b

  -- A pixel is written, and the rest of the row is done.
  abbrev written : ℕ → Pixel → Buffer → Buffer
  written d p dst = record dst {
    byte = put (d + 3) p.alpha (put (d + 2) p.red (put (d + 1) p.green (put d p.blue dst.byte)));
  }

  read_inside :
      (s : ℕ)
      → s + bytes_per_pixel fmt ≤ src.size
      → read_pixel to8 fmt src s ≡ some (convert to8 fmt src.byte s)
  unfolding read_pixel
  read_inside s h = rw (lt→ltb (s + reach fmt) src.size (omega (arith, reach_lt fmt))) refl

  write_inside :
      (dst : Buffer) (d : ℕ) (p : Pixel)
      → d + 4 ≤ dst.size
      → write_pixel dst d p ≡ some (written d p dst)
  unfolding write_pixel
  write_inside dst d p h = rw (lt→ltb (d + 3) dst.size (omega arith)) refl

  written-Within : (d : ℕ) (p : Pixel) (dst : Buffer) → Within d (d + 4) dst (written d p dst)
  written-Within d p dst = record {
    size = refl;
    below = λ i h. ground arith;
    above = λ i h. ground arith;
  }

  pixel_at-written : (d : ℕ) (p : Pixel) (dst : Buffer) → pixel_at (written d p dst) d ≡ p
  pixel_at-written d p dst =
      let b : (written d p dst).byte d ≡ p.blue = ground arith in
      let g : (written d p dst).byte (d + 1) ≡ p.green = ground arith in
      let r : (written d p dst).byte (d + 2) ≡ p.red = ground arith in
      let a : (written d p dst).byte (d + 3) ≡ p.alpha = ground arith in
      λ i. record { blue = b i; green = g i; red = r i; alpha = a i }

  -- A change past a pixel leaves the pixel.
  pub pixel_at-Within :
      (lo hi d : ℕ) (a b : Buffer) → Within lo hi a b → d + 4 ≤ lo → pixel_at b d ≡ pixel_at a d
  pixel_at-Within lo hi d a b w h = λ i. record {
    blue = w.below d (omega arith) i;
    green = w.below (d + 1) (omega arith) i;
    red = w.below (d + 2) (omega arith) i;
    alpha = w.below (d + 3) (omega arith) i;
  }

  pub trans-Within :
      (l m h : ℕ) (a b c : Buffer)
      → Within l m a b
      → Within m h b c
      → l ≤ m
      → m ≤ h
      → Within l h a c
  trans-Within l m h a b c v w p q = record {
    size = w.size ∙ v.size;
    below = λ i lt. w.below i (omega arith) ∙ v.below i lt;
    above = λ i le. w.above i le ∙ v.above i (omega arith);
  }

  mul_step : (n k : ℕ) → suc n * k ≡ k + n * k
  mul_step n k = omega arith

  -- The pixels of a row are its first and those of the rest.
  row_pixels :
      (n s d : ℕ) (b : Buffer)
      → pixel_at b d ≡ convert to8 fmt src.byte s
      → ((x : ℕ)
          → x < n
          → pixel_at b (d + 4 + x * 4)
            ≡ convert to8 fmt src.byte (s + bytes_per_pixel fmt + x * bytes_per_pixel fmt))
      → (x : ℕ) → x < suc n
      → pixel_at b (d + x * 4) ≡ convert to8 fmt src.byte (s + x * bytes_per_pixel fmt)
  row_pixels n s d b first rest zero h =
      let there : d + 0 * 4 ≡ d = omega arith in
      let here : s + 0 * bytes_per_pixel fmt ≡ s = omega arith in
      ap (pixel_at b) there ∙ first ∙ sym (ap (convert to8 fmt src.byte) here)
  row_pixels n s d b first rest (suc x) h =
      let there : d + suc x * 4 ≡ d + 4 + x * 4 = omega arith in
      let here : s + suc x * bytes_per_pixel fmt
          ≡ s + bytes_per_pixel fmt + x * bytes_per_pixel fmt =
        omega arith in
      ap (pixel_at b) there ∙ rest x (omega arith) ∙ sym (ap (convert to8 fmt src.byte) here)

  pub convert_row-RowWritten :
      (n s d : ℕ) (dst : Buffer)
      → s + n * bytes_per_pixel fmt ≤ src.size
      → d + n * 4 ≤ dst.size
      → RowWritten n s d dst
  unfolding convert_row
  convert_row-RowWritten zero s d dst hs hd = (
    dst,
    refl,
    record {
      within = record { size = refl; below = λ i h. refl; above = λ i h. refl };
      pixels = λ x h. absurd (omega arith);
    },
  )
  convert_row-RowWritten (suc n) s d dst hs hd =
      let bpp = bytes_per_pixel fmt in
      let p = convert to8 fmt src.byte s in
      let first = written d p dst in
      let (b, e, done) =
        convert_row-RowWritten n (s + bpp) (d + 4) first (omega arith) (omega arith) in
      (
        b,
        rw (read_inside s (omega arith), write_inside dst d p (omega arith)) e,
        record {
          within =
              subst (λ h. Within d h dst b) (omega arith)
                (trans-Within d (d + 4) (d + 4 + n * 4) dst first b (written-Within d p dst)
                  done.within (omega arith) (omega arith));
          pixels =
              row_pixels n s d b
                (pixel_at-Within (d + 4) (d + 4 + n * 4) d first b done.within (omega arith)
                  ∙ pixel_at-written d p dst)
                done.pixels;
        },
      )
