-- ===== src/Pixels/Rows.antt =====
-- The rows of a conversion, one after the other.
use cast_mirror.Prelude.{
  ℕ, zero, suc, ◌+◌, ◌*◌, ◌<◌, ◌≤◌, ◌≡◌, refl, sym, ap, subst, ◌∙◌, some, arith,
}
use cast_mirror.Pixels.{SourcePixelFormat, Buffer, bytes_per_pixel, convert, convert_rows}
use cast_mirror.Pixels.Conversion.{
  Within, pixel_at, trans-Within, pixel_at-Within, convert_row-RowWritten,
}

module _ (to8 : ℕ → ℕ) (fmt : SourcePixelFormat) (src : Buffer)
    (src_pitch dst_pitch width : ℕ) where
  abbrev pub source : ℕ → ℕ → ℕ
  source y x = y * src_pitch + x * bytes_per_pixel fmt

  abbrev pub target : ℕ → ℕ → ℕ
  target y x = y * dst_pitch + x * 4

  -- What the rows from `y` on leave.
  pub record RowsDone (n y : ℕ) (a b : Buffer) : Type 0 where
    pub within : Within (y * dst_pitch) ((y + n) * dst_pitch) a b
    pub pixels :
        (k x : ℕ)
        → k < n
        → x < width
        → pixel_at b (target (y + k) x) ≡ convert to8 fmt src.byte (source (y + k) x)

  abbrev pub RowsWritten : (n y : ℕ) → Buffer → Type 0
  RowsWritten n y dst =
      (b : Buffer) × (convert_rows to8 fmt src src_pitch dst_pitch width n y dst ≡ some b)
      × RowsDone n y dst b

  widen : (l h h' : ℕ) (a b : Buffer) → h ≤ h' → Within l h a b → Within l h' a b
  widen l h h' a b le w = record {
    size = w.size;
    below = w.below;
    above = λ i lt. w.above i (omega arith);
  }

  rows_pixels :
      (n y : ℕ) (b : Buffer)
      → ((x : ℕ) → x < width → pixel_at b (target y x) ≡ convert to8 fmt src.byte (source y x))
      → ((k x : ℕ)
          → k < n
          → x < width
          → pixel_at b (target (suc y + k) x) ≡ convert to8 fmt src.byte (source (suc y + k) x))
      → (k x : ℕ) → k < suc n
      → x < width
      → pixel_at b (target (y + k) x) ≡ convert to8 fmt src.byte (source (y + k) x)
  rows_pixels n y b first rest zero x h l =
      let same : y + 0 ≡ y = omega arith in
      ap (λ j. pixel_at b (target j x)) same
      ∙ first x l
      ∙ sym (ap (λ j. convert to8 fmt src.byte (source j x)) same)
  rows_pixels n y b first rest (suc k) x h l =
      let same : y + suc k ≡ suc y + k = omega arith in
      ap (λ j. pixel_at b (target j x)) same
      ∙ rest k x (omega arith) l
      ∙ sym (ap (λ j. convert to8 fmt src.byte (source j x)) same)

  pub convert_rows-RowsWritten :
      (n y : ℕ) (dst : Buffer)
      → width * bytes_per_pixel fmt ≤ src_pitch
      → width * 4 ≤ dst_pitch
      → (y + n) * src_pitch ≤ src.size
      → (y + n) * dst_pitch ≤ dst.size
      → RowsWritten n y dst
  unfolding convert_rows
  convert_rows-RowsWritten zero y dst ws wd hs hd = (
    dst,
    refl,
    record {
      within = record { size = refl; below = λ i h. refl; above = λ i h. refl };
      pixels = λ k x h l. absurd (omega arith);
    },
  )
  convert_rows-RowsWritten (suc n) y dst ws wd hs hd =
      let (first, e, row) =
        convert_row-RowWritten to8 fmt src width (y * src_pitch) (y * dst_pitch) dst (omega arith)
          (omega arith) in
      let size : first.size ≡ dst.size = row.within.size in
      let (b, e', rows) =
        convert_rows-RowsWritten n (suc y) first ws wd (omega arith) (omega arith) in
      (
        b,
        rw e e',
        record {
          within =
              subst (λ h. Within (y * dst_pitch) h dst b) (omega arith)
                (trans-Within to8 fmt src (y * dst_pitch) (suc y * dst_pitch)
                  ((suc y + n) * dst_pitch) dst first b
                  (widen _ _ _ dst first (omega arith) row.within) rows.within (omega arith)
                  (omega arith));
          pixels =
              rows_pixels n y b
                (λ x l.
                  pixel_at-Within to8 fmt src (suc y * dst_pitch) ((suc y + n) * dst_pitch)
                    (target y x) first b rows.within (omega arith)
                  ∙ row.pixels x l)
                rows.pixels;
        },
      )
