-- ===== src/Hud/Bounds.antt =====
-- The badge stays in the frame.
use native.Mathlib.Nat.{mul-le-mul_right}
use cast_mirror.Prelude.{
  ℕ, zero, suc, ◌+◌, ◌-◌, ◌*◌, ◌<◌, ◌≤◌, ◌≡◌, refl, Bool, true, false, List, [], ◌∷◌, Option, some,
  arith, if_cases, if_branches, lt→ltb, get_elem?, length,
}
use cast_mirror.Pixels.{Buffer, Pixel, write_pixel, ◌>>=◌}
use cast_mirror.Hud.{
  Canvas, Color, for_up, on_canvas, paint_rect, draw_rect, drawn, paint_char, draw_bit, draw_column,
  draw_columns, draw_char, draw_string, render,
}
use cast_mirror.Hud.Font.{font_5x7}

-- A result, of that size.
abbrev pub IsDrawn : ℕ → Option Buffer → Type 0
IsDrawn n o = (b : Buffer) × (o ≡ some b) × (b.size ≡ n)

-- A step that draws on every buffer of that size.
abbrev Draws : ℕ → (Buffer → Option Buffer) → Type 0
Draws n f = (b : Buffer) → b.size ≡ n → IsDrawn n (f b)

bind-IsDrawn :
    (n : ℕ) (o : Option Buffer) (f : Buffer → Option Buffer)
    → IsDrawn n o
    → Draws n f
    → IsDrawn n (o >>= f)
bind-IsDrawn n o f (b, e, s) d = rw e (d b s)

for_up-Draws :
    (n : ℕ) (f : ℕ → Buffer → Option Buffer)
    → ((i : ℕ) → Draws n (f i))
    → (count i : ℕ) → Draws n (for_up f count i)
unfolding for_up
for_up-Draws n f d zero i b s = (b, refl, s)
for_up-Draws n f d (suc count) i b s =
    bind-IsDrawn n (f i b) (for_up f count (suc i)) (d i b s) (for_up-Draws n f d count (suc i))

write_pixel-IsDrawn :
    (n i : ℕ) (p : Pixel) (b : Buffer) → i + 3 < n → b.size ≡ n → IsDrawn n (write_pixel b i p)
unfolding write_pixel
write_pixel-IsDrawn n i p b h s = rw (lt→ltb (i + 3) b.size (omega arith)) (_, refl, s)

get_inside :
    {A : Type 0} (xs : List A) (i : ℕ) → i < length xs → (x : A) × (get_elem? xs i ≡ some x)
get_inside [] i h = absurd (omega arith)
get_inside (x ∷ xs) zero h = (x, refl)
get_inside (x ∷ xs) (suc i) h = get_inside xs i (omega arith)

-- The table has a glyph for every character that is drawn.
drawn_lt : (c : ℕ) → drawn c - 32 < length font_5x7
unfolding drawn
drawn_lt c = ground arith

-- The sizes of a frame whose buffer holds its rows.
module _ (v : Canvas) (n : ℕ) (wide : v.width * 4 ≤ v.stride) (high : v.height * v.stride ≤ n) where
  inside : (px py : ℕ) → px < v.width → py < v.height → py * v.stride + px * 4 + 3 < n
  inside px py hx hy =
      let row : suc py * v.stride ≤ v.height * v.stride = mul-le-mul_right v.stride hy in
      omega arith

  on_canvas-Draws :
      (px py : ℕ) (paint : ℕ → Buffer → Option Buffer)
      → ((i : ℕ) → i + 3 < n → Draws n (paint i))
      → Draws n (on_canvas v px py paint)
  unfolding on_canvas
  on_canvas-Draws px py paint d b s =
      if_branches (IsDrawn n) _ _ _
        (λ e. d _ (inside px py (ground (arith, e)) (ground (arith, e))) b s) (λ _. (b, refl, s))

  draw_rect-Draws : (x y w h : ℕ) (c : Color) → Draws n (draw_rect v x y w h c)
  unfolding draw_rect paint_rect
  draw_rect-Draws x y w h c =
      for_up-Draws n _
        (λ py.
          for_up-Draws n _
            (λ px.
              on_canvas-Draws px py (paint_rect c) (λ i l b s. write_pixel-IsDrawn n i _ b l s))
            w x)
        h y

  draw_bit-Draws : (x y : ℕ) (c : Color) (set : Bool) → Draws n (draw_bit v x y c set)
  unfolding draw_bit paint_char
  draw_bit-Draws x y c true b s =
      for_up-Draws n _
        (λ py.
          for_up-Draws n _
            (λ px.
              on_canvas-Draws px py (paint_char c) (λ i l b s. write_pixel-IsDrawn n i _ b l s))
            2 x)
        2 y b s
  draw_bit-Draws x y c false b s = (b, refl, s)

  draw_columns-Draws : (x y : ℕ) (c : Color) (glyph : List ℕ) → Draws n (draw_columns v x y c glyph)
  unfolding draw_columns draw_column
  draw_columns-Draws x y c [] b s = (b, refl, s)
  draw_columns-Draws x y c (bits ∷ glyph) b s =
      bind-IsDrawn n (draw_column v x y c bits b) (draw_columns v (x + 2) y c glyph)
        (for_up-Draws n _ (λ row. draw_bit-Draws x (y + row * 2) c _) 7 0 b s)
        (draw_columns-Draws (x + 2) y c glyph)

  draw_char-Draws : (x y : ℕ) (c : Color) (ch : ℕ) → Draws n (draw_char v x y c ch)
  unfolding draw_char
  draw_char-Draws x y c ch b s =
      let (glyph, e) = get_inside font_5x7 (drawn ch - 32) (drawn_lt ch) in
      rw e (draw_columns-Draws x y c glyph b s)

  draw_string-Draws : (x y : ℕ) (c : Color) (str : List ℕ) → Draws n (draw_string v x y c str)
  unfolding draw_string
  draw_string-Draws x y c [] b s = (b, refl, s)
  draw_string-Draws x y c (ch ∷ str) b s =
      bind-IsDrawn n (draw_char v x y c ch b) (draw_string v (x + 12) y c str)
        (draw_char-Draws x y c ch b s) (draw_string-Draws (x + 12) y c str)

  render-Draws :
      (print_time : ℕ → ℕ → ℕ → List ℕ) (print_frame : ℕ → List ℕ) (fid elapsed_ms : ℕ)
      → Draws n (render print_time print_frame fid elapsed_ms v)
  unfolding render
  render-Draws print_time print_frame fid elapsed_ms b s =
      if_cases (IsDrawn n) _ _ _ (b, refl, s)
        (bind-IsDrawn n _ _ (draw_rect-Draws 20 20 260 44 _ b s) (λ b₁ s₁.
          bind-IsDrawn n _ _ (draw_rect-Draws 20 20 260 2 _ b₁ s₁) (λ b₂ s₂.
            bind-IsDrawn n _ _ (draw_string-Draws 30 28 _ _ b₂ s₂) (draw_string-Draws 30 44 _ _))))

-- Whatever the size of the frame, the time, the frame's number and the texts that are printed of them, drawing the badge accesses nothing
-- outside the frame's buffer or the table of glyphs and gives a buffer of the same size, where a row has room for its pixels and the buffer for the
-- rows.
pub render-IsDrawn :
    (print_time : ℕ → ℕ → ℕ → List ℕ) (print_frame : ℕ → List ℕ) (fid elapsed_ms : ℕ) (v : Canvas)
    (b : Buffer)
    → v.width * 4 ≤ v.stride
    → v.height * v.stride ≤ b.size
    → IsDrawn b.size (render print_time print_frame fid elapsed_ms v b)
render-IsDrawn print_time print_frame fid elapsed_ms v b wide high =
    render-Draws v b.size wide high print_time print_frame fid elapsed_ms b refl
