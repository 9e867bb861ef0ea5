-- ===== src/Hud/Tests.antt =====
-- Witnesses.
use cast_mirror.Prelude.{ℕ, List, [], ◌∷◌, arith}
use cast_mirror.Pixels.{Buffer}
use cast_mirror.Hud.{Canvas, render}
use cast_mirror.Hud.Bounds.{IsDrawn, render-IsDrawn}

abbrev small : Canvas
small = record { stride = 1280; width = 320; height = 180 }

abbrev frame : Buffer
frame = record { size = 230400; byte = λ i. 0 }

-- Texts that run out of the frame.
abbrev long_time : ℕ → ℕ → ℕ → List ℕ
long_time mins secs ms = 84 ∷ 105 ∷ mins ∷ 58 ∷ secs ∷ 46 ∷ ms ∷ 200 ∷ 255 ∷ []

abbrev long_frame : ℕ → List ℕ
long_frame fid = 35 ∷ fid ∷ 48 ∷ []

render-IsDrawn_example : IsDrawn 230400 (render long_time long_frame 7 61001 small frame)
render-IsDrawn_example =
    render-IsDrawn long_time long_frame 7 61001 small frame (omega arith) (omega arith)
