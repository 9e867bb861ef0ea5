-- ===== src/Pixels/Tests.antt =====
-- Witnesses and runs.
use cast_mirror.Prelude.{ℕ, ◌≡◌, refl, arith, some, true}
use cast_mirror.Pixels.{Buffer, rgba8, bgra8, rgb10_a2, convert, convert_to_bgra8}
use cast_mirror.Pixels.Whole.{IsConverted, convert_to_bgra8-IsConverted}

abbrev picture : Buffer
picture = record { size = 24; byte = λ i. i }

abbrev blank : Buffer
blank = record { size = 20; byte = λ i. 0 }

abbrev no_floats : ℕ → ℕ
no_floats h = 0

convert_to_bgra8-IsConverted_example :
    (b : Buffer) × (convert_to_bgra8 no_floats picture 12 rgba8 2 2 blank 10 ≡ some (b, true))
    × IsConverted no_floats rgba8 picture 12 10 2 2 blank b
convert_to_bgra8-IsConverted_example =
    convert_to_bgra8-IsConverted no_floats rgba8 picture blank 12 10 2 2 (omega arith) (omega arith)
      (omega arith) (omega arith) (omega arith) (omega arith)

-- A source pixel keeps its alpha where the format is the target's.
kept_alpha : (convert no_floats bgra8 picture.byte 4).alpha ≡ 7
unfolding convert
kept_alpha = refl

red_of_ten_bits : (convert no_floats rgb10_a2 (λ i. 255) 0).red ≡ 255
unfolding convert
red_of_ten_bits = refl
