-- ===== src/Prelude/Bytes.antt =====
-- Big-endian fields, as the sources write and read them byte by byte.
use Prim.Native.Nat.{ℕ, ◌+◌, ◌*◌, ◌/◌, ◌%◌, ◌^◌, ◌<◌}
use mathlib.Core.Path.{◌≡◌}
use mathlib.Core.List.{List, [], ◌∷◌}
use native.Mathlib.Omega.{arith}

-- `static_cast<uint8_t>((x >> k) & 0xFF)`
abbrev pub byte_at : ℕ → ℕ → ℕ
byte_at k x = x / 2 ^ k % 256

abbrev pub be16 : ℕ → List ℕ
be16 x = byte_at 8 x ∷ byte_at 0 x ∷ []

abbrev pub be32 : ℕ → List ℕ
be32 x = byte_at 24 x ∷ byte_at 16 x ∷ byte_at 8 x ∷ byte_at 0 x ∷ []

-- `(a << 8) | b` of two bytes, whose bits do not overlap.
abbrev pub of_be16 : ℕ → ℕ → ℕ
of_be16 a b = a * 256 + b

abbrev pub of_be32 : ℕ → ℕ → ℕ → ℕ → ℕ
of_be32 a b c d = a * 16777216 + b * 65536 + c * 256 + d

pub of_be16-be16 : (x : ℕ) → x < 65536 → of_be16 (byte_at 8 x) (byte_at 0 x) ≡ x
of_be16-be16 x h = omega arith

pub of_be32-be32 :
    (x : ℕ) → x < 2 ^ 32 → of_be32 (byte_at 24 x) (byte_at 16 x) (byte_at 8 x) (byte_at 0 x) ≡ x
of_be32-be32 x h = omega arith
