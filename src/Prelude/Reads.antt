-- ===== src/Prelude/Reads.antt =====
-- Reads of a byte buffer: `none` is a read past its end. A chain of reads is a do block.
use cast_mirror.Prelude.Tests.{if◌then◌else◌}
use cast_mirror.Prelude.Lists.{length, get_elem?}
use cast_mirror.Prelude.Bytes.{of_be16, of_be32}
use Prim.Native.Nat.{ℕ, zero, suc, ◌+◌, ◌≤◌, ◌<◌}
use mathlib.Core.Path.{◌≡◌, refl}
use mathlib.Core.Bool.{Bool, true, false}
use mathlib.Core.Option.{Option, none, some}
use mathlib.Core.List.{List, [], ◌∷◌}
use native.Mathlib.Omega.{arith}

infixl 5 ◌>>=◌
abbrev pub ◌>>=◌ {ℓ κ} : {A : Type ℓ} {B : Type κ} → Option A → (A → Option B) → Option B
none >>= f = none
some a >>= f = f a

abbrev pub is_some {ℓ} : {A : Type ℓ} → Option A → Bool
is_some none = false
is_some (some a) = true

pub is_some→eq {ℓ} : {A : Type ℓ} (o : Option A) → is_some o ≡ true → (a : A) × (o ≡ some a)
is_some→eq none h = cc
is_some→eq (some a) h = (a, refl)

unfoldable pub read8 : List ℕ → ℕ → Option ℕ
read8 = get_elem?

-- `ReadUint16BE` and `ReadUint32BE` at an offset.
unfoldable pub read16 : List ℕ → ℕ → Option ℕ
read16 xs i = do a ← read8 xs i; b ← read8 xs (i + 1); some (of_be16 a b)

unfoldable pub read32 : List ℕ → ℕ → Option ℕ
read32 xs i = do
  a ← read8 xs i
  b ← read8 xs (i + 1)
  c ← read8 xs (i + 2)
  d ← read8 xs (i + 3)
  some (of_be32 a b c d)

-- The bytes of a range, each read by itself.
unfoldable pub read_bytes : List ℕ → ℕ → ℕ → Option (List ℕ)
read_bytes xs i zero = some []
read_bytes xs i (suc n) = do b ← read8 xs i; more ← read_bytes xs (i + 1) n; some (b ∷ more)

pub read8_total : (xs : List ℕ) (i : ℕ) → i < length xs → is_some (read8 xs i) ≡ true
unfolding read8
read8_total [] i h = absurd (omega arith)
read8_total (x ∷ xs) zero h = refl
read8_total (x ∷ xs) (suc i) h = read8_total xs i (omega arith)

pub read16_total : (xs : List ℕ) (i : ℕ) → i + 2 ≤ length xs → is_some (read16 xs i) ≡ true
unfolding read16
read16_total xs i h =
    ground (arith, read8_total xs i (omega arith), read8_total xs (i + 1) (omega arith))

pub read32_total : (xs : List ℕ) (i : ℕ) → i + 4 ≤ length xs → is_some (read32 xs i) ≡ true
unfolding read32
read32_total xs i h = ground (
  arith,
  read8_total xs i (omega arith),
  read8_total xs (i + 1) (omega arith),
  read8_total xs (i + 2) (omega arith),
  read8_total xs (i + 3) (omega arith),
)

-- A chain of reads gives a result where each read does.
pub bind_total {ℓ κ} :
    {A : Type ℓ} {B : Type κ} (o : Option A) (f : A → Option B)
    → is_some o ≡ true
    → ((a : A) → is_some (f a) ≡ true)
    → is_some (o >>= f) ≡ true
bind_total none f h g = cc
bind_total (some a) f h g = g a

pub if_total {ℓ} :
    {A : Type ℓ} (c : Bool) (x y : Option A)
    → (c ≡ true → is_some x ≡ true)
    → (c ≡ false → is_some y ≡ true)
    → is_some (if c then x else y) ≡ true
if_total true x y h k = h refl
if_total false x y h k = k refl

pub read_bytes_total :
    (xs : List ℕ) (i n : ℕ) → i + n ≤ length xs → is_some (read_bytes xs i n) ≡ true
unfolding read_bytes
read_bytes_total xs i zero h = refl
read_bytes_total xs i (suc n) h = bind_total (read8 xs i) _ (read8_total xs i (omega arith)) (λ b.
    bind_total (read_bytes xs (i + 1) n) _ (read_bytes_total xs (i + 1) n (omega arith))
      (λ more. refl))
