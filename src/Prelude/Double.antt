-- ===== src/Prelude/Double.antt =====
-- All that the program does with its `double`s, as a parameter: the nearest double of a fraction, for
-- literals and for integers, the four operations that it uses, and two comparisons. No law is
-- assumed of them.
use cast_mirror.Prelude.Int.{ℤ, pos, pos_part, neg_part, sub_ℕ, ltb_ℤ}
use Prim.Native.Nat.{ℕ, ◌+◌, ◌*◌, ◌/◌}
use mathlib.Core.Bool.{Bool, not}

pub record Double (W : Type 0) : Type 0 where
  pub ratio : ℕ → ℕ → W
  pub add : W → W → W
  pub sub : W → W → W
  pub mul : W → W → W
  pub abs : W → W
  pub lt : W → W → Bool
  pub le : W → W → Bool

-- An instance for tests: fixed-point numbers in 65536ths.
abbrev pub fixed_point : Double ℤ
fixed_point = record {
  ratio = λ a b. pos (a * 65536 / b);
  add = λ a b. sub_ℕ (pos_part a + pos_part b) (neg_part a + neg_part b);
  sub = λ a b. sub_ℕ (pos_part a + neg_part b) (neg_part a + pos_part b);
  mul = λ a b.
      sub_ℕ ((pos_part a * pos_part b + neg_part a * neg_part b) / 65536)
        ((pos_part a * neg_part b + neg_part a * pos_part b) / 65536);
  abs = λ a. pos (pos_part a + neg_part a);
  lt = ltb_ℤ;
  le = λ a b. not (ltb_ℤ b a);
}
