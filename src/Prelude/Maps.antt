-- ===== src/Prelude/Maps.antt =====
-- `std::map` with numeric keys: an association list in the order of its keys.
use cast_mirror.Prelude.Tests.{ltb, ◌==◌, if◌then◌else◌}
use cast_mirror.Prelude.Lists.{length}
use Prim.Native.Nat.{ℕ, suc, ◌≤◌, ◌<◌}
use mathlib.Core.Path.{◌≡◌, refl}
use mathlib.Core.Option.{Option, none, some}
use mathlib.Core.List.{List, [], ◌∷◌}
use native.Mathlib.Omega.{arith}

module _ {ℓ} {V : Type ℓ} where
  unfoldable pub find : ℕ → List (ℕ × V) → Option V
  find k [] = none
  find k ((j, v) ∷ m) = if j == k then some v else find k m

  unfoldable pub insert : ℕ → V → List (ℕ × V) → List (ℕ × V)
  insert k v [] = (k, v) ∷ []
  insert k v ((j, w) ∷ m) =
      if ltb k j then (k, v) ∷ (j, w) ∷ m else if k == j then (k, v) ∷ m else (j, w) ∷ insert k v m

  -- Every key is above the bound, and the keys rise.
  abbrev pub Above : ℕ → List (ℕ × V) → Type 0
  Above n [] = Unit {0}
  Above n ((j, v) ∷ m) = (n ≤ j) × Above (suc j) m

  abbrev pub IsOrdered : List (ℕ × V) → Type 0
  IsOrdered m = Above 0 m

  pub find-insert :
      (k j : ℕ) (v : V) (m : List (ℕ × V))
      → find j (insert k v m) ≡ (if k == j then some v else find j m)
  unfolding find insert
  find-insert k j v [] = refl
  find-insert k j v ((i, w) ∷ m) = ground (arith, find-insert k j v m)

  pub insert-Above :
      (n k : ℕ) (v : V) (m : List (ℕ × V)) → n ≤ k → Above n m → Above n (insert k v m)
  unfolding insert
  insert-Above n k v [] h a = (h, tt)
  insert-Above n k v ((j, w) ∷ m) h a = ground (arith, insert-Above (suc j) k v m)

  pub Above-mono : (n n' : ℕ) (m : List (ℕ × V)) → n ≤ n' → Above n' m → Above n m
  Above-mono n n' [] h a = tt
  Above-mono n n' ((j, w) ∷ m) h a = (omega arith, a.1)

  pub length-insert-le : (k : ℕ) (v : V) (m : List (ℕ × V)) → length (insert k v m) ≤ suc (length m)
  unfolding insert
  length-insert-le k v [] = omega arith
  length-insert-le k v ((j, w) ∷ m) = ground (arith, length-insert-le k v m)

  -- A key below all keys of the map is not in it.
  pub find-Above : (k n : ℕ) (m : List (ℕ × V)) → Above n m → k < n → find k m ≡ none
  unfolding find
  find-Above k n [] a h = refl
  find-Above k n ((j, w) ∷ m) a h = ground (arith, find-Above k (suc j) m)
