-- ===== src/Engine/Accounts.antt =====
-- What became of the sessions that an engine started.
use cast_mirror.Prelude.{
  ℕ, suc, ◌<◌, ◌≡◌, refl, ◌⊎◌, inl, inr, Bool, true, false, ◌&&◌, ◌||◌, ◌==◌, List, [], ◌∷◌, Option,
  none, some, arith, never, Bool-cases,
}
use cast_mirror.Engine.{SessionCall, stop}
use cast_mirror.Engine.Calls.{is_active_session, is_held, drop_one, hold}

is_stop : SessionCall → Bool
is_stop stop = true
is_stop _ = false

unfoldable pub was_stopped : ℕ → List (ℕ × SessionCall) → Bool
unfolding is_stop
was_stopped id [] = false
was_stopped id ((j, c) ∷ calls) = j == id && is_stop c || was_stopped id calls

unfoldable pub has_failed : ℕ → List ℕ → Bool
has_failed id [] = false
has_failed id (j ∷ ids) = j == id || has_failed id ids

-- A session that is active, was stopped, whose `Start` failed, or that a call still holds.
abbrev pub IsAccounted : ℕ → Option ℕ → List (ℕ × SessionCall) → List ℕ → List ℕ → Type 0
IsAccounted id active calls failed held =
    (active ≡ some id)
    ⊎ ((was_stopped id calls ≡ true) ⊎ ((has_failed id failed ≡ true) ⊎ (is_held id held ≡ true)))

abbrev pub AllAccounted : Option ℕ → ℕ → List (ℕ × SessionCall) → List ℕ → List ℕ → Type 0
AllAccounted active started calls failed held =
    (id : ℕ) → id < started → IsAccounted id active calls failed held

module _ (n : ℕ) (calls : List (ℕ × SessionCall)) (failed held : List ℕ) where
  pub call-AllAccounted :
      (j : ℕ) (c : SessionCall) (active : Option ℕ)
      → AllAccounted active n calls failed held
      → AllAccounted active n ((j, c) ∷ calls) failed held
  unfolding was_stopped
  call-AllAccounted j c active h id lt = ground (arith, h id lt)

  -- What was active is held.
  pub detach-AllAccounted :
      (active : Option ℕ)
      → AllAccounted active n calls failed held
      → AllAccounted none n calls failed (hold active held)
  unfolding is_held
  detach-AllAccounted none h id lt = h id lt
  detach-AllAccounted (some j) h id lt = ground (arith, h id lt)

  pub failed-AllAccounted :
      (j : ℕ) (active : Option ℕ)
      → AllAccounted active n calls failed held
      → AllAccounted active n calls (j ∷ failed) held
  unfolding has_failed
  failed-AllAccounted j active h id lt = ground (arith, h id lt)

  pub active_failed-AllAccounted :
      (j : ℕ) (active : Option ℕ)
      → is_active_session j active ≡ true
      → AllAccounted active n calls failed held
      → AllAccounted none n calls (j ∷ failed) held
  unfolding has_failed
  active_failed-AllAccounted j none e h id lt = never refl e
  active_failed-AllAccounted j (some k) e h id lt = ground (arith, e, h id lt)

  -- A session that is active no more is still held, or was stopped.
  pub replaced_held :
      (j : ℕ)
      → is_held j held ≡ true
      → AllAccounted (some j) n calls failed held
      → AllAccounted none n calls failed held
  replaced_held j e h id lt = elim (Bool-cases (id == j)) [
    | inl same ↦ ground (arith, e, same)
    | inr other ↦ ground (arith, h id lt)
  ]

  pub replaced_stopped :
      (j : ℕ)
      → AllAccounted (some j) n calls failed held
      → AllAccounted none n ((j, stop) ∷ calls) failed held
  unfolding was_stopped
  replaced_stopped j h id lt = ground (arith, h id lt)

  -- The next session starts where none is active, held by its call.
  pub start-AllAccounted :
      (c : SessionCall)
      → AllAccounted none n calls failed held
      → AllAccounted (some n) (suc n) ((n, c) ∷ calls) failed (n ∷ held)
  unfolding was_stopped is_held
  start-AllAccounted c h id lt = elim (Bool-cases (id == n)) [
    | inl e ↦ inl (ground arith)
    | inr e ↦ ground (arith, h id)
  ]

  is_held-drop_one :
      (j id : ℕ) (ids : List ℕ) → (j == id) ≡ false → is_held id (drop_one j ids) ≡ is_held id ids
  unfolding is_held drop_one
  is_held-drop_one j id [] e = refl
  is_held-drop_one j id (k ∷ ids) e = ground (arith, is_held-drop_one j id ids e)

  still :
      (j : ℕ) (active : Option ℕ)
      → (is_held j (drop_one j held) || is_active_session j active) ≡ true
      → (id : ℕ) → (j == id) ≡ true
      → IsAccounted id active calls failed (drop_one j held)
  still j none e id same = ground (arith, e, same)
  still j (some k) e id same = ground (arith, e, same)

  -- A reference is dropped, and with the last one the session is stopped.
  pub release-AllAccounted :
      (j : ℕ) (active : Option ℕ)
      → (is_held j (drop_one j held) || is_active_session j active) ≡ true
      → AllAccounted active n calls failed held
      → AllAccounted active n calls failed (drop_one j held)
  release-AllAccounted j active e h id lt = elim (Bool-cases (j == id)) [
    | inl same ↦ still j active e id same
    | inr other ↦ ground (arith, is_held-drop_one j id held other, h id lt)
  ]

  pub ended-AllAccounted :
      (j : ℕ) (active : Option ℕ)
      → AllAccounted active n calls failed held
      → AllAccounted active n ((j, stop) ∷ calls) failed (drop_one j held)
  unfolding was_stopped
  ended-AllAccounted j active h id lt = elim (Bool-cases (j == id)) [
    | inl same ↦ ground (arith, same)
    | inr other ↦ ground (arith, is_held-drop_one j id held other, h id lt)
  ]
