-- ===== src/Pacer/Timestamps.antt =====
-- The stamps of the emitted frames, and the cadence.
use cast_mirror.Prelude.{
  if_cases, ℕ, ◌*◌, ◌≤◌, min, Bool, true, if◌then◌else◌, ◌≡◌, refl, subst, ◌∙◌, Bool-cases, inl,
  inr, Option, none, some, List, [], ◌∷◌, arith,
}
use cast_mirror.Prelude.Int.{ℤ, pos, negsuc, ◌-ℤ◌, ◌*ℤ◌, ◌≤ℤ◌, ltb_ℤ, +ℤ_parts, -ℤ_parts}
use cast_mirror.Prelude.Time.{quot}
use cast_mirror.Prelude.Reads.{is_some}
use cast_mirror.Pacer.{
  CapturedVideoFrame, FramePacer, Decision, set_target_fps, submit, take_superseded_buffer,
  wait_slice_ms, has_frame, resync, take_pending, elapsed_step, stamp, emit, tick,
}

elapsed_step_min : (p : FramePacer) (now : ℤ) → ltb_ℤ (pos 0) (elapsed_step p now) ≡ true
unfolding elapsed_step ◌*ℤ◌
elapsed_step_min p now = go (quot (now -ℤ p.last_emit_now) 1000)
  where
    go : (e : ℤ) → ltb_ℤ (pos 0) ((if ltb_ℤ (pos 1000) e then e else pos 1000) *ℤ pos 1000) ≡ true
    go e = ground arith

stamp_rises :
    (p : FramePacer) (fresh : Bool) (now : ℤ) → ltb_ℤ p.last_emit_ts (stamp p fresh now) ≡ true
unfolding stamp
stamp_rises p fresh now =
    let step = elapsed_step_min p now in
    let sum = +ℤ_parts p.last_emit_ts (elapsed_step p now) in ground arith

pub data Call : Type 0 where
  on_submit : CapturedVideoFrame → ℤ × ℤ → Call
  on_tick : ℤ → Call
  on_fps : ℕ → Call
  on_take : Call

unfoldable pub step : FramePacer → Call → FramePacer
step p (on_submit frame crop) = submit p frame crop
step p (on_tick now) = (tick p now).0
step p (on_fps fps) = set_target_fps p fps
step p on_take = (take_superseded_buffer p).0

-- The frames that a call emits.
unfoldable pub emitted : FramePacer → Call → Option CapturedVideoFrame
emitted p (on_tick now) = (tick p now).1.frame
emitted p _ = none

unfoldable pub stamps_of : Option CapturedVideoFrame → List ℤ → List ℤ
stamps_of none rest = rest
stamps_of (some f) rest = f.timestamp ∷ rest

unfoldable pub stamps : FramePacer → List Call → List ℤ
stamps p [] = []
stamps p (x ∷ calls) = stamps_of (emitted p x) (stamps (step p x) calls)

abbrev pub Rise : ℤ → List ℤ → Type 0
Rise t [] = Unit {0}
Rise t (s ∷ rest) = (ltb_ℤ t s ≡ true) × Rise s rest

-- What a call does to the last stamp.
Stepped : ℤ → FramePacer → Option CapturedVideoFrame → Type 0
Stepped t p none = p.last_emit_ts ≡ t
Stepped t p (some f) = (p.last_emit_ts ≡ f.timestamp) × (ltb_ℤ t f.timestamp ≡ true)

extend :
    (t : ℤ) (p : FramePacer) (o : Option CapturedVideoFrame) (rest : List ℤ)
    → Stepped t p o
    → Rise p.last_emit_ts rest
    → Rise t (stamps_of o rest)
unfolding Stepped stamps_of
extend t p none rest h r = subst (λ s. Rise s rest) h r
extend t p (some f) rest h r = (h.1, subst (λ s. Rise s rest) h.0 r)

emit-Stepped :
    (p : FramePacer) (fresh : Bool) (now : ℤ)
    → Stepped p.last_emit_ts (emit p fresh now).0 (emit p fresh now).1.frame
unfolding emit Stepped
emit-Stepped p fresh now =
    if_cases (λ (r : FramePacer × Decision). Stepped p.last_emit_ts r.0 r.1.frame) p.have_last _ _
      (refl, stamp_rises p fresh now) refl

resync_keeps : (p : FramePacer) (now : ℤ) → (resync p now).last_emit_ts ≡ p.last_emit_ts
unfolding resync
resync_keeps p now = ground arith

take_pending_keeps : (p : FramePacer) → (take_pending p).last_emit_ts ≡ p.last_emit_ts
unfolding take_pending
take_pending_keeps p = ground arith

tick-Stepped :
    (p : FramePacer) (now : ℤ) → Stepped p.last_emit_ts (tick p now).0 (tick p now).1.frame
unfolding tick Stepped
tick-Stepped p now =
    let synced = resync p now in
    let taken = take_pending synced in
    let same = take_pending_keeps synced ∙ resync_keeps p now in
    elim (Bool-cases (ltb_ℤ now synced.next_emit)) [
      | inl e ↦ rw (tick, e) (resync_keeps p now)
      | inr e ↦
          rw (tick, e)
            (subst
              (λ t.
                Stepped t (emit taken synced.have_pending now).0
                  (emit taken synced.have_pending now).1.frame)
              same (emit-Stepped taken synced.have_pending now))
    ]

step-Stepped : (p : FramePacer) (x : Call) → Stepped p.last_emit_ts (step p x) (emitted p x)
unfolding step emitted submit set_target_fps take_superseded_buffer Stepped
step-Stepped p (on_submit frame crop) = refl
step-Stepped p (on_tick now) = tick-Stepped p now
step-Stepped p (on_fps fps) = refl
step-Stepped p on_take = refl

-- Whatever is captured, with any stamps, and whenever ticks come, the frames that are emitted have
-- stamps that rise strictly, from above the last one.
pub stamps-Rise : (p : FramePacer) (calls : List Call) → Rise p.last_emit_ts (stamps p calls)
unfolding stamps
stamps-Rise p [] = tt
stamps-Rise p (x ∷ calls) =
    extend p.last_emit_ts (step p x) (emitted p x) (stamps (step p x) calls) (step-Stepped p x)
      (stamps-Rise (step p x) calls)

-- A tick that is not before the deadline emits a frame exactly where one was captured or emitted
-- before.
pub due_tick_emits :
    (p : FramePacer) (now : ℤ) → p.next_emit ≤ℤ now → is_some (tick p now).1.frame ≡ has_frame p
unfolding tick resync take_pending emit has_frame
due_tick_emits p now due = ground arith

slice_bound :
    (d : ℤ)
    → pos 0 ≤ℤ d
    → pos ((elim (quot d 1000000) as (λ _. ℕ) [ pos ms ↦ min ms 100 | _ ↦ 0 ]) * 1000000) ≤ℤ d
slice_bound (pos n) h = omega arith
slice_bound (negsuc n) h = absurd (omega arith)

slice_cap : (q : ℤ) → elim q as (λ _. ℕ) [ pos ms ↦ min ms 100 | _ ↦ 0 ] ≤ 100
slice_cap (pos n) = omega arith
slice_cap (negsuc n) = omega arith

-- Before the deadline, a wait is at most 100 ms and does not go beyond it.
pub wait_slice_ms_bound :
    (p : FramePacer) (now : ℤ)
    → ltb_ℤ now p.next_emit ≡ true
    → (wait_slice_ms p now ≤ 100) × (pos (wait_slice_ms p now * 1000000) ≤ℤ p.next_emit -ℤ now)
unfolding wait_slice_ms
wait_slice_ms_bound p now before =
    let left = p.next_emit -ℤ now in
    let parts = -ℤ_parts p.next_emit now in
    rw (before) (slice_cap (quot left 1000000), slice_bound left (ground arith))
