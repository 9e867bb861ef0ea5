-- ===== src/Control/Stalls.antt =====
-- core/src/cast_session.cc (`AdaptationLoop`): how a video stall is noticed. A tick of the loop reads the flag, the time
-- of the last frame sent and the clock; what the verdict brings about is the loop's.
use cast_mirror.Prelude.{
  Bool, true, false, ◌&&◌, not, if◌then◌else◌, if_branches, ◌≡◌, List, [], ◌∷◌, arith,
}
use cast_mirror.Prelude.Int.{ℤ, pos, ◌-ℤ◌, ltb_ℤ}
use cast_mirror.Prelude.Time.{elapsed_at_least}

pub record Tick : Type 0 where
  pub is_frozen : Bool
  pub last_video_send_ms : ℤ
  pub now_ms : ℤ
  pub now : ℤ

pub record StallWatch : Type 0 where
  pub video_stalling : Bool
  pub video_stall_started : ℤ

pub data Verdict : Type 0 where
  healthy force_key_frame reconnect : Verdict

-- No frame for more than 400 ms, once one was sent.
unfoldable pub is_stale : Tick → Bool
is_stale t =
    ltb_ℤ (pos 0) t.last_video_send_ms && ltb_ℤ (pos 400) (t.now_ms -ℤ t.last_video_send_ms)

-- A frozen picture is healthy; a stall of 5 seconds is not. What a frozen tick stores as the time of the last frame is
-- up to the next tick, which may read any.
unfoldable pub watch : StallWatch → Tick → StallWatch × Verdict
watch w t =
    if t.is_frozen
    then (record w { video_stalling = false }, healthy)
    else if is_stale t
    then (if not w.video_stalling
        then (record { video_stalling = true; video_stall_started = t.now }, force_key_frame)
        else if elapsed_at_least 5 1000000000 (t.now -ℤ w.video_stall_started)
        then (w, reconnect)
        else (w, force_key_frame))
    else (record w { video_stalling = false }, healthy)

-- After the ticks, the newest first.
unfoldable pub watched : StallWatch → List Tick → StallWatch
watched w [] = w
watched w (t ∷ ticks) = (watch (watched w ticks) t).0

abbrev pub IsStalled : Tick → Type 0
IsStalled t = (t.is_frozen ≡ false) × (is_stale t ≡ true)

-- The newest ticks all saw a stall, back to one at a time.
pub data StalledSince : List Tick → ℤ → Type 0 where
  began : (t : Tick) (ticks : List Tick) → IsStalled t → StalledSince (t ∷ ticks) t.now
  went_on :
      (t : Tick) (ticks : List Tick) (since : ℤ)
      → IsStalled t
      → StalledSince ticks since
      → StalledSince (t ∷ ticks) since

abbrev Tracked : StallWatch → List Tick → Type 0
Tracked w ticks = w.video_stalling ≡ true → StalledSince ticks w.video_stall_started

watch-Tracked :
    (w : StallWatch) (t : Tick) (ticks : List Tick)
    → Tracked w ticks
    → Tracked (watch w t).0 (t ∷ ticks)
unfolding watch
watch-Tracked w t ticks tracked =
    let P = λ (r : StallWatch × Verdict). Tracked r.0 (t ∷ ticks) in
    if_branches P t.is_frozen _ _ (λ e h. absurd (cc))
      (λ moving.
        if_branches P (is_stale t) _ _
          (λ stale.
            if_branches P (not w.video_stalling) _ _ (λ e h. began t ticks (moving, stale))
              (λ e.
                let stalling : w.video_stalling ≡ true = ground arith in
                let longer = λ (h : w.video_stalling ≡ true).
                  went_on t ticks w.video_stall_started (moving, stale) (tracked h) in
                if_branches P (elapsed_at_least 5 1000000000 (t.now -ℤ w.video_stall_started)) _ _
                  (λ e'. longer) (λ e'. longer)))
          (λ e h. absurd (cc)))

watched-Tracked :
    (w : StallWatch) (ticks : List Tick)
    → w.video_stalling ≡ false
    → Tracked (watched w ticks) ticks
unfolding watched
watched-Tracked w [] fresh = λ h. absurd (cc)
watched-Tracked w (t ∷ ticks) fresh =
    watch-Tracked (watched w ticks) t ticks (watched-Tracked w ticks fresh)

verdict_reconnect :
    (w : StallWatch) (t : Tick)
    → (watch w t).1 ≡ reconnect
    → IsStalled t
      × (w.video_stalling ≡ true)
      × (elapsed_at_least 5 1000000000 (t.now -ℤ w.video_stall_started) ≡ true)
unfolding watch
verdict_reconnect w t e = ground arith

-- From a watch that sees no stall, a tick asks for a reconnection only if it and every tick back to one at least 5
-- seconds earlier saw a picture that is not frozen and of which no frame was sent for more than 400 ms.
pub reconnect_after_stall :
    (w : StallWatch) (ticks : List Tick) (t : Tick)
    → w.video_stalling ≡ false
    → (watch (watched w ticks) t).1 ≡ reconnect
    → (since : ℤ) × StalledSince (t ∷ ticks) since
      × (elapsed_at_least 5 1000000000 (t.now -ℤ since) ≡ true)
reconnect_after_stall w ticks t fresh e =
    let (stalled, stalling, long) = verdict_reconnect (watched w ticks) t e in
    let since = (watched w ticks).video_stall_started in
    (since, went_on t ticks since stalled (watched-Tracked w ticks fresh stalling), long)
