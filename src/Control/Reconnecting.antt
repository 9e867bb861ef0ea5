-- ===== src/Control/Reconnecting.antt =====
-- From a drop to the stream again.
use Prim.Native.String.{String}
use cast_mirror.Prelude.{ℕ, true, false, ◌||◌, not, if_cases, if_branches, ◌≡◌, refl, Option}
use cast_mirror.Prelude.Int.{ℤ, ◌-ℤ◌}
use cast_mirror.Prelude.Time.{elapsed_at_least}
use cast_mirror.Session.{streaming, reconnecting, is, is_valid_transition, transition_to}
use cast_mirror.Recovery.{SessionRecovery, start_recovery, has_timed_out, increment_attempt}
use cast_mirror.Recovery as Window
use cast_mirror.Prelude.{never}
use cast_mirror.Control.{
  CastSession, state, hang_up, request_reconnect, start_streaming_media, stop_media_once,
  open_attempt, begin_attempt, end_attempt, negotiate,
}

module _ {C : Type 0} where
  -- A session in the window that was opened at a time.
  abbrev pub Trying : CastSession C → ℕ → ℤ → Type 0
  Trying s limit opened =
      (s.stop_requested ≡ false)
      × (state s ≡ reconnecting)
      × (s.recovery.is_recovering ≡ true)
      × (s.recovery.max_timeout_seconds ≡ limit)
      × (s.recovery.recovery_start_time ≡ opened)

  drop-Trying :
      (s : CastSession C) (reason : String) (now : ℤ)
      → s.stop_requested ≡ false
      → state s ≡ streaming
      → s.recovery.is_recovering ≡ false
      → Trying (request_reconnect s reason now) s.recovery.max_timeout_seconds now
  unfolding request_reconnect start_recovery transition_to is_valid_transition
  drop-Trying s reason now running up closed =
      rw (request_reconnect, running, closed, up) (refl, refl, refl, refl, refl)

  -- `Trying` is kept by what sets other fields, and decides the next two tests.
  in_time :
      (s : CastSession C) (limit : ℕ) (opened now : ℤ)
      → Trying s limit opened
      → has_timed_out s.recovery now ≡ elapsed_at_least limit 1000000000 (now -ℤ opened)
  unfolding has_timed_out
  in_time s limit opened now (running, retrying, recovering, limited, since) =
      rw (has_timed_out, recovering, limited, since) refl

  stop_media_once-Trying :
      (s : CastSession C) (limit : ℕ) (opened : ℤ)
      → Trying s limit opened
      → Trying (stop_media_once s) limit opened
  unfolding stop_media_once hang_up
  stop_media_once-Trying s limit opened h =
      if_cases (λ (t : CastSession C). Trying t limit opened) s.media_stopped_for_reconnect _ _ h h

  open_attempt-Trying :
      (s : CastSession C) (found : Option String) (text : ℕ → String → String) (limit : ℕ)
      (opened now : ℤ)
      → Trying s limit opened
      → elapsed_at_least limit 1000000000 (now -ℤ opened) ≡ false
      → Trying (open_attempt s found text now) limit opened
  unfolding open_attempt increment_attempt transition_to is_valid_transition
  open_attempt-Trying s found text limit opened now h early =
      let (running, retrying, recovering, limited, since) = h in
      rw (open_attempt, in_time s limit opened now h, early, retrying)
        (running, refl, recovering, limited, since)

  begin_attempt-Trying :
      (s : CastSession C) (found : Option String) (text : ℕ → String → String) (limit : ℕ)
      (opened now : ℤ)
      → Trying s limit opened
      → elapsed_at_least limit 1000000000 (now -ℤ opened) ≡ false
      → Trying (begin_attempt s found text now) limit opened
  unfolding begin_attempt
  begin_attempt-Trying s found text limit opened now h early =
      let (running, retrying, recovering, limited, since) = h in
      let goes_on : (s.stop_requested
            || not (s.recovery.is_recovering || is (state s) reconnecting))
          ≡ false =
        rw (running, recovering) refl in
      if_branches (λ (t : CastSession C). Trying t limit opened) _ _ _ (λ e. never goes_on e)
        (λ e.
          open_attempt-Trying _ found text limit opened now
            (stop_media_once-Trying s limit opened h) early)

  attempt_succeeds :
      (s : CastSession C)
      → s.stop_requested ≡ false
      → state s ≡ reconnecting
      → let t = end_attempt s true true in
        (state t ≡ streaming)
        × (t.is_streaming ≡ true)
        × (t.is_capturing ≡ true)
        × (t.recovery.is_recovering ≡ false)
  unfolding end_attempt negotiate start_streaming_media Window.reset transition_to
      is_valid_transition
  attempt_succeeds s running retrying =
      rw (end_attempt, start_streaming_media, running, retrying) (refl, refl, refl, refl)

  -- A session that streams and loses its channel, with no window open, streams and captures again, with its window
  -- closed, after an attempt within the window's time at which the control plane and the pipeline come up, wherever
  -- the device is found.
  pub dropped_session_streams_again :
      (s : CastSession C) (reason : String) (found : Option String) (text : ℕ → String → String)
      (opened now : ℤ)
      → s.stop_requested ≡ false
      → state s ≡ streaming
      → s.recovery.is_recovering ≡ false
      → elapsed_at_least s.recovery.max_timeout_seconds 1000000000 (now -ℤ opened) ≡ false
      → let t =
          end_attempt
            (begin_attempt (request_reconnect s reason opened) found text now)
            true
            true in
        (state t ≡ streaming)
        × (t.is_streaming ≡ true)
        × (t.is_capturing ≡ true)
        × (t.recovery.is_recovering ≡ false)
  dropped_session_streams_again s reason found text opened now running up closed early =
      let s' = request_reconnect s reason opened in
      let (running', retrying', recovering, limited, since) =
        begin_attempt-Trying s' found text s.recovery.max_timeout_seconds opened now
          (drop-Trying s reason opened running up closed) early in
      attempt_succeeds (begin_attempt s' found text now) running' retrying'
