-- ===== src/Control/Runs.antt =====
-- Sessions over any calls of their threads.
use Prim.Native.String.{String}
use cast_mirror.Prelude.{
  ℕ, Bool, true, false, ◌&&◌, ◌||◌, not, if_cases, if_branches, never, ◌≡◌, refl, sym, subst, List,
  [], ◌∷◌, Option, Bool-cases, inl, inr, arith,
}
use cast_mirror.Prelude.Int.{ℤ}
use cast_mirror.Session.{SessionState, reconnecting, is, is_valid_transition, is_active}
use cast_mirror.Recovery.{start_recovery, has_timed_out}
use cast_mirror.Devices.{same_text, is_empty}
use cast_mirror.Control.{
  CastSession, state, go, hang_up, stop, fail_session, open_recovery, request_reconnect,
  on_channel_status, on_close, begin_start, start_failed, start_streaming_media, start_succeeded,
  stop_media_once, open_attempt, begin_attempt, end_attempt, negotiate,
}
use cast_mirror.Control.Settling.{stop-Settled, stopped_stays}

-- What the threads of a session whose capture opens with the media call, at any times. A window may open at any time,
-- as the test of the stop request came before.
pub data Call : Type 0 where
  start : String → ℤ → Call
  announce : SessionState → String → Call
  negotiated : Bool → Call
  media_up : Bool → Call
  start_done : Call
  start_undone : String → Call
  user_stop : Call
  failure : String → Call
  drop_noticed : String → ℤ → Call
  window_opened : String → ℤ → Call
  channel_status : Bool → String → ℤ → Call
  closed : List ℕ → ℤ → Call
  attempt : Option String → (ℕ → String → String) → ℤ → Call
  attempted : Bool → Bool → Call

module _ {C : Type 0} where
  unfoldable pub call : CastSession C → Call → CastSession C
  call s (start name window) = (begin_start s name window).1
  call s (announce to message) = go s to message
  call s (negotiated up) = negotiate s up
  call s (media_up parts) = (start_streaming_media s parts).1
  call s start_done = start_succeeded s
  call s (start_undone message) = start_failed s message
  call s user_stop = stop s
  call s (failure reason) = fail_session s reason
  call s (drop_noticed reason now) = request_reconnect s reason now
  call s (window_opened reason now) = open_recovery s reason now
  call s (channel_status up text now) = on_channel_status s up text now
  call s (closed src now) = on_close s src now
  call s (attempt found text now) = begin_attempt s found text now
  call s (attempted was_up parts) = end_attempt s was_up parts

  unfoldable pub run : CastSession C → List Call → CastSession C
  run s [] = s
  run s (c ∷ calls) = run (call s c) calls

  -- A stopped session neither streams nor captures.
  abbrev pub Quiet : CastSession C → Type 0
  Quiet s = s.stop_requested ≡ true → (s.is_streaming ≡ false) × (s.is_capturing ≡ false)

  stop-Quiet : (s : CastSession C) → Quiet s → Quiet (stop s)
  stop-Quiet s q = elim (Bool-cases s.stop_requested) [
    | inl stopped ↦ subst Quiet (sym (stopped_stays s stopped)) q
    | inr fresh ↦ let (a, b, c, d, e, f, g) = stop-Settled s fresh in λ h. (b, c)
  ]

  fail_session-Quiet :
      (s : CastSession C) (reason : String) → Quiet s → Quiet (fail_session s reason)
  unfolding fail_session
  fail_session-Quiet s reason q = if_cases Quiet s.stop_requested _ _ q (stop-Quiet _ q)

  open_recovery-Quiet :
      (s : CastSession C) (reason : String) (now : ℤ) → Quiet s → Quiet (open_recovery s reason now)
  unfolding open_recovery
  open_recovery-Quiet s reason now q =
      if_cases Quiet (not (start_recovery s.recovery now).0) _ _
        (if_cases Quiet (has_timed_out s.recovery now) _ _ (fail_session-Quiet s reason q) q)
        (if_cases Quiet (is_valid_transition (state s) reconnecting) _ _ q
          (fail_session-Quiet _ reason q))

  request_reconnect-Quiet :
      (s : CastSession C) (reason : String) (now : ℤ)
      → Quiet s
      → Quiet (request_reconnect s reason now)
  unfolding request_reconnect
  request_reconnect-Quiet s reason now q =
      if_cases Quiet s.stop_requested _ _ q (open_recovery-Quiet s reason now q)

  on_channel_status-Quiet :
      (s : CastSession C) (up : Bool) (text : String) (now : ℤ)
      → Quiet s
      → Quiet (on_channel_status s up text now)
  unfolding on_channel_status
  on_channel_status-Quiet s up text now q =
      if_cases Quiet (not up && not s.stop_requested) _ _ (request_reconnect-Quiet s _ now q) q

  on_close-Quiet :
      (s : CastSession C) (src : List ℕ) (now : ℤ) → Quiet s → Quiet (on_close s src now)
  unfolding on_close
  on_close-Quiet s src now q = if_cases Quiet s.stop_requested _ _ q (
      if_cases Quiet (not (is_empty s.app_transport_id) && same_text src s.app_transport_id) _ _
        (fail_session-Quiet s _ q) (request_reconnect-Quiet s _ now q))

  begin_start-Quiet :
      (s : CastSession C) (name : String) (window : ℤ)
      → Quiet s
      → Quiet (begin_start s name window).1
  unfolding begin_start
  begin_start-Quiet s name window q =
      if_cases (λ (r : Bool × CastSession C). Quiet r.1) (is_active s.machine) (false, s) _ q
        (never refl)

  start_streaming_media-Quiet :
      (s : CastSession C) (parts : Bool) → Quiet s → Quiet (start_streaming_media s parts).1
  unfolding start_streaming_media
  start_streaming_media-Quiet s parts q =
      if_branches (λ (r : Bool × CastSession C). Quiet r.1) s.stop_requested _ _ (λ stopped. q)
        (λ running.
          if_cases (λ (r : Bool × CastSession C). Quiet r.1) parts _ _ (never running)
            (never running))

  stop_media_once-running :
      (s : CastSession C) → s.stop_requested ≡ false → (stop_media_once s).stop_requested ≡ false
  unfolding stop_media_once hang_up
  stop_media_once-running s running =
      if_cases (λ (t : CastSession C). t.stop_requested ≡ false) s.media_stopped_for_reconnect _ _
        running running

  open_attempt-Quiet :
      (s : CastSession C) (found : Option String) (text : ℕ → String → String) (now : ℤ)
      → s.stop_requested ≡ false
      → Quiet (open_attempt s found text now)
  unfolding open_attempt
  open_attempt-Quiet s found text now running =
      if_cases Quiet (has_timed_out s.recovery now) _ _ (fail_session-Quiet s _ (never running)) (
        if_cases Quiet (is_valid_transition (state s) reconnecting) _ _ (never running)
          (never running))

  begin_attempt-Quiet :
      (s : CastSession C) (found : Option String) (text : ℕ → String → String) (now : ℤ)
      → Quiet s
      → Quiet (begin_attempt s found text now)
  unfolding begin_attempt
  begin_attempt-Quiet s found text now q =
      if_branches Quiet
        (s.stop_requested || not (s.recovery.is_recovering || is (state s) reconnecting)) _ _
        (λ h. q)
        (λ h. open_attempt-Quiet _ found text now (stop_media_once-running s (ground arith)))

  end_attempt-Quiet :
      (s : CastSession C) (was_up parts : Bool) → Quiet s → Quiet (end_attempt s was_up parts)
  unfolding end_attempt negotiate start_streaming_media
  end_attempt-Quiet s was_up parts q =
      if_branches Quiet s.stop_requested _ _ (λ stopped. q)
        (λ running. never (ground (arith, running)))

  call-Quiet : (s : CastSession C) (c : Call) → Quiet s → Quiet (call s c)
  unfolding call negotiate start_failed start_succeeded
  call-Quiet s (start name window) q = begin_start-Quiet s name window q
  call-Quiet s (announce to message) q = q
  call-Quiet s (negotiated up) q = q
  call-Quiet s (media_up parts) q = start_streaming_media-Quiet s parts q
  call-Quiet s start_done q = q
  call-Quiet s (start_undone message) q = stop-Quiet _ q
  call-Quiet s user_stop q = stop-Quiet s q
  call-Quiet s (failure reason) q = fail_session-Quiet s reason q
  call-Quiet s (drop_noticed reason now) q = request_reconnect-Quiet s reason now q
  call-Quiet s (window_opened reason now) q = open_recovery-Quiet s reason now q
  call-Quiet s (channel_status up text now) q = on_channel_status-Quiet s up text now q
  call-Quiet s (closed src now) q = on_close-Quiet s src now q
  call-Quiet s (attempt found text now) q = begin_attempt-Quiet s found text now q
  call-Quiet s (attempted was_up parts) q = end_attempt-Quiet s was_up parts q

  -- From a session that is in order, after any calls of its threads, each a step but `RequestReconnect`, whose window
  -- may open after a stop that comes behind its test, at any times and with any outcomes, a session whose stop was
  -- requested neither streams nor captures, until it is started again.
  pub run-Quiet : (s : CastSession C) (calls : List Call) → Quiet s → Quiet (run s calls)
  unfolding run
  run-Quiet s [] q = q
  run-Quiet s (c ∷ calls) q = run-Quiet (call s c) calls (call-Quiet s c q)
