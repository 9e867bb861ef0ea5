-- ===== src/Control.antt =====
-- core/src/cast_session.cc (`Start` up to the connection and after it, `RequestReconnect`, `FailSession`, `Stop`,
-- `StopMediaPipeline`, the recovery branch of `AdaptationLoop`, `OnChannelStatus`, the CLOSE of `OnChannelMessage`):
-- how a session begins, drops, recovers and ends. Each function is a whole call, so a run of threads is a sequence of
-- calls; only `RequestReconnect` also comes apart, behind its test. The channel is its `IsConnected`, `none` where
-- there is none; what `Disconnect` does to it is written out.
-- What `StopMediaPipeline` drops besides (encoders, packetizers, keys, the transport), time limits on joins, condition
-- variables and log lines are left out. `C` names callbacks.
pub mod Settling
pub mod Stalls
pub mod Handshake
pub mod Answered
pub mod Reconnecting
pub mod Runs
mod Tests
use Prim.Native.String.{String, ◌++◌}
use Prim.Native.String as Text
use cast_mirror.Prelude.{
  ℕ, ◌+◌, ◌-◌, ◌^◌, Bool, true, false, ◌&&◌, ◌||◌, not, ltb, ◌==◌, if◌then◌else◌, List, [], ◌∷◌,
  Option, none, some,
}
use cast_mirror.Prelude.Int.{ℤ, pos, negsuc}
use cast_mirror.Session.{
  SessionState, idle, connecting, streaming, reconnecting, stopping, failed, is,
  is_valid_transition, StateMachine, transition_to, is_active,
}
use cast_mirror.Recovery.{
  SessionRecovery, set_timeout_seconds, start_recovery, has_timed_out, increment_attempt,
}
use cast_mirror.Recovery as Window
use cast_mirror.Devices.{same_text, is_empty}

module _ (C : Type 0) where
  pub record CastSession : Type 0 where
    pub stop_requested : Bool
    pub fail_requested : Bool
    pub fail_reason : String
    pub is_streaming : Bool
    pub is_capturing : Bool
    pub is_frozen : Bool
    pub is_audio_muted : Bool
    pub media_stopped_for_reconnect : Bool
    pub device_name : String
    pub app_session_id : List ℕ
    pub app_transport_id : List ℕ
    pub channel : Option Bool
    pub recovery : SessionRecovery
    pub machine : StateMachine C
    -- What the session sends and reports, in order: the receiver's applications that it stops, and the errors.
    pub stopped_apps : List (List ℕ)
    pub errors : List String

abbrev pub is_blank : String → Bool
is_blank Text.[] = true
is_blank (Text.◌∷◌ c s) = false

abbrev pub or_else : String → String → String
or_else s other = if is_blank s then other else s

-- `push_back`
abbrev pub snoc {ℓ} : {A : Type ℓ} → List A → A → List A
snoc [] a = a ∷ []
snoc (x ∷ xs) a = x ∷ snoc xs a

-- `1 << max(0, attempt - 1)` of an `int`; `none` where the shift is not defined.
abbrev pub shifted : ℕ → Option ℤ
shifted attempt =
    let k = attempt - 1 in
    if ltb k 31 then some (pos (2 ^ k)) else if k == 31 then some (negsuc (2 ^ 31 - 1)) else none

-- The seconds before an attempt.
unfoldable pub sleep_sec : ℕ → Option ℤ
sleep_sec attempt = elim (shifted attempt) as (λ _. Option ℤ) [
  | none ↦ none
  | some (negsuc n) ↦ some (negsuc n)
  | some (pos n) ↦ if ltb n 8 then some (pos n) else some (pos 8)
]

module _ {C : Type 0} where
  abbrev pub state : CastSession C → SessionState
  state s = s.machine.current_state

  abbrev pub go : CastSession C → SessionState → String → CastSession C
  go s to message = record s { machine = (transition_to s.machine to message).machine }

  -- `StopMediaPipeline`
  abbrev pub stop_media_pipeline : CastSession C → CastSession C
  stop_media_pipeline s = record s { is_streaming = false; is_capturing = false }

  abbrev pub disconnect : CastSession C → CastSession C
  disconnect s = record s { channel = elim s.channel [ none ↦ none | some b ↦ some false ] }

  -- The application on the receiver is stopped where the channel is up and one is known.
  unfoldable pub hang_up : CastSession C → CastSession C
  hang_up s = disconnect (record s {
    stopped_apps = elim s.channel [
      | some true ↦
          if is_empty s.app_session_id then s.stopped_apps else snoc s.stopped_apps s.app_session_id
      | _ ↦ s.stopped_apps
    ];
  })

  -- The first transition of `Stop`.
  unfoldable pub enter_stopping : StateMachine C → StateMachine C
  enter_stopping m =
      let cur_before = m.current_state in
      if not (is cur_before idle) && not (is cur_before stopping)
      then (if is_valid_transition cur_before stopping
          then (transition_to m stopping "Stopping").machine
          else m)
      else m

  -- Its last ones, with `fail_requested` and `fail_reason`.
  unfoldable pub settle : StateMachine C → Bool → String → StateMachine C
  settle m true reason =
      let to_failed =
        (transition_to m failed (or_else reason "Connection lost — tap Cast to retry")).machine in
      if is m.current_state stopping
      then (if is_valid_transition m.current_state failed
          then to_failed
          else (transition_to m idle "Cast Stopped (fallback)").machine)
      else to_failed
  settle m false reason =
      let to_idle = (transition_to m idle "Cast Stopped").machine in
      if is m.current_state failed
      then (if is_valid_transition m.current_state stopping
          then (transition_to (transition_to m stopping "Stopping from Failed").machine idle
              "Cast Stopped").machine
          else if is_valid_transition m.current_state idle
          then to_idle
          else m)
      else if is m.current_state stopping
      then to_idle
      else if is_valid_transition m.current_state idle
      then to_idle
      else m

  unfoldable pub stop : CastSession C → CastSession C
  stop s =
      if s.stop_requested
      then s
      else (let hung = hang_up (
            stop_media_pipeline (record s {
              stop_requested = true;
              is_frozen = false;
              is_audio_muted = false;
              machine = enter_stopping s.machine;
            })) in
          record hung {
            recovery = Window.reset hung.recovery;
            machine = settle hung.machine hung.fail_requested hung.fail_reason;
          })

  unfoldable pub fail_session : CastSession C → String → CastSession C
  fail_session s reason =
      if s.stop_requested
      then s
      else stop
          (record s { fail_reason = reason; fail_requested = true; errors = snoc s.errors reason })

  -- `RequestReconnect` at a time, behind its test of the stop request: no lock is held between the two.
  unfoldable pub open_recovery : CastSession C → String → ℤ → CastSession C
  open_recovery s reason now =
      let opened = start_recovery s.recovery now in
      let s' = record s {
        recovery = opened.1;
        media_stopped_for_reconnect = false;
        fail_requested = false;
      } in
      if not opened.0
      then (if has_timed_out s.recovery now then fail_session s reason else s)
      else if is_valid_transition (state s') reconnecting
      then go s' reconnecting ("Reconnecting to " ++ s.device_name)
      else fail_session s' reason

  -- The whole of it, where nothing comes between.
  unfoldable pub request_reconnect : CastSession C → String → ℤ → CastSession C
  unfolding open_recovery
  request_reconnect s reason now = if s.stop_requested then s else open_recovery s reason now

  unfoldable pub on_channel_status : CastSession C → Bool → String → ℤ → CastSession C
  on_channel_status s is_connected error_msg now =
      if not is_connected && not s.stop_requested
      then request_reconnect s ("Cast channel disconnected: " ++ error_msg) now
      else s

  -- A CLOSE of a connection, from `src_id`.
  unfoldable pub on_close : CastSession C → List ℕ → ℤ → CastSession C
  on_close s src_id now =
      if s.stop_requested
      then s
      else if not (is_empty s.app_transport_id) && same_text src_id s.app_transport_id
      then fail_session s "The cast was ended on the TV"
      else request_reconnect s "Receiver closed connection" now

  -- `Start` up to the first transition, and whether it goes on.
  unfoldable pub begin_start : CastSession C → String → ℤ → Bool × CastSession C
  begin_start s name reconnect_window_s = if is_active s.machine then (false, s) else (
    true,
    go
        (record s {
          device_name = name;
          stop_requested = false;
          fail_requested = false;
          fail_reason = "";
          is_streaming = false;
          is_frozen = false;
          is_audio_muted = false;
          recovery = set_timeout_seconds s.recovery reconnect_window_s;
        })
        connecting ("Connecting to " ++ name),
  )

  -- The end of a `Start` that fails at a step which notes it, with its message. The steps that find the stop requested
  -- call `Stop` alone.
  unfoldable pub start_failed : CastSession C → String → CastSession C
  start_failed s message = stop (go s failed message)

  -- The screen capture that `Start` opens before the OFFER where only that tells the size.
  unfoldable pub probe_capture : CastSession C → CastSession C
  probe_capture s = record s { is_capturing = true }

  -- `StartStreamingMedia`, with whether every part of the pipeline starts, and what it returns.
  unfoldable pub start_streaming_media : CastSession C → Bool → Bool × CastSession C
  start_streaming_media s parts =
      if s.stop_requested
      then (false, s)
      else if parts
      then (true, record s { is_streaming = true; is_capturing = true })
      else (false, stop_media_pipeline s)

  unfoldable pub start_succeeded : CastSession C → CastSession C
  start_succeeded s = go s streaming ("Your display is on " ++ s.device_name)

  -- The media are stopped once in a window.
  unfoldable pub stop_media_once : CastSession C → CastSession C
  stop_media_once s =
      if s.media_stopped_for_reconnect
      then s
      else hang_up (stop_media_pipeline (record s { media_stopped_for_reconnect = true }))

  -- An attempt up to its sleep. The device may be looked up under another name; the text is made of the attempt and
  -- the name.
  unfoldable pub open_attempt :
      CastSession C → Option String → (ℕ → String → String) → ℤ → CastSession C
  open_attempt s found text now =
      let named = record s {
        recovery = increment_attempt s.recovery;
        device_name = elim found [ some name ↦ name | none ↦ s.device_name ];
      } in
      if has_timed_out s.recovery now
      then fail_session s "Reconnect timed out — tap Cast to retry"
      else if is_valid_transition (state named) reconnecting
      then go named reconnecting (text named.recovery.attempt_count named.device_name)
      else named

  -- A round of the adaptation loop up to there, where it takes the branch of a recovery.
  unfoldable pub begin_attempt :
      CastSession C → Option String → (ℕ → String → String) → ℤ → CastSession C
  begin_attempt s found text now =
      if s.stop_requested || not (s.recovery.is_recovering || is (state s) reconnecting)
      then s
      else open_attempt (stop_media_once s) found text now

  -- What `NegotiateControlPlane` leaves of the channel, by whether it is up.
  unfoldable pub negotiate : CastSession C → Bool → CastSession C
  negotiate s up = record s { channel = some up }

  -- The round after the sleep, with what `NegotiateControlPlane` gave and whether the pipeline starts.
  unfoldable pub end_attempt : CastSession C → Bool → Bool → CastSession C
  end_attempt s negotiated parts =
      let s' = negotiate (record s { fail_requested = false }) negotiated in
      let media = start_streaming_media s' parts in
      if s.stop_requested
      then s
      else if not negotiated
      then disconnect (stop_media_pipeline s')
      else if not media.0
      then disconnect (stop_media_pipeline media.1)
      else (let m = media.1 in
          let up = record m {
            recovery = Window.reset m.recovery;
            media_stopped_for_reconnect = false;
          } in
          if is_valid_transition (state up) streaming
          then go up streaming ("Your display is on " ++ up.device_name)
          else up)
