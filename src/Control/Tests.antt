-- ===== src/Control/Tests.antt =====
-- A session that streams, its ends, and the theorems at concrete inputs.
use mathlib.Core.List.{Memᴰ}
use cast_mirror.Prelude.{Option, ℕ, true, false, ◌≡◌, refl, List, [], ◌∷◌, none, some}
use cast_mirror.Prelude.Int.{ℤ, pos, negsuc, ◌-ℤ◌}
use cast_mirror.Session.{is_valid_transition, transition_to, idle, connecting, streaming, failed}
use cast_mirror.Control.{
  settle, enter_stopping, CastSession, state, hang_up, stop, fail_session, open_recovery,
  request_reconnect, start_failed, probe_capture, sleep_sec, begin_attempt, end_attempt,
}
use cast_mirror.Recovery as Window
use cast_mirror.Recovery.{start_recovery}
use cast_mirror.Control.Stalls.{Tick, StallWatch}
use cast_mirror.Capability.{codes}
use cast_mirror.Devices.{same_text}
use cast_mirror.Negotiator.{
  StreamEncryptionKeys, NegotiatedStreamParams, AnswerMessage, value, parse_answer, accept_all,
}
use cast_mirror.Control.Handshake.{
  no_params, Handshake, Message, receiver_status, answer, renew_keys, begin_launch, begin_offer,
  handle_all, handle, handle_receiver_status, take_app, is_mirroring_app, handle_answer,
  take_answer, is_negotiated,
}
use cast_mirror.Control.Answered.{arrived, Attempt, negotiate_control_plane, negotiation_answered}
use cast_mirror.Control.Settling.{Settled, stop-Settled}
use cast_mirror.Control.Reconnecting.{dropped_session_streams_again}
use cast_mirror.Control.Runs.{
  call, user_stop, window_opened, Call, media_up, failure, drop_noticed, attempt, attempted, run,
  Quiet, run-Quiet,
}

abbrev up : CastSession ℕ
up = record {
  stop_requested = false;
  fail_requested = false;
  fail_reason = "";
  is_streaming = true;
  is_capturing = true;
  is_frozen = true;
  is_audio_muted = false;
  media_stopped_for_reconnect = false;
  device_name = "TV";
  app_session_id = 7 ∷ [];
  app_transport_id = 8 ∷ [];
  channel = some true;
  recovery = record {
    is_recovering = false;
    max_timeout_seconds = 30;
    attempt_count = 0;
    recovery_start_time = pos 0;
  };
  machine = record { current_state = streaming; last_message = ""; callbacks = some 1 ∷ [] };
  stopped_apps = [];
  errors = [];
}

app_is_stopped : (stop up).stopped_apps ≡ (7 ∷ []) ∷ []
unfolding stop hang_up
app_is_stopped = refl

failure_is_reported : (fail_session up "gone").errors ≡ "gone" ∷ []
unfolding fail_session stop hang_up
failure_is_reported = refl

-- A capture that opens after a stop is not ended by the stop that follows.
capture_stays_on : (stop (probe_capture (stop up))).is_capturing ≡ true
unfolding stop hang_up probe_capture
capture_stays_on = refl

-- Attempts wait longer up to 8 seconds, and the 32nd shift overflows.
sleeps : (sleep_sec 1 ≡ some (pos 1)) × (sleep_sec 4 ≡ some (pos 8)) × (sleep_sec 31 ≡ some (pos 8))
unfolding sleep_sec
sleeps = (refl, refl, refl)

no_sleep : (sleep_sec 32 ≡ some (negsuc 2147483647)) × (sleep_sec 33 ≡ none)
unfolding sleep_sec
no_sleep = (refl, refl)

stop-Settled_example : Settled (stop up) idle
stop-Settled_example = stop-Settled up refl

-- The same session before it streams.
abbrev starting : CastSession ℕ
starting = record up {
  is_streaming = false;
  is_capturing = false;
  machine = record { current_state = connecting; last_message = ""; callbacks = [] };
}

-- A start that fails ends in idle; where another thread's stop is over before, in failed.
failed_starts :
    (state (start_failed starting "refused") ≡ idle)
    × (state (start_failed (stop starting) "refused") ≡ failed)
unfolding start_failed stop hang_up settle enter_stopping transition_to is_valid_transition
    Window.reset
failed_starts = (refl, refl)

abbrev calls : List Call
calls =
    drop_noticed "lost" (pos 5)
    ∷ attempt none (λ n name. name) (pos 6)
    ∷ attempted true true
    ∷ failure "ended"
    ∷ media_up true
    ∷ []

run-Quiet_example : Quiet (run up calls)
run-Quiet_example = run-Quiet up calls (λ e. absurd (cc))

dropped_session_streams_again_example :
    let t =
      end_attempt
        (begin_attempt (request_reconnect up "lost" (pos 5)) (some "TV 2") (λ n name. name) (pos 9))
        true
        true in
    (state t ≡ streaming)
    × (t.is_streaming ≡ true)
    × (t.is_capturing ≡ true)
    × (t.recovery.is_recovering ≡ false)
unfolding ◌-ℤ◌
dropped_session_streams_again_example =
    dropped_session_streams_again up "lost" (some "TV 2") (λ n name. name) (pos 5) (pos 9) refl refl
      refl refl

-- A window that opens behind a stop leaves the stopped session recovering.
late_window : (run up (user_stop ∷ window_opened "lost" (pos 5) ∷ [])).recovery.is_recovering ≡ true
unfolding run call stop hang_up open_recovery start_recovery Window.reset is_valid_transition settle
    enter_stopping transition_to fail_session
late_window = refl

-- Ticks every two seconds, the last frame sent at the first millisecond.
abbrev tick : ℕ → ℕ → Tick
tick ms ns = record { is_frozen = false; last_video_send_ms = pos 1; now_ms = pos ms; now = pos ns }

abbrev ticks : List Tick
ticks = tick 4000 4000000000 ∷ tick 2000 2000000000 ∷ tick 300 300000000 ∷ []

abbrev moving : StallWatch
moving = record { video_stalling = false; video_stall_started = pos 0 }

abbrev no_keys : StreamEncryptionKeys
no_keys = record { aes_key = []; aes_iv_mask = []; aes_key_hex = []; aes_iv_mask_hex = [] }

abbrev no_stream : NegotiatedStreamParams
no_stream = record {
  stream_index = pos 0;
  codec_name = [];
  sender_ssrc = 0;
  receiver_ssrc = 0;
  rtp_payload_type = 96;
  keys = no_keys;
}

abbrev unanswered : Handshake
unanswered = record {
  video_keys = no_keys;
  audio_keys = no_keys;
  launch_sent = false;
  launch_received = false;
  answer_received = false;
  answer_failed = false;
  offer_seq_num = pos 1001;
  app_session_id = [];
  app_transport_id = [];
  negotiated_params = record {
    receiver_udp_port = 0;
    has_audio = false;
    has_video = false;
    audio_stream = no_stream;
    video_stream = no_stream;
  };
}

-- The application runs, and the second answer is that to the offer.
abbrev launched : List Message
launched =
    receiver_status
      (record { app_id = codes "0F5096E8"; session_id = 7 ∷ []; transport_id = 8 ∷ [] } ∷ [])
    ∷ []

abbrev good_answer : AnswerMessage
good_answer = record {
  is_answer = true;
  is_error = false;
  answer = some (record { udp_port = value 5000; send_indexes = value []; ssrcs = value [] });
}

abbrev answers : List Message
answers = answer (some (pos 7)) good_answer ∷ answer (some (pos 1001)) good_answer ∷ []

abbrev answered : Attempt
answered = record {
  connected = true;
  authenticated = true;
  before_offer = launched;
  over_at_launch = false;
  after_offer = answers;
  stop_requested = false;
  fail_requested = false;
}

negotiation_answered_example :
    (seq : Option ℤ) × (j : AnswerMessage) × Memᴰ (answer seq j) (arrived answered)
    × (parse_answer j no_keys no_keys no_params
        ≡ some (negotiate_control_plane no_keys no_keys answered unanswered).0.negotiated_params)
unfolding negotiate_control_plane renew_keys begin_launch begin_offer handle_all handle
    handle_receiver_status take_app is_mirroring_app same_text handle_answer take_answer
    parse_answer accept_all is_negotiated
negotiation_answered_example = negotiation_answered no_keys no_keys answered unanswered refl
