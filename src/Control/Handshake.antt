-- ===== src/Control/Handshake.antt =====
-- core/src/cast_session.cc: how a session gets the receiver's application and its answer (`NegotiateControlPlane`,
-- `HandleReceiverStatus`, `HandleWebrtcMessage`). Messages that parse are values; a receiver's message may come
-- at any time between the steps.
use cast_mirror.Prelude.{
  ℕ, Bool, true, false, not, ◌&&◌, ◌||◌, List, [], ◌∷◌, Option, none, some, if◌then◌else◌,
}
use cast_mirror.Prelude.Int.{ℤ, pos, ltb_ℤ}
use cast_mirror.Capability.{codes}
use cast_mirror.Devices.{same_text}
use cast_mirror.Negotiator.{
  StreamEncryptionKeys, AnswerMessage, NegotiatedStreamParams, NegotiatedSessionParams,
  parse_answer,
}

pub record Application : Type 0 where
  pub app_id : List ℕ
  pub session_id : List ℕ
  pub transport_id : List ℕ

pub record Handshake : Type 0 where
  pub video_keys : StreamEncryptionKeys
  pub audio_keys : StreamEncryptionKeys
  pub launch_sent : Bool
  pub launch_received : Bool
  pub answer_received : Bool
  pub answer_failed : Bool
  pub offer_seq_num : ℤ
  pub app_session_id : List ℕ
  pub app_transport_id : List ℕ
  pub negotiated_params : NegotiatedSessionParams

-- The keys of an attempt, from the random bytes.
unfoldable pub renew_keys : StreamEncryptionKeys → StreamEncryptionKeys → Handshake → Handshake
renew_keys video audio s = record s { video_keys = video; audio_keys = audio }

unfoldable pub begin_launch : Handshake → Handshake
begin_launch s = record s {
  launch_received = false;
  answer_received = false;
  answer_failed = false;
  launch_sent = true;
}

unfoldable pub begin_offer : Handshake → Handshake
begin_offer s = record s { offer_seq_num = pos 1001 }

-- What the last wait of `NegotiateControlPlane` makes of the flags, if it has not timed out.
unfoldable pub is_negotiated : Handshake → Bool → Bool → Bool
is_negotiated s stop_requested fail_requested =
    s.answer_received && not stop_requested && not fail_requested

unfoldable pub is_mirroring_app : List ℕ → Bool
is_mirroring_app app_id = same_text app_id (codes "0F5096E8") || same_text app_id (codes "85CDB22F")

unfoldable pub take_app : List Application → Handshake → Handshake
take_app [] s = s
take_app (app ∷ apps) s =
    if is_mirroring_app app.app_id
    then record s {
      app_session_id = app.session_id;
      app_transport_id = app.transport_id;
      launch_received = true;
    }
    else take_app apps s

unfoldable pub handle_receiver_status : List Application → Handshake → Handshake
handle_receiver_status apps s = if s.launch_sent then take_app apps s else s

abbrev same_int : ℤ → ℤ → Bool
same_int a b = not (ltb_ℤ a b) && not (ltb_ℤ b a)

abbrev pub is_other_offer : Option ℤ → ℤ → Bool
is_other_offer none offer = false
is_other_offer (some seq) offer = not (same_int seq offer)

unfoldable pub take_answer : Option NegotiatedSessionParams → Handshake → Handshake
take_answer (some params) s = record s { negotiated_params = params; answer_received = true }
take_answer none s = record s { answer_failed = true }

-- What `ParseAnswerJson` is given to fill.
abbrev no_stream_params : NegotiatedStreamParams
no_stream_params = record {
  stream_index = pos 0;
  codec_name = [];
  sender_ssrc = 0;
  receiver_ssrc = 0;
  rtp_payload_type = 96;
  keys = record { aes_key = []; aes_iv_mask = []; aes_key_hex = []; aes_iv_mask_hex = [] };
}

abbrev pub no_params : NegotiatedSessionParams
no_params = record {
  receiver_udp_port = 0;
  has_audio = false;
  has_video = false;
  audio_stream = no_stream_params;
  video_stream = no_stream_params;
}

-- An answer with its number, if that is there and an integer.
unfoldable pub handle_answer : Option ℤ → AnswerMessage → Handshake → Handshake
handle_answer seq j s =
    if is_other_offer seq s.offer_seq_num
    then s
    else take_answer (parse_answer j s.video_keys s.audio_keys no_params) s

-- What the receiver sends.
pub data Message : Type 0 where
  receiver_status : List Application → Message
  answer : Option ℤ → AnswerMessage → Message

unfoldable pub handle : Message → Handshake → Handshake
handle (receiver_status apps) s = handle_receiver_status apps s
handle (answer seq j) s = handle_answer seq j s

unfoldable pub handle_all : List Message → Handshake → Handshake
handle_all [] s = s
handle_all (m ∷ ms) s = handle_all ms (handle m s)
