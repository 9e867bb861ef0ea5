-- ===== src/Negotiator.antt =====
-- core/src/mirroring_negotiator.cc and core/include/castcore/mirroring_negotiator.h, with the ANSWER of
-- `HandleWebrtcMessage` in core/src/cast_session.cc: the offer of streams and what is taken from the receiver's answer.
-- Messages are values; writing and reading them as JSON is the library's. Texts are lists of bytes.
pub mod Agreement
mod Tests
use cast_mirror.Prelude.{
  ℕ, zero, suc, ◌+◌, ◌-◌, ◌*◌, ◌/◌, ◌%◌, ◌^◌, Bool, true, false, ◌&&◌, ◌||◌, not, ltb, ◌==◌,
  if◌then◌else◌, List, [], ◌∷◌, ◌++◌, Option, none, some, length,
}
use cast_mirror.Prelude.Int.{ℤ, pos, negsuc, ltb_ℤ}
use cast_mirror.Stream.{Resolution, StreamStats}
use cast_mirror.Capability.{codes, evaluate}
use cast_mirror.Devices.{same_text}

-- `std::hex` of a digit, in lower case.
abbrev pub hex_digit : ℕ → ℕ
hex_digit d = if ltb d 10 then 48 + d else 87 + d

unfoldable pub bytes_to_hex : List ℕ → List ℕ
bytes_to_hex [] = []
bytes_to_hex (b ∷ bytes) = hex_digit (b / 16) ∷ hex_digit (b % 16) ∷ bytes_to_hex bytes

pub record StreamEncryptionKeys : Type 0 where
  pub aes_key : List ℕ
  pub aes_iv_mask : List ℕ
  pub aes_key_hex : List ℕ
  pub aes_iv_mask_hex : List ℕ

-- With the bytes of `RAND_bytes`.
unfoldable pub generate_random_keys : List ℕ → List ℕ → StreamEncryptionKeys
generate_random_keys aes_key aes_iv_mask = record {
  aes_key = aes_key;
  aes_iv_mask = aes_iv_mask;
  aes_key_hex = bytes_to_hex aes_key;
  aes_iv_mask_hex = bytes_to_hex aes_iv_mask;
}

pub data VideoCodec : Type 0 where
  h264 vp8 vp9 hevc av1 : VideoCodec

unfoldable pub video_codec_to_string : VideoCodec → List ℕ
video_codec_to_string h264 = codes "h264"
video_codec_to_string vp8 = codes "vp8"
video_codec_to_string vp9 = codes "vp9"
video_codec_to_string hevc = codes "hevc"
video_codec_to_string av1 = codes "av1"

-- A stream of an offer. What only one kind of stream has is in the last field.
pub data Details : Type 0 where
  audio_source : (channels sampling_rate : ℕ) → Details
  video_source :
      (max_frame_rate : List ℕ) (max_bit_rate : ℤ) (profile_and_level : Option (List ℕ × List ℕ))
      (resolutions : List Resolution)
      → Details

pub record OfferedStream : Type 0 where
  pub index : ℕ
  pub codec_name : List ℕ
  pub rtp_profile : List ℕ
  pub rtp_payload_type : ℕ
  pub ssrc : ℕ
  pub bit_rate : ℤ
  pub time_base : List ℕ
  pub target_delay : ℤ
  pub aes_key : List ℕ
  pub aes_iv_mask : List ℕ
  pub details : Details

pub record Offer : Type 0 where
  pub seq_num : ℤ
  pub cast_mode : List ℕ
  pub receiver_get_status : Bool
  pub supported_streams : List OfferedStream

-- `static_cast<int>` of 32 bits.
abbrev pub to_int : ℕ → ℤ
to_int n = if ltb n (2 ^ 31) then pos n else negsuc (2 ^ 32 - 1 - n)

-- The first of the rungs that is smaller in both directions.
unfoldable pub smaller_rung : List Resolution → Resolution → List Resolution
smaller_rung [] negotiated = []
smaller_rung (rung ∷ rungs) negotiated =
    if ltb rung.width negotiated.width && ltb rung.height negotiated.height
    then rung ∷ []
    else smaller_rung rungs negotiated

unfoldable pub offered_resolutions : Resolution → List Resolution
offered_resolutions negotiated =
    negotiated
    ∷ (if ltb 0 negotiated.width && ltb 0 negotiated.height
        then smaller_rung (evaluate []).supported_resolutions negotiated
        else [])

unfoldable pub audio_stream : StreamEncryptionKeys → ℤ → ℤ → OfferedStream
audio_stream keys target_delay_ms audio_bitrate_bps = record {
  index = 0;
  codec_name = codes "opus";
  rtp_profile = codes "cast";
  rtp_payload_type = 127;
  ssrc = 1;
  bit_rate = if ltb_ℤ (pos 0) audio_bitrate_bps then audio_bitrate_bps else pos 192000;
  time_base = codes "1/48000";
  target_delay = target_delay_ms;
  aes_key = keys.aes_key_hex;
  aes_iv_mask = keys.aes_iv_mask_hex;
  details = audio_source 2 48000;
}

abbrev pub level_of : VideoCodec → Option (List ℕ × List ℕ)
level_of h264 = some (codes "high", codes "4.2")
level_of _ = none

-- `to_string` is the library's.
unfoldable pub video_stream :
    (ℕ → List ℕ) → ℕ → StreamStats → StreamEncryptionKeys → VideoCodec → ℤ → OfferedStream
video_stream to_string index settings keys codec target_delay_ms = record {
  index = index;
  codec_name = video_codec_to_string codec;
  rtp_profile = codes "cast";
  rtp_payload_type = 96;
  ssrc = 2;
  bit_rate = to_int (settings.bitrate_kbps * 1000 % 2 ^ 32);
  time_base = codes "1/90000";
  target_delay = target_delay_ms;
  aes_key = keys.aes_key_hex;
  aes_iv_mask = keys.aes_iv_mask_hex;
  details =
      video_source (to_string settings.current_framerate ++ codes "/1")
        (to_int (settings.bitrate_kbps * 1000 % 2 ^ 32)) (level_of codec)
        (offered_resolutions settings.current_resolution);
}

unfoldable pub create_offer :
    (ℕ → List ℕ)
    → ℤ
    → StreamStats
    → Bool
    → StreamEncryptionKeys
    → StreamEncryptionKeys
    → VideoCodec
    → ℤ
    → ℤ
    → Offer
create_offer to_string seq_num settings include_audio video_keys audio_keys codec target_delay_ms
      audio_bitrate_bps =
    record {
      seq_num = seq_num;
      cast_mode = codes "mirroring";
      receiver_get_status = true;
      supported_streams =
          if include_audio
          then audio_stream audio_keys target_delay_ms audio_bitrate_bps
            ∷ video_stream to_string 1 settings video_keys codec target_delay_ms
            ∷ []
          else video_stream to_string 0 settings video_keys codec target_delay_ms ∷ [];
    }

-- A field of a JSON object: not there, not of the type that `get` converts to, or its value.
pub data Field (A : Type 0) : Type 0 where
  missing : Field A
  wrong : Field A
  value : A → Field A

pub record AnswerBody : Type 0 where
  pub udp_port : Field ℕ
  pub send_indexes : Field (List ℤ)
  pub ssrcs : Field (List ℕ)

-- A message: whether its type is "ANSWER", whether its result is "error", and its answer.
pub record AnswerMessage : Type 0 where
  pub is_answer : Bool
  pub is_error : Bool
  pub answer : Option AnswerBody

pub record NegotiatedStreamParams : Type 0 where
  pub stream_index : ℤ
  pub codec_name : List ℕ
  pub sender_ssrc : ℕ
  pub receiver_ssrc : ℕ
  pub rtp_payload_type : ℕ
  pub keys : StreamEncryptionKeys

pub record NegotiatedSessionParams : Type 0 where
  pub receiver_udp_port : ℕ
  pub has_audio : Bool
  pub has_video : Bool
  pub audio_stream : NegotiatedStreamParams
  pub video_stream : NegotiatedStreamParams

abbrev pub is_zero : ℤ → Bool
is_zero (pos n) = n == 0
is_zero (negsuc n) = false

-- The body of the loop over the indexes.
unfoldable pub accept :
    StreamEncryptionKeys
    → StreamEncryptionKeys
    → NegotiatedSessionParams
    → ℤ
    → ℕ
    → NegotiatedSessionParams
accept video_keys audio_keys out idx r_ssrc =
    if is_zero idx && length audio_keys.aes_key_hex == 32
    then record out {
      has_audio = true;
      audio_stream = record {
        stream_index = pos 0;
        codec_name = codes "opus";
        sender_ssrc = 1;
        receiver_ssrc = r_ssrc;
        rtp_payload_type = 127;
        keys = audio_keys;
      };
    }
    else record out {
      has_video = true;
      video_stream = record {
        stream_index = idx;
        codec_name = codes "h264";
        sender_ssrc = 2;
        receiver_ssrc = r_ssrc;
        rtp_payload_type = 96;
        keys = video_keys;
      };
    }

-- The loop; the lists have the same length.
unfoldable pub accept_all :
    StreamEncryptionKeys
    → StreamEncryptionKeys
    → NegotiatedSessionParams
    → List ℤ
    → List ℕ
    → NegotiatedSessionParams
accept_all video_keys audio_keys out [] ssrcs = out
accept_all video_keys audio_keys out (idx ∷ indexes) [] = out
accept_all video_keys audio_keys out (idx ∷ indexes) (r_ssrc ∷ ssrcs) =
    accept_all video_keys audio_keys (accept video_keys audio_keys out idx r_ssrc) indexes ssrcs

abbrev pub parse_fields :
    Field ℕ
    → Field (List ℤ)
    → Field (List ℕ)
    → StreamEncryptionKeys
    → StreamEncryptionKeys
    → NegotiatedSessionParams
    → Option NegotiatedSessionParams
parse_fields (value port) (value indexes) (value ssrcs) video_keys audio_keys out =
    if not (length indexes == length ssrcs)
    then none
    else some (
        accept_all video_keys audio_keys
          (record out { receiver_udp_port = port; has_audio = false; has_video = false }) indexes
          ssrcs)
parse_fields _ _ _ video_keys audio_keys out = none

-- `ParseAnswerJson` of a message that parses as JSON; `none` is the result false, after which the caller drops what
-- was written.
unfoldable pub parse_answer :
    AnswerMessage
    → StreamEncryptionKeys
    → StreamEncryptionKeys
    → NegotiatedSessionParams
    → Option NegotiatedSessionParams
parse_answer j video_keys audio_keys out =
    if not j.is_answer then none else if j.is_error then none else elim j.answer [
      | none ↦ none
      | some ans ↦ parse_fields ans.udp_port ans.send_indexes ans.ssrcs video_keys audio_keys out
    ]
