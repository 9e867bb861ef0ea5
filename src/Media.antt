-- ===== src/Media.antt =====
-- core/src/cast_session.cc (`ProcessVideoFrame`, `ProcessAudioFrameInternal`) and
-- core/src/audio_encoder.cc: the path of a captured frame to the transport. The encoders' libraries
-- and what the transport answers are arguments; the key stream of the cipher is a parameter, and its
-- context is allocated. Times are the steady clock's nanoseconds.
pub mod Delivery
pub mod Timeline
mod Tests
use mathlib.Core.Option
use cast_mirror.Prelude.{
  ℕ, ◌+◌, ◌*◌, ◌/◌, ◌%◌, ◌^◌, Bool, true, false, ◌&&◌, not, ltb, if◌then◌else◌, List, [], ◌∷◌,
  Option, none, some,
}
use cast_mirror.Prelude.Int.{ℤ, pos, negsuc, ◌+ℤ◌, ◌-ℤ◌, ◌*ℤ◌, ltb_ℤ}
use cast_mirror.Prelude.Time.{quot}
use cast_mirror.Rtp.{EncodedFrame, key_frame, RtpPacket, RtpPacketizer, packetize_frame}
use cast_mirror.Crypto.{FrameCrypto, encrypt}

-- `SteadyUs`
abbrev pub steady_us : ℤ → ℤ
steady_us t = quot t 1000

-- The playout delay that the adaptation latched, stamped where it is positive.
unfoldable pub stamp_delay : ℤ → EncodedFrame → EncodedFrame
stamp_delay delay f = record f {
  playout_delay = if ltb_ℤ (pos 0) delay then delay else f.playout_delay;
}

-- The members of the video path that hold while a frame is on it.
pub record VideoPath : Type 0 where
  pub is_streaming : Bool
  pub is_frozen : Bool
  pub is_window : Bool
  pub crypto : Option FrameCrypto
  pub packetizer : RtpPacketizer
  pub playout_delay_ms : ℤ

-- A frame is dropped, or its source is lost and the session fails, or its packets go to the
-- transport, with the packetizer after them.
pub data VideoOutcome : Type 0 where
  dropped : VideoOutcome
  window_closed source_lost : VideoOutcome
  packets : List RtpPacket → RtpPacketizer → VideoOutcome
  stuck : VideoOutcome

module _ (stream : List ℕ → List ℕ → ℕ → ℕ) where
  -- Encryption and packets of an encoded frame.
  unfoldable pub protect : FrameCrypto → ℤ → EncodedFrame → EncodedFrame
  protect crypto delay raw =
      let f = stamp_delay delay raw in
      record f { payload = encrypt stream true crypto f.frame_id f.payload }

  -- The rest of `ProcessVideoFrame` once the frame is encoded.
  unfoldable pub send_encoded : VideoPath → FrameCrypto → EncodedFrame → VideoOutcome
  send_encoded v crypto raw =
      elim (packetize_frame 65536 v.packetizer (protect crypto v.playout_delay_ms raw)) [
        | none ↦ stuck
        | some r ↦ packets r.0 r.1
      ]

  -- `ProcessVideoFrame` of a frame whose source may be lost, with what the encoder makes of it.
  unfoldable pub process_video_frame : VideoPath → Bool → Option EncodedFrame → VideoOutcome
  process_video_frame v lost encoded = if not v.is_streaming then dropped else elim v.crypto [
    | none ↦ dropped
    | some crypto ↦
        if v.is_frozen
        then dropped
        else if lost
        then (if v.is_window then window_closed else source_lost)
        else elim encoded [ none ↦ dropped | some raw ↦ send_encoded v crypto raw ]
  ]

-- `CapturedAudioFrame`; a sample rate that is not positive is 0.
pub record CapturedAudioFrame : Type 0 where
  pub sample_rate : ℕ
  pub samples_per_channel : ℕ
  pub timestamp : ℤ
  pub pcm_data : List ℕ

-- `OpusAudioEncoder`, initialized.
pub record AudioEncoder : Type 0 where
  pub sample_rate : ℕ
  pub playout_delay_ms : ℤ
  pub next_frame_id : ℕ
  pub rtp_clock_origin : Option ℤ

abbrev pub origin_of : AudioEncoder → CapturedAudioFrame → ℤ
origin_of e frame = elim e.rtp_clock_origin [ some t ↦ t | none ↦ frame.timestamp ]

-- The RTP timestamp; an offset before the origin counts as 0.
unfoldable pub audio_rtp_timestamp : ℕ → ℤ → ℕ
audio_rtp_timestamp rate offset = elim (quot offset 1000) [
  | pos us ↦ us * rate / 1000000 % 2 ^ 32
  | _ ↦ 0
]

abbrev pub is_empty {ℓ} : {A : Type ℓ} → List A → Bool
is_empty [] = true
is_empty (x ∷ xs) = false

-- `Encode`, with the bytes that Opus makes of the frame, `none` for an error.
unfoldable pub encode_audio :
    AudioEncoder → CapturedAudioFrame → Option (List ℕ) → AudioEncoder × Option EncodedFrame
encode_audio e frame none = (e, none)
encode_audio e frame (some bytes) = if is_empty frame.pcm_data then (e, none) else (
  record e {
    next_frame_id = (e.next_frame_id + 1) % 2 ^ 32;
    rtp_clock_origin = some (origin_of e frame);
  },
  some (record {
    dependency = key_frame;
    frame_id = e.next_frame_id;
    referenced_frame_id = e.next_frame_id;
    rtp_timestamp = audio_rtp_timestamp e.sample_rate (frame.timestamp -ℤ origin_of e frame);
    capture_time = frame.timestamp;
    playout_delay = if ltb_ℤ (pos 0) e.playout_delay_ms then e.playout_delay_ms else pos 200;
    payload = bytes;
  }),
)

pub record AudioPath : Type 0 where
  pub is_streaming : Bool
  pub is_audio_muted : Bool
  pub crypto : Option FrameCrypto
  pub packetizer : RtpPacketizer
  pub playout_delay_ms : ℤ
  pub encoder : AudioEncoder
  pub last_audio_emit_us : ℤ

-- The microseconds of a frame.
unfoldable pub frame_us : CapturedAudioFrame → ℕ
frame_us frame =
    1000000
    * frame.samples_per_channel
    / (if ltb 0 frame.sample_rate then frame.sample_rate else 48000)

-- The frame with its stamp at least one frame past the last one emitted.
unfoldable pub pin_stamp : ℤ → CapturedAudioFrame → CapturedAudioFrame
pin_stamp last frame =
    let min_capture_us = last +ℤ pos (frame_us frame) in
    record frame {
      timestamp =
          if ltb_ℤ (steady_us frame.timestamp) min_capture_us
          then min_capture_us *ℤ pos 1000
          else frame.timestamp;
    }

-- The 10 ms of silence that `InjectSilenceAudioFrame` makes at a time.
abbrev pub silence : ℤ → List ℕ → CapturedAudioFrame
silence now zeros = record {
  sample_rate = 48000;
  samples_per_channel = 480;
  timestamp = now;
  pcm_data = zeros;
}

-- What the libraries and the transport make of one frame.
pub record Answers : Type 0 where
  pub opus : Option (List ℕ)
  pub sent : Bool

-- The path after a frame, the frame that was sent as Opus made it, and its packets, which the transport was
-- given whether or not it sent them.
pub record AudioOutcome : Type 0 where
  pub path : AudioPath
  pub sent_frame : Option EncodedFrame
  pub packets : List RtpPacket

abbrev pub nothing_sent : AudioPath → AudioOutcome
nothing_sent a = record { path = a; sent_frame = none; packets = [] }

-- What the transport did with a frame's packets, `none` where there are none.
unfoldable pub note_sent :
    AudioPath → EncodedFrame → Bool → Option (List RtpPacket × RtpPacketizer) → AudioOutcome
note_sent a f sent none = nothing_sent a
note_sent a f true (some r) = record {
  path = record a { packetizer = r.1; last_audio_emit_us = steady_us f.capture_time };
  sent_frame = some f;
  packets = r.0;
}
note_sent a f false (some r) = record {
  path = record a { packetizer = r.1 };
  sent_frame = none;
  packets = r.0;
}

module _ (stream : List ℕ → List ℕ → ℕ → ℕ) where
  -- After `Encode`: encryption, packets and the transport.
  unfoldable pub send_audio : AudioPath → FrameCrypto → Option EncodedFrame → Bool → AudioOutcome
  send_audio a crypto none sent = nothing_sent a
  send_audio a crypto (some f) sent =
      note_sent a f sent
        (packetize_frame 65536 a.packetizer (protect stream crypto a.playout_delay_ms f))

  -- With the encoder after the frame, and what it made of it.
  unfoldable pub after_encode :
      AudioPath → Option FrameCrypto → AudioEncoder × Option EncodedFrame → Bool → AudioOutcome
  after_encode a none r sent = nothing_sent a
  after_encode a (some crypto) r sent = send_audio (record a { encoder = r.0 }) crypto r.1 sent

  -- `ProcessAudioFrameInternal` without the test for mute.
  unfoldable pub process_audio_internal : AudioPath → CapturedAudioFrame → Answers → AudioOutcome
  process_audio_internal a frame answers =
      if not a.is_streaming
      then nothing_sent a
      else after_encode a a.crypto
          (encode_audio a.encoder (pin_stamp a.last_audio_emit_us frame) answers.opus) answers.sent

  -- `ProcessAudioFrame` at a time: a muted stream sends silence.
  unfoldable pub process_audio_frame :
      AudioPath → CapturedAudioFrame → ℤ → List ℕ → Answers → AudioOutcome
  process_audio_frame a frame now zeros answers =
      process_audio_internal a
        (if a.is_audio_muted && a.is_streaming then silence now zeros else frame) answers
