-- ===== src/Media/Tests.antt =====
-- A frame of six bytes and three audio frames, and the theorems at concrete inputs.
use cast_mirror.Prelude.{ℕ, ◌+◌, ◌≡◌, refl, true, false, List, [], ◌∷◌, replicate, some, arith}
use cast_mirror.Prelude.Int.{pos, ◌+ℤ◌, ◌*ℤ◌}
use cast_mirror.Rtp.{key_frame, EncodedFrame, RtpPacket, RtpPacketizer}
use cast_mirror.Rtp.Reassembly.{received}
use cast_mirror.Crypto.{FrameCrypto, decrypt}
use cast_mirror.Media.{
  VideoPath, packets, process_video_frame, CapturedAudioFrame, AudioPath, Answers,
  audio_rtp_timestamp, frame_us, pin_stamp,
}
use cast_mirror.Media.Delivery.{video_frame_delivered}
use cast_mirror.Media.Timeline.{Call, captured, mute}

abbrev stream : List ℕ → List ℕ → ℕ → ℕ
stream key iv i = 3 + i

abbrev keys : FrameCrypto
keys = record { aes_key = replicate 16 7; cast_iv_mask = replicate 16 255 }

abbrev packetizer : RtpPacketizer
packetizer = record {
  payload_type = 96;
  sender_ssrc = 2;
  max_packet_size = 27;
  sequence_number = 65535;
}

abbrev video : VideoPath
video = record {
  is_streaming = true;
  is_frozen = false;
  is_window = false;
  crypto = some keys;
  packetizer = packetizer;
  playout_delay_ms = pos 200;
}

abbrev encoded : EncodedFrame
encoded = record {
  dependency = key_frame;
  frame_id = 258;
  referenced_frame_id = 258;
  rtp_timestamp = 90000;
  capture_time = pos 1;
  playout_delay = pos 0;
  payload = 1 ∷ 2 ∷ 3 ∷ 4 ∷ 5 ∷ 6 ∷ [];
}

video_frame_delivered_example :
    (ks : List RtpPacket) × (p : RtpPacketizer) × (process_video_frame stream video false
        (some encoded)
      ≡ packets ks p)
    × (decrypt stream true keys 258 (received ks) ≡ encoded.payload)
video_frame_delivered_example =
    video_frame_delivered stream video keys encoded refl refl refl (omega arith) (omega arith)

abbrev audio : AudioPath
audio = record {
  is_streaming = true;
  is_audio_muted = false;
  crypto = some keys;
  packetizer = packetizer;
  playout_delay_ms = pos 200;
  encoder = record {
    sample_rate = 48000;
    playout_delay_ms = pos 200;
    next_frame_id = 0;
    rtp_clock_origin = some (pos 0);
  };
  last_audio_emit_us = pos 20000;
}

-- A frame whose stamp lies behind the last one emitted.
abbrev late : CapturedAudioFrame
late = record {
  sample_rate = 48000;
  samples_per_channel = 480;
  timestamp = pos 5000000;
  pcm_data = 0 ∷ [];
}

late_is_pinned : (pin_stamp (pos 20000) late).timestamp ≡ pos 30000000
unfolding pin_stamp frame_us ◌+ℤ◌ ◌*ℤ◌
late_is_pinned = refl

thirty_ms : audio_rtp_timestamp 48000 (pos 30000000) ≡ 1440
unfolding audio_rtp_timestamp
thirty_ms = refl

abbrev answers : Answers
answers = record { opus = some (9 ∷ []); sent = true }

abbrev calls : List Call
calls =
    captured late (pos 6000000) (0 ∷ []) answers
    ∷ mute true
    ∷ captured late (pos 7000000) (0 ∷ []) answers
    ∷ []
