-- ===== src/Negotiator/Tests.antt =====
-- An offer of two streams and answers to it, and the theorem at a concrete input.
use mathlib.Core.List.{Memᴰ}
use cast_mirror.Prelude.{Bool, ℕ, true, false, ◌≡◌, inl, inr, refl, List, [], ◌∷◌, some, replicate}
use cast_mirror.Prelude.Int.{pos}
use cast_mirror.Stream.{Resolution, StreamStats}
use cast_mirror.Capability.{codes}
use cast_mirror.Negotiator.{
  bytes_to_hex, StreamEncryptionKeys, h264, create_offer, NegotiatedStreamParams,
  NegotiatedSessionParams, OfferedStream, smaller_rung, parse_answer, accept_all,
}
use cast_mirror.Negotiator.Agreement.{session_keys, answer_of, Agrees, answer_taken}

hex : bytes_to_hex (0 ∷ 255 ∷ 26 ∷ []) ≡ codes "00ff1a"
unfolding bytes_to_hex
hex = refl

abbrev size : ℕ → ℕ → Resolution
size w h = record { width = w; height = h }

-- The first rung below 1080 lines.
below :
    smaller_rung (size 1920 1080 ∷ size 1280 720 ∷ size 960 540 ∷ []) (size 1920 1080)
    ≡ size 1280 720 ∷ []
unfolding smaller_rung
below = refl

abbrev settings : StreamStats
settings = record {
  bitrate_kbps = 6000;
  target_delay_ms = pos 200;
  current_resolution = size 1920 1080;
  current_framerate = 60;
}

abbrev key : List ℕ
key = replicate 16 171

abbrev video_keys : StreamEncryptionKeys
video_keys = session_keys true (replicate 16 1) (replicate 16 2)

abbrev audio_keys : StreamEncryptionKeys
audio_keys = session_keys true key key

abbrev unset : NegotiatedStreamParams
unset = record {
  stream_index = pos 0;
  codec_name = [];
  sender_ssrc = 0;
  receiver_ssrc = 0;
  rtp_payload_type = 96;
  keys = record { aes_key = []; aes_iv_mask = []; aes_key_hex = []; aes_iv_mask_hex = [] };
}

abbrev initial : NegotiatedSessionParams
initial = record {
  receiver_udp_port = 0;
  has_audio = false;
  has_video = false;
  audio_stream = unset;
  video_stream = unset;
}

-- An answer that takes no stream is accepted, with the SSRC of no stream.
none_taken :
    parse_answer (answer_of 5000 [] []) video_keys audio_keys initial
    ≡ some (record initial { receiver_udp_port = 5000 })
unfolding parse_answer accept_all
none_taken = refl

answer_taken_example :
    let streams =
      (create_offer
        (λ n. codes "60")
        (pos 1001)
        settings
        true
        video_keys
        audio_keys
        h264
        (pos 200)
        (pos 0)).supported_streams in
    (params : NegotiatedSessionParams) × (parse_answer
        (answer_of 5000 (pos 0 ∷ pos 1 ∷ []) (7 ∷ 8 ∷ []))
        video_keys
        audio_keys
        initial
      ≡ some params)
    × (params.has_audio ≡ true
        → (s : OfferedStream) × Memᴰ s streams × Agrees params.audio_stream s)
    × (params.has_video ≡ true
        → (s : OfferedStream) × Memᴰ s streams × Agrees params.video_stream s)
    × (params.has_audio ≡ false → params.audio_stream ≡ unset)
    × (params.has_video ≡ false → params.video_stream ≡ unset)
    × (Memᴰ (pos 1) (pos 0 ∷ pos 1 ∷ []) → params.has_video ≡ true)
    × (◌≡◌ {A = Bool} true true → Memᴰ (pos 0) (pos 0 ∷ pos 1 ∷ []) → params.has_audio ≡ true)
answer_taken_example =
    answer_taken (λ n. codes "60") settings true video_keys key key h264 (pos 200) (pos 0) initial
      (pos 1001) 5000 (pos 0 ∷ pos 1 ∷ []) (7 ∷ 8 ∷ []) refl (inr (refl, refl), (inl refl, tt)) refl
