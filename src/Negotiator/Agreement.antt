-- ===== src/Negotiator/Agreement.antt =====
-- Both sides agree on the streams.
use mathlib.Core.List.{Memᴰ}
use cast_mirror.Prelude.{
  ℕ, ◌*◌, Bool, true, false, ◌&&◌, not, ◌==◌, if◌then◌else◌, if_branches, ◌≡◌, ◌⊎◌, inl, inr, refl,
  ap, List, [], ◌∷◌, All, some, length, arith,
}
use cast_mirror.Prelude.Int.{ℤ, pos}
use cast_mirror.Stream.{StreamStats}
use cast_mirror.Negotiator.{
  bytes_to_hex, StreamEncryptionKeys, generate_random_keys, VideoCodec, OfferedStream, audio_stream,
  video_stream, create_offer, AnswerMessage, value, NegotiatedStreamParams, NegotiatedSessionParams,
  is_zero, accept, accept_all, parse_answer,
}

-- An answer with every field.
abbrev pub answer_of : ℕ → List ℤ → List ℕ → AnswerMessage
answer_of port indexes ssrcs = record {
  is_answer = true;
  is_error = false;
  answer =
      some (record { udp_port = value port; send_indexes = value indexes; ssrcs = value ssrcs });
}

length-bytes_to_hex : (bytes : List ℕ) → length (bytes_to_hex bytes) ≡ 2 * length bytes
unfolding bytes_to_hex
length-bytes_to_hex [] = refl
length-bytes_to_hex (b ∷ bytes) = omega (arith, length-bytes_to_hex bytes)

-- The keys of a session: audio has none where it is off.
unfoldable pub session_keys : Bool → List ℕ → List ℕ → StreamEncryptionKeys
session_keys true key mask = generate_random_keys key mask
session_keys false key mask = record {
  aes_key = key;
  aes_iv_mask = mask;
  aes_key_hex = [];
  aes_iv_mask_hex = [];
}

audio_keys_size :
    (include_audio : Bool) (key mask : List ℕ)
    → length key ≡ 16
    → (length (session_keys include_audio key mask).aes_key_hex == 32) ≡ include_audio
unfolding session_keys generate_random_keys
audio_keys_size true key mask h = ground (arith, h, length-bytes_to_hex key)
audio_keys_size false key mask h = refl

-- What is taken is what was offered: index, SSRC, payload type, key and mask.
abbrev pub Agrees : NegotiatedStreamParams → OfferedStream → Type 0
Agrees p s =
    (p.stream_index ≡ pos s.index)
    × (p.sender_ssrc ≡ s.ssrc)
    × (p.rtp_payload_type ≡ s.rtp_payload_type)
    × (p.keys.aes_key_hex ≡ s.aes_key)
    × (p.keys.aes_iv_mask_hex ≡ s.aes_iv_mask)

-- The index of the video stream, behind that of the audio stream where there is one.
abbrev pub video_index : Bool → ℕ
video_index include_audio = if include_audio then 1 else 0

abbrev pub IsOffered : Bool → ℤ → Type 0
IsOffered include_audio idx =
    (idx ≡ pos (video_index include_audio)) ⊎ ((include_audio ≡ true) × (idx ≡ pos 0))

audio_included :
    (idx : ℤ) (include_audio sized : Bool)
    → sized ≡ include_audio
    → (is_zero idx && sized) ≡ true
    → include_audio ≡ true
audio_included idx include_audio sized same e = ground arith

video_taken :
    (idx : ℤ) (include_audio sized : Bool)
    → sized ≡ include_audio
    → IsOffered include_audio idx
    → (is_zero idx && sized) ≡ false
    → idx ≡ pos (video_index include_audio)
video_taken idx include_audio sized same (inl e) h = e
video_taken idx include_audio sized same (inr (on, is_first)) h =
    let first : is_zero idx ≡ true = ap is_zero is_first in ground arith

video_listed :
    (include_audio : Bool) (audio : OfferedStream) (video : ℕ → OfferedStream)
    → Memᴰ
        (video (video_index include_audio))
        (if include_audio then audio ∷ video 1 ∷ [] else video 0 ∷ [])
video_listed true audio video = Memᴰ.tail (Memᴰ.head refl)
video_listed false audio video = Memᴰ.head refl

audio_listed :
    (include_audio : Bool) (audio : OfferedStream) (video : ℕ → OfferedStream)
    → include_audio ≡ true
    → Memᴰ audio (if include_audio then audio ∷ video 1 ∷ [] else video 0 ∷ [])
audio_listed true audio video e = Memᴰ.head refl
audio_listed false audio video e = absurd (cc)

-- What was set in the loop stays set, and the index of a stream sets its flag.
accept_all_keeps :
    (video_keys audio_keys : StreamEncryptionKeys) (out : NegotiatedSessionParams)
    (indexes : List ℤ) (ssrcs : List ℕ)
    → (out.has_video ≡ true → (accept_all video_keys audio_keys out indexes ssrcs).has_video ≡ true)
      × (out.has_audio ≡ true
          → (accept_all video_keys audio_keys out indexes ssrcs).has_audio ≡ true)
unfolding accept_all accept
accept_all_keeps video_keys audio_keys out [] ssrcs = ((λ e. e), (λ e. e))
accept_all_keeps video_keys audio_keys out (idx ∷ indexes) [] = ((λ e. e), (λ e. e))
accept_all_keeps video_keys audio_keys out (idx ∷ indexes) (r_ssrc ∷ ssrcs) =
    let next = accept video_keys audio_keys out idx r_ssrc in
    let (v, a) = accept_all_keeps video_keys audio_keys next indexes ssrcs in
    ((λ e. v (ground arith)), (λ e. a (ground arith)))

accepts_video :
    (include_audio : Bool) (video_keys audio_keys : StreamEncryptionKeys)
    (out : NegotiatedSessionParams) (idx : ℤ) (r_ssrc : ℕ)
    → (length audio_keys.aes_key_hex == 32) ≡ include_audio
    → pos (video_index include_audio) ≡ idx
    → (accept video_keys audio_keys out idx r_ssrc).has_video ≡ true
unfolding accept
accepts_video true vk ak out idx r size e = rw (← e) refl
accepts_video false vk ak out idx r size e = rw (← e, size) refl

accepts_audio :
    (include_audio : Bool) (video_keys audio_keys : StreamEncryptionKeys)
    (out : NegotiatedSessionParams) (idx : ℤ) (r_ssrc : ℕ)
    → (length audio_keys.aes_key_hex == 32) ≡ include_audio
    → include_audio ≡ true
    → pos 0 ≡ idx
    → (accept video_keys audio_keys out idx r_ssrc).has_audio ≡ true
unfolding accept
accepts_audio b vk ak out idx r size on e = rw (← e, size, on) refl

has_video_taken :
    (include_audio : Bool) (video_keys audio_keys : StreamEncryptionKeys)
    (out : NegotiatedSessionParams) (indexes : List ℤ) (ssrcs : List ℕ)
    → (length audio_keys.aes_key_hex == 32) ≡ include_audio
    → length indexes ≡ length ssrcs
    → Memᴰ (pos (video_index include_audio)) indexes
    → (accept_all video_keys audio_keys out indexes ssrcs).has_video ≡ true
unfolding accept_all
has_video_taken b vk ak out [] ssrcs size same m = elim m [ ]
has_video_taken b vk ak out (idx ∷ indexes) [] size same m = absurd (omega (arith, same))
has_video_taken b vk ak out (idx ∷ indexes) (r ∷ ssrcs) size same (Memᴰ.head e) =
    (accept_all_keeps vk ak (accept vk ak out idx r) indexes ssrcs).0
      (accepts_video b vk ak out idx r size e)
has_video_taken b vk ak out (idx ∷ indexes) (r ∷ ssrcs) size same (Memᴰ.tail m) =
    has_video_taken b vk ak (accept vk ak out idx r) indexes ssrcs size (omega (arith, same)) m

has_audio_taken :
    (include_audio : Bool) (video_keys audio_keys : StreamEncryptionKeys)
    (out : NegotiatedSessionParams) (indexes : List ℤ) (ssrcs : List ℕ)
    → (length audio_keys.aes_key_hex == 32) ≡ include_audio
    → length indexes ≡ length ssrcs
    → include_audio ≡ true
    → Memᴰ (pos 0) indexes
    → (accept_all video_keys audio_keys out indexes ssrcs).has_audio ≡ true
unfolding accept_all
has_audio_taken b vk ak out [] ssrcs size same on m = elim m [ ]
has_audio_taken b vk ak out (idx ∷ indexes) [] size same on m = absurd (omega (arith, same))
has_audio_taken b vk ak out (idx ∷ indexes) (r ∷ ssrcs) size same on (Memᴰ.head e) =
    (accept_all_keeps vk ak (accept vk ak out idx r) indexes ssrcs).1
      (accepts_audio b vk ak out idx r size on e)
has_audio_taken b vk ak out (idx ∷ indexes) (r ∷ ssrcs) size same on (Memᴰ.tail m) =
    has_audio_taken b vk ak (accept vk ak out idx r) indexes ssrcs size (omega (arith, same)) on m

module _ (to_string : ℕ → List ℕ) (settings : StreamStats) (include_audio : Bool)
    (video_keys : StreamEncryptionKeys) (audio_key audio_mask : List ℕ) (codec : VideoCodec)
    (target_delay_ms audio_bitrate_bps : ℤ) (old : NegotiatedSessionParams) where
  abbrev audio_keys : StreamEncryptionKeys
  audio_keys = session_keys include_audio audio_key audio_mask

  abbrev Agreed : NegotiatedSessionParams → Type 0
  Agreed out =
      (out.has_audio ≡ true
        → (include_audio ≡ true)
          × Agrees out.audio_stream (audio_stream audio_keys target_delay_ms audio_bitrate_bps))
      × (out.has_video ≡ true
          → Agrees out.video_stream (
              video_stream to_string (video_index include_audio) settings video_keys codec
                target_delay_ms))
      × (out.has_audio ≡ false → out.audio_stream ≡ old.audio_stream)
      × (out.has_video ≡ false → out.video_stream ≡ old.video_stream)

  accept-Agreed :
      (out : NegotiatedSessionParams) (idx : ℤ) (r_ssrc : ℕ)
      → length audio_key ≡ 16
      → IsOffered include_audio idx
      → Agreed out
      → Agreed (accept video_keys audio_keys out idx r_ssrc)
  unfolding accept audio_stream video_stream
  accept-Agreed out idx r_ssrc h offered (a, v, ka, kv) =
      let size = audio_keys_size include_audio audio_key audio_mask h in
      if_branches Agreed _ _ _
        (λ e. (
          λ given. (audio_included idx include_audio _ size e, (refl, refl, refl, refl, refl)),
          v,
          (λ missing. absurd (cc)),
          kv,
        ))
        (λ e. (
          a,
          (λ given. (video_taken idx include_audio _ size offered e, refl, refl, refl, refl)),
          ka,
          (λ missing. absurd (cc)),
        ))

  accept_all-Agreed :
      (out : NegotiatedSessionParams) (indexes : List ℤ) (ssrcs : List ℕ)
      → length audio_key ≡ 16
      → All (IsOffered include_audio) indexes
      → Agreed out
      → Agreed (accept_all video_keys audio_keys out indexes ssrcs)
  unfolding accept_all
  accept_all-Agreed out [] ssrcs h offered agreed = agreed
  accept_all-Agreed out (idx ∷ indexes) [] h offered agreed = agreed
  accept_all-Agreed out (idx ∷ indexes) (r_ssrc ∷ ssrcs) h offered agreed =
      accept_all-Agreed (accept video_keys audio_keys out idx r_ssrc) indexes ssrcs h offered.1
        (accept-Agreed out idx r_ssrc h offered.0 agreed)

  -- An answer that takes streams by the indexes of an offer, with as many SSRCs, is accepted. The flag of video is set
  -- if the answer takes the index of the video stream, that of audio if it takes index 0 of an offer with audio; where
  -- a flag is set, the parameters agree with a stream of the offer: index, SSRC, payload type, key and mask; where it
  -- is not, they stay as they were. The keys for audio are empty texts where audio is off, and made of 16 bytes where
  -- it is on.
  pub answer_taken :
      (seq_num : ℤ) (port : ℕ) (indexes : List ℤ) (ssrcs : List ℕ)
      → length audio_key ≡ 16
      → All (IsOffered include_audio) indexes
      → length indexes ≡ length ssrcs
      → let streams =
          (create_offer to_string seq_num settings include_audio video_keys
            (session_keys include_audio audio_key audio_mask)
            codec
            target_delay_ms
            audio_bitrate_bps).supported_streams in
        (params : NegotiatedSessionParams) × (parse_answer
            (answer_of port indexes ssrcs)
            video_keys
            (session_keys include_audio audio_key audio_mask)
            old
          ≡ some params)
        × (params.has_audio ≡ true
            → (s : OfferedStream) × Memᴰ s streams × Agrees params.audio_stream s)
        × (params.has_video ≡ true
            → (s : OfferedStream) × Memᴰ s streams × Agrees params.video_stream s)
        × (params.has_audio ≡ false → params.audio_stream ≡ old.audio_stream)
        × (params.has_video ≡ false → params.video_stream ≡ old.video_stream)
        × (Memᴰ (pos (video_index include_audio)) indexes → params.has_video ≡ true)
        × (include_audio ≡ true → Memᴰ (pos 0) indexes → params.has_audio ≡ true)
  unfolding parse_answer create_offer
  answer_taken seq_num port indexes ssrcs h offered same =
      let first = record old { receiver_udp_port = port; has_audio = false; has_video = false } in
      let test : (not (length indexes == length ssrcs)) ≡ false = ground (arith, same) in
      let (a, v, ka, kv) =
        accept_all-Agreed first indexes ssrcs h offered
          ((λ e. absurd (cc)), (λ e. absurd (cc)), (λ _. refl), (λ _. refl)) in
      let size = audio_keys_size include_audio audio_key audio_mask h in
      let audio = audio_stream audio_keys target_delay_ms audio_bitrate_bps in
      let video =
        λ (index : ℕ). video_stream to_string index settings video_keys codec target_delay_ms in
      (
        accept_all video_keys audio_keys first indexes ssrcs,
        rw (test) refl,
        (λ given. (audio, audio_listed include_audio audio video (a given).0, (a given).1)),
        (λ given.
            (video (video_index include_audio), video_listed include_audio audio video, v given)),
        ka,
        kv,
        (λ m. has_video_taken include_audio video_keys audio_keys first indexes ssrcs size same m),
        (λ on m.
            has_audio_taken include_audio video_keys audio_keys first indexes ssrcs size same on m),
      )
