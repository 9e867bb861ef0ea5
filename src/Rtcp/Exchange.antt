-- ===== src/Rtcp/Exchange.antt =====
-- What the parser makes of the receiver's datagrams.
use cast_mirror.Prelude.{
  ℕ, zero, suc, ◌+◌, ◌-◌, ◌*◌, ◌/◌, ◌%◌, ◌^◌, ◌≤◌, ◌<◌, min, true, ltb, if◌then◌else◌, ◌≡◌, refl,
  sym, ap, subst, ◌∙◌, List, [], ◌∷◌, ◌++◌, map, All, All-take, some, length, take, length-take,
  arith,
}
use cast_mirror.Prelude.Bytes.{byte_at, of_be16-be16}
use cast_mirror.Prelude.Reads.{read8, read16, read32}
use cast_mirror.Prelude.Maps.{find}
use cast_mirror.Rtcp.Blocks.{parse_single, parse_cast_lem, parse_payload_specific_lem}
use cast_mirror.Rtcp.LossFields.{nack, length-nack_fields, loss_loop-nack_fields}
use cast_mirror.Rtcp.{
  RtcpFeedback, no_feedback, expand_frame_id, reference_frame_id, loss_loop, parse_payload_specific,
  parse_block, versioned_block, parse_compound_by_ssrc,
}
use cast_mirror.Rtcp.Frames.{expand_frame_id-mod}
use cast_mirror.Rtcp.Receiver.{nack_fields, nack_burst}

-- The first 20 bytes of the receiver's NACK datagram with `count` loss fields.
abbrev nack_head : ℕ → ℕ → ℕ → List ℕ
nack_head frame_id words count =
    0x8f
    ∷ 206
    ∷ byte_at 8 words
    ∷ byte_at 0 words
    ∷ 0x00
    ∷ 0x00
    ∷ 0x27
    ∷ 0x12
    ∷ 0x00
    ∷ 0x00
    ∷ 0x00
    ∷ 0x02
    ∷ b'C'
    ∷ b'A'
    ∷ b'S'
    ∷ b'T'
    ∷ (if ltb 0 frame_id then (frame_id - 1) % 256 else 0)
    ∷ (count % 256)
    ∷ 0x01
    ∷ 0x90
    ∷ []

abbrev pub burst_feedback : ℕ → List ℕ → RtcpFeedback
burst_feedback frame_id packets = record no_feedback {
  receiver_ssrc = 10002;
  sender_ssrc = 2;
  checkpoint_frame_id = frame_id - 1;
  current_playout_delay_ms = 400;
  has_playout_delay = true;
  nacks = map (nack frame_id) packets;
}

-- The CAST block of the receiver's datagram, for at most 255 packets.
cast_block :
    (frame_id reference words : ℕ) (packets : List ℕ) (last_frames : List (ℕ × ℕ))
    → find 2 last_frames ≡ some reference
    → 0 < frame_id
    → frame_id ≤ reference + 127
    → reference ≤ frame_id + 126
    → reference + 256 < 2 ^ 32
    → length packets < 256
    → All (λ pid. pid < 65536) packets
    → parse_payload_specific
        (nack_head frame_id words (length packets) ++ nack_fields frame_id packets)
        0
        (some last_frames)
        206
        0
        (20 + length packets * 4)
        15
        no_feedback
      ≡ some (true, burst_feedback frame_id packets)
unfolding read8 read16 read32 reference_frame_id
cast_block frame_id reference words packets last_frames e pos hi lo wrap short small =
    let head = nack_head frame_id words (length packets) in
    let bytes = head ++ nack_fields frame_id packets in
    let count : length packets % 256 ≡ length packets = omega arith in
    let low : byte_at 0 frame_id ≡ frame_id % 256 = omega arith in
    let lost =
      loss_loop-nack_fields packets head bytes reference frame_id (20 + length packets * 4) refl
        small (rw low (expand_frame_id-mod frame_id reference hi (omega arith) wrap))
        (omega arith) in
    let known : ltb 0 frame_id ≡ true = ground arith in
    let checkpoint : expand_frame_id (if ltb 0 frame_id then (frame_id - 1) % 256 else 0) reference
        ≡ frame_id - 1 =
      rw known (expand_frame_id-mod (frame_id - 1) reference (omega arith) (omega arith) wrap) in
    parse_payload_specific_lem bytes last_frames (20 + length packets * 4) 15 10002 2 no_feedback _
      refl (ground arith) refl refl refl
      (parse_cast_lem bytes last_frames (20 + length packets * 4) _ _ _ reference
          (20 + length packets * 4) (map (nack frame_id) packets) _ refl refl refl
          (rw (e, reference_frame_id))
          (subst
            (λ k.
              loss_loop bytes reference 0 (20 + length packets * 4) k 20
              ≡ some (20 + length packets * 4, map (nack frame_id) packets))
            (sym count) lost)
          (ground arith)
        ∙ ap
            (λ c. some (true, record (burst_feedback frame_id packets) { checkpoint_frame_id = c }))
            checkpoint)

take-min : (n : ℕ) (xs : List ℕ) → take (min (length xs) n) xs ≡ take n xs
take-min zero xs = let e : min (length xs) 0 ≡ 0 = omega arith in rw e
take-min (suc n) [] = let e : min 0 (suc n) ≡ 0 = omega arith in rw e
take-min (suc n) (x ∷ xs) =
    let e : min (suc (length xs)) (suc n) ≡ suc (min (length xs) n) = omega arith in
    rw e (ap (◌∷◌ x) (take-min n xs))

burst_shape :
    (frame_id : ℕ) (packets : List ℕ)
    → let sent = take 32 packets in
      nack_burst frame_id packets
      ≡ nack_head frame_id (4 + length sent) (length sent) ++ nack_fields frame_id sent
unfolding nack_burst
burst_shape frame_id packets =
    let sent = take 32 packets in
    let count : min (length packets) 32 ≡ length sent = omega (arith, length-take 32 packets) in
    let words : ((20 + length sent * 4) / 4 - 1) % 65536 ≡ 4 + length sent =
      omega (arith, length-take 32 packets) in
    rw (take-min 32 packets, count, words)

-- What the test receiver asks for arrives: for the NACK burst on a frame other than frame 0, at most 127 frames ahead
-- of the last one sent on stream 2 and 126 behind it, where that one is not within 256 of the wrap at 2 ^ 32, and
-- packet ids of 16 bits, the parser reports the receiver and the
-- stream, the frame before as the checkpoint, a playout delay of 400 ms, exactly the first 32
-- packets of the request in their order, no acknowledged frames and no measurement.
pub nack_burst_parsed :
    (clock : ℕ → ℕ) (frame_id reference : ℕ) (packets : List ℕ) (last_frames : List (ℕ × ℕ))
    → find 2 last_frames ≡ some reference
    → 0 < frame_id
    → frame_id ≤ reference + 127
    → reference ≤ frame_id + 126
    → reference + 256 < 2 ^ 32
    → All (λ pid. pid < 65536) packets
    → parse_compound_by_ssrc clock (nack_burst frame_id packets) last_frames
      ≡ some (true, burst_feedback frame_id (take 32 packets))
unfolding parse_compound_by_ssrc read8 read16
nack_burst_parsed clock frame_id reference packets last_frames e pos hi lo wrap small =
    let sent = take 32 packets in
    let short : length sent < 256 = omega (arith, length-take 32 packets) in
    let bytes = nack_head frame_id (4 + length sent) (length sent) ++ nack_fields frame_id sent in
    let len : length bytes ≡ (4 + length sent + 1) * 4 =
      omega (arith, length-nack_fields frame_id sent) in
    let size : (4 + length sent + 1) * 4 ≡ 20 + length sent * 4 = omega arith in
    let block =
      cast_block frame_id reference (4 + length sent) sent last_frames e pos hi lo wrap short
        (All-take (λ pid. pid < 65536) 32 packets small) in
    rw (burst_shape frame_id packets) (
      parse_single clock bytes 0 (some last_frames) 0x8f 206 (4 + length sent) true _ refl refl
        (ap some (of_be16-be16 (4 + length sent) (omega arith))) len
        (unfold versioned_block parse_block in rw size block))
