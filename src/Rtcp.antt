-- ===== src/Rtcp.antt =====
-- core/src/rtcp_parser.cc and core/include/castcore/rtcp_parser.h: the feedback that a receiver
-- sends. A datagram is a list of bytes, and each read of it may fault (`none`), so a result is also
-- a run without a read out of bounds. The loops count down what their own conditions bound.
-- `fraction_lost` is kept in 256ths and `rtt_ms` in 65536ths of a second, in which the code's
-- doubles are exact. The system clock is an argument: microseconds for each block that is parsed.
pub mod Frames
pub mod Safety
pub mod Receiver
pub mod Blocks
pub mod LossFields
pub mod Exchange
pub mod Reports
mod Tests
use cast_mirror.Prelude.{
  ℕ, zero, suc, ◌+◌, ◌-◌, ◌*◌, ◌/◌, ◌%◌, ◌^◌, min, Bool, true, false, ◌&&◌, ◌||◌, not, ltb, leb,
  ◌==◌, if◌then◌else◌, List, [], ◌∷◌, ◌++◌, Option, none, some, length,
}
use cast_mirror.Prelude.Reads.{◌>>=◌, read8, read16, read32}
use cast_mirror.Prelude.Maps.{find}

pub record PacketNack : Type 0 where
  pub frame_id : ℕ
  pub packet_id : ℕ

pub record RtcpFeedback : Type 0 where
  pub receiver_ssrc : ℕ
  pub sender_ssrc : ℕ
  pub picture_loss_indicator : Bool
  pub checkpoint_frame_id : ℕ
  pub current_playout_delay_ms : ℕ
  pub has_playout_delay : Bool
  pub nacks : List PacketNack
  pub acked_frames : List ℕ
  pub has_report_block : Bool
  pub has_rtt : Bool
  pub fraction_lost : ℕ
  pub cumulative_lost : ℕ
  pub jitter : ℕ
  pub rtt : ℕ

-- The member initialisers.
abbrev pub no_feedback : RtcpFeedback
no_feedback = record {
  receiver_ssrc = 0;
  sender_ssrc = 0;
  picture_loss_indicator = false;
  checkpoint_frame_id = 0;
  current_playout_delay_ms = 400;
  has_playout_delay = false;
  nacks = [];
  acked_frames = [];
  has_report_block = false;
  has_rtt = false;
  fraction_lost = 0;
  cumulative_lost = 0;
  jitter = 0;
  rtt = 0;
}

-- All sums are of `uint32_t`; `reference_id & ~0xFF` clears the low byte, where the truncated id
-- goes.
unfoldable pub expand_frame_id : ℕ → ℕ → ℕ
expand_frame_id truncated_id reference_id =
    let candidate = reference_id - reference_id % 256 + truncated_id in
    if ltb ((reference_id + 128) % 2 ^ 32) candidate
    then (if leb 256 candidate then candidate - 256 else candidate)
    else if ltb ((candidate + 128) % 2 ^ 32) reference_id
    then (candidate + 256) % 2 ^ 32
    else candidate

-- The pointer to the map of last frame ids may be null.
unfoldable pub reference_frame_id : ℕ → ℕ → Option (List (ℕ × ℕ)) → ℕ
reference_frame_id media_ssrc fallback none = fallback
reference_frame_id media_ssrc fallback (some last_frame_by_ssrc) =
    elim (find media_ssrc last_frame_by_ssrc) [ some id ↦ id | none ↦ fallback ]

-- `now_mid32` of a time in microseconds since the epoch.
unfoldable pub now_mid32 : ℕ → ℕ
now_mid32 now_us =
    let unix_seconds = now_us / 1000000 % 2 ^ 32 in
    let fraction = now_us % 1000000 * 65536 / 1000000 % 2 ^ 32 in
    (unix_seconds + 2208988800) % 2 ^ 32 * 65536 % 2 ^ 32 + fraction % 65536

-- `now_mid32 - lsr - dlsr`, modulo 2 ^ 32.
unfoldable pub rtt_delta : ℕ → ℕ → ℕ → ℕ
rtt_delta now lsr dlsr = (now + 2 ^ 32 - lsr + 2 ^ 32 - dlsr) % 2 ^ 32

-- The round-trip time: a difference that is negative as an `int32_t` is ignored, and 3 seconds are
-- the most.
unfoldable pub set_rtt : ℕ → ℕ → ℕ → RtcpFeedback → RtcpFeedback
set_rtt now_us lsr dlsr fb =
    let delta = rtt_delta (now_mid32 now_us) lsr dlsr in
    if not (lsr == 0) && ltb 0 delta && ltb delta (2 ^ 31)
    then record fb { rtt = min delta 196608; has_rtt = true }
    else fb

-- The parsers of one block take the offset of the block and its length.
module _ (bytes : List ℕ) where
  -- Receiver Report.
  unfoldable pub parse_report : ℕ → ℕ → ℕ → ℕ → RtcpFeedback → Option (Bool × RtcpFeedback)
  parse_report now_us block block_len count fb =
      if leb 8 block_len
      then (do
        receiver ← read32 bytes (block + 4)
        let fb' = record fb { receiver_ssrc = receiver }
        if ltb 0 count && leb 32 block_len
            then (do
              fraction ← read8 bytes (block + 12)
              lost_16 ← read8 bytes (block + 13)
              lost_8 ← read8 bytes (block + 14)
              lost_0 ← read8 bytes (block + 15)
              jitter_32 ← read32 bytes (block + 20)
              lsr ← read32 bytes (block + 24)
              dlsr ← read32 bytes (block + 28)
              some (
                true,
                set_rtt now_us lsr dlsr (record fb' {
                  has_report_block = true;
                  fraction_lost = fraction;
                  cumulative_lost = lost_16 * 65536 + lost_8 * 256 + lost_0;
                  jitter = jitter_32;
                }),
              ))
            else some (true, fb'))
      else some (false, fb)

  -- The packets that a loss field's bit vector names, from bit `b` on, `n` bits.
  unfoldable pub bit_nacks : ℕ → ℕ → ℕ → ℕ → ℕ → List PacketNack
  bit_nacks fid pid bit_vector b zero = []
  bit_nacks fid pid bit_vector b (suc n) =
      let rest = bit_nacks fid pid bit_vector (b + 1) n in
      if bit_vector / 2 ^ b % 2 == 1
      then record { frame_id = fid; packet_id = (pid + b + 1) % 65536 } ∷ rest
      else rest

  -- One loss field.
  unfoldable pub loss_field : ℕ → ℕ → Option (List PacketNack)
  loss_field reference at = do
    fid_8 ← read8 bytes at
    pid ← read16 bytes (at + 1)
    bit_vector ← read8 bytes (at + 3)
    let fid = expand_frame_id fid_8 reference
    some (record { frame_id = fid; packet_id = pid } ∷ bit_nacks fid pid bit_vector 0 8)

  -- The loop over the loss fields: the offset after it, and the packets in order.
  unfoldable pub loss_loop : ℕ → ℕ → ℕ → ℕ → ℕ → Option (ℕ × List PacketNack)
  loss_loop reference block block_len zero loss_offset = some (loss_offset, [])
  loss_loop reference block block_len (suc n) loss_offset =
      let rest = loss_loop reference block block_len n (loss_offset + 4) in
      if leb (loss_offset + 4) block_len
      then (do
        field ← loss_field reference (block + loss_offset)
        (offset, more) ← rest
        some (offset, field ++ more))
      else some (loss_offset, [])

  -- The frames that one octet acknowledges, from bit `b` on, `n` bits.
  unfoldable pub bit_acks : ℕ → ℕ → ℕ → ℕ → ℕ → List ℕ
  bit_acks checkpoint oct byte_val b zero = []
  bit_acks checkpoint oct byte_val b (suc n) =
      let rest = bit_acks checkpoint oct byte_val (b + 1) n in
      if byte_val / 2 ^ b % 2 == 1 then ((checkpoint + 2 + oct * 8 + b) % 2 ^ 32) ∷ rest else rest

  -- The loop over the octets, `n` of them left.
  unfoldable pub ack_loop : ℕ → ℕ → ℕ → ℕ → ℕ → ℕ → Option (List ℕ)
  ack_loop checkpoint block block_len ack_offset oct zero = some []
  ack_loop checkpoint block block_len ack_offset oct (suc n) =
      let rest = ack_loop checkpoint block block_len ack_offset (oct + 1) n in
      if ltb (ack_offset + oct) block_len
      then (do
        byte_val ← read8 bytes (block + (ack_offset + oct))
        more ← rest
        some (bit_acks checkpoint oct byte_val 0 8 ++ more))
      else some []

  -- The CST2 part behind the loss fields, if it is there.
  unfoldable pub parse_acks : ℕ → ℕ → ℕ → ℕ → Option (List ℕ)
  parse_acks checkpoint block block_len loss_offset =
      if leb (loss_offset + 6) block_len
      then (do
        magic ← read32 bytes (block + loss_offset)
        if magic == 0x43535432
            then (do
              octets ← read8 bytes (block + (loss_offset + 5))
              let max_octets = min (block_len - (loss_offset + 6)) 254
              ack_loop checkpoint block block_len (loss_offset + 6) 0 (min octets max_octets))
            else some [])
      else some []

  -- The body of a CAST block.
  unfoldable pub parse_cast :
      ℕ → Option (List (ℕ × ℕ)) → ℕ → ℕ → RtcpFeedback → Option (Bool × RtcpFeedback)
  parse_cast fallback last_frames block block_len fb = do
    ckpt_id_8 ← read8 bytes (block + 16)
    loss_fields_count ← read8 bytes (block + 17)
    delay ← read16 bytes (block + 18)
    let reference = reference_frame_id fb.sender_ssrc fallback last_frames
    let checkpoint = expand_frame_id ckpt_id_8 reference
    (loss_offset, lost) ← loss_loop reference block block_len loss_fields_count 20
    acked ← parse_acks checkpoint block block_len loss_offset
    some (
      true,
      record fb {
        current_playout_delay_ms = delay;
        has_playout_delay = true;
        checkpoint_frame_id = checkpoint;
        nacks = fb.nacks ++ lost;
        acked_frames = fb.acked_frames ++ acked;
      },
    )

  -- Application-defined (204) and payload-specific (206) blocks.
  unfoldable pub parse_payload_specific :
      ℕ → Option (List (ℕ × ℕ)) → ℕ → ℕ → ℕ → ℕ → RtcpFeedback → Option (Bool × RtcpFeedback)
  parse_payload_specific fallback last_frames pt block block_len count fb =
      if leb 12 block_len
      then (do
        receiver ← read32 bytes (block + 4)
        sender ← read32 bytes (block + 8)
        let fb' = record fb { receiver_ssrc = receiver; sender_ssrc = sender }
        if count == 1 && pt == 206
            then some (true, record fb' { picture_loss_indicator = true })
            else if leb 20 block_len
            then (do
              magic ← read32 bytes (block + 12)
              if magic == 0x43415354
                  then parse_cast fallback last_frames block block_len fb'
                  else some (false, fb'))
            else some (false, fb'))
      else some (false, fb)

  -- Extended Report.
  unfoldable pub parse_extended : ℕ → ℕ → RtcpFeedback → Option (Bool × RtcpFeedback)
  parse_extended block block_len fb =
      if leb 12 block_len
      then (do block_type ← read8 bytes (block + 8); some (block_type == 4, fb))
      else some (false, fb)

  -- One block of version 2: whether it sets `parsed_any`, and the feedback after it.
  unfoldable pub parse_block :
      ℕ → ℕ → Option (List (ℕ × ℕ)) → ℕ → ℕ → ℕ → ℕ → RtcpFeedback → Option (Bool × RtcpFeedback)
  parse_block now_us fallback last_frames pt block block_len count fb =
      if pt == 201
      then parse_report now_us block block_len count fb
      else if pt == 202
      then some (false, fb)
      else if pt == 204 || pt == 206
      then parse_payload_specific fallback last_frames pt block block_len count fb
      else if pt == 207
      then parse_extended block block_len fb
      else some (false, fb)

  -- One round of the loop: a block of another version is skipped.
  unfoldable pub versioned_block :
      ℕ → ℕ → Option (List (ℕ × ℕ)) → ℕ → ℕ → ℕ → ℕ → RtcpFeedback → Option (Bool × RtcpFeedback)
  versioned_block now_us fallback last_frames b0 pt block block_len fb =
      if b0 / 64 % 4 == 2
      then parse_block now_us fallback last_frames pt block block_len (b0 % 32) fb
      else some (false, fb)

  -- The loop over the blocks, at most `n` of which are left.
  unfoldable pub parse_loop :
      (ℕ → ℕ)
      → ℕ
      → Option (List (ℕ × ℕ))
      → ℕ
      → ℕ
      → Bool
      → RtcpFeedback
      → Option (Bool × RtcpFeedback)
  parse_loop clock fallback last_frames zero offset parsed_any fb = some (parsed_any, fb)
  parse_loop clock fallback last_frames (suc n) offset parsed_any fb =
      if leb (offset + 4) (length bytes)
      then (do
        b0 ← read8 bytes offset
        pt ← read8 bytes (offset + 1)
        words ← read16 bytes (offset + 2)
        let block_len = (words + 1) * 4
        if ltb block_len 4 || ltb (length bytes) (offset + block_len)
            then some (parsed_any, fb)
            else (do
              (parsed, fb') ←
                  versioned_block (clock n) fallback last_frames b0 pt offset block_len fb
              parse_loop clock fallback last_frames n (offset + block_len) (parsed_any || parsed)
                  fb'))
      else some (parsed_any, fb)

-- `ParseInternal` on fresh feedback: what it returns, and the feedback.
unfoldable pub parse_internal :
    (ℕ → ℕ) → List ℕ → ℕ → Option (List (ℕ × ℕ)) → Option (Bool × RtcpFeedback)
parse_internal clock bytes fallback last_frames =
    if ltb (length bytes) 4
    then some (false, no_feedback)
    else parse_loop bytes clock fallback last_frames 64 0 false no_feedback

-- The two overloads of `ParseCompoundPacket`.
unfoldable pub parse_compound : (ℕ → ℕ) → List ℕ → ℕ → Option (Bool × RtcpFeedback)
parse_compound clock bytes last_sent_frame_id = parse_internal clock bytes last_sent_frame_id none

unfoldable pub parse_compound_by_ssrc :
    (ℕ → ℕ) → List ℕ → List (ℕ × ℕ) → Option (Bool × RtcpFeedback)
parse_compound_by_ssrc clock bytes last_frames = parse_internal clock bytes 0 (some last_frames)
