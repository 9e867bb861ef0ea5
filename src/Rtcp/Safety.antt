-- ===== src/Rtcp/Safety.antt =====
-- The parser reads inside the datagram only, whatever the datagram holds.
use cast_mirror.Prelude.{
  ℕ, zero, suc, ◌+◌, ◌*◌, ◌%◌, ◌≤◌, Bool, true, false, ◌||◌, ◌&&◌, ltb, leb, ◌==◌, ◌≡◌, refl, List,
  Option, some, length, arith,
}
use cast_mirror.Prelude.Reads.{
  bind_total, if_total, is_some, is_some→eq, read8, read16, read32, read8_total, read16_total,
  read32_total,
}
use cast_mirror.Rtcp.{
  RtcpFeedback, no_feedback, parse_report, loss_field, loss_loop, ack_loop, parse_acks, parse_cast,
  parse_payload_specific, parse_extended, parse_block, versioned_block, parse_loop, parse_internal,
}

module _ (bytes : List ℕ) (block block_len : ℕ) (fits : block + block_len ≤ length bytes) where
  parse_report_total :
      (now_us count : ℕ) (fb : RtcpFeedback)
      → is_some (parse_report bytes now_us block block_len count fb) ≡ true
  unfolding parse_report
  parse_report_total now_us count fb = ground (
    arith,
    read32_total bytes (block + 4),
    read8_total bytes (block + 12),
    read8_total bytes (block + 13),
    read8_total bytes (block + 14),
    read8_total bytes (block + 15),
    read32_total bytes (block + 20),
    read32_total bytes (block + 24),
    read32_total bytes (block + 28),
  )

  parse_extended_total :
      (fb : RtcpFeedback) → is_some (parse_extended bytes block block_len fb) ≡ true
  unfolding parse_extended
  parse_extended_total fb = ground (arith, read8_total bytes (block + 8))

  loss_field_total :
      (reference at : ℕ) → at + 4 ≤ length bytes → is_some (loss_field bytes reference at) ≡ true
  unfolding loss_field
  loss_field_total reference at h =
      ground (arith, read8_total bytes at, read16_total bytes (at + 1), read8_total bytes (at + 3))

  loss_loop_total :
      (reference n loss_offset : ℕ)
      → is_some (loss_loop bytes reference block block_len n loss_offset) ≡ true
  unfolding loss_loop
  loss_loop_total reference zero loss_offset = refl
  loss_loop_total reference (suc n) loss_offset = ground (
    arith,
    loss_field_total reference (block + loss_offset),
    loss_loop_total reference n (loss_offset + 4),
  )

  ack_loop_total :
      (checkpoint ack_offset oct n : ℕ)
      → is_some (ack_loop bytes checkpoint block block_len ack_offset oct n) ≡ true
  unfolding ack_loop
  ack_loop_total checkpoint ack_offset oct zero = refl
  ack_loop_total checkpoint ack_offset oct (suc n) = ground (
    arith,
    read8_total bytes (block + (ack_offset + oct)),
    ack_loop_total checkpoint ack_offset (oct + 1) n,
  )

  parse_acks_total :
      (checkpoint loss_offset : ℕ)
      → is_some (parse_acks bytes checkpoint block block_len loss_offset) ≡ true
  unfolding parse_acks
  parse_acks_total checkpoint loss_offset =
      if_total (leb (loss_offset + 6) block_len) _ _
        (λ room.
          bind_total (read32 bytes (block + loss_offset)) _
            (read32_total bytes (block + loss_offset) (ground arith))
            (λ magic.
              if_total (magic == 0x43535432) _ _
                (λ _.
                  bind_total (read8 bytes (block + (loss_offset + 5))) _
                    (read8_total bytes (block + (loss_offset + 5)) (ground arith))
                    (λ octets. ack_loop_total checkpoint (loss_offset + 6) 0 _))
                (λ _. refl)))
        (λ _. refl)

  parse_cast_total :
      (fallback : ℕ) (last_frames : Option (List (ℕ × ℕ))) (fb : RtcpFeedback)
      → 20 ≤ block_len
      → is_some (parse_cast bytes fallback last_frames block block_len fb) ≡ true
  unfolding parse_cast
  parse_cast_total fallback last_frames fb room =
      bind_total (read8 bytes (block + 16)) _ (read8_total bytes (block + 16) (omega arith))
        (λ ckpt_id_8.
          bind_total (read8 bytes (block + 17)) _ (read8_total bytes (block + 17) (omega arith))
            (λ count.
              bind_total (read16 bytes (block + 18)) _
                (read16_total bytes (block + 18) (omega arith))
                (λ delay.
                  bind_total (loss_loop bytes _ block block_len count 20) _
                    (loss_loop_total _ count 20)
                    (λ r.
                      bind_total (parse_acks bytes _ block block_len r.0) _ (parse_acks_total _ r.0)
                        (λ acked. refl)))))

  parse_payload_specific_total :
      (fallback : ℕ) (last_frames : Option (List (ℕ × ℕ))) (pt count : ℕ) (fb : RtcpFeedback)
      → is_some (parse_payload_specific bytes fallback last_frames pt block block_len count fb)
        ≡ true
  unfolding parse_payload_specific
  parse_payload_specific_total fallback last_frames pt count fb =
      if_total (leb 12 block_len) _ _
        (λ twelve.
          bind_total (read32 bytes (block + 4)) _ (read32_total bytes (block + 4) (ground arith))
            (λ receiver.
              bind_total (read32 bytes (block + 8)) _
                (read32_total bytes (block + 8) (ground arith))
                (λ sender.
                  if_total (count == 1 && pt == 206) _ _ (λ _. refl)
                    (λ _.
                      if_total (leb 20 block_len) _ _
                        (λ twenty.
                          bind_total (read32 bytes (block + 12)) _
                            (read32_total bytes (block + 12) (ground arith))
                            (λ magic.
                              if_total (magic == 0x43415354) _ _
                                (λ _. parse_cast_total fallback last_frames _ (ground arith))
                                (λ _. refl)))
                        (λ _. refl)))))
        (λ _. refl)

  versioned_block_total :
      (now_us fallback : ℕ) (last_frames : Option (List (ℕ × ℕ))) (b0 pt : ℕ) (fb : RtcpFeedback)
      → is_some (versioned_block bytes now_us fallback last_frames b0 pt block block_len fb) ≡ true
  unfolding versioned_block parse_block
  versioned_block_total now_us fallback last_frames b0 pt fb = ground (
    arith,
    parse_report_total now_us (b0 % 32) fb,
    parse_payload_specific_total fallback last_frames pt (b0 % 32) fb,
    parse_extended_total fb,
  )

parse_loop_total :
    (bytes : List ℕ) (clock : ℕ → ℕ) (fallback : ℕ) (last_frames : Option (List (ℕ × ℕ)))
    (n offset : ℕ) (parsed_any : Bool) (fb : RtcpFeedback)
    → is_some (parse_loop bytes clock fallback last_frames n offset parsed_any fb) ≡ true
unfolding parse_loop
parse_loop_total bytes clock fallback last_frames zero offset parsed_any fb = refl
parse_loop_total bytes clock fallback last_frames (suc n) offset parsed_any fb =
    if_total (leb (offset + 4) (length bytes)) _ _
      (λ room. bind_total (read8 bytes offset) _ (read8_total bytes offset (ground arith)) (λ b0.
        bind_total (read8 bytes (offset + 1)) _ (read8_total bytes (offset + 1) (ground arith))
          (λ pt.
            bind_total (read16 bytes (offset + 2)) _
              (read16_total bytes (offset + 2) (ground arith))
              (λ words.
                if_total (ltb ((words + 1) * 4) 4 || ltb (length bytes) (offset + (words + 1) * 4))
                  _ _ (λ _. refl)
                  (λ inside.
                    bind_total
                      (versioned_block bytes (clock n) fallback last_frames b0 pt offset
                        ((words + 1) * 4) fb)
                      _
                      (versioned_block_total bytes offset ((words + 1) * 4) (ground arith) (clock n)
                        fallback last_frames b0 pt fb)
                      (λ r.
                        parse_loop_total bytes clock fallback last_frames n
                          (offset + (words + 1) * 4) (parsed_any || r.0) r.1))))))
      (λ _. refl)

-- No datagram makes the parser read out of bounds, whatever its bytes, its length fields and the
-- counts in it say: `ParseInternal` always gives a result, within 64 blocks.
pub parse_internal_total :
    (clock : ℕ → ℕ) (bytes : List ℕ) (fallback : ℕ) (last_frames : Option (List (ℕ × ℕ)))
    → (parsed : Bool) × (fb : RtcpFeedback) × (parse_internal clock bytes fallback last_frames
        ≡ some (parsed, fb))
unfolding parse_internal
parse_internal_total clock bytes fallback last_frames =
    let (r, e) = is_some→eq (parse_internal clock bytes fallback last_frames) (
      if_total (ltb (length bytes) 4) _ _ (λ _. refl)
        (λ _. parse_loop_total bytes clock fallback last_frames 64 0 false no_feedback)) in
    (r.0, r.1, e)
