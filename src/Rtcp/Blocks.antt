-- ===== src/Rtcp/Blocks.antt =====
-- One block of a datagram: what the parser makes of it, from the reads that succeed.
use cast_mirror.Prelude.{
  ℕ, suc, ◌+◌, ◌*◌, Bool, true, false, ltb, leb, ◌||◌, ◌==◌, ◌≡◌, ◌∙◌, List, [], ◌∷◌, ◌++◌, Option,
  some, length, arith,
}
use cast_mirror.Prelude.Reads.{read8, read16, read32}
use cast_mirror.Rtcp.{
  RtcpFeedback, PacketNack, no_feedback, expand_frame_id, reference_frame_id, loss_loop, parse_acks,
  parse_cast, parse_payload_specific, versioned_block, parse_loop, parse_internal,
}

module _ (clock : ℕ → ℕ) (bytes : List ℕ) (fallback : ℕ) (last_frames : Option (List (ℕ × ℕ))) where
  parse_loop_step :
      (n offset b0 pt words : ℕ) (any p : Bool) (fb fb' : RtcpFeedback)
      → read8 bytes offset ≡ some b0
      → read8 bytes (offset + 1) ≡ some pt
      → read16 bytes (offset + 2) ≡ some words
      → leb (offset + 4) (length bytes) ≡ true
      → (ltb ((words + 1) * 4) 4 || ltb (length bytes) (offset + (words + 1) * 4)) ≡ false
      → versioned_block bytes (clock n) fallback last_frames b0 pt offset ((words + 1) * 4) fb
        ≡ some (p, fb')
      → parse_loop bytes clock fallback last_frames (suc n) offset any fb
        ≡ parse_loop bytes clock fallback last_frames n (offset + (words + 1) * 4) (any || p) fb'
  unfolding parse_loop
  parse_loop_step n offset b0 pt words any p fb fb' e0 e1 e2 room inside e =
      rw (room, e0, e1, e2, inside, e)

  parse_loop_end :
      (n offset : ℕ) (any : Bool) (fb : RtcpFeedback)
      → leb (offset + 4) (length bytes) ≡ false
      → parse_loop bytes clock fallback last_frames (suc n) offset any fb ≡ some (any, fb)
  unfolding parse_loop
  parse_loop_end n offset any fb h = rw h

  -- A datagram of one block gives what the block gives.
  pub parse_single :
      (b0 pt words : ℕ) (p : Bool) (fb : RtcpFeedback)
      → read8 bytes 0 ≡ some b0
      → read8 bytes 1 ≡ some pt
      → read16 bytes 2 ≡ some words
      → length bytes ≡ (words + 1) * 4
      → versioned_block bytes (clock 63) fallback last_frames b0 pt 0 ((words + 1) * 4) no_feedback
        ≡ some (p, fb)
      → parse_internal clock bytes fallback last_frames ≡ some (p, fb)
  unfolding parse_internal
  parse_single b0 pt words p fb e0 e1 e2 len e =
      let long : ltb (length bytes) 4 ≡ false = ground arith in
      rw long (
        parse_loop_step 63 0 b0 pt words false p no_feedback fb e0 e1 e2 (ground arith)
          (ground arith) e
        ∙ parse_loop_end 62 (0 + (words + 1) * 4) p fb (ground arith))

read8-append : (xs ys : List ℕ) (i : ℕ) → read8 (xs ++ ys) (length xs + i) ≡ read8 ys i
unfolding read8
read8-append [] ys i = ground arith
read8-append (x ∷ xs) ys i =
    let e : suc (length xs) + i ≡ suc (length xs + i) = omega arith in rw e (read8-append xs ys i)

pub read8-at : (xs ys : List ℕ) (i at : ℕ) → at ≡ length xs + i → read8 (xs ++ ys) at ≡ read8 ys i
read8-at xs ys i at e = rw e (read8-append xs ys i)

-- A CAST block gives what its parts give.
pub parse_cast_lem :
    (bytes : List ℕ) (frames : List (ℕ × ℕ)) (block_len ckpt n delay reference off : ℕ)
    (lost : List PacketNack) (fb : RtcpFeedback)
    → read8 bytes 16 ≡ some ckpt
    → read8 bytes 17 ≡ some n
    → read16 bytes 18 ≡ some delay
    → reference_frame_id fb.sender_ssrc 0 (some frames) ≡ reference
    → loss_loop bytes reference 0 block_len n 20 ≡ some (off, lost)
    → leb (off + 6) block_len ≡ false
    → parse_cast bytes 0 (some frames) 0 block_len fb
      ≡ some (
        true,
        record fb {
          current_playout_delay_ms = delay;
          has_playout_delay = true;
          checkpoint_frame_id = expand_frame_id ckpt reference;
          nacks = fb.nacks ++ lost;
          acked_frames = fb.acked_frames ++ [];
        },
      )
unfolding parse_cast parse_acks
parse_cast_lem bytes frames block_len ckpt n delay reference off lost fb e16 e17 e18 er el
      none_left =
    rw (e16, e17, e18, er, el, none_left)

pub parse_payload_specific_lem :
    (bytes : List ℕ) (frames : List (ℕ × ℕ)) (block_len count receiver sender : ℕ)
    (fb fb' : RtcpFeedback)
    → (count == 1) ≡ false
    → leb 20 block_len ≡ true
    → read32 bytes 4 ≡ some receiver
    → read32 bytes 8 ≡ some sender
    → read32 bytes 12 ≡ some 0x43415354
    → parse_cast bytes 0
        (some frames)
        0
        block_len
        (record fb { receiver_ssrc = receiver; sender_ssrc = sender })
      ≡ some (true, fb')
    → parse_payload_specific bytes 0 (some frames) 206 0 block_len count fb ≡ some (true, fb')
unfolding parse_payload_specific
parse_payload_specific_lem bytes frames block_len count receiver sender fb fb' c h20 e4 e8 e12 e =
    let h12 : leb 12 block_len ≡ true = ground arith in rw (h12, e4, e8, c, h20, e12, e)
