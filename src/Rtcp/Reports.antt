-- ===== src/Rtcp/Reports.antt =====
-- What the parser makes of the receiver's loss report and of its request for a key frame.
use cast_mirror.Prelude.{
  ℕ, ◌+◌, ◌%◌, ◌^◌, ◌<◌, min, true, ◌≡◌, refl, ap₂, List, Option, some, arith,
}
use cast_mirror.Prelude.Bytes.{of_be32-be32}
use cast_mirror.Prelude.Reads.{read8, read16, read32}
use cast_mirror.Rtcp.{
  RtcpFeedback, no_feedback, set_rtt, now_mid32, rtt_delta, parse_report, parse_payload_specific,
  parse_block, versioned_block, parse_internal,
}
use cast_mirror.Rtcp.Blocks.{parse_single}
use cast_mirror.Rtcp.Receiver.{picture_loss, receiver_report}

abbrev pub report_feedback : ℕ → ℕ → ℕ → RtcpFeedback
report_feedback loss dropped jitter_val = record no_feedback {
  receiver_ssrc = 10002;
  has_report_block = true;
  fraction_lost = loss;
  cumulative_lost = dropped % 2 ^ 24;
  jitter = jitter_val;
}

-- The test receiver's loss report is read back whole: the loss byte, the low 24 bits of the count of
-- lost packets and the jitter. It echoes no Sender Report, so whatever the time it gives no
-- round-trip time, and it asks for nothing.
pub receiver_report_parsed :
    (clock : ℕ → ℕ) (fallback : ℕ) (last_frames : Option (List (ℕ × ℕ)))
    (loss dropped jitter_val : ℕ)
    → jitter_val < 2 ^ 32
    → parse_internal clock (receiver_report loss dropped jitter_val) fallback last_frames
      ≡ some (true, report_feedback loss dropped jitter_val)
unfolding receiver_report
receiver_report_parsed clock fallback last_frames loss dropped jitter_val h =
    parse_single clock (receiver_report loss dropped jitter_val) fallback last_frames 0x81 201 7
      true _ (unfold read8 in refl) (unfold read8 in refl) (unfold read8 read16 in refl) refl
      (unfold versioned_block parse_block parse_report set_rtt read8 read32 in
        ap₂
          (λ c j.
            some (true, record (report_feedback loss 0 0) { cumulative_lost = c; jitter = j }))
          (omega arith) (of_be32-be32 jitter_val h))

-- The test receiver's picture loss indication is read as one, and as nothing else.
pub picture_loss_parsed :
    (clock : ℕ → ℕ) (fallback : ℕ) (last_frames : Option (List (ℕ × ℕ)))
    → parse_internal clock picture_loss fallback last_frames
      ≡ some (
        true,
        record no_feedback {
          receiver_ssrc = 10002;
          sender_ssrc = 2;
          picture_loss_indicator = true;
        },
      )
unfolding picture_loss
picture_loss_parsed clock fallback last_frames =
    parse_single clock picture_loss fallback last_frames 0x81 206 2 true _ (unfold read8 in refl)
      (unfold read8 in refl) (unfold read8 read16 in refl) refl
      (unfold versioned_block parse_block parse_payload_specific read8 read32 in refl)

-- The round-trip time of RFC 3550: where the report echoes a Sender Report stamped `lsr`, held for
-- `dlsr`, and `r` 65536ths of a second more have gone by on the sender's clock, modulo its wrap, the
-- parser measures `r`, cut off at 3 seconds, as long as `r` is positive and below 2 ^ 31.
pub set_rtt_lem :
    (now_us lsr dlsr r : ℕ) (fb : RtcpFeedback)
    → now_mid32 now_us ≡ (lsr + dlsr + r) % 2 ^ 32
    → 0 < lsr
    → lsr < 2 ^ 32
    → dlsr < 2 ^ 32
    → 0 < r
    → r < 2 ^ 31
    → ((set_rtt now_us lsr dlsr fb).has_rtt ≡ true)
      × ((set_rtt now_us lsr dlsr fb).rtt ≡ min r 196608)
unfolding set_rtt rtt_delta
set_rtt_lem now_us lsr dlsr r fb e pos hl hd hr hr' =
    let delta : rtt_delta (now_mid32 now_us) lsr dlsr ≡ r = rw e (omega arith) in
    ground (arith, delta)
