-- ===== src/Rtp/Divergence.antt =====
-- A frame of too many packets: the loop's counter is a `uint16_t` and its bound an `int`.
use mathlib.Core.Option
use cast_mirror.Prelude.{ℕ, zero, suc, ◌+◌, ◌%◌, ◌≤◌, ◌<◌, lt→ltb, ◌≡◌, refl, ap, none, some, arith}
use cast_mirror.Prelude.Int.{pos}
use cast_mirror.Rtp.{
  EncodedFrame, RtpPacketizer, num_packets, packet_loop, packetize_frame, chunk_len,
}

packet_loop_runs_on :
    (p : RtpPacketizer) (f : EncodedFrame) (num fuel pid seq offset : ℕ)
    → 65536 ≤ num
    → pid < 65536
    → packet_loop p f num fuel pid seq offset ≡ none
unfolding packet_loop
packet_loop_runs_on p f num zero pid seq offset h lt = refl
packet_loop_runs_on p f num (suc fuel) pid seq offset h lt = rw (lt→ltb pid num (omega arith)) (
    ap (Option.map _) (
      packet_loop_runs_on p f num fuel ((pid + 1) % 65536) ((seq + 1) % 65536)
        (offset + chunk_len p f num pid offset) h (omega arith)))

-- A frame for which `PacketizeFrame` counts 65536 packets or more, in the `int` that it counts in, is never
-- packetized: the packet id wraps to 0 before it reaches the count, and no amount of fuel ends the loop.
pub packetize_frame_diverges :
    (p : RtpPacketizer) (f : EncodedFrame) (num fuel : ℕ)
    → num_packets p f ≡ some (pos num)
    → 65536 ≤ num
    → packetize_frame fuel p f ≡ none
unfolding packetize_frame Option.bind
packetize_frame_diverges p f num fuel e h =
    rw (e, packetize_frame)
      (ap (Option.map _) (packet_loop_runs_on p f num fuel 0 p.sequence_number 0 h (omega arith)))
