-- ===== src/Rtp.antt =====
-- core/src/rtp_packetizer.cc and core/include/castcore/rtp_packetizer.h: one encoded frame becomes
-- a list of RTP packets with the Cast header. Bytes are numbers below 256. The random first
-- sequence number is the one that the record is made with. The `size_t` arithmetic is written out,
-- the division by a payload size of 0 is the fault `none`, and the loop over a `uint16_t` packet id
-- takes fuel.
pub mod Layout
pub mod Reassembly
pub mod Numbering
pub mod Divergence
mod Tests
use mathlib.Core.Option
use cast_mirror.Prelude.{
  ℕ, zero, suc, ◌+◌, ◌-◌, ◌*◌, ◌/◌, ◌%◌, ◌^◌, min, Bool, true, false, ◌&&◌, ltb, leb, ◌==◌,
  if◌then◌else◌, List, [], ◌∷◌, ◌++◌, Option, none, some, length, take, drop,
}
use cast_mirror.Prelude.Bytes.{byte_at, be16, be32}
use cast_mirror.Prelude.Int.{ℤ, pos, negsuc}

-- `enum class FrameDependency`
pub data FrameDependency : Type 0 where
  key_frame dependent : FrameDependency

abbrev pub is_key : FrameDependency → Bool
is_key key_frame = true
is_key dependent = false

-- `struct EncodedFrame` of types.h; times are counts of clock ticks, the delay is in milliseconds.
pub record EncodedFrame : Type 0 where
  pub dependency : FrameDependency
  pub frame_id : ℕ
  pub referenced_frame_id : ℕ
  pub rtp_timestamp : ℕ
  pub capture_time : ℤ
  pub playout_delay : ℤ
  pub payload : List ℕ

pub record RtpPacket : Type 0 where
  pub bytes : List ℕ
  pub sequence_number : ℕ
  pub frame_id : ℕ
  pub packet_id : ℕ
  pub max_packet_id : ℕ
  pub is_key_frame : Bool
  pub capture_time : ℤ

pub record RtpPacketizer : Type 0 where
  pub payload_type : ℕ
  pub sender_ssrc : ℕ
  pub max_packet_size : ℕ
  pub sequence_number : ℕ

abbrev pub base_hdr_size : ℕ
base_hdr_size = 19

abbrev pub adaptive_latency_header_size : ℕ
adaptive_latency_header_size = 4

-- `static_cast<size_t>(a - b)` of two `int`s: a negative difference becomes a huge number.
abbrev pub sub_size : ℕ → ℕ → ℕ
sub_size a b = if leb b a then a - b else 2 ^ 64 + a - b

-- `playout_delay.count() > 0`
abbrev pub include_adaptive_latency : EncodedFrame → Bool
include_adaptive_latency f = elim f.playout_delay [ pos n ↦ ltb 0 n | negsuc n ↦ false ]

-- `static_cast<uint16_t>(playout_delay.count())`
abbrev pub delay_val : EncodedFrame → ℕ
delay_val f = elim f.playout_delay [
  | pos n ↦ n % 65536
  | negsuc n ↦ (65536 - suc n % 65536) % 65536
]

abbrev pub header_size : Bool → ℕ
header_size adaptive = base_hdr_size + (if adaptive then adaptive_latency_header_size else 0)

-- `1 + static_cast<int>(n)` of a `size_t`: the cast wraps at 32 bits, and `none` is the sum that overflows.
unfoldable pub one_more : ℕ → Option ℤ
one_more n =
    let low = n % 2 ^ 32 in
    if ltb low (2 ^ 31 - 1)
    then some (pos (low + 1))
    else if low == 2 ^ 31 - 1
    then none
    else if low == 2 ^ 32 - 1
    then some (pos 0)
    else some (negsuc (2 ^ 32 - 2 - low))

-- `num_packets`; `none` is the division by zero, and the sum that overflows.
unfoldable pub num_packets : RtpPacketizer → EncodedFrame → Option ℤ
num_packets p f =
    let total = length f.payload in
    let max_payload_pkt0 = sub_size p.max_packet_size (header_size (include_adaptive_latency f)) in
    let max_payload_rest = sub_size p.max_packet_size base_hdr_size in
    if ltb max_payload_pkt0 total
    then (if max_payload_rest == 0
        then none
        else one_more ((total - max_payload_pkt0 + max_payload_rest - 1) / max_payload_rest))
    else some (pos 1)

-- The 19 bytes of the RTP and Cast headers, and the playout-delay extension of the first packet.
-- The bits joined by `|` do not overlap, so they are added.
unfoldable pub header : RtpPacketizer → EncodedFrame → ℕ → ℕ → ℕ → Bool → List ℕ
header p f seq pid max_packet_id adaptive =
    0x80 ∷ ((if pid == max_packet_id then 0x80 else 0) + p.payload_type % 128) ∷ be16 seq
    ++ (be32 f.rtp_timestamp
        ++ (be32 p.sender_ssrc
            ++ ((0x40 + (if is_key f.dependency then 0x80 else 0) + (if adaptive then 1 else 0))
                  ∷ byte_at 0 f.frame_id
                  ∷ be16 pid
                ++ (be16 max_packet_id
                    ++ (byte_at 0 f.referenced_frame_id
                        ∷ (if adaptive
                            then be16 (1 * 2 ^ 10 + 2) ++ be16 (delay_val f)
                            else []))))))

module _ (p : RtpPacketizer) (f : EncodedFrame) (num : ℕ) where
  abbrev pub max_packet_id_of : ℕ
  max_packet_id_of = (num - 1) % 65536

  abbrev pub pkt_adaptive : ℕ → Bool
  pkt_adaptive pid = pid == 0 && include_adaptive_latency f

  abbrev pub chunk_len : ℕ → ℕ → ℕ
  chunk_len pid offset =
      min (sub_size p.max_packet_size (header_size (pkt_adaptive pid))) (length f.payload - offset)

  -- The body of the loop.
  unfoldable pub make_packet : ℕ → ℕ → ℕ → RtpPacket
  make_packet pid seq offset = record {
    bytes =
        header p f seq pid max_packet_id_of (pkt_adaptive pid)
        ++ take (chunk_len pid offset) (drop offset f.payload);
    sequence_number = seq;
    frame_id = f.frame_id;
    packet_id = pid;
    max_packet_id = max_packet_id_of;
    is_key_frame = is_key f.dependency;
    capture_time = f.capture_time;
  }

  -- The loop, and the sequence number after it; `none` where the fuel runs out.
  unfoldable pub packet_loop : ℕ → ℕ → ℕ → ℕ → Option (List RtpPacket × ℕ)
  packet_loop zero pid seq offset = none
  packet_loop (suc fuel) pid seq offset =
      let more =
        Option.map (λ r. (make_packet pid seq offset ∷ r.0, r.1))
          (packet_loop fuel ((pid + 1) % 65536) ((seq + 1) % 65536)
            (offset + chunk_len pid offset)) in
      if ltb pid num then more else some ([], seq)

-- The loop's packets; a count below 0 ends it at once.
unfoldable pub all_packets : ℕ → RtpPacketizer → EncodedFrame → ℤ → Option (List RtpPacket × ℕ)
all_packets fuel p f (pos num) = packet_loop p f num fuel 0 p.sequence_number 0
all_packets fuel p f (negsuc num) = some ([], p.sequence_number)

-- `PacketizeFrame`: the packets, and the packetizer after the call.
unfoldable pub packetize_frame :
    ℕ → RtpPacketizer → EncodedFrame → Option (List RtpPacket × RtpPacketizer)
unfolding all_packets
packetize_frame fuel p f =
    Option.bind (num_packets p f)
      λ num. Option.map (λ r. (r.0, record p { sequence_number = r.1 })) (all_packets fuel p f num)
