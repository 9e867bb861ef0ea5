-- ===== src/Rtp/Layout.antt =====
-- The bytes of one packet: sizes, and the fields that the transport and a receiver read back.
use cast_mirror.Prelude.{
  ℕ, ◌+◌, ◌/◌, ◌%◌, ◌^◌, ◌≤◌, ◌<◌, Bool, true, false, ◌==◌, if◌then◌else◌, ◌≡◌, refl, ◌∙◌, ap₂,
  List, ◌++◌, length, take, drop, get_or, length-append, length-take, length-drop, arith,
}
use cast_mirror.Prelude.Bytes.{of_be16, of_be32, of_be16-be16, of_be32-be32}
use cast_mirror.Rtp.{
  EncodedFrame, RtpPacket, RtpPacketizer, header_size, header, make_packet, pkt_adaptive, chunk_len,
  max_packet_id_of,
}

module _ (p : RtpPacketizer) (f : EncodedFrame) where
  pub length-header :
      (seq pid m : ℕ) (adaptive : Bool)
      → length (header p f seq pid m adaptive) ≡ header_size adaptive
  unfolding header
  length-header seq pid m true = refl
  length-header seq pid m false = refl

  -- Dropping a header of its own size leaves what follows it.
  pub drop-header :
      (seq pid m : ℕ) (adaptive : Bool) (rest : List ℕ)
      → drop (header_size adaptive) (header p f seq pid m adaptive ++ rest) ≡ rest
  unfolding header
  drop-header seq pid m true rest = refl
  drop-header seq pid m false rest = refl

  module _ (num : ℕ) where
    pub length-chunk :
        (pid offset : ℕ)
        → length (take (chunk_len p f num pid offset) (drop offset f.payload))
          ≡ chunk_len p f num pid offset
    length-chunk pid offset = omega (
      arith,
      length-take (chunk_len p f num pid offset) (drop offset f.payload),
      length-drop offset f.payload,
    )

    length-make_packet :
        (seq pid offset : ℕ)
        → length (make_packet p f num pid seq offset).bytes
          ≡ header_size (pkt_adaptive p f num pid) + chunk_len p f num pid offset
    unfolding make_packet
    length-make_packet seq pid offset =
        length-append (header p f seq pid (max_packet_id_of p f num) (pkt_adaptive p f num pid)) _
        ∙ ap₂ ◌+◌ (length-header seq pid _ (pkt_adaptive p f num pid)) (length-chunk pid offset)

    -- No packet is longer than the limit, which must leave room for the longer header.
    pub make_packet-le :
        (seq pid offset : ℕ)
        → 23 ≤ p.max_packet_size
        → length (make_packet p f num pid seq offset).bytes ≤ p.max_packet_size
    make_packet-le seq pid offset h = ground (arith, length-make_packet seq pid offset)

-- The header fields as a receiver reads them, in bytes.
abbrev pub at : RtpPacket → ℕ → ℕ
at k i = get_or k.bytes i 0

-- The payload that a receiver takes: what stands behind the 19 bytes of the headers, and behind the
-- extension of 4 bytes that the low bit of byte 12 announces.
unfoldable pub received_payload : RtpPacket → List ℕ
received_payload k = drop (if at k 12 % 2 == 1 then 23 else 19) k.bytes

pub received_payload-make_packet :
    (p : RtpPacketizer) (f : EncodedFrame) (num pid seq offset : ℕ)
    → received_payload (make_packet p f num pid seq offset)
      ≡ take (chunk_len p f num pid offset) (drop offset f.payload)
unfolding received_payload make_packet header
received_payload-make_packet p f num pid seq offset = ground arith

-- `SendPackets` and a receiver find the packet's fields in its bytes: payload type, sequence number,
-- RTP timestamp, SSRC, packet id and last packet id, each as long as it fits its field, and the
-- marker bit is set exactly on the packet whose id is the last one.
pub make_packet-fields :
    (p : RtpPacketizer) (f : EncodedFrame) (num pid seq offset : ℕ)
    → p.sender_ssrc < 2 ^ 32
    → f.rtp_timestamp < 2 ^ 32
    → seq < 65536
    → pid < 65536
    → let k = make_packet p f num pid seq offset in
      (at k 1 % 128 ≡ p.payload_type % 128)
      × (at k 1 / 128 ≡ (if pid == k.max_packet_id then 1 else 0))
      × (of_be16 (at k 2) (at k 3) ≡ seq)
      × (of_be32 (at k 4) (at k 5) (at k 6) (at k 7) ≡ f.rtp_timestamp)
      × (of_be32 (at k 8) (at k 9) (at k 10) (at k 11) ≡ p.sender_ssrc)
      × (of_be16 (at k 14) (at k 15) ≡ pid)
      × (of_be16 (at k 16) (at k 17) ≡ k.max_packet_id)
unfolding make_packet header
make_packet-fields p f num pid seq offset hs ht hq hp = (
  ground arith,
  ground arith,
  of_be16-be16 seq hq,
  of_be32-be32 f.rtp_timestamp ht,
  of_be32-be32 p.sender_ssrc hs,
  of_be16-be16 pid hp,
  of_be16-be16 (max_packet_id_of p f num) (omega arith),
)
