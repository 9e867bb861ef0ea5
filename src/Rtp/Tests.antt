-- ===== src/Rtp/Tests.antt =====
-- A frame of six bytes in packets of 27, and the theorems at concrete inputs.
use cast_mirror.Prelude.{
  ℕ, ◌<◌, ◌^◌, ◌≡◌, refl, List, [], ◌∷◌, none, some, length, replicate, length-replicate, arith,
}
use cast_mirror.Prelude.Int.{pos, negsuc}
use cast_mirror.Rtp.{
  key_frame, EncodedFrame, RtpPacket, RtpPacketizer, num_packets, one_more, header, make_packet,
  packetize_frame,
}
use cast_mirror.Rtp.Numbering.{Numbered, packetize_frame-Numbered}
use cast_mirror.Rtp.Reassembly.{received, packetize_frame-received}
use cast_mirror.Rtp.Divergence.{packetize_frame_diverges}

abbrev packetizer : RtpPacketizer
packetizer = record {
  payload_type = 96;
  sender_ssrc = 0x01020304;
  max_packet_size = 27;
  sequence_number = 65535;
}

abbrev frame : EncodedFrame
frame = record {
  dependency = key_frame;
  frame_id = 258;
  referenced_frame_id = 258;
  rtp_timestamp = 90000;
  capture_time = pos 1;
  playout_delay = pos 200;
  payload = 1 ∷ 2 ∷ 3 ∷ 4 ∷ 5 ∷ 6 ∷ [];
}

first_packet :
    (make_packet packetizer frame 2 0 65535 0).bytes
    ≡ 0x80 ∷ 96 ∷ 255 ∷ 255 ∷ 0 ∷ 1 ∷ 0x5f ∷ 0x90 ∷ 1 ∷ 2 ∷ 3 ∷ 4 ∷ 0xc1 ∷ 2 ∷ 0 ∷ 0 ∷ 0 ∷ 1 ∷ 2 ∷ 4
      ∷ 2 ∷ 0 ∷ 200 ∷ 1 ∷ 2 ∷ 3 ∷ 4 ∷ []
unfolding make_packet header
first_packet = refl

packetize_frame-Numbered_example :
    (num : ℕ) × (ks : List RtpPacket) × (next : ℕ) × (packetize_frame 65536 packetizer frame
      ≡ some (ks, record packetizer { sequence_number = next }))
    × (0 < num)
    × Numbered packetizer frame num 0 65535 ks next
packetize_frame-Numbered_example =
    packetize_frame-Numbered packetizer frame (omega arith) (omega arith)

packetize_frame-received_example :
    (r : List RtpPacket × RtpPacketizer) × (packetize_frame 65536 packetizer frame ≡ some r)
    × (received r.0 ≡ 1 ∷ 2 ∷ 3 ∷ 4 ∷ 5 ∷ 6 ∷ [])
packetize_frame-received_example =
    packetize_frame-received packetizer frame (omega arith) (omega arith)

-- One byte to a packet.
abbrev tiny : RtpPacketizer
tiny = record packetizer { max_packet_size = 20 }

abbrev long_frame : List ℕ → EncodedFrame
long_frame xs = record frame { playout_delay = pos 0; payload = xs }

long_frame_packets :
    (xs : List ℕ) → length xs ≡ 65536 → num_packets tiny (long_frame xs) ≡ some (pos 65536)
unfolding num_packets one_more
long_frame_packets xs h = rw h

-- A count of 2 ^ 31 is negative as an `int`.
count_wraps : one_more (2 ^ 31) ≡ some (negsuc 2147483646)
unfolding one_more
count_wraps = refl

packetize_frame_diverges_example :
    packetize_frame 1000000 tiny (long_frame (replicate 65536 0)) ≡ none
packetize_frame_diverges_example =
    packetize_frame_diverges tiny (long_frame (replicate 65536 0)) 65536 1000000
      (long_frame_packets _ (length-replicate {A = ℕ} 65536 0)) (omega arith)
