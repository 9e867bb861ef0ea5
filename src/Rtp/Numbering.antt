-- ===== src/Rtp/Numbering.antt =====
-- How many packets a frame takes, that the loop over them ends, and how they are numbered.
use native.Mathlib.Nat.{div-add-mod}
use native.Mathlib.Decide.{dec_lt}
use mathlib.Core.Option
use cast_mirror.Prelude.{
  ℕ, zero, suc, ◌+◌, ◌-◌, ◌*◌, ◌/◌, ◌%◌, ◌≤◌, ◌<◌, false, ltb, lt→ltb, if◌then◌else◌, ◌≡◌, refl,
  List, [], ◌∷◌, some, length, Bool-cases, inl, inr, ap, ◌∙◌, arith,
}
use cast_mirror.Prelude.Int.{pos}
use cast_mirror.Rtp.{
  one_more, EncodedFrame, RtpPacket, RtpPacketizer, include_adaptive_latency, header_size,
  num_packets, make_packet, packet_loop, packetize_frame, chunk_len,
}
use cast_mirror.Rtp.Layout.{make_packet-le}

-- The quotient rounded up.
pub ceil_le : (x r k : ℕ) → 0 < r → x ≤ k * r → (x + r - 1) / r ≤ k
ceil_le x r k hr h = grind (arith, div-add-mod)

pub le_ceil : (x r : ℕ) → 0 < r → x ≤ (x + r - 1) / r * r
le_ceil x r hr = grind (arith, div-add-mod)

module _ (p : RtpPacketizer) (f : EncodedFrame) where
  -- The packets from `pid` on: consecutive ids up to the last one, which each packet names,
  -- consecutive sequence numbers, which wrap, and none longer than the limit. The last number is the
  -- one that the next frame starts with.
  abbrev pub Numbered : ℕ → ℕ → ℕ → List RtpPacket → ℕ → Type 0
  Numbered num pid seq [] next = (pid ≡ num) × (next ≡ seq)
  Numbered num pid seq (k ∷ ks) next =
      (k.packet_id ≡ pid)
      × (k.max_packet_id ≡ num - 1)
      × (k.sequence_number ≡ seq)
      × (k.frame_id ≡ f.frame_id)
      × (length k.bytes ≤ p.max_packet_size)
      × Numbered num (suc pid) ((seq + 1) % 65536) ks next

  -- One round of the loop.
  pub packet_loop_more :
      (num fuel pid seq offset : ℕ)
      → pid < num
      → num < 65536
      → packet_loop p f num (suc fuel) pid seq offset
        ≡ Option.map
            (λ r. (make_packet p f num pid seq offset ∷ r.0, r.1))
            (packet_loop p f num fuel
              (suc pid)
              ((seq + 1) % 65536)
              (offset + chunk_len p f num pid offset))
  unfolding packet_loop
  packet_loop_more num fuel pid seq offset h small =
      let e : (pid + 1) % 65536 ≡ suc pid = omega arith in rw (lt→ltb _ _ h, e)

  pub packet_loop_done :
      (num fuel pid seq offset : ℕ)
      → pid ≡ num
      → packet_loop p f num (suc fuel) pid seq offset ≡ some ([], seq)
  unfolding packet_loop
  packet_loop_done num fuel pid seq offset h = let e : ltb pid num ≡ false = ground arith in rw e

  Numbered-cons :
      (num pid seq offset next : ℕ) (ks : List RtpPacket)
      → pid < num
      → num < 65536
      → 23 ≤ p.max_packet_size
      → Numbered num (suc pid) ((seq + 1) % 65536) ks next
      → Numbered num pid seq (make_packet p f num pid seq offset ∷ ks) next
  unfolding make_packet
  Numbered-cons num pid seq offset next ks h small room n =
      (refl, omega arith, refl, refl, make_packet-le p f num seq pid offset room, n)

  -- The loop ends with enough fuel.
  pub packet_loop-Numbered :
      (num fuel pid seq offset : ℕ)
      → num < 65536
      → 23 ≤ p.max_packet_size
      → pid ≤ num
      → num - pid < fuel
      → (r : List RtpPacket × ℕ) × (packet_loop p f num fuel pid seq offset ≡ some r)
        × Numbered num pid seq r.0 r.1
  packet_loop-Numbered num zero pid seq offset small room le h = absurd (omega arith)
  packet_loop-Numbered num (suc fuel) pid seq offset small room le h = elim (dec_lt pid num) [
    | yes more ↦
        let (r, e, n) =
          packet_loop-Numbered num fuel (suc pid) ((seq + 1) % 65536)
            (offset + chunk_len p f num pid offset) small room more (omega arith) in
        (
          (make_packet p f num pid seq offset ∷ r.0, r.1),
          packet_loop_more num fuel pid seq offset more small ∙ ap (Option.map _) e,
          Numbered-cons num pid seq offset r.1 r.0 more small room n,
        )
    | no done ↦
        (([], seq), packet_loop_done num fuel pid seq offset (omega arith), (omega arith, refl))
  ]

-- The number of packets where each has room: one more than the quotient, rounded up, of what the
-- first packet leaves over.
pub count : ℕ → ℕ → ℕ → ℕ
count total first rest = if ltb first total then 1 + (total - first + rest - 1) / rest else 1

count_bounds :
    (total first rest : ℕ)
    → 0 < rest
    → rest ≤ first + 4
    → total + 4 ≤ 65535 * rest
    → (0 < count total first rest)
      × (count total first rest < 65536)
      × (total ≤ first + (count total first rest - 1) * rest)
unfolding count
count_bounds total first rest hr hf h = elim (Bool-cases (ltb first total)) [
  | inl more ↦
      let low : total - first ≤ (total - first + rest - 1) / rest * rest =
        le_ceil (total - first) rest hr in
      let high : (total - first + rest - 1) / rest ≤ 65534 =
        ceil_le (total - first) rest 65534 hr (ground arith) in
      rw more (omega arith, omega arith, grind arith)
  | inr done ↦ rw done (omega arith, omega arith, ground arith)
]

module _ (p : RtpPacketizer) (f : EncodedFrame) (room : 23 ≤ p.max_packet_size) where
  abbrev pub first_room : ℕ
  first_room = p.max_packet_size - header_size (include_adaptive_latency f)

  one_more_lem : (n : ℕ) → n < 65536 → one_more n ≡ some (pos (1 + n))
  unfolding one_more
  one_more_lem n h = ground arith

  pub num_packets_lem :
      count (length f.payload) first_room (p.max_packet_size - 19) < 65536
      → num_packets p f ≡ some (pos (count (length f.payload) first_room (p.max_packet_size - 19)))
  unfolding num_packets count
  num_packets_lem h =
      let rest = p.max_packet_size - 19 in
      let n = (length f.payload - first_room + rest - 1) / rest in ground (arith, one_more_lem n)

  -- A frame that fits 65535 packets takes at least one and at most 65535.
  pub num_packets_bounds :
      length f.payload + 4 ≤ 65535 * (p.max_packet_size - 19)
      → (num : ℕ) × (num_packets p f ≡ some (pos num))
        × (0 < num)
        × (num < 65536)
        × (length f.payload ≤ first_room + (num - 1) * (p.max_packet_size - 19))
  num_packets_bounds small =
      let b =
        count_bounds (length f.payload) first_room (p.max_packet_size - 19) (omega arith)
          (ground arith) small in
      (_, num_packets_lem b.1, b.0, b.1, b.2)

-- Every frame that fits 65535 packets is packetized: the loop ends, the packets carry consecutive
-- ids from 0 up to the last one, which each of them names, consecutive sequence numbers from the
-- packetizer's own, modulo 2 ^ 16, and no packet is longer than the limit; the packetizer keeps
-- the number for the next frame and nothing else changes.
pub packetize_frame-Numbered :
    (p : RtpPacketizer) (f : EncodedFrame)
    → 23 ≤ p.max_packet_size
    → length f.payload + 4 ≤ 65535 * (p.max_packet_size - 19)
    → (num : ℕ) × (ks : List RtpPacket) × (next : ℕ) × (packetize_frame 65536 p f
        ≡ some (ks, record p { sequence_number = next }))
      × (0 < num)
      × Numbered p f num 0 p.sequence_number ks next
unfolding packetize_frame Option.bind
packetize_frame-Numbered p f room small =
    let (num, e, nonzero, lt, _) = num_packets_bounds p f room small in
    let (r, e', n) =
      packet_loop-Numbered p f num 65536 0 p.sequence_number 0 lt room (omega arith)
        (omega arith) in
    (num, r.0, r.1, rw (e, packetize_frame) (ap (Option.map _) e'), nonzero, n)
