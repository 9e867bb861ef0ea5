-- ===== src/Rtp/Reassembly.antt =====
-- The payloads of a frame's packets, joined in order, are the frame.
use native.Mathlib.Nat.{zero-add}
use native.Mathlib.Decide.{dec_lt}
use mathlib.Core.Option
use cast_mirror.Prelude.{
  ℕ, zero, suc, ◌+◌, ◌-◌, ◌*◌, ◌%◌, ◌≤◌, ◌<◌, min, ◌≡◌, refl, sym, ap, ap₂, ◌∙◌, List, [], ◌∷◌,
  ◌++◌, some, length, take, drop, take-append-drop, arith,
}
use cast_mirror.Rtp.{
  EncodedFrame, RtpPacket, RtpPacketizer, include_adaptive_latency, header_size, make_packet,
  packet_loop, packetize_frame, chunk_len,
}
use cast_mirror.Rtp.Layout.{received_payload, received_payload-make_packet}
use cast_mirror.Rtp.Numbering.{packet_loop_more, packet_loop_done, num_packets_bounds}

-- What a receiver has after all packets.
unfoldable pub received : List RtpPacket → List ℕ
received [] = []
received (k ∷ ks) = received_payload k ++ received ks

take-nil : (n : ℕ) → take {A = ℕ} n [] ≡ []
take-nil zero = refl
take-nil (suc n) = refl

drop-nil : (n : ℕ) → drop {A = ℕ} n [] ≡ []
drop-nil zero = refl
drop-nil (suc n) = refl

take-append-drop_from : (n m : ℕ) (xs : List ℕ) → take n (drop m xs) ++ drop (m + n) xs ≡ drop m xs
take-append-drop_from n zero xs = rw zero-add (take-append-drop n xs)
take-append-drop_from n (suc m) [] = ap₂ ◌++◌ (take-nil n) (drop-nil (suc m + n))
take-append-drop_from n (suc m) (x ∷ xs) =
    let e : suc m + n ≡ suc (m + n) = omega arith in rw e (take-append-drop_from n m xs)

drop-eq-nil : (n : ℕ) (xs : List ℕ) → length xs ≤ n → drop n xs ≡ []
drop-eq-nil zero [] h = refl
drop-eq-nil zero (x ∷ xs) h = absurd (omega arith)
drop-eq-nil (suc n) [] h = refl
drop-eq-nil (suc n) (x ∷ xs) h = drop-eq-nil n xs (omega arith)

cover_step :
    (total offset k j room : ℕ)
    → k ≡ suc j
    → total ≤ offset + k * room
    → total ≤ offset + min room (total - offset) + j * room
cover_step total offset k j room e h =
    let h' : total ≤ offset + suc j * room = rw e at h in omega arith

cover_done : (total offset k room : ℕ) → k ≡ 0 → total ≤ offset + k * room → total ≤ offset
cover_done total offset k room e h = let h' : total ≤ offset + 0 * room = rw e at h in omega arith

module _ (p : RtpPacketizer) (f : EncodedFrame) where
  -- A run of the loop that leaves `rest` bytes covered joins up to what is left of the frame.
  received_step :
      (num pid seq offset : ℕ) (ks : List RtpPacket)
      → received ks ≡ drop (offset + chunk_len p f num pid offset) f.payload
      → received (make_packet p f num pid seq offset ∷ ks) ≡ drop offset f.payload
  unfolding received
  received_step num pid seq offset ks h =
      ap₂ ◌++◌ (received_payload-make_packet p f num pid seq offset) h
      ∙ take-append-drop_from (chunk_len p f num pid offset) offset f.payload

  chunk_rest :
      (num pid offset : ℕ)
      → 23 ≤ p.max_packet_size
      → 0 < pid
      → chunk_len p f num pid offset ≡ min (p.max_packet_size - 19) (length f.payload - offset)
  chunk_rest num pid offset room pos = ground arith

  received_loop :
      (num fuel pid seq offset : ℕ)
      → num < 65536
      → 23 ≤ p.max_packet_size
      → pid ≤ num
      → num - pid < fuel
      → 0 < pid
      → length f.payload ≤ offset + (num - pid) * (p.max_packet_size - 19)
      → (r : List RtpPacket × ℕ) × (packet_loop p f num fuel pid seq offset ≡ some r)
        × (received r.0 ≡ drop offset f.payload)
  unfolding received
  received_loop num zero pid seq offset small room le h pos fits = absurd (omega arith)
  received_loop num (suc fuel) pid seq offset small room le h pos fits = elim (dec_lt pid num) [
    | yes more ↦
        let (r, e, n) =
          received_loop num fuel (suc pid) ((seq + 1) % 65536)
            (offset + chunk_len p f num pid offset) small room more (omega arith) (omega arith)
            (rw (chunk_rest num pid offset room pos)
              (cover_step _ offset (num - pid) (num - suc pid) _ (omega arith) fits)) in
        (
          (make_packet p f num pid seq offset ∷ r.0, r.1),
          packet_loop_more p f num fuel pid seq offset more small ∙ ap (Option.map _) e,
          received_step num pid seq offset r.0 n,
        )
    | no done ↦ (
      ([], seq),
      packet_loop_done p f num fuel pid seq offset (omega arith),
      sym (drop-eq-nil offset f.payload (cover_done _ offset (num - pid) _ (omega arith) fits)),
    )
  ]

  -- The first round, whose chunk may be shorter by the extension.
  received_first :
      (num seq : ℕ)
      → 0 < num
      → num < 65536
      → 23 ≤ p.max_packet_size
      → length f.payload
        ≤ p.max_packet_size
          - header_size (include_adaptive_latency f)
          + (num - 1) * (p.max_packet_size - 19)
      → (r : List RtpPacket × ℕ) × (packet_loop p f num 65536 0 seq 0 ≡ some r)
        × (received r.0 ≡ f.payload)
  received_first num seq pos small room fits =
      let (r, e, n) =
        received_loop num 65535 1 ((seq + 1) % 65536) (0 + chunk_len p f num 0 0) small room pos
          (omega arith) (omega arith) (ground arith) in
      (
        (make_packet p f num 0 seq 0 ∷ r.0, r.1),
        packet_loop_more p f num 65535 0 seq 0 pos small ∙ ap (Option.map _) e,
        received_step num 0 seq 0 r.0 n,
      )

-- No byte of a frame is lost, repeated or moved: for every frame that fits 65535 packets,
-- `PacketizeFrame` ends, and what a receiver finds behind the headers of the packets, joined in
-- order, is the frame's data.
pub packetize_frame-received :
    (p : RtpPacketizer) (f : EncodedFrame)
    → 23 ≤ p.max_packet_size
    → length f.payload + 4 ≤ 65535 * (p.max_packet_size - 19)
    → (r : List RtpPacket × RtpPacketizer) × (packetize_frame 65536 p f ≡ some r)
      × (received r.0 ≡ f.payload)
unfolding packetize_frame Option.bind
packetize_frame-received p f room small =
    let (num, e, pos, lt, fits) = num_packets_bounds p f room small in
    let (r, e', n) = received_first p f num p.sequence_number pos lt room fits in
    ((r.0, record p { sequence_number = r.1 }), rw (e, packetize_frame) (ap (Option.map _) e'), n)
