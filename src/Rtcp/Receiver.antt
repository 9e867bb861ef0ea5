-- ===== src/Rtcp/Receiver.antt =====
-- tools/fake-receiver/main.cc: the datagrams that the test receiver sends, byte by byte. Its checks
-- for a known sender and an open socket, the simulated jitter and the socket call are left out.
use cast_mirror.Prelude.{
  ℕ, ◌+◌, ◌-◌, ◌*◌, ◌/◌, ◌%◌, min, ltb, if◌then◌else◌, List, [], ◌∷◌, length, take,
}
use cast_mirror.Prelude.Bytes.{byte_at}

-- The loss fields of `TriggerNackBurst`.
unfoldable pub nack_fields : ℕ → List ℕ → List ℕ
nack_fields frame_id [] = []
nack_fields frame_id (pid ∷ packets) =
    byte_at 0 frame_id ∷ byte_at 8 pid ∷ byte_at 0 pid ∷ 0x00 ∷ nack_fields frame_id packets

-- The datagram of `TriggerNackBurst` for packets that are not empty.
unfoldable pub nack_burst : ℕ → List ℕ → List ℕ
nack_burst frame_id packets =
    let count = min (length packets) 32 in
    let pkt_len = 20 + count * 4 in
    let words = (pkt_len / 4 - 1) % 65536 in
    0x8f
    ∷ 206
    ∷ byte_at 8 words
    ∷ byte_at 0 words
    ∷ 0x00
    ∷ 0x00
    ∷ 0x27
    ∷ 0x12
    ∷ 0x00
    ∷ 0x00
    ∷ 0x00
    ∷ 0x02
    ∷ b'C'
    ∷ b'A'
    ∷ b'S'
    ∷ b'T'
    ∷ (if ltb 0 frame_id then (frame_id - 1) % 256 else 0)
    ∷ (count % 256)
    ∷ 0x01
    ∷ 0x90
    ∷ nack_fields frame_id (take count packets)

-- `TriggerPictureLossIndicator`
unfoldable pub picture_loss : List ℕ
picture_loss = 0x81 ∷ 206 ∷ 0x00 ∷ 0x02 ∷ 0x00 ∷ 0x00 ∷ 0x27 ∷ 0x12 ∷ 0x00 ∷ 0x00 ∷ 0x00 ∷ 0x02 ∷ []

-- `SendReceiverReport`; the first argument is the clamped loss byte, the last the mean jitter. Bytes
-- that are not written are 0.
unfoldable pub receiver_report : ℕ → ℕ → ℕ → List ℕ
receiver_report loss dropped jitter_val =
    0x81
    ∷ 201
    ∷ 0x00
    ∷ 0x07
    ∷ 0x00
    ∷ 0x00
    ∷ 0x27
    ∷ 0x12
    ∷ 0x00
    ∷ 0x00
    ∷ 0x00
    ∷ 0x02
    ∷ loss
    ∷ byte_at 16 dropped
    ∷ byte_at 8 dropped
    ∷ byte_at 0 dropped
    ∷ 0
    ∷ 0
    ∷ 0
    ∷ 0
    ∷ byte_at 24 jitter_val
    ∷ byte_at 16 jitter_val
    ∷ byte_at 8 jitter_val
    ∷ byte_at 0 jitter_val
    ∷ 0
    ∷ 0
    ∷ 0
    ∷ 0
    ∷ 0
    ∷ 0
    ∷ 0
    ∷ 0
    ∷ []
