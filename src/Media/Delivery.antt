-- ===== src/Media/Delivery.antt =====
-- From the encoder to the receiver: what comes out of the packets and the cipher is what went in.
use cast_mirror.Prelude.{
  ℕ, ◌+◌, ◌-◌, ◌*◌, ◌≤◌, true, false, ◌≡◌, refl, ap, ◌∙◌, List, some, length, arith,
}
use cast_mirror.Prelude.Int.{ℤ}
use cast_mirror.Rtp.{EncodedFrame, RtpPacket, RtpPacketizer, packetize_frame}
use cast_mirror.Rtp.Reassembly.{received, packetize_frame-received}
use cast_mirror.Crypto.{FrameCrypto, encrypt, decrypt, decrypt-encrypt, length-encrypt}
use cast_mirror.Media.{VideoPath, packets, protect, stamp_delay, send_encoded, process_video_frame}

module _ (stream : List ℕ → List ℕ → ℕ → ℕ) where
  protected_payload :
      (crypto : FrameCrypto) (delay : ℤ) (raw : EncodedFrame)
      → (protect stream crypto delay raw).payload
        ≡ encrypt stream true crypto raw.frame_id raw.payload
  unfolding protect stamp_delay
  protected_payload crypto delay raw = refl

  accepted :
      (v : VideoPath) (crypto : FrameCrypto) (raw : EncodedFrame)
      → v.is_streaming ≡ true
      → v.is_frozen ≡ false
      → v.crypto ≡ some crypto
      → process_video_frame stream v false (some raw) ≡ send_encoded stream v crypto raw
  unfolding process_video_frame
  accepted v crypto raw live thawed key = ground arith

  sent :
      (v : VideoPath) (crypto : FrameCrypto) (raw : EncodedFrame)
      (r : List RtpPacket × RtpPacketizer)
      → packetize_frame 65536 v.packetizer (protect stream crypto v.playout_delay_ms raw) ≡ some r
      → send_encoded stream v crypto raw ≡ packets r.0 r.1
  unfolding send_encoded
  sent v crypto raw r e = rw (send_encoded, e) refl

  -- A frame that the encoder makes of a picture reaches the receiver: where the session streams with
  -- a key, is not frozen and has not lost its source, and the frame fits 65535 packets, its packets go to
  -- the transport, and their payloads, joined in order and decrypted under the frame's id, are what
  -- the encoder made.
  pub video_frame_delivered :
      (v : VideoPath) (crypto : FrameCrypto) (raw : EncodedFrame)
      → v.is_streaming ≡ true
      → v.is_frozen ≡ false
      → v.crypto ≡ some crypto
      → 23 ≤ v.packetizer.max_packet_size
      → length raw.payload + 4 ≤ 65535 * (v.packetizer.max_packet_size - 19)
      → (ks : List RtpPacket) × (p : RtpPacketizer) × (process_video_frame stream v false (some raw)
          ≡ packets ks p)
        × (decrypt stream true crypto raw.frame_id (received ks) ≡ raw.payload)
  video_frame_delivered v crypto raw live thawed key room small =
      let f = protect stream crypto v.playout_delay_ms raw in
      let same = protected_payload crypto v.playout_delay_ms raw in
      let len : length f.payload ≡ length raw.payload =
        ap length same ∙ length-encrypt stream true crypto raw.frame_id raw.payload in
      let (r, e, whole) = packetize_frame-received v.packetizer f room (omega (arith, len)) in
      (
        r.0,
        r.1,
        accepted v crypto raw live thawed key ∙ sent v crypto raw r e,
        ap (decrypt stream true crypto raw.frame_id) (whole ∙ same)
            ∙ decrypt-encrypt stream crypto raw.frame_id raw.payload,
      )
