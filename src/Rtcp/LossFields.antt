-- ===== src/Rtcp/LossFields.antt =====
-- The loop over the loss fields, on the fields that the test receiver writes.
use native.Mathlib.Nat.{zero-div}
use cast_mirror.Prelude.{
  ℕ, zero, suc, ◌+◌, ◌*◌, ◌/◌, ◌%◌, ◌^◌, ◌≤◌, ◌<◌, true, false, leb, ◌==◌, ◌≡◌, refl, sym, ap, ◌∙◌,
  List, [], ◌∷◌, ◌++◌, map, All, some, length, length-append, append_assoc, arith,
}
use cast_mirror.Prelude.Bytes.{byte_at, of_be16-be16}
use cast_mirror.Prelude.Reads.{read8, read16}
use cast_mirror.Rtcp.Blocks.{read8-at}
use cast_mirror.Rtcp.{PacketNack, expand_frame_id, loss_field, loss_loop, bit_nacks}
use cast_mirror.Rtcp.Receiver.{nack_fields}

abbrev pub nack : ℕ → ℕ → PacketNack
nack frame_id pid = record { frame_id = frame_id; packet_id = pid }

bit_nacks_none : (bytes : List ℕ) (fid pid b n : ℕ) → bit_nacks bytes fid pid 0 b n ≡ []
unfolding bit_nacks
bit_nacks_none bytes fid pid b zero = refl
bit_nacks_none bytes fid pid b (suc n) =
    let e : (0 / 2 ^ b % 2 == 1) ≡ false = rw zero-div in
    rw e (bit_nacks_none bytes fid pid (b + 1) n)

-- The parser reads back one loss field of the receiver, wherever it stands.
loss_field-nack_fields :
    (pre rest : List ℕ) (reference frame_id pid at : ℕ)
    → at ≡ length pre
    → pid < 65536
    → expand_frame_id (byte_at 0 frame_id) reference ≡ frame_id
    → loss_field
        (pre ++ byte_at 0 frame_id ∷ byte_at 8 pid ∷ byte_at 0 pid ∷ 0x00 ∷ rest)
        reference
        at
      ≡ some (nack frame_id pid ∷ [])
unfolding loss_field read16
loss_field-nack_fields pre rest reference frame_id pid at e lt ex =
    let field = byte_at 0 frame_id ∷ byte_at 8 pid ∷ byte_at 0 pid ∷ 0x00 ∷ rest in
    rw
      (
        read8-at pre field 0 at (omega arith),
        read8-at pre field 1 (at + 1) (omega arith),
        read8-at pre field 2 (at + 1 + 1) (omega arith),
        read8-at pre field 3 (at + 3) (omega arith),
      )
      (unfold read8 in rw (ex, of_be16-be16 pid lt, bit_nacks_none (pre ++ field) frame_id pid 0 8))

pub length-nack_fields :
    (frame_id : ℕ) (packets : List ℕ) → length (nack_fields frame_id packets) ≡ length packets * 4
unfolding nack_fields
length-nack_fields frame_id [] = refl
length-nack_fields frame_id (pid ∷ packets) = omega (arith, length-nack_fields frame_id packets)

pub loss_loop-nack_fields :
    (packets pre bytes : List ℕ) (reference frame_id block_len : ℕ)
    → bytes ≡ pre ++ nack_fields frame_id packets
    → All (λ pid. pid < 65536) packets
    → expand_frame_id (byte_at 0 frame_id) reference ≡ frame_id
    → length pre + length packets * 4 ≤ block_len
    → loss_loop bytes reference 0 block_len (length packets) (length pre)
      ≡ some (length pre + length packets * 4, map (nack frame_id) packets)
unfolding loss_loop nack_fields
loss_loop-nack_fields [] pre bytes reference frame_id block_len eb small ex fits =
    ap (λ (n : ℕ). some (n, [])) (omega arith)
loss_loop-nack_fields (pid ∷ packets) pre bytes reference frame_id block_len eb small ex fits =
    let field = byte_at 0 frame_id ∷ byte_at 8 pid ∷ byte_at 0 pid ∷ 0x00 ∷ [] in
    let pre' = pre ++ field in
    let len : length pre' ≡ length pre + 4 = omega (arith, length-append pre field) in
    let first : loss_field bytes reference (length pre) ≡ some (nack frame_id pid ∷ []) = rw eb (
      loss_field-nack_fields pre (nack_fields frame_id packets) reference frame_id pid (length pre)
        refl small.0 ex) in
    let rest =
      loss_loop-nack_fields packets pre' bytes reference frame_id block_len
        (eb ∙ sym (append_assoc pre field (nack_fields frame_id packets))) small.1 ex
        (omega arith) in
    let fits' : leb (length pre + 4) block_len ≡ true = ground arith in
    let start : 0 + length pre ≡ length pre = omega arith in
    rw (fits', start, first, (rw len at rest))
      (ap (λ (n : ℕ). some (n, map (nack frame_id) (pid ∷ packets))) (omega arith))
