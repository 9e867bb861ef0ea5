-- ===== src/Crypto/Nonces.antt =====
-- The nonces of frames under one mask.
use cast_mirror.Prelude.{ℕ, ◌^◌, ◌<◌, ◌≡◌, ◌≢◌, refl, sym, ap, ap₂, ◌∙◌, List, [], ◌∷◌, get_or}
use cast_mirror.Prelude.Bytes.{of_be32, of_be32-be32}
use cast_mirror.Prelude.Xor.{bit_xor_twice}
use cast_mirror.Crypto.{FrameCrypto, xor_bytes, counter_block, nonce}

xor_bytes_twice : (bytes mask : List ℕ) → xor_bytes (xor_bytes bytes mask) mask ≡ bytes
unfolding xor_bytes
xor_bytes_twice [] mask = refl
xor_bytes_twice (b ∷ bytes) [] = refl
xor_bytes_twice (b ∷ bytes) (m ∷ mask) = ap₂ ◌∷◌ (bit_xor_twice b m) (xor_bytes_twice bytes mask)

frame_id_of : List ℕ → ℕ
frame_id_of block =
    of_be32 (get_or block 8 0) (get_or block 9 0) (get_or block 10 0) (get_or block 11 0)

frame_id_of-counter_block : (id : ℕ) → id < 2 ^ 32 → frame_id_of (counter_block id) ≡ id
unfolding frame_id_of
frame_id_of-counter_block id small = of_be32-be32 id small

nonce_injective :
    (c : FrameCrypto) (id id' : ℕ)
    → id < 2 ^ 32
    → id' < 2 ^ 32
    → nonce c id ≡ nonce c id'
    → id ≡ id'
unfolding nonce
nonce_injective c id id' small small' e =
    let blocks : counter_block id ≡ counter_block id' =
      sym (xor_bytes_twice (counter_block id) c.cast_iv_mask)
      ∙ ap (λ n. xor_bytes n c.cast_iv_mask) e
      ∙ xor_bytes_twice (counter_block id') c.cast_iv_mask in
    sym (frame_id_of-counter_block id small)
    ∙ ap frame_id_of blocks
    ∙ frame_id_of-counter_block id' small'

-- Under one mask, two different frame ids below 2 ^ 32 have different nonces.
pub nonce_distinct :
    (c : FrameCrypto) (id id' : ℕ)
    → id < 2 ^ 32
    → id' < 2 ^ 32
    → id ≢ id'
    → nonce c id ≢ nonce c id'
nonce_distinct c id id' small small' ne e = ne (nonce_injective c id id' small small' e)
