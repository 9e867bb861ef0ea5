-- ===== src/Crypto.antt =====
-- core/src/frame_crypto.cc and core/include/castcore/frame_crypto.h: frames are encrypted with
-- AES-128 in counter mode. OpenSSL is a parameter: `stream` gives the bytes of the key stream of a
-- key and a nonce, which the mode adds to the data by exclusive or, and a flag says whether the
-- context was allocated. Arrays are lists of bytes; data is shorter than 2 ^ 31 bytes.
pub mod Nonces
mod Tests
use cast_mirror.Prelude.{
  ℕ, suc, ◌+◌, ◌<◌, Bool, true, false, if◌then◌else◌, ◌≡◌, refl, ap, ap₂, List, [], ◌∷◌, ◌++◌,
  bit_xor, length, replicate, length-replicate,
}
use cast_mirror.Prelude.Bytes.{be32}
use cast_mirror.Prelude.Xor.{bit_xor_twice}

pub record FrameCrypto : Type 0 where
  pub aes_key : List ℕ
  pub cast_iv_mask : List ℕ

-- The loop over the sixteen bytes; the two arrays have the same length.
unfoldable pub xor_bytes : List ℕ → List ℕ → List ℕ
xor_bytes [] mask = []
xor_bytes (b ∷ bytes) [] = b ∷ bytes
xor_bytes (b ∷ bytes) (m ∷ mask) = bit_xor b m ∷ xor_bytes bytes mask

-- The frame id at offset 8.
abbrev pub counter_block : ℕ → List ℕ
counter_block frame_id = replicate 8 0 ++ (be32 frame_id ++ replicate 4 0)

unfoldable pub nonce : FrameCrypto → ℕ → List ℕ
nonce c frame_id = xor_bytes (counter_block frame_id) c.cast_iv_mask

-- Counter mode from the byte `i` of the key stream on.
unfoldable pub xor_stream : (ℕ → ℕ) → ℕ → List ℕ → List ℕ
xor_stream stream i [] = []
xor_stream stream i (b ∷ bytes) = bit_xor b (stream i) ∷ xor_stream stream (suc i) bytes

module _ (stream : List ℕ → List ℕ → ℕ → ℕ) where
  -- `Crypt` into a buffer that the callers have zeroed.
  unfoldable pub crypt : Bool → FrameCrypto → ℕ → List ℕ → List ℕ
  crypt allocated c frame_id bytes =
      if allocated
      then xor_stream (stream c.aes_key (nonce c frame_id)) 0 bytes
      else replicate (length bytes) 0

  unfoldable pub encrypt : Bool → FrameCrypto → ℕ → List ℕ → List ℕ
  unfolding crypt
  encrypt = crypt

  unfoldable pub decrypt : Bool → FrameCrypto → ℕ → List ℕ → List ℕ
  unfolding crypt
  decrypt = crypt

  pub xor_stream_twice :
      (s : ℕ → ℕ) (i : ℕ) (bytes : List ℕ) → xor_stream s i (xor_stream s i bytes) ≡ bytes
  unfolding xor_stream
  xor_stream_twice s i [] = refl
  xor_stream_twice s i (b ∷ bytes) =
      ap₂ ◌∷◌ (bit_xor_twice b (s i)) (xor_stream_twice s (suc i) bytes)

  -- Whatever the key stream, decryption with the same keys and frame id gives the data back.
  pub decrypt-encrypt :
      (c : FrameCrypto) (frame_id : ℕ) (bytes : List ℕ)
      → decrypt true c frame_id (encrypt true c frame_id bytes) ≡ bytes
  unfolding decrypt encrypt crypt
  decrypt-encrypt c frame_id bytes = xor_stream_twice (stream c.aes_key (nonce c frame_id)) 0 bytes

  pub length-xor_stream :
      (s : ℕ → ℕ) (i : ℕ) (bytes : List ℕ) → length (xor_stream s i bytes) ≡ length bytes
  unfolding xor_stream
  length-xor_stream s i [] = refl
  length-xor_stream s i (b ∷ bytes) = ap suc (length-xor_stream s (suc i) bytes)

  pub length-encrypt :
      (allocated : Bool) (c : FrameCrypto) (frame_id : ℕ) (bytes : List ℕ)
      → length (encrypt allocated c frame_id bytes) ≡ length bytes
  unfolding encrypt crypt
  length-encrypt true c frame_id bytes =
      length-xor_stream (stream c.aes_key (nonce c frame_id)) 0 bytes
  length-encrypt false c frame_id bytes = length-replicate (length bytes) 0
