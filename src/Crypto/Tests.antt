-- ===== src/Crypto/Tests.antt =====
-- A key stream that depends on the nonce, and the theorems at concrete inputs.
use cast_mirror.Prelude.{ℕ, ◌+◌, ◌≡◌, refl, List, [], ◌∷◌, ◌++◌, replicate, get_or, true}
use cast_mirror.Crypto.{FrameCrypto, nonce, xor_bytes, xor_stream, crypt, encrypt}

abbrev keys : FrameCrypto
keys = record { aes_key = replicate 16 7; cast_iv_mask = replicate 16 255 }

abbrev stream : List ℕ → List ℕ → ℕ → ℕ
stream key iv i = get_or iv 11 0 + i

masked : nonce keys 258 ≡ replicate 8 255 ++ 255 ∷ 255 ∷ 254 ∷ 253 ∷ replicate 4 255
unfolding nonce xor_bytes
masked = refl

encrypted : encrypt stream true keys 258 (1 ∷ 2 ∷ []) ≡ 252 ∷ 252 ∷ []
unfolding encrypt crypt nonce xor_bytes xor_stream
encrypted = refl
