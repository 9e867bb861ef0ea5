-- ===== src/Client/Buffers.antt =====
-- Documents in a client's buffers.
use cast_mirror.Prelude.{
  ℕ, zero, suc, ◌≤◌, ◌≡◌, refl, sym, ap, ◌∙◌, List, [], ◌∷◌, ◌++◌, length, length-append,
  length-take, take, min, arith, Option, none, some,
}
use cast_mirror.Config.{Json}
use cast_mirror.Config.Files.{JsonText, Outcomes}
use cast_mirror.Engine.{Discovery}
use cast_mirror.Client.{
  Client, out_of, write_json_out, json_out_size_hint, cached_or_built, cached_config_json,
  castmirror_get_config_json, castmirror_set_bitrate, castmirror_set_audio_bitrate,
}

take_all : {A : Type 0} (n : ℕ) (xs : List A) → length xs ≤ n → take n xs ≡ xs
take_all zero [] h = refl
take_all zero (x ∷ xs) h = absurd (omega arith)
take_all (suc n) [] h = refl
take_all (suc n) (x ∷ xs) h = ap (λ r. x ∷ r) (take_all n xs (omega arith))

-- A buffer takes no more than its length.
pub length-write_json_out :
    (json : List ℕ) (buf_len : ℕ) → length (write_json_out json buf_len).0 ≤ buf_len
unfolding write_json_out
length-write_json_out json zero = omega arith
length-write_json_out json (suc room) = omega (
  arith,
  length-append (take (min (length json) room) json) (0 ∷ []),
  length-take (min (length json) room) json,
)

out_of_large :
    (bytes : List ℕ) (n : ℕ)
    → json_out_size_hint (suc (length bytes)) ≤ n
    → out_of bytes n ≡ (bytes ++ 0 ∷ [], length bytes)
unfolding json_out_size_hint write_json_out
out_of_large bytes zero h = absurd (ground arith)
out_of_large bytes (suc room) h =
    let fits : min (length bytes) room ≡ length bytes = ground arith in
    ap (λ len. (take len bytes ++ 0 ∷ [], len)) fits
    ∙ ap (λ b. (b ++ 0 ∷ [], length bytes)) (take_all (length bytes) bytes (omega arith))

module _ (d : Discovery) (json : JsonText) (dump : Json → List ℕ)
    (parse : List ℕ → Option Json) where
  -- The calls that change the settings but merge no document.
  pub data Write : Type 0 where
    bitrate audio_bitrate : Outcomes json.Text → ℕ → Write

  unfoldable pub writes : Client d json dump parse → List Write → Client d json dump parse
  writes c [] = c
  writes c (bitrate o kbps ∷ ws) = writes (castmirror_set_bitrate d json dump parse o kbps c) ws
  writes c (audio_bitrate o bps ∷ ws) =
      writes (castmirror_set_audio_bitrate d json dump parse o bps c) ws

  cache-writes : (ws : List Write) (c : Client d json dump parse) → (writes c ws).cache ≡ c.cache
  unfolding writes castmirror_set_bitrate castmirror_set_audio_bitrate
  cache-writes [] c = refl
  cache-writes (bitrate o kbps ∷ ws) c = cache-writes ws _
  cache-writes (audio_bitrate o bps ∷ ws) c = cache-writes ws _

  cache-cached_or_built :
      (o : Option (List ℕ)) (c : Client d json dump parse)
      → o ≡ c.cache
      → (cached_or_built d json dump parse o c).1.cache
        ≡ some (cached_or_built d json dump parse o c).0
  unfolding cached_or_built
  cache-cached_or_built none c e = refl
  cache-cached_or_built (some bytes) c e = sym e

  abbrev pub get : ℕ → Client d json dump parse → (List ℕ × ℕ) × Client d json dump parse
  get = castmirror_get_config_json d json dump parse

  abbrev pub document : Client d json dump parse → List ℕ
  document c = (cached_config_json d json dump parse c).0

  -- After a query of the size and whatever changes of the bitrates, a call with a buffer of at least that size writes the whole
  -- document with its terminator and returns its length; it is the document of the query, without the changes.
  pub get_after_query :
      (c : Client d json dump parse) (ws : List Write) (n : ℕ)
      → (get 0 c).0.1 ≤ n
      → (get n (writes (get 0 c).1 ws)).0 ≡ (document c ++ 0 ∷ [], length (document c))
  unfolding castmirror_get_config_json cached_or_built
  get_after_query c ws n h =
      let queried = (cached_config_json d json dump parse c).1 in
      let cached : (writes queried ws).cache ≡ some (document c) =
        cache-writes ws queried ∙ cache-cached_or_built c.cache c refl in
      ap (λ o. out_of (cached_or_built d json dump parse o (writes queried ws)).0 n) cached
      ∙ out_of_large (document c) n h
