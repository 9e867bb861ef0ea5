-- ===== src/Auth/Challenge.antt =====
-- Only the holder of the key gets through.
use cast_mirror.Prelude.{ℕ, true, false, ◌⊎◌, ◌≡◌, List, ◌++◌, Option, some}
use cast_mirror.Auth.{untrusted, OpenSsl, AuthResponse, DeviceAuthMessage}

module _ {X K : Type 0} (ssl : OpenSsl X K) (parse : List ℕ → Option DeviceAuthMessage)
    (peer_cert : List ℕ) where
  -- A certificate that is read, chains to the roots over the intermediates that are read, and has a key, by which
  -- SHA-256 or SHA-1 of the data has this signature.
  abbrev pub IsSigned : List ℕ → List (List ℕ) → List ℕ → List ℕ → Type 0
  IsSigned leaf_der intermediates_der signature signature_input =
      (leaf : X) × (key : K) × (ssl.d2i_x509 leaf_der ≡ some leaf)
      × (ssl.verify_cert leaf (untrusted ssl intermediates_der) ≡ true)
      × (ssl.get_pubkey leaf ≡ some key)
      × ((ssl.verify_sha256 key signature signature_input ≡ true)
          ⊎ (ssl.verify_sha1 key signature signature_input ≡ true))

  -- A payload that is a response whose certificate chains to a root and whose key signed the nonce, with the
  -- certificate of the connection behind it.
  abbrev pub IsProof : List ℕ → List ℕ → Type 0
  IsProof nonce payload =
      (m : DeviceAuthMessage) × (r : AuthResponse) × (parse payload ≡ some m)
      × (m.has_error ≡ false)
      × (m.response ≡ some r)
      × IsSigned r.client_auth_certificate r.intermediate_certificate r.signature
          (nonce ++ peer_cert)
