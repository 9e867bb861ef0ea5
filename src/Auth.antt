-- ===== src/Auth.antt =====
-- core/src/cast_channel.cc (`AuthenticateDevice`, `HandleDeviceAuthResponse`) and core/src/device_auth.cc
-- (`VerifyAuthResponse`, `VerifyDerCertificateChain`): the proof that a receiver holds a certificate of the Cast roots.
-- OpenSSL and the parser of protobuf messages are parameters; the texts of errors, which only the log shows, are left
-- out. Bytes are lists of numbers.
pub mod Challenge
mod Tests
use cast_mirror.Prelude.{
  ℕ, Bool, true, false, ◌&&◌, ◌||◌, not, ◌==◌, if◌then◌else◌, List, [], ◌∷◌, ◌++◌, Option, none,
  some, length,
}
use cast_mirror.Devices.{same_text, is_empty}

-- Messages of core/src/proto/cast_channel.proto, with what the code reads of them.
pub record AuthResponse : Type 0 where
  pub signature : List ℕ
  pub client_auth_certificate : List ℕ
  pub intermediate_certificate : List (List ℕ)
  pub sender_nonce : Option (List ℕ)

pub record DeviceAuthMessage : Type 0 where
  pub has_error : Bool
  pub response : Option AuthResponse

-- What the code calls of OpenSSL, over its certificates and public keys: `d2i_X509`, `X509_verify_cert` of a
-- certificate with untrusted ones against the store of Cast roots, `X509_get_pubkey`, and whether the three
-- `EVP_DigestVerify` calls of a digest succeed for a key, a signature and the data.
pub record OpenSsl (X K : Type 0) : Type 0 where
  pub d2i_x509 : List ℕ → Option X
  pub verify_cert : X → List X → Bool
  pub get_pubkey : X → Option K
  pub verify_sha256 : K → List ℕ → List ℕ → Bool
  pub verify_sha1 : K → List ℕ → List ℕ → Bool

module _ {X K : Type 0} (ssl : OpenSsl X K) where
  -- The intermediates that can be read.
  unfoldable pub untrusted : List (List ℕ) → List X
  untrusted [] = []
  untrusted (inter ∷ inters) =
      if is_empty inter then untrusted inters else elim (ssl.d2i_x509 inter) [
        | some icert ↦ icert ∷ untrusted inters
        | none ↦ untrusted inters
      ]

  unfoldable pub verify_der_certificate_chain : List ℕ → List (List ℕ) → Bool
  verify_der_certificate_chain leaf_der intermediates_der =
      if is_empty leaf_der then false else elim (ssl.d2i_x509 leaf_der) [
        | some leaf ↦ ssl.verify_cert leaf (untrusted intermediates_der)
        | none ↦ false
      ]

  -- SHA-256, then SHA-1.
  abbrev pub signature_ok : Option K → List ℕ → List ℕ → Bool
  signature_ok none signature signature_input = false
  signature_ok (some pubkey) signature signature_input =
      ssl.verify_sha256 pubkey signature signature_input
      || ssl.verify_sha1 pubkey signature signature_input

  abbrev pub leaf_key : List ℕ → Option K
  leaf_key leaf_der = elim (ssl.d2i_x509 leaf_der) [ some leaf ↦ ssl.get_pubkey leaf | none ↦ none ]

  unfoldable pub verify_auth_response : List ℕ → List (List ℕ) → List ℕ → List ℕ → Bool
  verify_auth_response leaf_der intermediates_der signature signature_input =
      if not (verify_der_certificate_chain leaf_der intermediates_der)
      then false
      else if is_empty signature
      then false
      else signature_ok (leaf_key leaf_der) signature signature_input

pub record AuthState : Type 0 where
  pub auth_done : Bool
  pub auth_verified : Bool
  pub auth_nonce : List ℕ

-- The nonce that was signed: that of the challenge, or the echo, which must be equal where a challenge was sent.
unfoldable pub nonce_response : List ℕ → Option (List ℕ) → Option (List ℕ)
nonce_response auth_nonce none = some auth_nonce
nonce_response auth_nonce (some echoed) =
    if not (is_empty auth_nonce) && not (length echoed == length auth_nonce)
    then none
    else if not (is_empty auth_nonce) && not (same_text echoed auth_nonce)
    then none
    else some echoed

module _ {X K : Type 0} (ssl : OpenSsl X K) (parse : List ℕ → Option DeviceAuthMessage)
    (peer_cert : List ℕ) where
  -- Whether a payload verifies the receiver.
  unfoldable pub response_verified : List ℕ → AuthResponse → Bool
  response_verified auth_nonce r = elim (nonce_response auth_nonce r.sender_nonce) [
    | none ↦ false
    | some nonce ↦
        verify_auth_response ssl r.client_auth_certificate r.intermediate_certificate r.signature
          (nonce ++ peer_cert)
  ]

  abbrev pub message_verified : List ℕ → Option DeviceAuthMessage → Bool
  message_verified auth_nonce none = false
  message_verified auth_nonce (some msg) =
      if msg.has_error
      then false
      else elim msg.response [ some r ↦ response_verified auth_nonce r | none ↦ false ]

  unfoldable pub handle_device_auth_response : AuthState → List ℕ → AuthState
  handle_device_auth_response s payload_binary = record s {
    auth_done = true;
    auth_verified = message_verified s.auth_nonce (parse payload_binary);
  }

  -- The responses that are handled while `AuthenticateDevice` waits.
  unfoldable pub handle_all : AuthState → List (List ℕ) → AuthState
  handle_all s [] = s
  handle_all s (p ∷ payloads) = handle_all (handle_device_auth_response s p) payloads

  -- `AuthenticateDevice` on a connected channel, with the nonce that `GenerateNonce` gives, whether the challenge is
  -- serialized and sent, and the responses that arrive until the wait ends.
  unfoldable pub authenticate_device :
      AuthState → Bool → Bool → List ℕ → Bool → Bool → List (List ℕ) → Bool × AuthState
  authenticate_device s is_connected verify_device_cert nonce serialized sent payloads =
      let challenged = record s { auth_done = false; auth_verified = false; auth_nonce = nonce } in
      let woken = handle_all challenged payloads in
      if not is_connected
      then (false, s)
      else if not verify_device_cert
      then (true, s)
      else if not (length nonce == 32)
      then (false, s)
      else if not serialized
      then (false, s)
      else if not sent
      then (false, challenged)
      else (woken.auth_done && woken.auth_verified, woken)
