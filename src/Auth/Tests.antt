-- ===== src/Auth/Tests.antt =====
-- A certificate whose key signs by copying, and the theorem at a concrete input.
use cast_mirror.Prelude.{
  ℕ, zero, suc, if◌then◌else◌, Bool, true, false, ◌≡◌, refl, List, [], ◌∷◌, ◌++◌, Option, none,
  some, replicate,
}
use cast_mirror.Devices.{same_text}
use cast_mirror.Auth.{
  OpenSsl, DeviceAuthMessage, AuthState, authenticate_device, handle_all,
  handle_device_auth_response, response_verified, nonce_response, verify_auth_response,
  verify_der_certificate_chain, untrusted,
}

abbrev issued : List ℕ → List (List ℕ) → Bool
issued (suc zero ∷ cert) chain = true
issued _ chain = false

abbrev toy : OpenSsl (List ℕ) ℕ
toy = record {
  d2i_x509 = λ der. some der;
  verify_cert = issued;
  get_pubkey = λ cert. some 5;
  verify_sha256 = λ key signature input. false;
  verify_sha1 = λ key signature input. same_text signature (key ∷ input);
}

abbrev fresh : List ℕ
fresh = replicate 32 9

abbrev peer : List ℕ
peer = 3 ∷ 4 ∷ []

abbrev answer : DeviceAuthMessage
answer = record {
  has_error = false;
  response = some (record {
    signature = 5 ∷ fresh ++ peer;
    client_auth_certificate = 1 ∷ 2 ∷ [];
    intermediate_certificate = [] ∷ [];
    sender_nonce = some fresh;
  });
}

-- The payload 7 is the answer; 8 cannot be read.
unfoldable parse : List ℕ → Option DeviceAuthMessage
parse p = if same_text p (7 ∷ []) then some answer else none

abbrev idle_state : AuthState
idle_state = record { auth_done = false; auth_verified = false; auth_nonce = [] }

abbrev payloads : List (List ℕ)
payloads = (8 ∷ []) ∷ (7 ∷ []) ∷ []

-- Signed for another connection.
refused :
    (authenticate_device toy parse (3 ∷ []) idle_state true true fresh true true payloads).0 ≡ false
unfolding authenticate_device parse handle_all handle_device_auth_response response_verified
    nonce_response verify_auth_response verify_der_certificate_chain untrusted same_text
refused = refl
