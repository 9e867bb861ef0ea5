-- ===== src/Channel/Tests.antt =====
-- Messages in one payload byte, a packet that arrives in pieces, and the theorem at a concrete input.
use cast_mirror.Prelude.{ℕ, ◌≡◌, refl, true, false, List, [], ◌∷◌, ◌++◌, none, some, arith}
use cast_mirror.Prelude.Int.{pos}
use cast_mirror.Capability.{codes}
use cast_mirror.Channel.{
  CastMessage, Calls, CastChannel, SslRead, bytes, transient, broken, read_exact, packet,
  send_cast_message, receive_loop, notify_disconnected,
}
use cast_mirror.Channel.Framing.{Stream, Fed, deliveries, messages_delivered}

abbrev message : List ℕ → CastMessage
message payload = record {
  source_id = codes "tv";
  destination_id = codes "pc";
  namespace = codes "urn:x";
  is_binary = false;
  payload_utf8 = some payload;
  payload_binary = none;
}

abbrev calls : Calls
calls = record {
  serialize = λ m. m.payload_utf8;
  parse = λ body. some (message body);
  json_type = λ text. none;
  ssl_write = λ p. true;
  on_auth = λ s p. s;
}

abbrev channel : CastChannel
channel = record {
  is_connected = true;
  should_stop = false;
  disconnect_notified = false;
  last_pong_ms = pos 0;
  auth = record { auth_done = false; auth_verified = false; auth_nonce = [] };
  sent = [];
  delivered = [];
  status_calls = [];
}

sent_packet :
    (send_cast_message calls channel (codes "urn:x") (7 ∷ []) [] []).1.sent
    ≡ (0 ∷ 0 ∷ 0 ∷ 1 ∷ 7 ∷ []) ∷ []
unfolding send_cast_message packet
sent_packet = refl

-- A length beyond a mebibyte, and one of zero, end the connection.
too_long :
    (receive_loop calls (λ n. pos 0) 3 channel (bytes (0 ∷ 16 ∷ 0 ∷ 1 ∷ []) ∷ [])).status_calls
    ≡ codes "Invalid message size from receiver" ∷ []
unfolding receive_loop read_exact notify_disconnected
too_long = refl

abbrev told : CastChannel
told = record channel { disconnect_notified = true }

-- A broken connection is told once.
told_once : (receive_loop calls (λ n. pos 0) 3 told (broken ∷ [])).status_calls ≡ []
unfolding receive_loop read_exact notify_disconnected
told_once = refl

abbrev rest_of_it : List SslRead
rest_of_it = bytes (7 ∷ []) ∷ transient ∷ bytes (8 ∷ 9 ∷ []) ∷ []

abbrev pieces : List SslRead
pieces = transient ∷ bytes (0 ∷ 0 ∷ []) ∷ bytes (0 ∷ 3 ∷ []) ∷ rest_of_it

one : Stream calls (message (7 ∷ 8 ∷ 9 ∷ []) ∷ []) pieces
one =
    Stream.next (message (7 ∷ 8 ∷ 9 ∷ [])) [] (7 ∷ 8 ∷ 9 ∷ []) pieces rest_of_it [] refl
      (omega arith) (omega arith)
      (Fed.again 3 _ _ _ (
        Fed.more 2 (0 ∷ 0 ∷ []) (0 ∷ 3 ∷ []) _ _ (omega arith)
          (Fed.more 0 (0 ∷ 3 ∷ []) [] _ _ (omega arith) (Fed.done rest_of_it))))
      (Fed.more 2 (7 ∷ []) (8 ∷ 9 ∷ []) _ _ (omega arith)
        (Fed.again 1 _ _ _ (Fed.more 0 (8 ∷ 9 ∷ []) [] _ _ (omega arith) (Fed.done []))))
      Stream.over

messages_delivered_example :
    ((receive_loop calls (λ n. pos 0) 5 channel pieces).delivered
      ≡ [] ++ deliveries (message (7 ∷ 8 ∷ 9 ∷ []) ∷ []))
    × ((receive_loop calls (λ n. pos 0) 5 channel pieces).is_connected ≡ true)
messages_delivered_example =
    messages_delivered calls (λ n. pos 0) 5 channel (message (7 ∷ 8 ∷ 9 ∷ []) ∷ []) pieces refl refl
      (omega arith) one
