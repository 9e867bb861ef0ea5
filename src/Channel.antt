-- ===== src/Channel.antt =====
-- core/src/cast_channel.cc and core/include/castcore/cast_channel.h (the framing of `SendCastMessage` and
-- `SendCastMessageBinary`, `ReceiveLoop`, `HeartbeatTimedOut`, `NotifyDisconnected`): messages over a TLS connection.
-- A call of `SSL_read` is its result; protobuf, JSON and `SSL_write` are a parameter. Bytes are lists of numbers.
pub mod Framing
mod Tests
use cast_mirror.Prelude.{
  ℕ, zero, suc, ◌+◌, ◌*◌, ◌%◌, ◌^◌, Bool, true, false, ◌&&◌, ◌||◌, not, ltb, ◌==◌, if◌then◌else◌,
  List, [], ◌∷◌, ◌++◌, Option, none, some, length, get_or,
}
use cast_mirror.Prelude.Int.{ℤ, pos, ◌-ℤ◌, ltb_ℤ}
use cast_mirror.Prelude.Bytes.{be32, of_be32}
use cast_mirror.Capability.{codes}
use cast_mirror.Devices.{same_text}
use cast_mirror.Auth.{AuthState, OpenSsl, DeviceAuthMessage, handle_device_auth_response}

-- `CastMessage` of core/src/proto/cast_channel.proto.
pub record CastMessage : Type 0 where
  pub source_id : List ℕ
  pub destination_id : List ℕ
  pub namespace : List ℕ
  pub is_binary : Bool
  pub payload_utf8 : Option (List ℕ)
  pub payload_binary : Option (List ℕ)

-- What the code calls: `SerializeToString`, `ParseFromArray`, the "type" of a JSON text that has one, whether
-- `SSL_write` takes a packet, and the authentication with its parameters.
pub record Calls : Type 0 where
  pub serialize : CastMessage → Option (List ℕ)
  pub parse : List ℕ → Option CastMessage
  pub json_type : List ℕ → Option (List ℕ)
  pub ssl_write : List ℕ → Bool
  pub on_auth : AuthState → List ℕ → AuthState

-- A call of the message callback.
pub record Delivery : Type 0 where
  pub namespace : List ℕ
  pub payload : List ℕ
  pub source_id : List ℕ
  pub destination_id : List ℕ

-- The state, with the packets sent, the deliveries and the reasons of the status callback, in order. Both callbacks are
-- set.
pub record CastChannel : Type 0 where
  pub is_connected : Bool
  pub should_stop : Bool
  pub disconnect_notified : Bool
  pub last_pong_ms : ℤ
  pub auth : AuthState
  pub sent : List (List ℕ)
  pub delivered : List Delivery
  pub status_calls : List (List ℕ)

abbrev pub heartbeat_namespace : List ℕ
heartbeat_namespace = codes "urn:x-cast:com.google.cast.tp.heartbeat"

abbrev pub auth_namespace : List ℕ
auth_namespace = codes "urn:x-cast:com.google.cast.tp.deviceauth"

-- A length of 32 bits, most significant byte first, and the bytes.
unfoldable pub packet : List ℕ → List ℕ
packet serialized = be32 (length serialized % 2 ^ 32) ++ serialized

unfoldable pub notify_disconnected : CastChannel → List ℕ → CastChannel
notify_disconnected c reason =
    if c.disconnect_notified
    then c
    else record c { disconnect_notified = true; status_calls = c.status_calls ++ reason ∷ [] }

abbrev pub lose : CastChannel → List ℕ → CastChannel
lose c reason = notify_disconnected (record c { is_connected = false }) reason

unfoldable pub heartbeat_timed_out : CastChannel → ℤ → Bool
heartbeat_timed_out c now =
    if not c.is_connected
    then true
    else if not (ltb_ℤ (pos 0) c.last_pong_ms)
    then false
    else ltb_ℤ (pos 6000) (now -ℤ c.last_pong_ms)

-- What a call of `SSL_read` gives: bytes, an error that is tried again, or another one.
pub data SslRead : Type 0 where
  bytes : List ℕ → SslRead
  transient : SslRead
  broken : SslRead

-- The loops that fill a buffer: filled, with the calls that are left; a broken connection; or no more calls.
pub data Filled : Type 0 where
  filled : List ℕ → List SslRead → Filled
  lost : Filled
  waiting : Filled

unfoldable pub read_exact : ℕ → List ℕ → List SslRead → Filled
read_exact n got [] = if ltb (length got) n then waiting else filled got []
read_exact n got (bytes b ∷ reads) =
    if ltb (length got) n then read_exact n (got ++ b) reads else filled got (bytes b ∷ reads)
read_exact n got (transient ∷ reads) =
    if ltb (length got) n then read_exact n got reads else filled got (transient ∷ reads)
read_exact n got (broken ∷ reads) = if ltb (length got) n then lost else filled got (broken ∷ reads)

abbrev pub or_empty : Option (List ℕ) → List ℕ
or_empty none = []
or_empty (some s) = s

-- The payload of a message.
abbrev pub payload_str : CastMessage → List ℕ
payload_str m = if m.is_binary then or_empty m.payload_binary else or_empty m.payload_utf8

module _ (calls : Calls) where
  abbrev pub transmit : CastChannel → Option (List ℕ) → Bool × CastChannel
  transmit c none = (false, c)
  transmit c (some serialized) =
      if calls.ssl_write (packet serialized)
      then (true, record c { sent = c.sent ++ packet serialized ∷ [] })
      else (false, c)

  unfoldable pub send_cast_message :
      CastChannel → List ℕ → List ℕ → List ℕ → List ℕ → Bool × CastChannel
  send_cast_message c namespace payload_utf8 destination_id source_id =
      if not c.is_connected
      then (false, c)
      else transmit c (
          calls.serialize (record {
            source_id = source_id;
            destination_id = destination_id;
            namespace = namespace;
            is_binary = false;
            payload_utf8 = some payload_utf8;
            payload_binary = none;
          }))

  unfoldable pub send_cast_message_binary :
      CastChannel → List ℕ → List ℕ → List ℕ → List ℕ → Bool × CastChannel
  send_cast_message_binary c namespace payload_binary destination_id source_id =
      if not c.is_connected
      then (false, c)
      else transmit c (
          calls.serialize (record {
            source_id = source_id;
            destination_id = destination_id;
            namespace = namespace;
            is_binary = true;
            payload_utf8 = none;
            payload_binary = some payload_binary;
          }))

  -- A PING is answered, a PONG noted at its time.
  unfoldable pub on_heartbeat : CastChannel → CastMessage → ℤ → CastChannel
  on_heartbeat c m now = elim (calls.json_type (payload_str m)) [
    | none ↦ c
    | some type ↦
        if same_text type (codes "PING")
        then (send_cast_message c heartbeat_namespace (codes "{\"type\":\"PONG\"}") m.source_id
            m.destination_id).1
        else if same_text type (codes "PONG")
        then record c { last_pong_ms = now }
        else c
  ]

  -- A message that was read: heartbeats, then the replies of the authentication, which end here, then the callback.
  unfoldable pub handle_message : CastChannel → CastMessage → ℤ → CastChannel
  handle_message c m now =
      let beaten =
        if same_text m.namespace heartbeat_namespace && not m.is_binary
        then on_heartbeat c m now
        else c in
      if same_text m.namespace auth_namespace
      then record beaten { auth = calls.on_auth beaten.auth (payload_str m) }
      else record beaten {
        delivered =
            beaten.delivered
            ++ record {
              namespace = m.namespace;
              payload = payload_str m;
              source_id = m.source_id;
              destination_id = m.destination_id;
            }
              ∷ [];
      }

  abbrev pub handle_body : CastChannel → Option CastMessage → ℤ → CastChannel
  handle_body c none now = c
  handle_body c (some m) now = handle_message c m now

  abbrev pub length_of : List ℕ → ℕ
  length_of len_buf =
      of_be32 (get_or len_buf 0 0) (get_or len_buf 1 0) (get_or len_buf 2 0) (get_or len_buf 3 0)

  -- The loop over messages, for a number of rounds, with the time of each.
  unfoldable pub receive_loop : (ℕ → ℤ) → ℕ → CastChannel → List SslRead → CastChannel
  receive_loop clock zero c reads = c
  receive_loop clock (suc rounds) c reads =
      if c.should_stop || not c.is_connected then c else elim (read_exact 4 [] reads) [
        | waiting ↦ c
        | lost ↦ lose c (codes "TLS socket closed")
        | filled len_buf after ↦
            let msg_len = length_of len_buf in
            if msg_len == 0 || ltb (1024 * 1024) msg_len
            then lose c (codes "Invalid message size from receiver")
            else elim (read_exact msg_len [] after) [
              | waiting ↦ c
              | lost ↦ lose c (codes "TLS socket closed")
              | filled payload_buf rest ↦
                  receive_loop clock rounds (handle_body c (calls.parse payload_buf) (clock rounds))
                    rest
            ]
      ]
