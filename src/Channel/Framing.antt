-- ===== src/Channel/Framing.antt =====
-- Messages come back as they were sent, however the connection cuts them.
use cast_mirror.Prelude.{
  ℕ, zero, suc, ◌+◌, ◌*◌, ◌%◌, ◌^◌, ◌≤◌, ◌<◌, Bool, true, false, ◌&&◌, ◌||◌, not, ltb, ◌==◌,
  if◌then◌else◌, if_cases, ◌≡◌, refl, sym, ap, ◌∙◌, List, [], ◌∷◌, ◌++◌, append_assoc, append-nil,
  Option, none, some, length, length-append, Bool-cases, inl, inr, arith,
}
use cast_mirror.Prelude.Int.{ℤ}
use cast_mirror.Prelude.Bytes.{be32}
use cast_mirror.Capability.{codes}
use cast_mirror.Devices.{same_text}
use cast_mirror.Channel.{
  CastMessage, Calls, packet, transmit, Delivery, CastChannel, heartbeat_namespace, auth_namespace,
  SslRead, bytes, transient, broken, filled, read_exact, payload_str, send_cast_message,
  on_heartbeat, handle_message, receive_loop, length_of,
}

-- Calls that give `bs` to a loop that wants `n` bytes more, each at most what is asked for, with any errors that are
-- tried again between, and the calls after them.
pub data Fed : ℕ → List ℕ → List SslRead → List SslRead → Type 0 where
  done : (rest : List SslRead) → Fed 0 [] rest rest
  again :
      (n : ℕ) (bs : List ℕ) (reads rest : List SslRead)
      → Fed (suc n) bs reads rest
      → Fed (suc n) bs (transient ∷ reads) rest
  more :
      (n : ℕ) (b bs : List ℕ) (reads rest : List SslRead)
      → 0 < length b
      → Fed n bs reads rest
      → Fed (length b + n) (b ++ bs) (bytes b ∷ reads) rest

full : (got : List ℕ) (n : ℕ) → length got + 0 ≡ n → ltb (length got) n ≡ false
full got n e = ground (arith, e)

short : (got : List ℕ) (n k : ℕ) → 0 < k → length got + k ≡ n → ltb (length got) n ≡ true
short got n k h e = ground (arith, e)

read_exact_full :
    (n : ℕ) (got : List ℕ) (reads : List SslRead)
    → length got + 0 ≡ n
    → read_exact n got reads ≡ filled got reads
unfolding read_exact
read_exact_full n got [] e = rw (full got n e) refl
read_exact_full n got (bytes b ∷ reads) e = rw (full got n e) refl
read_exact_full n got (transient ∷ reads) e = rw (full got n e) refl
read_exact_full n got (broken ∷ reads) e = rw (full got n e) refl

read_exact-Fed :
    (n k : ℕ) (got bs : List ℕ) (reads rest : List SslRead)
    → Fed k bs reads rest
    → length got + k ≡ n
    → read_exact n got reads ≡ filled (got ++ bs) rest
unfolding read_exact
read_exact-Fed n _ got _ _ _ (done rest) e =
    read_exact_full n got rest e ∙ ap (λ g. filled g rest) (sym (append-nil got))
read_exact-Fed n _ got _ _ _ (again k bs reads rest fed) e =
    rw (read_exact, short got n (suc k) (omega arith) e)
      (read_exact-Fed n (suc k) got bs reads rest fed e)
read_exact-Fed n _ got _ _ _ (more k b bs reads rest some_bytes fed) e =
    let longer : length (got ++ b) + k ≡ n = omega (arith, length-append got b, e) in
    rw (read_exact, short got n (length b + k) (omega (arith, some_bytes)) e)
      (read_exact-Fed n k (got ++ b) bs reads rest fed longer
        ∙ ap (λ g. filled g rest) (append_assoc got b bs))

-- The deliveries of messages: all but the replies of the authentication.
unfoldable pub deliveries : List CastMessage → List Delivery
deliveries [] = []
deliveries (m ∷ ms) =
    if same_text m.namespace auth_namespace
    then deliveries ms
    else record {
      namespace = m.namespace;
      payload = payload_str m;
      source_id = m.source_id;
      destination_id = m.destination_id;
    }
      ∷ deliveries ms

deliveries_cons :
    (m : CastMessage) (ms : List CastMessage)
    → deliveries (m ∷ ms) ≡ deliveries (m ∷ []) ++ deliveries ms
unfolding deliveries
deliveries_cons m ms = elim (Bool-cases (same_text m.namespace auth_namespace)) [
  | inl e ↦ rw (e) refl
  | inr e ↦ rw (e) refl
]

module _ (calls : Calls) where
  -- The calls give the packets of messages, one after the other, with bodies of at most a mebibyte that parse to them.
  pub data Stream : List CastMessage → List SslRead → Type 0 where
    over : Stream [] []
    next :
        (m : CastMessage) (ms : List CastMessage) (body : List ℕ) (reads middle rest : List SslRead)
        → calls.parse body ≡ some m
        → 0 < length body
        → length body ≤ 1048576
        → Fed 4 (be32 (length body % 2 ^ 32)) reads middle
        → Fed (length body) body middle rest
        → Stream ms rest
        → Stream (m ∷ ms) reads

  abbrev Keeps : CastChannel → CastChannel → Type 0
  Keeps c r =
      (r.should_stop ≡ c.should_stop)
      × (r.is_connected ≡ c.is_connected)
      × (r.delivered ≡ c.delivered)

  transmit-Keeps :
      (c : CastChannel) (serialized : Option (List ℕ)) → Keeps c (transmit calls c serialized).1
  transmit-Keeps c none = (refl, refl, refl)
  transmit-Keeps c (some serialized) =
      if_cases (λ (r : Bool × CastChannel). Keeps c r.1) (calls.ssl_write (packet serialized)) _ _
        (refl, refl, refl) (refl, refl, refl)

  send_cast_message-Keeps :
      (c : CastChannel) (namespace payload dst src : List ℕ)
      → Keeps c (send_cast_message calls c namespace payload dst src).1
  unfolding send_cast_message
  send_cast_message-Keeps c namespace payload dst src =
      if_cases (λ (r : Bool × CastChannel). Keeps c r.1) (not c.is_connected) _ _ (refl, refl, refl)
        (transmit-Keeps c _)

  typed-Keeps :
      (c : CastChannel) (m : CastMessage) (now : ℤ) (type : Option (List ℕ))
      → Keeps c (elim type [
        | none ↦ c
        | some type ↦
            if same_text type (codes "PING")
            then (send_cast_message calls c heartbeat_namespace
                (codes "{\"type\":\"PONG\"}")
                m.source_id
                m.destination_id).1
            else if same_text type (codes "PONG")
            then record c { last_pong_ms = now }
            else c
      ])
  typed-Keeps c m now none = (refl, refl, refl)
  typed-Keeps c m now (some type) =
      if_cases (Keeps c) (same_text type (codes "PING")) _ _
        (send_cast_message-Keeps c heartbeat_namespace _ m.source_id m.destination_id)
        (if_cases (Keeps c) (same_text type (codes "PONG")) _ _ (refl, refl, refl)
          (refl, refl, refl))

  on_heartbeat-Keeps :
      (c : CastChannel) (m : CastMessage) (now : ℤ) → Keeps c (on_heartbeat calls c m now)
  unfolding on_heartbeat
  on_heartbeat-Keeps c m now = typed-Keeps c m now (calls.json_type (payload_str m))

  -- What a message does to the channel.
  abbrev Handled : CastChannel → CastMessage → CastChannel → Type 0
  Handled c m r =
      (r.should_stop ≡ c.should_stop)
      × (r.is_connected ≡ c.is_connected)
      × (r.delivered ≡ c.delivered ++ deliveries (m ∷ []))

  message_Handled :
      (c : CastChannel) (m : CastMessage) (now : ℤ) → Handled c m (handle_message calls c m now)
  unfolding handle_message deliveries
  message_Handled c m now =
      let (stop, up, kept) =
        if_cases (Keeps c) (same_text m.namespace heartbeat_namespace && not m.is_binary) _ _
          (on_heartbeat-Keeps c m now) (refl, refl, refl) in
      let d : Delivery = record {
        namespace = m.namespace;
        payload = payload_str m;
        source_id = m.source_id;
        destination_id = m.destination_id;
      } in
      elim (Bool-cases (same_text m.namespace auth_namespace)) [
        | inl e ↦ rw (handle_message, e) (stop, up, kept ∙ sym (append-nil c.delivered))
        | inr e ↦ rw (handle_message, e) (stop, up, ap (λ ds. ds ++ d ∷ []) kept)
      ]

  goes_on :
      (c : CastChannel)
      → c.should_stop ≡ false
      → c.is_connected ≡ true
      → (c.should_stop || not c.is_connected) ≡ false
  goes_on c going up = rw (going, up) refl

  one_round :
      (clock : ℕ → ℤ) (rounds : ℕ) (c : CastChannel) (m : CastMessage) (body : List ℕ)
      (reads middle rest : List SslRead)
      → c.should_stop ≡ false
      → c.is_connected ≡ true
      → calls.parse body ≡ some m
      → 0 < length body
      → length body ≤ 1048576
      → Fed 4 (be32 (length body % 2 ^ 32)) reads middle
      → Fed (length body) body middle rest
      → receive_loop calls clock (suc rounds) c reads
        ≡ receive_loop calls clock rounds (handle_message calls c m (clock rounds)) rest
  unfolding receive_loop
  one_round clock rounds c m body reads middle rest going up parsed some_bytes fits head tail =
      let header =
        read_exact-Fed 4 4 [] (be32 (length body % 2 ^ 32)) reads middle head (omega arith) in
      let payload =
        read_exact-Fed (length body) (length body) [] body middle rest tail (omega arith) in
      let size : length_of calls (be32 (length body % 2 ^ 32)) ≡ length body = omega arith in
      let valid : (length body == 0 || ltb (1024 * 1024) (length body)) ≡ false = ground arith in
      rw (receive_loop, goes_on c going up, header, size, valid, payload, parsed) refl

  -- Packets whose bodies, of one byte to a mebibyte, parse to messages, cut by `SSL_read` in any way and with errors
  -- that are tried again anywhere, bring a connected channel that is not stopped these messages in order, all but the
  -- replies of the authentication, in as many rounds as there are messages, and it stays connected.
  pub messages_delivered :
      (clock : ℕ → ℤ) (rounds : ℕ) (c : CastChannel) (ms : List CastMessage) (reads : List SslRead)
      → c.should_stop ≡ false
      → c.is_connected ≡ true
      → length ms ≤ rounds
      → Stream ms reads
      → ((receive_loop calls clock rounds c reads).delivered ≡ c.delivered ++ deliveries ms)
        × ((receive_loop calls clock rounds c reads).is_connected ≡ true)
  unfolding receive_loop deliveries read_exact
  messages_delivered clock zero c _ _ going up fits over = (sym (append-nil c.delivered), up)
  messages_delivered clock (suc rounds) c _ _ going up fits over =
      rw (receive_loop, goes_on c going up) (sym (append-nil c.delivered), up)
  messages_delivered clock zero c _ _ going up fits
        (next m ms body reads middle rest made some_bytes small head tail stream) =
      absurd (omega arith)
  messages_delivered clock (suc rounds) c _ _ going up fits
        (next m ms body reads middle rest made some_bytes small head tail stream) =
      let (stop, connected, given) = message_Handled c m (clock rounds) in
      let (all_given, still) =
        messages_delivered clock rounds (handle_message calls c m (clock rounds)) ms rest
          (stop ∙ going) (connected ∙ up) (omega (arith, fits)) stream in
      let round =
        one_round clock rounds c m body reads middle rest going up made some_bytes small head
          tail in
      (
        ap (λ r. r.delivered) round
            ∙ all_given
            ∙ ap (λ ds. ds ++ deliveries ms) given
            ∙ append_assoc c.delivered (deliveries (m ∷ [])) (deliveries ms)
            ∙ ap (λ ds. c.delivered ++ ds) (sym (deliveries_cons m ms)),
        ap (λ r. r.is_connected) round ∙ still,
      )
