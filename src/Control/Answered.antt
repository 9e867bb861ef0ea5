-- ===== src/Control/Answered.antt =====
-- The parameters that a handshake ends with.
use mathlib.Core.List.{Memᴰ}
use cast_mirror.Prelude.Int.{ℤ}
use cast_mirror.Prelude.{
  ◌++◌, Bool, true, false, ◌≡◌, refl, sym, ◌⊎◌, inl, inr, List, [], ◌∷◌, Option, none, some,
  if_cases, never, ◌&&◌, ◌||◌, not, ap, if◌then◌else◌,
}
use cast_mirror.Negotiator.{
  StreamEncryptionKeys, AnswerMessage, NegotiatedSessionParams, parse_answer,
}
use cast_mirror.Control.Handshake.{
  no_params, Application, Handshake, Message, receiver_status, answer, renew_keys, begin_launch,
  begin_offer, is_negotiated, is_mirroring_app, take_app, handle_receiver_status, is_other_offer,
  take_answer, handle_answer, handle, handle_all,
}

-- An answer among these messages, with any number, that gives these parameters.
abbrev pub Answers :
    StreamEncryptionKeys → StreamEncryptionKeys → List Message → NegotiatedSessionParams → Type 0
Answers video audio ms params =
    (seq : Option ℤ) × (j : AnswerMessage) × Memᴰ (answer seq j) ms
    × (parse_answer j video audio no_params ≡ some params)

-- The parameters are those of an answer that came and was read with the attempt's keys, if there was an answer.
abbrev pub IsAnswered :
    StreamEncryptionKeys → StreamEncryptionKeys → List Message → Handshake → Type 0
IsAnswered video audio ms s =
    (s.video_keys ≡ video)
    × (s.audio_keys ≡ audio)
    × ((s.answer_received ≡ false) ⊎ Answers video audio ms s.negotiated_params)

take_app-IsAnswered :
    (video audio : StreamEncryptionKeys) (ms : List Message) (apps : List Application)
    (s : Handshake)
    → IsAnswered video audio ms s
    → IsAnswered video audio ms (take_app apps s)
unfolding take_app
take_app-IsAnswered video audio ms [] s h = h
take_app-IsAnswered video audio ms (app ∷ apps) s h =
    if_cases (IsAnswered video audio ms) (is_mirroring_app app.app_id) _ _ h
      (take_app-IsAnswered video audio ms apps s h)

take_answer-IsAnswered :
    (video audio : StreamEncryptionKeys) (ms : List Message) (o : Option NegotiatedSessionParams)
    (seq : Option ℤ) (j : AnswerMessage) (s : Handshake)
    → Memᴰ (answer seq j) ms
    → parse_answer j video audio no_params ≡ o
    → IsAnswered video audio ms s
    → IsAnswered video audio ms (take_answer o s)
unfolding take_answer
take_answer-IsAnswered video audio ms none seq j s m e h = h
take_answer-IsAnswered video audio ms (some params) seq j s m e (v, a, _) =
    (v, a, inr (seq, j, m, e))

handle-IsAnswered :
    (video audio : StreamEncryptionKeys) (ms : List Message) (m : Message) (s : Handshake)
    → Memᴰ m ms
    → IsAnswered video audio ms s
    → IsAnswered video audio ms (handle m s)
unfolding handle handle_receiver_status handle_answer
handle-IsAnswered video audio ms (receiver_status apps) s m h =
    if_cases (IsAnswered video audio ms) s.launch_sent _ _
      (take_app-IsAnswered video audio ms apps s h) h
handle-IsAnswered video audio ms (answer seq j) s m h =
    if_cases (IsAnswered video audio ms) (is_other_offer seq s.offer_seq_num) _ _ h (
      take_answer-IsAnswered video audio ms (parse_answer j s.video_keys s.audio_keys no_params) seq
        j s m (λ i. parse_answer j (sym h.0 i) (sym h.1 i) no_params) h)

handle_all-IsAnswered :
    (video audio : StreamEncryptionKeys) (ms others : List Message) (s : Handshake)
    → ((m : Message) → Memᴰ m ms → Memᴰ m others)
    → IsAnswered video audio others s
    → IsAnswered video audio others (handle_all ms s)
unfolding handle_all
handle_all-IsAnswered video audio [] others s sub h = h
handle_all-IsAnswered video audio (m ∷ ms) others s sub h =
    handle_all-IsAnswered video audio ms others (handle m s) (λ k q. sub k (Memᴰ.tail q))
      (handle-IsAnswered video audio others m s (sub m (Memᴰ.head refl)) h)

-- A result that is true comes with the answer.
abbrev HasAnswer :
    StreamEncryptionKeys → StreamEncryptionKeys → List Message → Handshake × Bool → Type 0
HasAnswer video audio ms (s, result) = result ≡ true → Answers video audio ms s.negotiated_params

mem_before : (ms ks : List Message) (m : Message) → Memᴰ m ms → Memᴰ m (ms ++ ks)
mem_before [] ks m q = elim q [ ]
mem_before (x ∷ ms) ks m (Memᴰ.head e) = Memᴰ.head e
mem_before (x ∷ ms) ks m (Memᴰ.tail q) = Memᴰ.tail (mem_before ms ks m q)

mem_behind : (ms ks : List Message) (m : Message) → Memᴰ m ks → Memᴰ m (ms ++ ks)
mem_behind [] ks m q = q
mem_behind (x ∷ ms) ks m q = Memᴰ.tail (mem_behind ms ks m q)

-- What arrives, and what the calls and the flags are, in one attempt.
pub record Attempt : Type 0 where
  pub connected : Bool
  pub authenticated : Bool
  pub before_offer : List Message
  pub over_at_launch : Bool
  pub after_offer : List Message
  pub stop_requested : Bool
  pub fail_requested : Bool

abbrev offered : Attempt → Handshake → Handshake × Bool
offered a s =
    let last = handle_all a.after_offer (begin_offer s) in
    (last, is_negotiated last a.stop_requested a.fail_requested)

abbrev pub arrived : Attempt → List Message
arrived a = a.before_offer ++ a.after_offer

offered-HasAnswer :
    (video audio : StreamEncryptionKeys) (a : Attempt) (s : Handshake)
    → IsAnswered video audio (arrived a) s
    → HasAnswer video audio (arrived a) (offered a s)
unfolding is_negotiated begin_offer
offered-HasAnswer video audio a s h success =
    elim (handle_all-IsAnswered video audio a.after_offer (arrived a) (begin_offer s)
      (mem_behind a.before_offer a.after_offer) h).2 [
        | inl e ↦ never (ap (λ b. b && not a.stop_requested && not a.fail_requested) e) success
        | inr found ↦ found
      ]

-- `NegotiateControlPlane`: a wait that times out finds its flag not set.
unfoldable pub negotiate_control_plane :
    StreamEncryptionKeys → StreamEncryptionKeys → Attempt → Handshake → Handshake × Bool
negotiate_control_plane video audio a s =
    let keyed = renew_keys video audio s in
    let launched = handle_all a.before_offer (begin_launch keyed) in
    if not a.connected || not a.authenticated
    then (keyed, false)
    else if a.over_at_launch || not launched.launch_received
    then (launched, false)
    else offered a launched

-- Whatever arrives in an attempt and whatever was left of earlier ones, a handshake that succeeds has its parameters
-- from an answer that arrived in this attempt and was read with its keys, into fresh parameters.
pub negotiation_answered :
    (video audio : StreamEncryptionKeys) (a : Attempt) (s : Handshake)
    → (negotiate_control_plane video audio a s).1 ≡ true
    → (seq : Option ℤ) × (j : AnswerMessage) × Memᴰ (answer seq j) (arrived a)
      × (parse_answer j video audio no_params
          ≡ some (negotiate_control_plane video audio a s).0.negotiated_params)
unfolding negotiate_control_plane is_negotiated begin_launch begin_offer renew_keys
negotiation_answered video audio a s =
    let keyed = renew_keys video audio s in
    let launched = handle_all a.before_offer (begin_launch keyed) in
    let P = HasAnswer video audio (arrived a) in
    if_cases P (not a.connected || not a.authenticated) (keyed, false)
      (if a.over_at_launch || not launched.launch_received
        then (launched, false)
        else offered a launched)
      (λ h. never refl h)
      (if_cases P (a.over_at_launch || not launched.launch_received) (launched, false)
        (offered a launched) (λ h. never refl h)
        (offered-HasAnswer video audio a launched (
          handle_all-IsAnswered video audio a.before_offer (arrived a) (begin_launch keyed)
            (mem_before a.before_offer a.after_offer) (refl, refl, inl refl))))

-- Every offer has the same number, so an answer with the number of any other offer is taken like one without a number.
pub handle_answer_of_other_offer :
    (j : AnswerMessage) (s earlier : Handshake)
    → handle_answer (some (begin_offer earlier).offer_seq_num) j (begin_offer s)
      ≡ handle_answer none j (begin_offer s)
unfolding handle_answer begin_offer
handle_answer_of_other_offer j s earlier = refl
