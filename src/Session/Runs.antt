-- ===== src/Session/Runs.antt =====
-- Runs of a session's state machine: any sequence of `TransitionTo` calls.
use Prim.Native.String.{String}
use cast_mirror.Prelude.{
  true, false, ◌≡◌, ◌⊎◌, inl, inr, refl, sym, ap, subst, ◌∙◌, List, [], ◌∷◌, ◌++◌, some, Bool-cases,
}
use cast_mirror.Session.{
  SessionState, connecting, is_valid_transition, StateMachine, Notice, notify, transition_to,
}
use cast_mirror.Session.Transitions.{active, active_entry}

abbrev pub Request : Type 0
Request = SessionState × String

module _ {C : Type 0} where
  -- The machine after the calls.
  unfoldable pub run : StateMachine C → List Request → StateMachine C
  run m [] = m
  run m ((to, message) ∷ calls) = run (transition_to m to message).machine calls

  -- The states that the calls lead through, newest first, on top of those before them.
  unfoldable pub trace : StateMachine C → List Request → List SessionState → List SessionState
  trace m [] seen = seen
  trace m ((to, message) ∷ calls) seen =
      let m' = (transition_to m to message).machine in trace m' calls (m'.current_state ∷ seen)

  -- The callbacks that the calls make, in order.
  unfoldable pub notices : StateMachine C → List Request → List (Notice C)
  notices m [] = []
  notices m ((to, message) ∷ calls) =
      let o = transition_to m to message in o.notices ++ notices o.machine calls

-- The newest states are all active, back to an entry into `connecting`.
pub data ActiveSince : List SessionState → Type 0 where
  opened : (seen : List SessionState) → ActiveSince (connecting ∷ seen)
  kept :
      (s : SessionState) (seen : List SessionState)
      → active s ≡ true
      → ActiveSince seen
      → ActiveSince (s ∷ seen)

-- A call is accepted and lands in its target, or changes nothing.
transition_to_cases :
    {C : Type 0} (m : StateMachine C) (to : SessionState) (message : String)
    → (let o = transition_to m to message in
        (is_valid_transition m.current_state to ≡ true)
        × (o.machine.current_state ≡ to)
        × (o.machine.callbacks ≡ m.callbacks)
        × (o.notices ≡ notify m.callbacks m.current_state to message))
      ⊎ (transition_to m to message ≡ record { accepted = false; machine = m; notices = [] })
unfolding transition_to
transition_to_cases m to message = elim (Bool-cases (is_valid_transition m.current_state to)) [
  | inl e ↦ inl (e, rw e, rw e, rw e)
  | inr e ↦ inr (rw e)
]

step_active :
    {C : Type 0} (m : StateMachine C) (to : SessionState) (message : String)
    (seen : List SessionState)
    → ((active m.current_state ≡ true) → ActiveSince seen)
    → (active (transition_to m to message).machine.current_state ≡ true)
    → ActiveSince ((transition_to m to message).machine.current_state ∷ seen)
step_active m to message seen old now = elim (transition_to_cases m to message) [
  | inl (valid, at, _, _) ↦ elim (Bool-cases (active m.current_state)) [
    | inl e ↦ kept _ seen now (old e)
    | inr e ↦ rw (at ∙ active_entry m.current_state to e (rw (← at) now) valid) (opened seen)
  ]
  | inr e ↦ kept _ seen now (old (rw e at now))
]

run-active :
    {C : Type 0} (m : StateMachine C) (calls : List Request) (seen : List SessionState)
    → ((active m.current_state ≡ true) → ActiveSince seen)
    → active (run m calls).current_state ≡ true
    → ActiveSince (trace m calls seen)
unfolding run trace
run-active m [] seen old now = old now
run-active m ((to, message) ∷ calls) seen old now =
    run-active (transition_to m to message).machine calls
      ((transition_to m to message).machine.current_state ∷ seen)
      (step_active m to message seen old) now

-- A machine that was inactive and is active after some calls went into `connecting` in one of them,
-- and every state since then was an active one: nothing streams, negotiates or reconnects without a
-- connection attempt of its own.
pub run-ActiveSince :
    {C : Type 0} (m : StateMachine C) (calls : List Request)
    → active m.current_state ≡ false
    → active (run m calls).current_state ≡ true
    → ActiveSince (trace m calls [])
run-ActiveSince m calls h now = run-active m calls [] (λ e. cc) now

-- The notices form one path from state to state.
abbrev pub Linked : {C : Type 0} → SessionState → List (Notice C) → SessionState → Type 0
Linked from [] to = from ≡ to
Linked from (n ∷ ns) to = (n.old_state ≡ from) × Linked n.new_state ns to

Linked-append :
    {C : Type 0} (from mid to : SessionState) (ns ns' : List (Notice C))
    → Linked from ns mid
    → Linked mid ns' to
    → Linked from (ns ++ ns') to
Linked-append from mid to [] ns' h h' = subst (λ s. Linked s ns' to) (sym h) h'
Linked-append from mid to (n ∷ ns) ns' h h' = (h.0, Linked-append n.new_state mid to ns ns' h.1 h')

step_Linked :
    {C : Type 0} (m : StateMachine C) (c : C) (to : SessionState) (message : String)
    → m.callbacks ≡ some c ∷ []
    → let o = transition_to m to message in
      Linked m.current_state o.notices o.machine.current_state × (o.machine.callbacks ≡ some c ∷ [])
unfolding notify
step_Linked m c to message h = elim (transition_to_cases m to message) [
  | inl (_, at, cs, ns) ↦
      (rw (ns ∙ ap (λ k. notify k m.current_state to message) h) (refl, sym at), cs ∙ h)
  | inr e ↦ rw e (refl, h)
]

-- A registered callback can follow the machine: with one callback, the notices of any calls form a
-- path, each from the state that the one before it announced, from the first state to the last.
pub notices-Linked :
    {C : Type 0} (m : StateMachine C) (c : C) (calls : List Request)
    → m.callbacks ≡ some c ∷ []
    → Linked m.current_state (notices m calls) (run m calls).current_state
unfolding notices run
notices-Linked m c [] h = refl
notices-Linked m c ((to, message) ∷ calls) h =
    Linked-append m.current_state (transition_to m to message).machine.current_state _ _ _
      (step_Linked m c to message h).0
      (notices-Linked (transition_to m to message).machine c calls (step_Linked m c to message h).1)
