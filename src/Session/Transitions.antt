-- ===== src/Session/Transitions.antt =====
-- Which states a session may move between, on top of `IsValidTransition`.
use Prim.Native.String.{String}
use cast_mirror.Prelude.{Bool, true, false, ◌||◌, ◌≡◌, ◌≢◌, ◌⊎◌, ◌↔◌, refl, arith}
use cast_mirror.Session.{
  SessionState, idle, connecting, negotiating, streaming, reconnecting, stopping, is,
  is_valid_transition, StateMachine, transition_to, reset,
}

-- The states in which `IsActive` holds.
abbrev pub active : SessionState → Bool
active s = is s connecting || is s negotiating || is s streaming || is s reconnecting

idle_allowed : (s : SessionState) → is_valid_transition s idle ≡ true
unfolding is_valid_transition
idle_allowed idle = refl
idle_allowed _ = refl

stopping_allowed : (s : SessionState) → s ≢ idle → is_valid_transition s stopping ≡ true
unfolding is_valid_transition
stopping_allowed idle h = absurd (h refl)
stopping_allowed _ h = refl

-- From inactive to active there is one way: into `connecting`, from any inactive state but
-- `stopping`.
pub active_entry :
    (s t : SessionState)
    → active s ≡ false
    → active t ≡ true
    → is_valid_transition s t ≡ true
    → t ≡ connecting
unfolding is_valid_transition
active_entry s t hs ht hv = ground arith

-- A stop through `stopping` is accepted from every state but `idle`, and the reset after it is
-- accepted and leaves the machine idle.
pub stop-reset :
    {C : Type 0} (m : StateMachine C) (message : String)
    → m.current_state ≢ idle
    → let o = transition_to m stopping message in
      (o.accepted ≡ true)
      × ((reset o.machine).accepted ≡ true)
      × ((reset o.machine).machine.current_state ≡ idle)
unfolding reset transition_to
stop-reset m message h = ground (
  arith,
  idle_allowed (transition_to m stopping message).machine.current_state,
  stopping_allowed m.current_state h,
)

-- A call that asks for `streaming` is accepted exactly in `negotiating`, `reconnecting` and
-- `streaming` itself.
pub streaming_entry :
    {C : Type 0} (m : StateMachine C) (message : String)
    → ((transition_to m streaming message).accepted ≡ true) ↔ (
        (m.current_state ≡ negotiating)
        ⊎ (m.current_state ≡ reconnecting)
        ⊎ (m.current_state ≡ streaming))
unfolding transition_to is_valid_transition
streaming_entry m message = (λ h. ground arith, λ h. ground arith)
