-- ===== src/Session.antt =====
-- core/src/state_machine.cc, core/include/castcore/state_machine.h and the states of
-- core/include/castcore/types.h: the states of a session, which transitions are allowed, and the
-- callbacks that observe them. Each method holds the object's lock, so a run is a sequence of whole
-- calls. Log lines are left out.
pub mod Transitions
pub mod Runs
mod Tests
use Prim.Native.String.{String}
use cast_mirror.Prelude.{
  ℕ, Bool, true, false, ◌||◌, not, ◌==◌, List, [], ◌∷◌, ◌++◌, if◌then◌else◌, Option, none, some,
}

-- `enum class SessionState`
pub data SessionState : Type 0 where
  idle discovering ready connecting negotiating : SessionState
  streaming reconnecting stopping failed : SessionState

-- The value of an enumerator, by which `==` compares.
abbrev pub code : SessionState → ℕ
code idle = 0
code discovering = 1
code ready = 2
code connecting = 3
code negotiating = 4
code streaming = 5
code reconnecting = 6
code stopping = 7
code failed = 8

abbrev pub is : SessionState → SessionState → Bool
is a b = code a == code b

-- The `switch` of `IsValidTransition`, reached when none of its early returns is taken.
unfoldable pub is_listed : SessionState → SessionState → Bool
is_listed idle to = is to discovering || is to ready || is to connecting
is_listed discovering to = is to ready || is to idle || is to connecting
is_listed ready to = is to connecting || is to discovering || is to idle
is_listed connecting to = is to negotiating || is to reconnecting || is to stopping || is to idle
is_listed negotiating to = is to streaming || is to reconnecting || is to stopping || is to idle
is_listed streaming to = is to reconnecting || is to stopping || is to idle
is_listed reconnecting to = is to streaming || is to stopping || is to idle
is_listed stopping to = is to idle || is to failed
is_listed failed to =
    is to idle || is to stopping || is to discovering || is to ready || is to connecting

unfoldable pub is_valid_transition : SessionState → SessionState → Bool
unfolding is_listed
is_valid_transition from to =
    if is from to
    then true
    else if is to failed
    then true
    else if is to stopping
    then not (is from idle)
    else is_listed from to

-- A callback is known by a value of `C`; `none` is an empty `std::function`.
module _ (C : Type 0) where
  pub record StateMachine : Type 0 where
    pub current_state : SessionState
    pub last_message : String
    pub callbacks : List (Option C)

  -- One call of a callback with its arguments.
  pub record Notice : Type 0 where
    pub callback : C
    pub old_state : SessionState
    pub new_state : SessionState
    pub message : String

  -- What the call returns, the machine after it, and the callbacks it makes, in order.
  pub record Outcome : Type 0 where
    pub accepted : Bool
    pub machine : StateMachine
    pub notices : List (Notice)

module _ {C : Type 0} where
  unfoldable pub start : StateMachine C
  start = record { current_state = idle; last_message = ""; callbacks = [] }

  -- The loop over the copied callbacks; an empty one is skipped.
  unfoldable pub notify : List (Option C) → SessionState → SessionState → String → List (Notice C)
  notify [] old new message = []
  notify (none ∷ rest) old new message = notify rest old new message
  notify (some c ∷ rest) old new message =
      record { callback = c; old_state = old; new_state = new; message = message }
      ∷ notify rest old new message

  unfoldable pub transition_to : StateMachine C → SessionState → String → Outcome C
  transition_to m new_state message =
      if is_valid_transition m.current_state new_state
      then record {
        accepted = true;
        machine = record m { current_state = new_state; last_message = message };
        notices = notify m.callbacks m.current_state new_state message;
      }
      else record { accepted = false; machine = m; notices = [] }

  unfoldable pub register_callback : StateMachine C → Option C → StateMachine C
  register_callback m c = record m { callbacks = m.callbacks ++ c ∷ [] }

  unfoldable pub reset : StateMachine C → Outcome C
  unfolding transition_to
  reset m = transition_to m idle "Reset"

  unfoldable pub is_active : StateMachine C → Bool
  is_active m =
      is m.current_state connecting
      || is m.current_state negotiating
      || is m.current_state streaming
      || is m.current_state reconnecting

-- `CheckCaptureInvariant`: what it returns, and whether it calls the reporter, which may not be
-- installed. The assertion is compiled in by CASTMIRROR_STRICT_INVARIANTS only.
unfoldable pub check_capture_invariant : Bool → Bool → Bool → Bool × Bool
check_capture_invariant true true installed = (true, false)
check_capture_invariant false false installed = (true, false)
check_capture_invariant true false installed = (false, installed)
check_capture_invariant false true installed = (false, installed)
