-- ===== src/Session/Tests.antt =====
-- Runs of the state machine, and its theorems at concrete inputs.
use cast_mirror.Prelude.{ℕ, ◌≡◌, refl, List, [], ◌∷◌, some}
use cast_mirror.Session.{
  idle, connecting, negotiating, streaming, StateMachine, transition_to, is_valid_transition,
}
use cast_mirror.Session.Runs.{Request, run, trace, ActiveSince, run-ActiveSince}

abbrev observed : StateMachine ℕ
observed = record { current_state = idle; last_message = ""; callbacks = some 7 ∷ [] }

abbrev requests : List Request
requests = (streaming, "too early") ∷ (connecting, "") ∷ (negotiating, "") ∷ (streaming, "go") ∷ []

run-requests : (run observed requests).current_state ≡ streaming
unfolding run transition_to is_valid_transition
run-requests = refl

run-ActiveSince_example : ActiveSince (trace observed requests [])
run-ActiveSince_example = run-ActiveSince observed requests refl (rw run-requests)
