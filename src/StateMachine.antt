-- ===== src/StateMachine.antt =====
-- noble/state_machine.py: the states of an execution and the transitions between them. `transition`
-- and `follow` are how noble/engine.py drives the machine.
mod Every
pub mod Table
pub mod Order
use noble_cascade.Errors.{Result, builtin, err, ok, runtime_error}
use noble_cascade.Models.{
  ExecutionState, approved, authorization_check, blocked, cancelled, collecting_evidence, completed,
  created, dispatched, executing, failed, planned, reporting, risk_assessment, running, scope_check,
  state_value, timed_out, validating, validating_result, waiting_for_approval,
}
use noble_cascade.Prelude.{Bool, List, [], false, if◌then◌else◌, not, ◌==◌, ◌||◌, ◌∷◌}

-- the dict literal ALLOWED_TRANSITIONS; a state that is no key of it has no successors
abbrev base_transitions : ExecutionState → List ExecutionState
base_transitions created = validating ∷ []
base_transitions validating = scope_check ∷ failed ∷ blocked ∷ []
base_transitions scope_check = authorization_check ∷ blocked ∷ failed ∷ []
base_transitions authorization_check = risk_assessment ∷ blocked ∷ failed ∷ []
base_transitions risk_assessment = waiting_for_approval ∷ failed ∷ blocked ∷ []
base_transitions waiting_for_approval = approved ∷ blocked ∷ failed ∷ []
base_transitions approved = executing ∷ failed ∷ blocked ∷ []
base_transitions executing = collecting_evidence ∷ failed ∷ timed_out ∷ blocked ∷ []
base_transitions collecting_evidence = validating_result ∷ failed ∷ []
base_transitions validating_result = completed ∷ failed ∷ blocked ∷ []
base_transitions _ = []

-- ALLOWED_TRANSITIONS after the `try` block: its assignments replace whole entries, and all the
-- names that it looks up are members of the enumeration
unfoldable pub allowed_transitions : ExecutionState → List ExecutionState
allowed_transitions planned = dispatched ∷ failed ∷ blocked ∷ []
allowed_transitions dispatched = running ∷ failed ∷ blocked ∷ []
allowed_transitions running = collecting_evidence ∷ failed ∷ timed_out ∷ []
allowed_transitions validating_result = reporting ∷ completed ∷ failed ∷ []
allowed_transitions reporting = completed ∷ failed ∷ []
allowed_transitions approved = executing ∷ planned ∷ failed ∷ blocked ∷ []
allowed_transitions s = base_transitions s

-- s in xs: the members of a `str` enumeration are compared by their values
unfoldable pub has_state : List ExecutionState → ExecutionState → Bool
unfolding state_value
has_state [] s = false
has_state (x ∷ xs) s = state_value x == state_value s || has_state xs s

unfoldable pub terminal_states : List ExecutionState
terminal_states = completed ∷ blocked ∷ failed ∷ timed_out ∷ cancelled ∷ []

unfoldable pub is_terminal : ExecutionState → Bool
unfolding has_state terminal_states
is_terminal s = has_state terminal_states s

unfoldable pub can_transition : ExecutionState → ExecutionState → Bool
unfolding has_state allowed_transitions
can_transition frm to = has_state (allowed_transitions frm) to

-- validate_transition; the messages of the two RuntimeErrors are left out
unfoldable pub validate_transition : ExecutionState → ExecutionState → Result (Unit {0})
unfolding is_terminal can_transition
validate_transition frm to =
    if is_terminal frm
    then err (builtin runtime_error)
    else if is_terminal to
    then ok tt
    else if not (can_transition frm to)
    then err (builtin runtime_error)
    else ok tt

-- `transition` of NobleEngine.run, on the state alone: the new state, or the exception
unfoldable pub transition : ExecutionState → ExecutionState → Result ExecutionState
transition frm to = elim (validate_transition frm to) [ ok _ ↦ ok to | err e ↦ err e ]

-- a sequence of transitions, up to the first that raises
unfoldable pub follow : ExecutionState → List ExecutionState → Result ExecutionState
follow s [] = ok s
follow s (t ∷ ts) = elim (transition s t) [ ok u ↦ follow u ts | err e ↦ err e ]
