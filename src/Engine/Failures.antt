-- ===== src/Engine/Failures.antt =====
-- What a run that raised ends in.
use noble_cascade.Engine.{
  blocking_classes, find_outcome, is_instance_of_any, outcome_for_error, outcome_table,
  state_for_error,
}
use noble_cascade.Errors.{ErrorClass, NobleError, is_instance, noble_error, ok, tool_timeout}
use noble_cascade.Models.{
  ExecutionState, Outcome, blocked, completed, failed, inconclusive, state_value,
  success_no_findings, success_with_findings, timed_out,
}
use noble_cascade.Prelude.{Bool, arith, false, if◌then◌else◌, refl, true, ◌≡◌, ◌≢◌}
use noble_cascade.StateMachine.{
  has_state, is_terminal, terminal_states, transition, validate_transition,
}

abbrev is_success : Outcome → Bool
is_success success_with_findings = true
is_success success_no_findings = true
is_success inconclusive = true
is_success _ = false

outcome_table_fails : (c : ErrorClass) → is_success (find_outcome outcome_table c) ≡ false
unfolding find_outcome outcome_table is_instance
outcome_table_fails noble_error = refl
outcome_table_fails _ = refl

-- the three states of the handler
abbrev picked : Bool → Bool → ExecutionState
picked a b = if a then timed_out else if b then blocked else failed

picked_terminal : (a b : Bool) → (is_terminal (picked a b) ≡ true) × (picked a b ≢ completed)
unfolding is_terminal has_state terminal_states state_value
picked_terminal true b = (refl, λ h. ground arith)
picked_terminal false true = (refl, λ h. ground arith)
picked_terminal false false = (refl, λ h. ground arith)

pub state_for_error_ends :
    (e : NobleError) → (is_terminal (state_for_error e) ≡ true) × (state_for_error e ≢ completed)
unfolding state_for_error
state_for_error_ends e =
    picked_terminal (is_instance e.cls tool_timeout) (is_instance_of_any e.cls blocking_classes)

to_terminal :
    (s t : ExecutionState) → is_terminal s ≡ false → is_terminal t ≡ true → transition s t ≡ ok t
unfolding transition validate_transition
to_terminal s t a b = ground arith

-- Whatever NobleError a run raises before it has ended, the handler's transition is accepted and
-- ends the run in a terminal state other than COMPLETED, and the outcome is none of the three of a
-- tool that ran to its end.
pub errors_end_runs :
    (e : NobleError) (s : ExecutionState)
    → is_terminal s ≡ false
    → (transition s (state_for_error e) ≡ ok (state_for_error e))
      × (is_terminal (state_for_error e) ≡ true)
      × (state_for_error e ≢ completed)
      × (outcome_for_error e ≢ success_with_findings)
      × (outcome_for_error e ≢ success_no_findings)
      × (outcome_for_error e ≢ inconclusive)
unfolding outcome_for_error
errors_end_runs e s h =
    let (ends, other) = state_for_error_ends e in
    let fails = outcome_table_fails e.cls in
    (
      to_terminal s (state_for_error e) h (ends),
      ends,
      other,
      (λ p. ground (arith, fails)),
      (λ p. ground (arith, fails)),
      λ p. ground (arith, fails),
    )
