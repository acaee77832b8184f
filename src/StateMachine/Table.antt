-- ===== src/StateMachine/Table.antt =====
-- The tests of noble/state_machine.py against a table that is written down by cases.
use noble_cascade.Errors.{builtin, err, is_ok, ok, runtime_error}
use noble_cascade.Models.{
  ExecutionState, approved, authorization_check, collecting_evidence, created, dispatched,
  executing, planned, reporting, risk_assessment, running, scope_check, validating,
  validating_result, waiting_for_approval,
}
use noble_cascade.Prelude.{Bool, all, arith, ltb, not, refl, true, ℕ, ◌<◌, ◌||◌, ◌≡◌}
use noble_cascade.StateMachine.{is_terminal, transition, validate_transition}
use noble_cascade.StateMachine.Every.{all_states, every_state}

-- How many transitions can still follow.
abbrev pub height : ExecutionState → ℕ
height created = 13
height validating = 12
height scope_check = 11
height authorization_check = 10
height risk_assessment = 9
height waiting_for_approval = 8
height approved = 7
height planned = 6
height dispatched = 5
height running = 4
height executing = 4
height collecting_evidence = 3
height validating_result = 2
height reporting = 1
height _ = 0

pub transition-ok : (s t : ExecutionState) {u : ExecutionState} → transition s t ≡ ok u → u ≡ t
unfolding transition
transition-ok s t h = ground arith

-- From a terminal state every transition raises.
pub transition-terminal :
    (s t : ExecutionState) → is_terminal s ≡ true → transition s t ≡ err (builtin runtime_error)
unfolding transition validate_transition
transition-terminal s t h = rw (transition, validate_transition, h)

abbrev falls : ExecutionState → ExecutionState → Bool
falls s t = not (is_ok (transition s t)) || ltb (height t) (height s)

falls_table : all (λ s. all (λ t. falls s t) all_states) all_states ≡ true
unfolding transition validate_transition all
falls_table = refl

-- Every accepted transition lowers the height.
pub height-transition : (s t : ExecutionState) → is_ok (transition s t) ≡ true → height t < height s
height-transition s t h =
    let f =
      every_state (λ u. falls s u)
        (every_state (λ v. all (λ u. falls v u) all_states) falls_table s) t in
    ground arith
