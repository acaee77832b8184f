-- ===== src/Engine/Stopped.antt =====
-- A run of noble/engine.py that a gate stops: what its handlers leave.
-- it has no execution, and it is not COMPLETED
use noble_cascade.Engine.Ending.{accepted, failed_terminal, open_live}
use noble_cascade.Engine.Failures.{state_for_error_ends}
use noble_cascade.Engine.Handlers.{handle, is_internal}
use noble_cascade.Engine.Outcomes.{state_for_error}
use noble_cascade.Engine.Steps.{Run, Setting, enter, obs}
use noble_cascade.Errors.{Raised, builtin, noble}
use noble_cascade.Models.{ExecutionState, SecurityRequest, completed, failed}
use noble_cascade.Prelude.{Bool-cases, arith, false, inl, inr, none, true, ◌≡◌, ◌≢◌}
use noble_cascade.StateMachine.{has_state, is_terminal, terminal_states}
use noble_cascade.Store.{Store, put_observability}

pub record Stopped (r : Run) : Type 0 where
  pub execution_id : r.execution_id ≡ none
  pub state : r.state ≢ completed

live_open : (s : ExecutionState) → is_terminal s ≡ false → s ≢ completed
unfolding is_terminal has_state terminal_states
live_open completed live e = absurd (ground (arith, live))
live_open _ live e = ground (arith, e)

enter-Stopped :
    (g : Setting) (request : SecurityRequest) (t : ExecutionState) (r : Run)
    → is_terminal r.state ≡ false
    → is_terminal t ≡ true
    → t ≢ completed
    → r.execution_id ≡ none
    → Stopped (enter g request t r).1
unfolding enter obs put_observability
enter-Stopped g request t r live ends other none_yet =
    rw (accepted r.state t live ends, enter) (record { execution_id = none_yet; state = other })

pub handle-Stopped :
    (s0 : Store) (g : Setting) (request : SecurityRequest) (e : Raised) (r : Run)
    → is_terminal r.state ≡ false
    → r.execution_id ≡ none
    → Stopped (handle g request e r).1
unfolding handle obs put_observability
handle-Stopped s0 g request (noble e) r live none_yet =
    let (ends, other) = state_for_error_ends e in
    enter-Stopped g request (state_for_error e) _ live ends other none_yet
handle-Stopped s0 g request (builtin b) r live none_yet = elim (Bool-cases (is_internal b)) [
  | inl internal ↦
      rw (internal, open_live s0 request.request_id r.state live)
        (enter-Stopped g request failed _ live failed_terminal (λ e. ground (arith, e)) none_yet)
  | inr uncaught ↦ rw uncaught (record { execution_id = none_yet; state = live_open r.state live })
]
