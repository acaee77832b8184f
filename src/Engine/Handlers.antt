-- ===== src/Engine/Handlers.antt =====
-- The two `except` clauses of NobleEngine.run in noble/engine.py, around its `try` block.
-- isinstance(exc, (OSError, sqlite3.Error, RuntimeError, ValueError, TypeError))
use noble_cascade.Engine.Collect.{run_body}
use noble_cascade.Engine.Outcomes.{outcome_for_error, state_for_error}
use noble_cascade.Engine.Steps.{Run, Setting, doing, enter, obs}
use noble_cascade.Errors.{
  Exec, PyError, Raised, Result, builtin, code_value, err, index_error, key_error, noble, ok,
  py_name, raise, ◌>>◌,
}
use noble_cascade.Models.{
  ExecutionState, SecurityRequest, Target, blocked, completed, end, failed, field, internal_error,
  str,
}
use noble_cascade.Prelude.{Bool, [], concat, false, if◌then◌else◌, not, some, true, ◌∷◌}
use noble_cascade.StateMachine.{has_state}

unfoldable pub is_internal : PyError → Bool
is_internal index_error = false
is_internal key_error = false
is_internal _ = true

-- the states that the handler of internal errors leaves alone
unfoldable pub is_closed : ExecutionState → Bool
unfolding has_state
is_closed = has_state (completed ∷ blocked ∷ failed ∷ [])

-- the two `except` clauses, on what the `try` block raised
unfoldable pub handle : Setting → SecurityRequest → Raised → Exec Run (Unit {0})
handle g request (noble e) = do
  doing (λ r. record r { error = some (code_value e.code); outcome = outcome_for_error e })
  doing (
      obs g request "ERROR" (concat "blocked/failed: " (code_value e.code))
        (field "code" (str (code_value e.code)) end))
  enter g request (state_for_error e)
handle g request (builtin b) = if not (is_internal b) then raise (builtin b) else (do
  doing (λ r. record r { error = some "internal_error"; outcome = internal_error })
  doing (obs g request "ERROR" "internal error" (field "error_type" (str (py_name b)) end))
  (λ r. if is_closed r.state then (ok tt, r) else enter g request failed r))

-- the `try` block with its handlers
unfoldable pub guarded : Setting → SecurityRequest → Result Target → Exec Run (Unit {0})
unfolding run_body
guarded g request normalized r =
    let (x, r') = run_body g request normalized r in
    elim x [ ok _ ↦ (ok tt, r') | err e ↦ handle g request e r' ]
