-- ===== src/Engine/Outcomes.antt =====
-- How NobleEngine.run of noble/engine.py answers to an exception.
use noble_cascade.Errors.{
  ErrorClass, NobleError, approval_expired, approval_invalid, approval_required,
  authorization_denied, invalid_input, invalid_output, is_instance, network_denied, rate_limited,
  sandbox_failure, scope_denied, tool_execution_failed, tool_timeout, tool_unavailable,
  tool_unknown,
}
use noble_cascade.Models.{
  ExecutionState, Outcome, approval_has_expired, approval_is_invalid, approval_is_required, blocked,
  blocked_policy, denied_authorization, failed, input_invalid, invalid_scope, network_is_denied,
  output_invalid, rate_is_limited, sandbox_unavailable, timed_out, timeout, tool_failed,
  tool_is_unavailable,
}
use noble_cascade.Prelude.{Bool, List, [], false, if◌then◌else◌, ◌||◌, ◌∷◌}

-- the outcome that `_outcome_for_error` has for the classes of this list, in the order of its tests
unfoldable pub outcome_table : List (ErrorClass × Outcome)
outcome_table =
    (scope_denied, invalid_scope)
    ∷ (authorization_denied, denied_authorization)
    ∷ (approval_required, approval_is_required)
    ∷ (approval_expired, approval_has_expired)
    ∷ (approval_invalid, approval_is_invalid)
    ∷ (tool_unknown, blocked_policy)
    ∷ (tool_unavailable, tool_is_unavailable)
    ∷ (tool_execution_failed, tool_failed)
    ∷ (tool_timeout, timeout)
    ∷ (invalid_output, output_invalid)
    ∷ (invalid_input, input_invalid)
    ∷ (sandbox_failure, sandbox_unavailable)
    ∷ (network_denied, network_is_denied)
    ∷ (rate_limited, rate_is_limited)
    ∷ []

-- the first entry that the class is an instance of
unfoldable pub find_outcome : List (ErrorClass × Outcome) → ErrorClass → Outcome
unfolding is_instance
find_outcome [] c = blocked_policy
find_outcome ((d, o) ∷ rest) c =
    let later = find_outcome rest c in if is_instance c d then o else later

-- _outcome_for_error
unfoldable pub outcome_for_error : NobleError → Outcome
unfolding find_outcome outcome_table
outcome_for_error e = find_outcome outcome_table e.cls

-- the tuple of the second `isinstance` of the handler
unfoldable pub blocking_classes : List ErrorClass
blocking_classes =
    scope_denied ∷ authorization_denied ∷ approval_required ∷ approval_expired ∷ approval_invalid
    ∷ network_denied ∷ rate_limited ∷ invalid_input ∷ sandbox_failure ∷ tool_unknown ∷ []

-- isinstance(e, classes)
unfoldable pub is_instance_of_any : ErrorClass → List ErrorClass → Bool
unfolding is_instance
is_instance_of_any c [] = false
is_instance_of_any c (d ∷ ds) = is_instance c d || is_instance_of_any c ds

-- the state that the handler of NobleError goes to
unfoldable pub state_for_error : NobleError → ExecutionState
unfolding is_instance is_instance_of_any blocking_classes
state_for_error e =
    if is_instance e.cls tool_timeout
    then timed_out
    else if is_instance_of_any e.cls blocking_classes
    then blocked
    else failed
