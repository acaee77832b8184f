-- ===== src/Errors/Laws.antt =====
-- What the class hierarchy of noble/errors.py promises to a caller that catches by class or reads
-- the code.
use noble_cascade.Errors.Classes.{
  ErrorClass, ErrorCode, approval_expired, approval_expired_code, approval_invalid,
  approval_invalid_code, approval_required, approval_required_code, authorization_denied,
  authorization_denied_code, code_of, configuration_invalid, configuration_invalid_code,
  evidence_validation_failed, evidence_validation_failed_code, internal_error_code, invalid_input,
  invalid_input_code, invalid_output, invalid_output_code, is_instance, network_denied,
  network_denied_code, noble_error, policy_denied, policy_denied_code, rate_limited,
  rate_limited_code, sandbox_failure, sandbox_failure_code, scope_denied, scope_denied_code,
  scope_unknown, scope_unknown_code, self_approval_code, self_approval_denied,
  tool_execution_failed, tool_execution_failed_code, tool_timeout, tool_timeout_code,
  tool_unavailable, tool_unavailable_code, tool_unknown, tool_unknown_code,
}
use noble_cascade.Prelude.{refl, true, ◌≡◌}

-- Every failure is a NobleError.
pub is_instance-noble_error : (c : ErrorClass) → is_instance c noble_error ≡ true
unfolding is_instance
is_instance-noble_error noble_error = refl
is_instance-noble_error _ = refl

-- The class that a code of the error report belongs to.
pub class_of : ErrorCode → ErrorClass
class_of policy_denied_code = policy_denied
class_of scope_denied_code = scope_denied
class_of scope_unknown_code = scope_unknown
class_of authorization_denied_code = authorization_denied
class_of approval_required_code = approval_required
class_of approval_expired_code = approval_expired
class_of approval_invalid_code = approval_invalid
class_of self_approval_code = self_approval_denied
class_of tool_unavailable_code = tool_unavailable
class_of tool_unknown_code = tool_unknown
class_of tool_execution_failed_code = tool_execution_failed
class_of tool_timeout_code = tool_timeout
class_of sandbox_failure_code = sandbox_failure
class_of network_denied_code = network_denied
class_of rate_limited_code = rate_limited
class_of invalid_input_code = invalid_input
class_of invalid_output_code = invalid_output
class_of evidence_validation_failed_code = evidence_validation_failed
class_of configuration_invalid_code = configuration_invalid
class_of internal_error_code = noble_error

-- A code tells the class.
pub class_of-code_of : (c : ErrorClass) → class_of (code_of c) ≡ c
unfolding class_of code_of
class_of-code_of noble_error = refl
class_of-code_of _ = refl

pub code_of_inj : (c d : ErrorClass) → code_of c ≡ code_of d → c ≡ d
code_of_inj c d h = cc (class_of-code_of c, class_of-code_of d)
