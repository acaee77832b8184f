-- ===== src/Errors/Classes.antt =====
-- The exception classes of noble/errors.py, their codes and their hierarchy. A class is a
-- constructor, and `make c` is the constructor call of the class `c`.
use noble_cascade.Prelude.{
  Bool, List, Option, String, [], contains, false, none, some, true, ℕ, ◌∷◌,
}

-- the constants of `class ErrorCode`
pub data ErrorCode : Type 0 where
  policy_denied_code scope_denied_code scope_unknown_code authorization_denied_code : ErrorCode
  approval_required_code approval_expired_code approval_invalid_code self_approval_code : ErrorCode
  tool_unavailable_code tool_unknown_code tool_execution_failed_code tool_timeout_code : ErrorCode
  sandbox_failure_code network_denied_code rate_limited_code invalid_input_code : ErrorCode
  invalid_output_code evidence_validation_failed_code configuration_invalid_code : ErrorCode
  internal_error_code : ErrorCode

unfoldable pub code_value : ErrorCode → String
code_value policy_denied_code = "policy_denied"
code_value scope_denied_code = "scope_denied"
code_value scope_unknown_code = "scope_unknown"
code_value authorization_denied_code = "authorization_denied"
code_value approval_required_code = "approval_required"
code_value approval_expired_code = "approval_expired"
code_value approval_invalid_code = "approval_invalid"
code_value self_approval_code = "self_approval"
code_value tool_unavailable_code = "tool_unavailable"
code_value tool_unknown_code = "tool_unknown"
code_value tool_execution_failed_code = "tool_execution_failed"
code_value tool_timeout_code = "tool_timeout"
code_value sandbox_failure_code = "sandbox_failure"
code_value network_denied_code = "network_denied"
code_value rate_limited_code = "rate_limited"
code_value invalid_input_code = "invalid_input"
code_value invalid_output_code = "invalid_output"
code_value evidence_validation_failed_code = "evidence_validation_failed"
code_value configuration_invalid_code = "configuration_invalid"
code_value internal_error_code = "internal_error"

-- NobleError and its subclasses
pub data ErrorClass : Type 0 where
  noble_error policy_denied scope_denied scope_unknown authorization_denied : ErrorClass
  approval_required approval_expired approval_invalid self_approval_denied : ErrorClass
  tool_unavailable tool_unknown tool_execution_failed tool_timeout sandbox_failure : ErrorClass
  network_denied rate_limited invalid_input invalid_output : ErrorClass
  evidence_validation_failed configuration_invalid : ErrorClass

-- the class that a class statement names as its base
unfoldable pub base : ErrorClass → Option ErrorClass
base noble_error = none
base scope_denied = some policy_denied
base scope_unknown = some scope_denied
base network_denied = some policy_denied
base _ = some noble_error

unfoldable pub class_name : ErrorClass → String
class_name noble_error = "NobleError"
class_name policy_denied = "PolicyDenied"
class_name scope_denied = "ScopeDenied"
class_name scope_unknown = "ScopeUnknown"
class_name authorization_denied = "AuthorizationDenied"
class_name approval_required = "ApprovalRequired"
class_name approval_expired = "ApprovalExpired"
class_name approval_invalid = "ApprovalInvalid"
class_name self_approval_denied = "SelfApprovalDenied"
class_name tool_unavailable = "ToolUnavailable"
class_name tool_unknown = "ToolUnknown"
class_name tool_execution_failed = "ToolExecutionFailed"
class_name tool_timeout = "ToolTimeout"
class_name sandbox_failure = "SandboxFailure"
class_name network_denied = "NetworkDenied"
class_name rate_limited = "RateLimited"
class_name invalid_input = "InvalidInput"
class_name invalid_output = "InvalidOutput"
class_name evidence_validation_failed = "EvidenceValidationFailed"
class_name configuration_invalid = "ConfigurationInvalid"

-- the method resolution order, followed for as many bases as the fuel allows; the hierarchy is
-- four classes deep
ancestors : ℕ → ErrorClass → List ErrorClass
ancestors ℕ.zero c = []
ancestors (ℕ.suc n) c =
    c ∷ (let rest = ancestors n in elim (base c) [ none ↦ [] | some b ↦ rest b ])

unfoldable pub mro : ErrorClass → List ErrorClass
unfolding ancestors base
mro c = ancestors 4 c

names : List ErrorClass → List String
unfolding class_name
names [] = []
names (c ∷ cs) = class_name c ∷ names cs

-- isinstance(e, d), for an instance `e` of the class `c`
unfoldable pub is_instance : ErrorClass → ErrorClass → Bool
unfolding mro names contains class_name
is_instance c d = contains (names (mro c)) (class_name d)

-- the code that the constructor of a class passes on
unfoldable pub code_of : ErrorClass → ErrorCode
code_of noble_error = internal_error_code
code_of policy_denied = policy_denied_code
code_of scope_denied = scope_denied_code
code_of scope_unknown = scope_unknown_code
code_of authorization_denied = authorization_denied_code
code_of approval_required = approval_required_code
code_of approval_expired = approval_expired_code
code_of approval_invalid = approval_invalid_code
code_of self_approval_denied = self_approval_code
code_of tool_unavailable = tool_unavailable_code
code_of tool_unknown = tool_unknown_code
code_of tool_execution_failed = tool_execution_failed_code
code_of tool_timeout = tool_timeout_code
code_of sandbox_failure = sandbox_failure_code
code_of network_denied = network_denied_code
code_of rate_limited = rate_limited_code
code_of invalid_input = invalid_input_code
code_of invalid_output = invalid_output_code
code_of evidence_validation_failed = evidence_validation_failed_code
code_of configuration_invalid = configuration_invalid_code

unfoldable pub retryable_of : ErrorClass → Bool
retryable_of approval_expired = true
retryable_of tool_unavailable = true
retryable_of tool_timeout = true
retryable_of rate_limited = true
retryable_of _ = false

-- a value of `details: dict[str, str | int | bool]`
pub data Detail : Type 0 where
  text : String → Detail
  int : ℕ → Detail
  flag : Bool → Detail

pub record NobleError : Type 0 where
  pub cls : ErrorClass
  pub message : String
  pub code : ErrorCode
  pub retryable : Bool
  pub details : List (String × Detail)

unfoldable pub make : ErrorClass → String → List (String × Detail) → NobleError
unfolding code_of retryable_of
make c message details = record {
  cls = c;
  message = message;
  code = code_of c;
  retryable = retryable_of c;
  details = details;
}

pub record ErrorDict : Type 0 where
  pub code : String
  pub message : String
  pub retryable : Bool
  pub details : List (String × Detail)

unfoldable pub to_dict : NobleError → ErrorDict
unfolding code_value
to_dict e = record {
  code = code_value e.code;
  message = e.message;
  retryable = e.retryable;
  details = e.details;
}

-- the exceptions of the language and of sqlite3 that the code raises or lets pass
pub data PyError : Type 0 where
  os_error integrity_error operational_error runtime_error value_error type_error index_error :
      PyError
  key_error : PyError

unfoldable pub py_name : PyError → String
py_name os_error = "OSError"
py_name integrity_error = "IntegrityError"
py_name operational_error = "OperationalError"
py_name runtime_error = "RuntimeError"
py_name value_error = "ValueError"
py_name type_error = "TypeError"
py_name index_error = "IndexError"
py_name key_error = "KeyError"

pub data Raised : Type 0 where
  noble : NobleError → Raised
  builtin : PyError → Raised
