-- ===== src/Platform.antt =====
-- What the control plane takes from outside the repository: hashing, random identifiers, the clock,
-- the JSON text of an event, and the regular expression engine. A `World` is the state directory's
-- database with the number of identifiers drawn and of clock readings made so far.
use noble_cascade.Models.{AuditEvent, Json, SecurityRequest}
use noble_cascade.Prelude.{Bool, String, ℕ}

-- The compiled patterns of noble/evidence.py and noble/trust.py; `signature n` is the n-th of
-- INJECTION_SIGNATURES.
pub data Pattern : Type 0 where
  secret_value token_shapes bearer : Pattern
  signature : ℕ → Pattern

pub record Platform : Type 0 where
  -- hashlib.sha256(text.encode()).hexdigest()
  pub sha256 : String → String
  -- uuid.uuid4().hex, at the n-th draw
  pub hex : ℕ → String
  -- datetime.now(timezone.utc), at the n-th reading
  pub clock : ℕ → ℕ
  -- _json(event.to_dict())
  pub event_text : AuditEvent → String
  -- json.dumps of a request's binding material
  pub binding_text : SecurityRequest → String
  -- json.dumps(value, sort_keys=True, separators=(",", ":"), ensure_ascii=True, default=str)
  pub canonical : Json → String
  -- moment.isoformat()
  pub isoformat : ℕ → String
  -- pattern.pattern
  pub pattern_text : Pattern → String
  -- pattern.search(text) is not None
  pub search_text : Pattern → String → Bool
  -- pattern.sub(replacement, text)
  pub replace : Pattern → String → String → String

-- SecurityRequest.fingerprint
unfoldable pub fingerprint : Platform → SecurityRequest → String
fingerprint os request = os.sha256 (os.binding_text request)
