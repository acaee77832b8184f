-- ===== src/Audit.antt =====
-- noble/audit.py: an event is sanitized field by field and appended to the hash chain.
pub mod Sanitized
pub mod Appends
use noble_cascade.Errors.{Exec, pure, ◌>>=◌, ◌>>◌}
use noble_cascade.Models.{AuditEvent}
use noble_cascade.Platform.{Platform}
use noble_cascade.Prelude.{String, ℕ}
use noble_cascade.Store.{append_audit}
use noble_cascade.Trust.{prefix, quarantine, redact_sensitive}
use noble_cascade.World.{World, new_id, on_store, utcnow}

-- the keyword arguments of AuditSink.emit
pub record Entry : Type 0 where
  pub request_id : String
  pub operator : String
  pub action : String
  pub target : String
  pub policy : String
  pub decision : String
  pub risk : String
  pub approval : String
  pub tool : String
  pub execution : String
  pub result : String
  pub reason : String

-- the value of the comprehension `safe` at one field
unfoldable pub safe : Platform → String → String
safe os value = (quarantine os 1024 (redact_sensitive os (prefix 1024 value))).sanitized

unfoldable pub event_of : Platform → String → ℕ → Entry → AuditEvent
event_of os event_id timestamp e = record {
  event_id = event_id;
  timestamp = timestamp;
  request_id = e.request_id;
  operator = safe os e.operator;
  action = safe os e.action;
  target = safe os e.target;
  policy = safe os e.policy;
  decision = safe os e.decision;
  risk = safe os e.risk;
  approval = safe os e.approval;
  tool = safe os e.tool;
  execution = safe os e.execution;
  result = safe os e.result;
  reason = safe os e.reason;
  data_classification = "AGENT_DERIVED";
}

-- AuditSink.emit: an error of the database reaches the caller
unfoldable pub emit : Platform → Entry → Exec World AuditEvent
unfolding new_id utcnow
emit os e = do
  event_id ← new_id os "audit"
  timestamp ← utcnow os
  let event = event_of os event_id timestamp e
  on_store (append_audit os.sha256 event_id (os.event_text event))
  pure event
