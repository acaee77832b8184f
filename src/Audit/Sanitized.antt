-- ===== src/Audit/Sanitized.antt =====
-- Lemmas on the fields of the audit events that noble/audit.py writes.
use mathlib.Core.Path.{subst}
use noble_cascade.Audit.{Entry, emit, event_of, safe}
use noble_cascade.Audit.Appends.{emit-event}
use noble_cascade.Errors.{ok}
use noble_cascade.Models.{AuditEvent}
use noble_cascade.Platform.{Platform}
use noble_cascade.Prelude.{String, sym, ℕ, ◌≡◌}
use noble_cascade.Trust.{prefix, redact_sensitive}
use noble_cascade.Trust.Clean.{IsClean, ReplacesCleanly, quarantine-IsClean}
use noble_cascade.World.{World}

-- Every sanitized field is clean.
pub record IsCleanEvent (e : AuditEvent) : Type 0 where
  pub operator : IsClean e.operator
  pub action : IsClean e.action
  pub target : IsClean e.target
  pub policy : IsClean e.policy
  pub decision : IsClean e.decision
  pub risk : IsClean e.risk
  pub approval : IsClean e.approval
  pub tool : IsClean e.tool
  pub execution : IsClean e.execution
  pub result : IsClean e.result
  pub reason : IsClean e.reason

module _ (os : Platform) (law : ReplacesCleanly os) where
  safe-IsClean : (value : String) → IsClean (safe os value)
  unfolding safe
  safe-IsClean value = quarantine-IsClean os law 1024 (redact_sensitive os (prefix 1024 value))

  pub event_of-IsCleanEvent :
      (event_id : String) (timestamp : ℕ) (e : Entry)
      → IsCleanEvent (event_of os event_id timestamp e)
  unfolding event_of
  event_of-IsCleanEvent event_id timestamp e = record {
    operator = safe-IsClean e.operator;
    action = safe-IsClean e.action;
    target = safe-IsClean e.target;
    policy = safe-IsClean e.policy;
    decision = safe-IsClean e.decision;
    risk = safe-IsClean e.risk;
    approval = safe-IsClean e.approval;
    tool = safe-IsClean e.tool;
    execution = safe-IsClean e.execution;
    result = safe-IsClean e.result;
    reason = safe-IsClean e.reason;
  }

  -- If the replacement of injected instructions keeps a clean text clean, then whatever a caller
  -- passes, every character of the sanitized fields of an event that `emit` returns is a tab, a
  -- newline, a carriage return, or has a code from 32 on other than 127.
  pub emit-IsCleanEvent :
      (e : Entry) (w w' : World) {event : AuditEvent}
      → emit os e w ≡ (ok event, w')
      → IsCleanEvent event
  emit-IsCleanEvent e w w' h =
      let same = emit-event os e w w' h in
      subst IsCleanEvent (sym same) (event_of-IsCleanEvent _ _ e)
