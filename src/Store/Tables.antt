-- ===== src/Store/Tables.antt =====
-- The tables of noble/store.py, each a list of its rows in the order of their rowids. A row's JSON
-- text stands as the record that it is the text of; the audit events alone keep their text, which
-- the hash chain covers. A moment and a duration are microseconds.
use noble_cascade.Models.{Approval, AuthorizationGrant, Evidence, ExecutionResult, Fields, Finding}
use noble_cascade.Prelude.{List, String, [], ℕ}

pub record AuditRow : Type 0 where
  pub sequence : ℕ
  pub event_id : String
  pub content : String
  pub prev_hash : String
  pub event_hash : String

pub record RateCall : Type 0 where
  pub principal : String
  pub tool : String
  pub target : String
  pub called_at : ℕ

pub record LeaseRow : Type 0 where
  pub lease_id : String
  pub principal : String
  pub tool : String
  pub target : String
  pub expires_at : ℕ

pub record Keyed {ℓ} (A : Type ℓ) : Type ℓ where
  pub key : String
  pub value : A

pub record Store : Type 0 where
  pub grants : List AuthorizationGrant
  pub approvals : List Approval
  pub requests : List ExecutionResult
  pub request_reservations : List (Keyed ℕ)
  pub evidence : List Evidence
  pub findings : List (Keyed Finding)
  pub audit_events : List AuditRow
  pub rate_calls : List RateCall
  pub active_leases : List LeaseRow
  pub ledger : List (Keyed Fields)
  pub worker_registry : List (Keyed Fields)
  pub observability : List (Keyed Fields)

-- the database that `_init_schema` makes
unfoldable pub new_store : Store
new_store = record {
  grants = [];
  approvals = [];
  requests = [];
  request_reservations = [];
  evidence = [];
  findings = [];
  audit_events = [];
  rate_calls = [];
  active_leases = [];
  ledger = [];
  worker_registry = [];
  observability = [];
}
