-- ===== src/Tests/Data.antt =====
-- A platform whose functions are concrete, and small records to evaluate the model on.
use noble_cascade.Approvals.{Decision}
use noble_cascade.Models.{
  Approval, AuthorizationGrant, RiskAssessment, Scope, SecurityRequest, Target, TargetKind, end,
  granted, high, object, pending,
}
use noble_cascade.Platform.{Platform}
use noble_cascade.Prelude.{
  List, String, [], concat, false, none, some, suc, true, zero, ℕ, ◌+◌, ◌∷◌,
}
use noble_cascade.Store.{Store, genesis}
use noble_cascade.World.{World}

abbrev pub tally : ℕ → String
tally zero = ""
tally (suc n) = concat "a" (tally n)

abbrev pub os : Platform
os = record {
  sha256 = λ s. genesis;
  hex = tally;
  clock = λ n. 1000 + n;
  event_text = λ e. e.decision;
  binding_text = λ r. r.request_id;
  canonical = λ v. "{}";
  isoformat = λ m. "then";
  pattern_text = λ p. "pattern";
  search_text = λ p s. false;
  replace = λ p r s. s;
}

abbrev pub workspace : Target
workspace = record {
  raw = "./src";
  kind = TargetKind.path;
  canonical = "/work/src";
  host = none;
  port = none;
  path = some "/work/src";
  owner = none;
  name = none;
  environment = "local";
}

abbrev pub website : Target
website = record {
  raw = "https://app.example.com/";
  kind = TargetKind.url;
  canonical = "https://app.example.com/";
  host = some "app.example.com";
  port = some 443;
  path = some "/";
  owner = none;
  name = none;
  environment = "internet-facing";
}

abbrev pub risky : SecurityRequest
risky = record {
  action = "poc-execution";
  target = "./src";
  requester = "alice";
  tool = some "static-code-scan";
  purpose = "review";
  parameters = object end;
  request_id = "req-1";
  created_at = 1;
  approval_token = some "approval-1";
  authorization_grant = some "grant-1";
}

abbrev pub scan : SecurityRequest
scan = record {
  action = "static-analysis";
  target = "./src";
  requester = "alice";
  tool = some "static-code-scan";
  purpose = "review";
  parameters = object end;
  request_id = "req-2";
  created_at = 1;
  approval_token = none;
  authorization_grant = some "grant-1";
}

abbrev pub high_risk : RiskAssessment
high_risk = record {
  action = "poc-execution";
  tier = high;
  score = 70;
  factors = [];
  rationale = "HIGH";
}

abbrev pub scope : Scope
scope = record {
  policy_name = "local";
  allowed_targets = "/work/src" ∷ [];
  denied_targets = [];
  allowed_actions = "poc-execution" ∷ [];
  denied_actions = [];
  valid_from = none;
  valid_until = none;
  target_classes = [];
  network_destinations = [];
}

abbrev pub asked : Approval
asked = record {
  approval_id = "approval-1";
  request_fingerprint = genesis;
  action = "poc-execution";
  target = "/work/src";
  risk_tier = "HIGH";
  requester = "alice";
  scope_digest = genesis;
  state = pending;
  requested_at = 10;
  expires_at = 5000;
  approver = none;
  decided_at = none;
  reason = "";
}

abbrev pub agreed : Approval
agreed = record asked {
  state = granted;
  approver = some "bob";
  decided_at = some 20;
  reason = "fine";
}

abbrev pub operator_grant : AuthorizationGrant
operator_grant = record {
  grant_id = "grant-1";
  principal = "alice";
  role = "operator";
  capability = "scan";
  target_pattern = "/work/src";
  purpose = "review";
  privileges = "scan" ∷ [];
  valid_from = 0;
  valid_until = 100000;
  granted_by = "root";
  action = "static-analysis";
}

abbrev pub approver_grant : AuthorizationGrant
approver_grant = record {
  grant_id = "grant-2";
  principal = "bob";
  role = "approver";
  capability = "approve";
  target_pattern = "/work/src";
  purpose = "review";
  privileges = "approve" ∷ [];
  valid_from = 0;
  valid_until = 100000;
  granted_by = "root";
  action = "poc-execution";
}

abbrev pub empty_store : Store
empty_store = record {
  grants = [];
  approvals = [];
  requests = [];
  request_reservations = [];
  evidence = [];
  findings = [];
  audit_events = [];
  rate_calls = [];
  active_leases = [];
  ledger = [];
  worker_registry = [];
  observability = [];
}

abbrev pub world_with : List AuthorizationGrant → List Approval → World
world_with grants approvals = record {
  store = record empty_store { grants = grants; approvals = approvals };
  draws = 0;
  readings = 0;
}

abbrev pub clean_slate : World
clean_slate = world_with [] []

abbrev pub with_asked : World
with_asked = world_with (approver_grant ∷ []) (asked ∷ [])

abbrev pub with_agreed : World
with_agreed = world_with (operator_grant ∷ []) (agreed ∷ [])

abbrev pub yes_please : Decision
yes_please = record {
  approval_id = "approval-1";
  approver = "bob";
  approver_grant_id = "grant-2";
  approve = true;
  reason = "fine";
  now = some 20;
}
