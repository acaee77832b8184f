-- ===== src/Tests/Access.antt =====
-- Concrete runs of grants, risk assessment and the state machine.
use noble_cascade.Audit.{emit, event_of}
use noble_cascade.Authorization.{
  IssueRequest, capabilities_of, check, check_given, check_grant, commit_grant, grant_of,
  has_low_code, is_identity, is_identity_code, is_subset, issue, issue_refusal, permits,
  role_capabilities,
}
use noble_cascade.Authorization.Check.{Permits, check_sound}
use noble_cascade.Authorization.Issue.{Committed, Proper, issue-Proper, issue-check}
use noble_cascade.Errors.{is_ok, ok}
use noble_cascade.Models.{
  AuthorizationGrant, ExecutionState, SecurityRequest, active_at, approved, authorization_check,
  completed, created, executing, rank, risk_assessment, scope_check, state_value, validating,
  waiting_for_approval,
}
use noble_cascade.Prelude.{
  List, [], all, any, arith, contains, false, length, none, refl, some, true, ◌++◌, ◌+◌, ◌∷◌, ◌≡◌,
  ◌≤◌,
}
use noble_cascade.Risk.{assess, is_exposed}
use noble_cascade.Risk.Score.{assess_mono}
use noble_cascade.StateMachine.{
  allowed_transitions, can_transition, follow, has_state, is_terminal, terminal_states, transition,
  validate_transition,
}
use noble_cascade.StateMachine.Order.{
  completed_from_anywhere, execution_needs_gates, follow_bounded, gates,
}
use noble_cascade.StateMachine.Table.{height}
use noble_cascade.Store.{append_audit, find_row, get_grant, insert_row, put_grant}
use noble_cascade.Tests.Data.{clean_slate, os, scan, website, with_agreed, workspace}
use noble_cascade.Trust.{redact_sensitive}
use noble_cascade.World.{World, moment_of, new_id, utcnow}

check_sound_example :
    (g : AuthorizationGrant) × (scan.authorization_grant ≡ some "grant-1")
    × (get_grant "grant-1" with_agreed.store ≡ some g)
    × Permits g scan workspace ("scan" ∷ []) 1000
    × (1000 ≡ os.clock with_agreed.readings)
    × ("operator" ≡ g.role)
    × (with_agreed.store ≡ with_agreed.store)
unfolding check check_given check_grant moment_of utcnow permits active_at is_subset all contains
    capabilities_of role_capabilities get_grant find_row
check_sound_example =
    check_sound os scan workspace ("scan" ∷ []) none with_agreed
      (record with_agreed { readings = 1 })
      {auth = record {
        grant_id = "grant-1";
        principal = "alice";
        role = "operator";
        capability = "scan";
        checked_at = 1000;
      }}
      refl

abbrev issuing : IssueRequest
issuing = record {
  issuer = "root";
  principal = "alice";
  role = "operator";
  capability = "scan";
  action = "static-analysis";
  target = workspace;
  purpose = "review";
  privileges = "scan" ∷ [];
  valid_for_seconds = 60;
  now = some 10;
}

abbrev issued : AuthorizationGrant
issued = record {
  grant_id = "grant-";
  principal = "alice";
  role = "operator";
  capability = "scan";
  target_pattern = "/work/src";
  purpose = "review";
  privileges = "scan" ∷ [];
  valid_from = 10;
  valid_until = 60000010;
  granted_by = "root";
  action = "static-analysis";
}

abbrev after_issue : World
after_issue = (issue os issuing clean_slate).1

it_is_issued : issue os issuing clean_slate ≡ (ok issued, after_issue)
unfolding issue issue_refusal moment_of commit_grant grant_of emit append_audit insert_row put_grant
    redact_sensitive is_identity is_identity_code is_subset all any contains capabilities_of
    role_capabilities has_low_code find_row new_id utcnow event_of
it_is_issued = refl

issue-Proper_example :
    Proper issued × Committed os issuing issued clean_slate.store after_issue.store
issue-Proper_example = issue-Proper os issuing clean_slate after_issue it_is_issued

abbrev holder : SecurityRequest
holder = record scan { authorization_grant = some "grant-" }

issue-check_example : is_ok (check os holder workspace ("scan" ∷ []) (some 50) after_issue).0 ≡ true
issue-check_example =
    issue-check os issuing clean_slate after_issue holder workspace ("scan" ∷ []) 50 it_is_issued
      refl
      (record {
        requester = refl;
        action = refl;
        purpose = refl;
        canonical = refl;
        permissions = λ p m. m;
      })
      (omega arith) (omega arith)

abbrev whole_way : List ExecutionState
whole_way =
    validating ∷ scope_check ∷ authorization_check ∷ risk_assessment ∷ waiting_for_approval
    ∷ approved ∷ executing ∷ []

it_runs : follow created whole_way ≡ ok executing
unfolding follow transition validate_transition is_terminal can_transition has_state
    allowed_transitions terminal_states state_value
it_runs = refl

execution_needs_gates_example : (rest : List ExecutionState) × (whole_way ≡ gates ++ rest)
execution_needs_gates_example = execution_needs_gates whole_way it_runs refl

follow_bounded_example : length whole_way + height executing ≤ height created
follow_bounded_example = follow_bounded created whole_way it_runs

completed_from_anywhere_example :
    (transition created completed ≡ ok completed) × (can_transition created completed ≡ false)
unfolding is_terminal has_state terminal_states state_value
completed_from_anywhere_example =
    completed_from_anywhere created refl (λ e. ground arith) (λ e. ground arith)

assess_mono_example :
    ((assess scan workspace).score ≤ (assess scan website).score)
    × (rank (assess scan workspace).tier ≤ rank (assess scan website).tier)
unfolding is_exposed
assess_mono_example =
    assess_mono {r = scan} {s = scan} {t = workspace} {u = website}
      (record { action = refl; exposed = λ e. refl; network = λ e. e; write = λ e. e })
