-- ===== src/Store/Records.antt =====
-- The methods of `Store` for grants, approvals, requests, evidence, findings and the ledger. A
-- statement that fails leaves the tables as they were: the connection closes without a COMMIT.
use mathlib.Core.Option
use mathlib.Core.List.{reverse}
use noble_cascade.Errors.{Exec, Result, builtin, err, integrity_error, ok}
use noble_cascade.Models.{
  Approval, ApprovalState, AuthorizationGrant, Evidence, ExecutionResult, Fields, Finding,
  same_approval_state,
}
use noble_cascade.Prelude.{
  Bool, List, Option, String, [], false, if◌then◌else◌, is_some, keep, map, none, not, some, take,
  true, ℕ, ◌++◌, ◌==◌, ◌||◌, ◌∷◌,
}
use noble_cascade.Store.Rows.{delete_rows, find_row, insert_row, replace_row, update_row}
use noble_cascade.Store.Tables.{Keyed, Store}

-- an INSERT into one table, as a method
abbrev pub store_rows {ℓ} :
    {A : Type ℓ} → Option A → (A → Store) → Store → Result (Unit {0}) × Store
store_rows none f s = (err (builtin integrity_error), s)
store_rows (some rows) f s = (ok tt, f rows)

unfoldable pub put_grant : AuthorizationGrant → Exec Store (Unit {0})
put_grant grant s =
    store_rows (insert_row (λ (g : AuthorizationGrant). g.grant_id) grant s.grants)
      (λ rows. record s { grants = rows }) s

unfoldable pub get_grant : String → Store → Option AuthorizationGrant
get_grant grant_id s = find_row (λ (g : AuthorizationGrant). g.grant_id) grant_id s.grants

-- list_grants; the filter reads each grant again by its key, which the key finds
unfoldable pub list_grants : Option String → Store → List AuthorizationGrant
unfolding keep
list_grants principal s = elim principal [
  | none ↦ s.grants
  | some p ↦ keep (λ (g : AuthorizationGrant). g.principal == p) s.grants
]

abbrev pub approval_key : Approval → String
approval_key a = a.approval_id

unfoldable pub put_approval : Approval → Exec Store (Unit {0})
put_approval approval s =
    store_rows (insert_row approval_key approval s.approvals)
      (λ rows. record s { approvals = rows }) s

-- update_approval: a compare-and-swap on the stored state
unfoldable pub update_approval : Approval → ApprovalState → Exec Store Bool
update_approval approval expected_state s =
    elim (find_row approval_key approval.approval_id s.approvals) [
      | none ↦ (ok false, s)
      | some row ↦ if not (same_approval_state row.state expected_state) then (ok false, s) else (
        ok true,
        record s { approvals = update_row approval_key approval.approval_id approval s.approvals },
      )
    ]

unfoldable pub get_approval : String → Store → Option Approval
get_approval approval_id s = find_row approval_key approval_id s.approvals

abbrev pub result_key : ExecutionResult → String
result_key r = r.request_id

abbrev pub keyed {ℓ} : {A : Type ℓ} → Keyed A → String
keyed r = r.key

-- the UNION ALL of the two SELECTs finds a row
unfoldable pub is_taken : String → Store → Bool
is_taken request_id s =
    is_some (find_row result_key request_id s.requests)
    || is_some (find_row keyed request_id s.request_reservations)

-- reserve_request, at the time `now`
unfoldable pub reserve_request : String → ℕ → Exec Store Bool
reserve_request request_id now s = if is_taken request_id s then (ok false, s) else (
  ok true,
  record s {
    request_reservations = s.request_reservations ++ record { key = request_id; value = now } ∷ [];
  },
)

-- put_result: the result takes the place of the reservation
unfoldable pub put_result : ExecutionResult → Exec Store (Unit {0})
put_result result s =
    store_rows (insert_row result_key result s.requests)
      (λ rows. record s {
        requests = rows;
        request_reservations = delete_rows keyed result.request_id s.request_reservations;
      })
      s

unfoldable pub get_result : String → Store → Option ExecutionResult
get_result request_id s = find_row result_key request_id s.requests

-- SELECT … ORDER BY rowid DESC LIMIT n
abbrev pub latest {ℓ} : {A : Type ℓ} → ℕ → List A → List A
latest n rows = take n (reverse rows)

unfoldable pub list_results : ℕ → Store → List ExecutionResult
list_results limit s = latest limit s.requests

unfoldable pub put_evidence : Evidence → Exec Store (Unit {0})
put_evidence evidence s =
    store_rows (insert_row (λ (e : Evidence). e.evidence_id) evidence s.evidence)
      (λ rows. record s { evidence = rows }) s

unfoldable pub get_evidence : String → Store → Option Evidence
get_evidence evidence_id s = find_row (λ (e : Evidence). e.evidence_id) evidence_id s.evidence

unfoldable pub list_evidence : String → Store → List Evidence
unfolding keep
list_evidence request_id s = keep (λ (e : Evidence). e.request_id == request_id) s.evidence

abbrev finding_key : Keyed Finding → String
finding_key r = r.value.finding_id

unfoldable pub put_finding : Finding → String → Exec Store (Unit {0})
put_finding finding request_id s =
    store_rows (insert_row finding_key (record { key = request_id; value = finding }) s.findings)
      (λ rows. record s { findings = rows }) s

unfoldable pub get_finding : String → Store → Option Finding
get_finding finding_id s =
    Option.map (λ (r : Keyed Finding). r.value) (find_row finding_key finding_id s.findings)

unfoldable pub list_findings : ℕ → Store → List Finding
list_findings limit s = map (λ (r : Keyed Finding). r.value) (latest limit s.findings)

unfoldable pub put_ledger : String → Fields → Exec Store (Unit {0})
put_ledger execution_id fields s = (
  ok tt,
  record s { ledger = replace_row keyed (record { key = execution_id; value = fields }) s.ledger },
)

unfoldable pub get_ledger : String → Store → Option Fields
get_ledger execution_id s =
    Option.map (λ (r : Keyed Fields). r.value) (find_row keyed execution_id s.ledger)

unfoldable pub list_ledgers : ℕ → Store → List Fields
list_ledgers limit s = map (λ (r : Keyed Fields). r.value) (latest limit s.ledger)

unfoldable pub put_worker : String → Fields → Exec Store (Unit {0})
put_worker worker_id fields s = (
  ok tt,
  record s {
    worker_registry =
        replace_row keyed (record { key = worker_id; value = fields }) s.worker_registry;
  },
)

unfoldable pub get_worker : String → Store → Option Fields
get_worker worker_id s =
    Option.map (λ (r : Keyed Fields). r.value) (find_row keyed worker_id s.worker_registry)
