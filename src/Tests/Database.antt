-- ===== src/Tests/Database.antt =====
-- Concrete runs of the database, the audit log and the event sink.
use noble_cascade.Approvals.{request_entry}
use noble_cascade.Audit.{Entry, emit, event_of}
use noble_cascade.Audit.Appends.{event_at}
use noble_cascade.Audit.Sanitized.{IsCleanEvent, emit-IsCleanEvent}
use noble_cascade.Errors.{ok}
use noble_cascade.Models.{Approval, pending, rejected, same_approval_state}
use noble_cascade.Prelude.{
  List, String, [], arith, count, false, keep, length, refl, true, ◌++◌, ◌∷◌, ◌≡◌, ◌≤◌, ◌⊎◌,
}
use noble_cascade.Store.{
  AuditRow, LeaseRequest, Store, acquire_lease, append_audit, chain_digest, delete_rows, find_row,
  genesis, insert_row, is_local_call, is_principal_call, last_hash, live_leases, new_call,
  new_store, over_limit, recent_calls, release_lease, reserve_request, update_approval, update_row,
  verify_audit, verify_from,
}
use noble_cascade.Store.Chain.{verify_audit-append}
use noble_cascade.Store.Replay.{apply_all, reserve, reserved_for_good}
use noble_cascade.Store.Swap.{swap_once}
use noble_cascade.Store.Tamper.{Collision, contents, tamper_evidence}
use noble_cascade.Store.Traffic.{
  LeaseOp, acquire, end_time, leases_bounded, quiet, rate_window, release, run_ops, step,
}
use noble_cascade.Tests.Data.{
  agreed, asked, clean_slate, empty_store, high_risk, os, risky, scope, with_asked,
}
use noble_cascade.World.{new_id, utcnow}

abbrev first_row : AuditRow
first_row = record {
  sequence = 1;
  event_id = "audit-1";
  content = "one";
  prev_hash = genesis;
  event_hash = genesis;
}

abbrev logged : Store
logged = record empty_store { audit_events = first_row ∷ [] }

abbrev constant_hash : String → String
constant_hash s = genesis

one_event : verify_audit constant_hash logged ≡ (true, 1)
unfolding verify_audit verify_from chain_digest
one_event = refl

tamper_evidence_example :
    (contents logged.audit_events ≡ contents logged.audit_events)
    ⊎ Collision constant_hash logged.audit_events logged.audit_events
tamper_evidence_example =
    tamper_evidence constant_hash (λ s. refl) logged logged one_event one_event refl

verify_audit-append_example :
    verify_audit constant_hash (append_audit constant_hash "audit-2" "two" logged).1 ≡ (true, 2)
unfolding append_audit insert_row find_row chain_digest last_hash
verify_audit-append_example =
    verify_audit-append constant_hash "audit-2" "two" logged
      (append_audit constant_hash "audit-2" "two" logged).1 one_event refl

abbrev also_rejected : Approval
also_rejected = record asked { state = rejected }

swap_once_example :
    update_approval also_rejected pending (update_approval agreed pending with_asked.store).1
    ≡ (ok false, (update_approval agreed pending with_asked.store).1)
unfolding update_approval find_row same_approval_state update_row
swap_once_example = swap_once agreed also_rejected with_asked.store refl (λ e. ground arith) refl

abbrev lease : LeaseRequest
lease = record {
  lease_id = "lease-1";
  principal = "alice";
  tool = "static-code-scan";
  target = "/work/src";
  per_minute = 1;
  global_per_minute = 5;
  max_concurrent = 2;
  timeout = 10;
}

abbrev leased : Store
leased = (acquire_lease lease 7 empty_store).1

abbrev again : LeaseRequest
again = record lease { lease_id = "lease-2" }

abbrev lease_calls : List LeaseOp
lease_calls = acquire lease 7 ∷ acquire again 8 ∷ release false "lease-1" ∷ []

leases_bounded_example : length (run_ops quiet lease_calls).store.active_leases ≤ 2
unfolding new_store
leases_bounded_example =
    leases_bounded 2 quiet lease_calls (omega arith, (omega arith, (tt, tt))) (omega arith)

rate_window_example :
    let calls =
      recent_calls 70000000
        ((run_ops quiet lease_calls).granted_calls ++ new_call again 70000000 ∷ []) in
    (count (is_principal_call "alice") calls ≤ 5)
    × (count (is_local_call "alice" "static-code-scan" "/work/src") calls ≤ 1)
unfolding run_ops step new_store acquire_lease release_lease over_limit recent_calls live_leases
    insert_row keep count find_row is_local_call is_principal_call delete_rows end_time
rate_window_example =
    rate_window 0 lease_calls again 70000000
      (acquire_lease again 70000000 (run_ops quiet lease_calls).store).1
      (omega arith, (omega arith, tt)) (omega arith) refl

abbrev later_store : Store
later_store =
    apply_all (reserve_request "req-1" 5 empty_store).1 (reserve "req-2" 6 ∷ reserve "req-1" 7 ∷ [])

reserved_for_good_example : reserve_request "req-1" 9 later_store ≡ (ok false, later_store)
reserved_for_good_example =
    reserved_for_good "req-1" 5 9 empty_store (reserve "req-2" 6 ∷ reserve "req-1" 7 ∷ [])

abbrev entry : Entry
entry = request_entry risky scope high_risk "/work/src" "approval-1"

emit-IsCleanEvent_example : IsCleanEvent (event_at os entry clean_slate)
unfolding emit append_audit insert_row new_id utcnow find_row event_of
emit-IsCleanEvent_example =
    emit-IsCleanEvent os (λ p s h. h) entry clean_slate (emit os entry clean_slate).1
      {event = event_at os entry clean_slate} refl
