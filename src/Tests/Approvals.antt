-- ===== src/Tests/Approvals.antt =====
-- Concrete runs of the approval manager.
use noble_cascade.Approvals.{
  decide, ensure, ensure_found, ensure_token, is_approver, is_valid_for, scope_digest,
}
use noble_cascade.Approvals.Lifecycle.{
  ApprovalOp, Descends, NoSelfApproval, answer, approval-Descends, ask, call_all, no_self_approval,
  settled_for_good, stays, withdraw,
}
use noble_cascade.Approvals.Outcomes.{Decides, decide-cases}
use noble_cascade.Approvals.Valid.{Valid, ensure_sound}
use noble_cascade.Errors.{Result, is_ok, ok}
use noble_cascade.Models.{
  Approval, rank, rejected, requires_approval, same_approval_state, tier_value,
}
use noble_cascade.Platform.{fingerprint}
use noble_cascade.Prelude.{List, String, [], arith, false, given, refl, some, ◌∷◌, ◌≡◌, ◌⊎◌}
use noble_cascade.Store.{find_row, get_approval}
use noble_cascade.Tests.Data.{
  agreed, asked, clean_slate, high_risk, os, risky, scope, with_agreed, with_asked, world_with,
  yes_please,
}
use noble_cascade.World.{World, moment_of}

granted_is_enough :
    ensure os risky high_risk scope (some 30) with_agreed ≡ (ok (some agreed), with_agreed)
unfolding ensure ensure_token ensure_found moment_of is_valid_for is_approver get_approval find_row
    same_approval_state fingerprint scope_digest requires_approval rank tier_value
granted_is_enough = refl

ensure_sound_example :
    (a : Approval) × (k : String) × (some agreed ≡ some a)
    × (given risky.approval_token ≡ some k)
    × (get_approval k with_agreed.store ≡ some a)
    × Valid os a risky high_risk scope 30
    × (with_agreed.store ≡ with_agreed.store)
unfolding requires_approval rank
ensure_sound_example =
    ensure_sound os risky high_risk scope (some 30) with_agreed with_agreed refl granted_is_enough

abbrev decided_run : Result Approval × World
decided_run = decide os yes_please with_asked

decide-cases_example :
    ((decided_run.1.store.approvals ≡ with_asked.store.approvals) × (is_ok decided_run.0 ≡ false))
    ⊎ ((a : Approval) × (get_approval "approval-1" with_asked.store ≡ some a)
        × Decides yes_please a 20 with_asked.store decided_run.1.store decided_run.0)
decide-cases_example = decide-cases os yes_please with_asked decided_run.1 decided_run.0 refl

abbrev some_calls : List ApprovalOp
some_calls =
    ask risky high_risk scope 60 (some 10)
    ∷ answer yes_please
    ∷ withdraw "approval-1" "bob" (some 40)
    ∷ []

no_self_approval_example : NoSelfApproval (call_all os some_calls clean_slate).store
unfolding get_approval find_row
no_self_approval_example =
    no_self_approval os some_calls clean_slate (λ k a h. absurd (ground arith))

approval-Descends_example : Descends "approval-1" asked (call_all os some_calls with_asked).store
unfolding get_approval find_row
approval-Descends_example = approval-Descends os some_calls "approval-1" asked with_asked (record {
  later = asked;
  stored = refl;
  reached = stays;
  same = record {
    request_fingerprint = refl;
    digest = refl;
    requester = refl;
    action = refl;
    target = refl;
    risk_tier = refl;
    expires_at = refl;
  };
})

abbrev turned_down : Approval
turned_down = record asked { state = rejected }

settled_for_good_example :
    get_approval "approval-1" (call_all os some_calls (world_with [] (turned_down ∷ []))).store
    ≡ some turned_down
unfolding get_approval find_row
settled_for_good_example =
    settled_for_good os some_calls "approval-1" turned_down (world_with [] (turned_down ∷ [])) refl
      refl
