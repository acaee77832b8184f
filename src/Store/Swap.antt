-- ===== src/Store/Swap.antt =====
-- The compare-and-swap of update_approval, and what it means for two callers that race.
use noble_cascade.Errors.{ok}
use noble_cascade.Models.{Approval, ApprovalState, pending, same_approval_state}
use noble_cascade.Prelude.{
  Bool-cases, Option-cases, String, arith, false, inl, inr, refl, some, true, ◌==◌, ◌≡◌, ◌≢◌, ◌⊎◌,
}
use noble_cascade.Store.Records.{approval_key, get_approval, update_approval}
use noble_cascade.Store.Rows.{find_row, find_row-update_ne, find_row-update_self}
use noble_cascade.Store.Tables.{Store}

-- The swap happens exactly when the stored state is the expected one; then the new approval is
-- stored, and else nothing changes.
pub update_approval-cases :
    (a : Approval) (expected_state : ApprovalState) (s : Store)
    → ((r : Approval) × (get_approval a.approval_id s ≡ some r)
        × (same_approval_state r.state expected_state ≡ true)
        × ((update_approval a expected_state s).0 ≡ ok true)
        × (get_approval a.approval_id (update_approval a expected_state s).1 ≡ some a))
      ⊎ (update_approval a expected_state s ≡ (ok false, s))
unfolding update_approval get_approval
update_approval-cases a expected_state s =
    elim (Option-cases (find_row approval_key a.approval_id s.approvals)) [
      | inl gone ↦ inr (ground arith)
      | inr (r, e) ↦ elim (Bool-cases (same_approval_state r.state expected_state)) [
        | inl same ↦ inl (
          r,
          e,
          same,
          ground arith,
          ground (arith, find_row-update_self approval_key a.approval_id a r s.approvals e refl),
        )
        | inr other ↦ inr (ground arith)
      ]
    ]

-- No other approval changes.
pub update_approval-other :
    (a : Approval) (expected_state : ApprovalState) (s : Store) (k : String)
    → (a.approval_id == k) ≡ false
    → get_approval k (update_approval a expected_state s).1 ≡ get_approval k s
unfolding update_approval get_approval
update_approval-other a expected_state s k n =
    ground (arith, find_row-update_ne approval_key a.approval_id k a s.approvals refl n)

same_pending : (x : ApprovalState) → x ≢ pending → same_approval_state x pending ≡ false
unfolding same_approval_state
same_pending pending h = absurd (h refl)
same_pending _ h = ground arith

-- Of two callers that both read the approval as PENDING and write it, the first to another state,
-- only the first writes.
pub swap_once :
    (a b : Approval) (s : Store)
    → a.approval_id ≡ b.approval_id
    → a.state ≢ pending
    → (update_approval a pending s).0 ≡ ok true
    → update_approval b pending (update_approval a pending s).1
      ≡ (ok false, (update_approval a pending s).1)
swap_once a b s same decided first = elim (update_approval-cases a pending s) [
  | inl (r, _, _, _, stored) ↦
      unfold update_approval get_approval in ground (arith, same_pending a.state decided, stored)
  | inr kept ↦ absurd (ground arith)
]
