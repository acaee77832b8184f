-- ===== src/Approvals/Decided.antt =====
-- What a call of decide or revoke does to the stored approvals: nothing, or one swap.
use mathlib.Core.Path.{subst}
use noble_cascade.Approvals.Decisions.{
  Decision, commit_decision, commit_revocation, decision_entry, revocation_entry,
}
use noble_cascade.Audit.{emit}
use noble_cascade.Audit.Appends.{emit-appends, emit-raises}
use noble_cascade.Errors.{Raised, Result, call_cases, err, is_ok, ok}
use noble_cascade.Models.{Approval, ApprovalState, granted, pending, same_approval_state}
use noble_cascade.Platform.{Platform}
use noble_cascade.Prelude.{
  Bool, Bool-cases, Option-cases, String, ap, arith, false, inl, inr, some, sym, true, ◌∙◌, ◌≡◌,
  ◌≢◌, ◌⊎◌,
}
use noble_cascade.Store.{Store, approval_key, find_row, get_approval, update_approval, update_row}
use noble_cascade.World.{World}

-- The approval `a`, stored under its identifier in the expected state, is replaced by `b`.
pub record Swapped (a b : Approval) (expected_state : ApprovalState) (s s' : Store) : Type 0 where
  pub stored : get_approval b.approval_id s ≡ some a
  pub expected : same_approval_state a.state expected_state ≡ true
  pub approvals : s'.approvals ≡ update_row approval_key b.approval_id b s.approvals

pub update_approval-Swapped :
    (b : Approval) (expected_state : ApprovalState) (s s' : Store) (r : Result Bool)
    → update_approval b expected_state s ≡ (r, s')
    → ((s'.approvals ≡ s.approvals) × (r ≡ ok false))
      ⊎ ((r ≡ ok true) × (a : Approval) × Swapped a b expected_state s s')
unfolding update_approval get_approval
update_approval-Swapped b expected_state s s' r h =
    elim (Option-cases (find_row approval_key b.approval_id s.approvals)) [
      | inl gone ↦ inl (ground arith)
      | inr (a, e) ↦ elim (Bool-cases (same_approval_state a.state expected_state)) [
        | inl same ↦
            inr (ground arith, a, record { stored = e; expected = same; approvals = ground arith })
        | inr other ↦ inl (ground arith)
      ]
    ]

Swapped-before :
    {a b : Approval} {x : ApprovalState} {s t s' : Store}
    → t.approvals ≡ s.approvals
    → Swapped a b x t s'
    → Swapped a b x s s'
unfolding get_approval
Swapped-before e k = record {
  stored = rw e at k.stored;
  expected = k.expected;
  approvals = rw e at k.approvals;
}

-- A call ended in a swap, or without one and with an exception.
abbrev pub SwapOrRaise : ApprovalState → Approval → World → Result Approval → World → Type 0
SwapOrRaise x b w r w' =
    ((w'.store.approvals ≡ w.store.approvals) × (is_ok r ≡ false))
    ⊎ ((r ≡ ok b) × (a : Approval) × Swapped a b x w.store w'.store)

after_emit :
    (x : ApprovalState) (b : Approval) (w u : World) (swapped : Bool) (s' : Store)
    → u.store.approvals ≡ w.store.approvals
    → update_approval b x u.store ≡ (ok swapped, s')
    → ((swapped ≡ false) × (s'.approvals ≡ w.store.approvals))
      ⊎ ((swapped ≡ true) × (a : Approval) × Swapped a b x w.store s')
after_emit x b w u swapped s' e h = elim (update_approval-Swapped b x u.store s' (ok swapped) h) [
  | inl (kept, stale) ↦ inl (ground arith, kept ∙ e)
  | inr (fresh, a, k) ↦ inr (ground arith, a, Swapped-before e k)
]

pub update_approval-ok :
    (b : Approval) (x : ApprovalState) (s s' : Store) {e : Raised}
    → update_approval b x s ≢ (err e, s')
unfolding update_approval
update_approval-ok b x s s' h = ground arith

pub commit_decision-SwapOrRaise :
    (os : Platform) (d : Decision) (b : Approval) (w w' : World) (r : Result Approval)
    → commit_decision os d b w ≡ (r, w')
    → SwapOrRaise pending b w r w'
unfolding commit_decision
commit_decision-SwapOrRaise os d b w w' r h = elim (call_cases (emit os (decision_entry d b) w)) [
  | inr (e, u, p) ↦
      let same = emit-raises os (decision_entry d b) w u p in inl (ground arith, ground arith)
  | inl (event, u, p) ↦
      let (row, _, logged) = emit-appends os (decision_entry d b) w u p in
      let same : u.store.approvals ≡ w.store.approvals = ap (λ (s : Store). s.approvals) logged in
      elim (call_cases (update_approval b pending u.store)) [
        | inr (e, s', q) ↦ absurd (update_approval-ok b pending u.store s' q)
        | inl (swapped, s', q) ↦ elim (after_emit pending b w u swapped s' same q) [
          | inl (stale, kept) ↦ inl (ground arith, ground arith)
          | inr (fresh, a, k) ↦
              let end : w'.store ≡ s' = ground arith in
              inr (ground arith, a, subst (λ s. Swapped a b pending w.store s) (sym end) k)
        ]
      ]
]

pub commit_revocation-SwapOrRaise :
    (os : Platform) (approver : String) (b : Approval) (w w' : World) (r : Result Approval)
    → commit_revocation os approver b w ≡ (r, w')
    → SwapOrRaise granted b w r w'
unfolding commit_revocation
commit_revocation-SwapOrRaise os approver b w w' r h =
    elim (call_cases (emit os (revocation_entry approver b) w)) [
      | inr (e, u, p) ↦
          let same = emit-raises os (revocation_entry approver b) w u p in
          inl (ground arith, ground arith)
      | inl (event, u, p) ↦
          let (row, _, logged) = emit-appends os (revocation_entry approver b) w u p in
          let same : u.store.approvals ≡ w.store.approvals =
            ap (λ (s : Store). s.approvals) logged in
          elim (call_cases (update_approval b granted u.store)) [
            | inr (e, s', q) ↦ absurd (update_approval-ok b granted u.store s' q)
            | inl (swapped, s', q) ↦ elim (after_emit granted b w u swapped s' same q) [
              | inl (stale, kept) ↦ inl (ground arith, ground arith)
              | inr (fresh, a, k) ↦
                  let end : w'.store ≡ s' = ground arith in
                  inr (ground arith, a, subst (λ s. Swapped a b granted w.store s) (sym end) k)
            ]
          ]
    ]
