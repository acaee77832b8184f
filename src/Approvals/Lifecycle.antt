-- ===== src/Approvals/Lifecycle.antt =====
-- The life of an approval under any sequence of calls of the ApprovalManager.
use mathlib.Core.Path.{subst}
use noble_cascade.Approvals.Changes.{request_approval-cases, revoke-cases}
use noble_cascade.Approvals.Decisions.{Decision, decide, revocation_of, revoke}
use noble_cascade.Approvals.Evolves.{
  Decides-Evolves, Evolves, GrantedByOther, Moves, SameRequest, added-Evolves, approves, expires,
  kept-Evolves, rejects, revokes, same_request, Swapped-Evolves,
}
use noble_cascade.Approvals.Outcomes.{decide-cases}
use noble_cascade.Approvals.Requests.{request_approval}
use noble_cascade.Approvals.Valid.{same_granted}
use noble_cascade.Errors.{Exec, Result}
use noble_cascade.Models.{
  Approval, ApprovalState, RiskAssessment, Scope, SecurityRequest, expired, granted, rejected,
  revoked,
}
use noble_cascade.Platform.{Platform}
use noble_cascade.Prelude.{
  Bool, List, Option, String, [], arith, false, inl, inr, refl, some, sym, true, ℕ, ◌∙◌, ◌∷◌, ◌≡◌,
}
use noble_cascade.Store.{Store, get_approval}
use noble_cascade.World.{World}
use noble_cascade.World.Reading.{moment_at}

-- the calls of the manager
pub data ApprovalOp : Type 0 where
  ask : SecurityRequest → RiskAssessment → Scope → ℕ → Option ℕ → ApprovalOp
  answer : Decision → ApprovalOp
  withdraw : String → String → Option ℕ → ApprovalOp

pub call : Platform → ApprovalOp → Exec World Approval
call os (ask request risk scope valid_for_seconds now) =
    request_approval os request risk scope valid_for_seconds now
call os (answer d) = decide os d
call os (withdraw approval_id approver now) = revoke os approval_id approver now

pub call-Evolves :
    (os : Platform) (op : ApprovalOp) (k : String) (w w' : World) (r : Result Approval)
    → call os op w ≡ (r, w')
    → Evolves k w.store w'.store
unfolding call revocation_of
call-Evolves os (ask request risk scope n now) k w w' r h =
    elim (request_approval-cases os request risk scope n now w w' r h) [
      | inl (kept, _) ↦ kept-Evolves k w.store w'.store kept
      | inr (_, b, _, q) ↦ added-Evolves request b k w.store w'.store q
    ]
call-Evolves os (answer d) k w w' r h = elim (decide-cases os d w w' r h) [
  | inl (kept, _) ↦ kept-Evolves k w.store w'.store kept
  | inr (a, _, ways) ↦ Decides-Evolves d a (moment_at os d.now w) k w.store w'.store r ways
]
call-Evolves os (withdraw approval_id approver now) k w w' r h =
    elim (revoke-cases os approval_id approver now w w' r h) [
      | inl (kept, _) ↦ kept-Evolves k w.store w'.store kept
      | inr (a, _, _, _, q) ↦
          Swapped-Evolves k w.store w'.store a (revocation_of a (moment_at os now w)) granted q
            (subst (λ x. Moves x revoked) (sym (same_granted a.state q.expected)) revokes)
            (same_request refl) (λ h. ground arith)
    ]

-- the world after the calls, whether they return or raise
unfoldable pub call_all : Platform → List ApprovalOp → World → World
unfolding call
call_all os [] w = w
call_all os (op ∷ ops) w = call_all os ops (call os op w).1

one_call :
    (os : Platform) (op : ApprovalOp) (k : String) (w : World)
    → Evolves k w.store (call os op w).1.store
one_call os op k w = call-Evolves os op k w (call os op w).1 (call os op w).0 refl

-- Every granted approval of the table is granted by another principal than its requester.
abbrev pub NoSelfApproval : Store → Type 0
NoSelfApproval s = (k : String) (a : Approval) → get_approval k s ≡ some a → GrantedByOther a

Evolves-NoSelfApproval :
    (k : String) (s s' : Store) (a : Approval)
    → Evolves k s s'
    → NoSelfApproval s
    → get_approval k s' ≡ some a
    → GrantedByOther a
Evolves-NoSelfApproval k s s' a (inl kept) n h = n k a (sym kept ∙ h)
Evolves-NoSelfApproval k s s' a (inr (inl m)) n h =
    let here : m.after ≡ a = ground (arith, m.is, h) in subst GrantedByOther here m.by
Evolves-NoSelfApproval k s s' a (inr (inr m)) n h =
    λ g. absurd (ground (arith, m.is, m.waits, h, g))

-- Whatever calls are made of `request`, `decide` and `revoke`, by whomever and at whatever times, if no
-- stored approval was granted by its own requester or by nobody, none is afterwards.
pub no_self_approval :
    (os : Platform) (ops : List ApprovalOp) (w : World)
    → NoSelfApproval w.store
    → NoSelfApproval (call_all os ops w).store
unfolding call_all
no_self_approval os [] w n = n
no_self_approval os (op ∷ ops) w n =
    no_self_approval os ops (call os op w).1
      (λ k a h. Evolves-NoSelfApproval k w.store (call os op w).1.store a (one_call os op k w) n h)

-- Zero or more moves.
pub data Reaches : ApprovalState → ApprovalState → Type 0 where
  stays : {x : ApprovalState} → Reaches x x
  moves : {x y z : ApprovalState} → Moves x y → Reaches y z → Reaches x z

-- What stays of an approval: its request, and a state that the first one leads to.
pub record Descends (k : String) (a : Approval) (s : Store) : Type 0 where
  pub later : Approval
  pub stored : get_approval k s ≡ some later
  pub reached : Reaches a.state later.state
  pub same : SameRequest a later

Reaches-step : {x y z : ApprovalState} → Reaches x y → Moves y z → Reaches x z
Reaches-step stays m = moves m stays
Reaches-step (moves n r) m = moves n (Reaches-step r m)

SameRequest-trans : {a b c : Approval} → SameRequest a b → SameRequest b c → SameRequest a c
SameRequest-trans p q = record {
  request_fingerprint = q.request_fingerprint ∙ p.request_fingerprint;
  digest = q.digest ∙ p.digest;
  requester = q.requester ∙ p.requester;
  action = q.action ∙ p.action;
  target = q.target ∙ p.target;
  risk_tier = q.risk_tier ∙ p.risk_tier;
  expires_at = q.expires_at ∙ p.expires_at;
}

Evolves-Descends :
    (k : String) (a : Approval) (s s' : Store) → Evolves k s s' → Descends k a s → Descends k a s'
Evolves-Descends k a s s' (inl kept) d = record {
  later = d.later;
  stored = kept ∙ d.stored;
  reached = d.reached;
  same = d.same;
}
Evolves-Descends k a s s' (inr (inl m)) d =
    let here : d.later ≡ m.before = ground (arith, d.stored, m.was) in
    record {
      later = m.after;
      stored = m.is;
      reached =
          Reaches-step (subst (λ (x : Approval). Reaches a.state x.state) here d.reached) m.move;
      same = SameRequest-trans (subst (SameRequest a) here d.same) m.same;
    }
Evolves-Descends k a s s' (inr (inr m)) d = absurd (ground (arith, d.stored, m.was))

-- Whatever calls are made, a stored approval stays stored, for the request, the scope, the target
-- and the time that it was asked for, and its state is one that the moves lead to.
pub approval-Descends :
    (os : Platform) (ops : List ApprovalOp) (k : String) (a : Approval) (w : World)
    → Descends k a w.store
    → Descends k a (call_all os ops w).store
unfolding call_all
approval-Descends os [] k a w d = d
approval-Descends os (op ∷ ops) k a w d =
    approval-Descends os ops k a (call os op w).1
      (Evolves-Descends k a w.store (call os op w).1.store (one_call os op k w) d)

abbrev pub is_settled : ApprovalState → Bool
is_settled rejected = true
is_settled expired = true
is_settled revoked = true
is_settled _ = false

settled-stays : {x y : ApprovalState} → Moves x y → is_settled x ≡ true → ⊥
settled-stays approves h = cc
settled-stays rejects h = cc
settled-stays expires h = cc
settled-stays revokes h = cc

Evolves-settled :
    (k : String) (a : Approval) (s s' : Store)
    → Evolves k s s'
    → is_settled a.state ≡ true
    → get_approval k s ≡ some a
    → get_approval k s' ≡ some a
Evolves-settled k a s s' (inl kept) e h = kept ∙ h
Evolves-settled k a s s' (inr (inl m)) e h =
    absurd (settled-stays m.move (ground (arith, m.was, h, e)))
Evolves-settled k a s s' (inr (inr m)) e h = absurd (ground (arith, m.was, h))

-- A stored approval that is rejected, expired or revoked is never touched again, whatever calls are
-- made.
pub settled_for_good :
    (os : Platform) (ops : List ApprovalOp) (k : String) (a : Approval) (w : World)
    → is_settled a.state ≡ true
    → get_approval k w.store ≡ some a
    → get_approval k (call_all os ops w).store ≡ some a
unfolding call_all
settled_for_good os [] k a w e h = h
settled_for_good os (op ∷ ops) k a w e h =
    settled_for_good os ops k a (call os op w).1 e
      (Evolves-settled k a w.store (call os op w).1.store (one_call os op k w) e h)
