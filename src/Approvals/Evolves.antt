-- ===== src/Approvals/Evolves.antt =====
-- What one change of the table of approvals means for one approval.
use mathlib.Core.Path.{subst}
use noble_cascade.Approvals.Changes.{Requested}
use noble_cascade.Approvals.Decided.{Swapped}
use noble_cascade.Approvals.Decisions.{Decision, decided}
use noble_cascade.Approvals.Outcomes.{DecidedBy, Decides}
use noble_cascade.Errors.{Result}
use noble_cascade.Models.{
  Approval, ApprovalState, SecurityRequest, expired, granted, not_required, pending, rejected,
  revoked, same_approval_state,
}
use noble_cascade.Prelude.{
  Bool, Bool-cases, String, ap, arith, eq_iff, false, if◌then◌else◌, inl, inr, none, refl, some,
  sym, true, ℕ, ◌==◌, ◌≡◌, ◌≢◌, ◌⊎◌,
}
use noble_cascade.Store.{
  Store, approval_key, find_row, find_row-append, find_row-update_ne, find_row-update_self,
  get_approval, update_row,
}

-- The moves that a stored approval can make.
pub data Moves : ApprovalState → ApprovalState → Type 0 where
  approves : Moves pending granted
  rejects : Moves pending rejected
  expires : Moves pending expired
  revokes : Moves granted revoked

-- The fields that no call changes.
pub record SameRequest (a b : Approval) : Type 0 where
  pub request_fingerprint : b.request_fingerprint ≡ a.request_fingerprint
  pub digest : b.scope_digest ≡ a.scope_digest
  pub requester : b.requester ≡ a.requester
  pub action : b.action ≡ a.action
  pub target : b.target ≡ a.target
  pub risk_tier : b.risk_tier ≡ a.risk_tier
  pub expires_at : b.expires_at ≡ a.expires_at

pub same_request :
    {a b : Approval}
    → (record b {
      approval_id = a.approval_id;
      state = a.state;
      requested_at = a.requested_at;
      approver = a.approver;
      decided_at = a.decided_at;
      reason = a.reason;
    })
      ≡ a
    → SameRequest a b
same_request e = record {
  request_fingerprint = ap (λ (x : Approval). x.request_fingerprint) e;
  digest = ap (λ (x : Approval). x.scope_digest) e;
  requester = ap (λ (x : Approval). x.requester) e;
  action = ap (λ (x : Approval). x.action) e;
  target = ap (λ (x : Approval). x.target) e;
  risk_tier = ap (λ (x : Approval). x.risk_tier) e;
  expires_at = ap (λ (x : Approval). x.expires_at) e;
}

-- If it is granted, then on the word of somebody who is not the requester.
abbrev pub GrantedByOther : Approval → Type 0
GrantedByOther a =
    a.state ≡ granted → (p : String) × (a.approver ≡ some p) × (p ≢ "") × (p ≢ a.requester)

-- What one call may do to the approval under the key `k`.
pub record Moved (k : String) (s s' : Store) : Type 0 where
  pub before : Approval
  pub after : Approval
  pub was : get_approval k s ≡ some before
  pub is : get_approval k s' ≡ some after
  pub move : Moves before.state after.state
  pub same : SameRequest before after
  pub by : GrantedByOther after

pub record Added (k : String) (s s' : Store) : Type 0 where
  pub new : Approval
  pub was : get_approval k s ≡ none
  pub is : get_approval k s' ≡ some new
  pub waits : new.state ≡ pending

abbrev pub Evolves : String → Store → Store → Type 0
Evolves k s s' = (get_approval k s' ≡ get_approval k s) ⊎ Moved k s s' ⊎ Added k s s'

pub kept-Evolves : (k : String) (s s' : Store) → s'.approvals ≡ s.approvals → Evolves k s s'
unfolding get_approval
kept-Evolves k s s' e = inl (ap (find_row approval_key k) e)

pub Swapped-Evolves :
    (k : String) (s s' : Store) (a b : Approval) (x : ApprovalState)
    → Swapped a b x s s'
    → Moves a.state b.state
    → SameRequest a b
    → GrantedByOther b
    → Evolves k s s'
unfolding get_approval
Swapped-Evolves k s s' a b x q m same by = elim (Bool-cases (b.approval_id == k)) [
  | inl here ↦
      let name = (eq_iff b.approval_id k).0 here in
      inr (
        inl (record {
          before = a;
          after = b;
          was = subst (λ j. get_approval j s ≡ some a) name q.stored;
          is = rw q.approvals (
              subst
                (λ j.
                  find_row approval_key j (update_row approval_key b.approval_id b s.approvals)
                  ≡ some b)
                name
                (find_row-update_self approval_key b.approval_id b a s.approvals q.stored refl));
          move = m;
          same = same;
          by = by;
        }))
  | inr other ↦
      inl
        (rw q.approvals (find_row-update_ne approval_key b.approval_id k b s.approvals refl other))
]

same_pending-eq : (s : ApprovalState) → same_approval_state s pending ≡ true → s ≡ pending
unfolding same_approval_state
same_pending-eq not_required h = ground arith
same_pending-eq _ h = ground arith

decided-Moves :
    (a : Approval) (d : Decision) (moment : ℕ)
    → a.state ≡ pending
    → Moves a.state (decided a d moment).state
unfolding decided
decided-Moves a d moment e =
    subst (λ x. Moves x (if d.approve then granted else rejected)) (sym e) (verdict d.approve)
  where
    verdict : (b : Bool) → Moves pending (if b then granted else rejected)
    verdict true = approves
    verdict false = rejects

decided-GrantedByOther :
    (a : Approval) (d : Decision) (moment : ℕ) (s : Store)
    → DecidedBy d a moment s
    → GrantedByOther (decided a d moment)
unfolding decided
decided-GrantedByOther a d moment s by h = (d.approver, refl, by.someone, by.other)

pub Decides-Evolves :
    (d : Decision) (a : Approval) (moment : ℕ) (k : String) (s s' : Store) (r : Result Approval)
    → Decides d a moment s s' r
    → Evolves k s s'
unfolding decided
Decides-Evolves d a moment k s s' r (inl (kept, _)) = kept-Evolves k s s' kept
Decides-Evolves d a moment k s s' r (inr (inl (_, _, q))) =
    Swapped-Evolves k s s' a (record a { state = expired }) pending q
      (subst (λ x. Moves x expired) (sym (same_pending-eq a.state q.expected)) expires)
      (same_request refl) (λ h. ground arith)
Decides-Evolves d a moment k s s' r (inr (inr (_, by, q))) =
    Swapped-Evolves k s s' a (decided a d moment) pending q
      (decided-Moves a d moment (same_pending-eq a.state q.expected)) (same_request refl)
      (decided-GrantedByOther a d moment s by)

pub added-Evolves :
    (request : SecurityRequest) (b : Approval) (k : String) (s s' : Store)
    → Requested request b s s'
    → Evolves k s s'
unfolding get_approval
added-Evolves request b k s s' q = elim (Bool-cases (b.approval_id == k)) [
  | inr other ↦ inl (rw (q.approvals, find_row-append) (ground arith))
  | inl here ↦
      let name = (eq_iff b.approval_id k).0 here in
      let free : get_approval k s ≡ none = subst (λ j. get_approval j s ≡ none) name q.free in
      inr (
        inr (record {
          new = b;
          was = free;
          is = rw (q.approvals, find_row-append) (ground (arith, free));
          waits = q.state;
        }))
]
