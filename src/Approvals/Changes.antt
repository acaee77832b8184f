-- ===== src/Approvals/Changes.antt =====
-- What a call of `request` or `revoke` does to the stored approvals.
use mathlib.Core.Path.{subst}
use noble_cascade.Approvals.Decided.{Swapped, commit_revocation-SwapOrRaise}
use noble_cascade.Approvals.Decisions.{is_approver, revocation_of, revoke}
use noble_cascade.Approvals.Outcomes.{get_approval-key, same_stored}
use noble_cascade.Approvals.Requests.{
  approval_of, commit_request, request_approval, request_entry, request_first,
}
use noble_cascade.Approvals.Valid.{is_approver_iff}
use noble_cascade.Audit.{emit}
use noble_cascade.Audit.Appends.{emit-appends, emit-raises}
use noble_cascade.Errors.{Result, call_cases, err, is_ok, ok}
use noble_cascade.Models.{
  Approval, RiskAssessment, Scope, SecurityRequest, granted, pending, requires_approval,
  same_approval_state,
}
use noble_cascade.Platform.{Platform}
use noble_cascade.Prelude.{
  Bool-cases, List, Option, Option-cases, String, [], ap, arith, concat, false, inl, inr, leb, none,
  not, refl, some, sym, true, ℕ, ◌&&◌, ◌++◌, ◌+◌, ◌||◌, ◌∷◌, ◌≡◌, ◌⊎◌,
}
use noble_cascade.Store.{Store, approval_key, find_row, get_approval, insert_row, put_approval}
use noble_cascade.World.{World}
use noble_cascade.World.Reading.{moment_at, moment_of-reading, read_clock, read_clock-store}

-- A call of `revoke` either raises and leaves the approvals alone, or it returns the revocation of a
-- granted approval, on the word of its approver, and has stored it.
pub revoke-cases :
    (os : Platform) (k approver : String) (now : Option ℕ) (w w' : World) (r : Result Approval)
    → revoke os k approver now w ≡ (r, w')
    → ((w'.store.approvals ≡ w.store.approvals) × (is_ok r ≡ false))
      ⊎ ((a : Approval) × (get_approval k w.store ≡ some a)
          × (r ≡ ok (revocation_of a (moment_at os now w)))
          × (a.approver ≡ some approver)
          × Swapped a (revocation_of a (moment_at os now w)) granted w.store w'.store)
unfolding revoke revocation_of
revoke-cases os k approver now w w' r h = elim (Option-cases (get_approval k w.store)) [
  | inl missing ↦ inl (ground arith, ground arith)
  | inr (a, found) ↦
      elim (Bool-cases
        (not (same_approval_state a.state granted) || not (is_approver a.approver approver))) [
          | inl refused ↦ inl (ground arith, ground arith)
          | inr passed ↦
              let u = read_clock now w in
              let b = revocation_of a (moment_at os now w) in
              let same = read_clock-store now w in
              let name = get_approval-key k w.store a found in
              let stored : get_approval b.approval_id w.store ≡ some a =
                subst (λ j. get_approval j w.store ≡ some a) (sym name) found in
              elim (commit_revocation-SwapOrRaise os approver b u w' r
                (ground (arith, moment_of-reading os now w))) [
                  | inl (kept, raised) ↦ inl (rw same at kept, raised)
                  | inr (done, c, q) ↦ inr (
                    a,
                    found,
                    done,
                    (is_approver_iff a.approver approver).0 (ground arith),
                    same_stored {b = b} stored (subst (λ s. Swapped c b granted s w'.store) same q),
                  )
                ]
        ]
]

put_approval-adds :
    (b : Approval) (s s' : Store) (r : Result (Unit {0}))
    → put_approval b s ≡ (r, s')
    → ((s'.approvals ≡ s.approvals) × (is_ok r ≡ false))
      ⊎ ((r ≡ ok tt)
          × (get_approval b.approval_id s ≡ none)
          × (s'.approvals ≡ s.approvals ++ b ∷ []))
unfolding put_approval get_approval insert_row
put_approval-adds b s s' r h =
    elim (Option-cases (find_row approval_key b.approval_id s.approvals)) [
      | inl free ↦ inr (ground arith, ground arith, ground arith)
      | inr (a, taken) ↦ inl (ground arith, ground arith)
    ]

commit_request-cases :
    (os : Platform) (request : SecurityRequest) (risk : RiskAssessment) (scope : Scope)
    (b : Approval) (w w' : World) (r : Result Approval)
    → commit_request os request risk scope b w ≡ (r, w')
    → ((w'.store.approvals ≡ w.store.approvals) × (is_ok r ≡ false))
      ⊎ ((r ≡ ok b)
          × (get_approval b.approval_id w.store ≡ none)
          × (w'.store.approvals ≡ w.store.approvals ++ b ∷ []))
unfolding commit_request get_approval
commit_request-cases os request risk scope b w w' r h =
    let e = request_entry request scope risk b.target b.approval_id in
    elim (call_cases (emit os e w)) [
      | inr (x, u, p) ↦ let same = emit-raises os e w u p in inl (ground arith, ground arith)
      | inl (event, u, p) ↦
          let (row, _, logged) = emit-appends os e w u p in
          let same : u.store.approvals ≡ w.store.approvals =
            ap (λ (s : Store). s.approvals) logged in
          elim (call_cases (put_approval b u.store)) [
            | inr (x, s', q) ↦ elim (put_approval-adds b u.store s' (err x) q) [
              | inl (kept, raised) ↦ inl (ground arith, ground arith)
              | inr (done, free, more) ↦ absurd (ground arith)
            ]
            | inl (_, s', q) ↦ elim (put_approval-adds b u.store s' (ok tt) q) [
              | inl (kept, raised) ↦ absurd (ground arith)
              | inr (done, free, more) ↦
                  let end : w'.store ≡ s' = ground arith in
                  inr (ground arith, rw same at free, rw (end, more, same))
            ]
          ]
    ]

-- A pending approval of the request, under an identifier that was free, joins the others.
pub record Requested (request : SecurityRequest) (b : Approval) (s s' : Store) : Type 0 where
  pub state : b.state ≡ pending
  pub requester : b.requester ≡ request.requester
  pub free : get_approval b.approval_id s ≡ none
  pub approvals : s'.approvals ≡ s.approvals ++ b ∷ []

request_first-cases :
    (os : Platform) (request : SecurityRequest) (risk : RiskAssessment) (scope : Scope) (n : ℕ)
    (now : Option ℕ) (targets : List String) (w w' : World) (r : Result Approval)
    → request_first os request risk scope n now targets w ≡ (r, w')
    → ((w'.store.approvals ≡ w.store.approvals) × (is_ok r ≡ false))
      ⊎ ((b : Approval) × (r ≡ ok b) × Requested request b w.store w'.store)
unfolding request_first approval_of
request_first-cases os request risk scope n now [] w w' r h = inl (
  ground (arith, moment_of-reading os now w, read_clock-store now w),
  ground (arith, moment_of-reading os now w),
)
request_first-cases os request risk scope n now (first ∷ _) w w' r h =
    let v = read_clock now w in
    let u = record v { draws = v.draws + 1 } in
    let b =
      approval_of os request risk scope n first (moment_at os now w)
        (concat "approval" (concat "-" (os.hex v.draws))) in
    let same = read_clock-store now w in
    elim (commit_request-cases os request risk scope b u w' r
      (ground (arith, moment_of-reading os now w))) [
        | inl (kept, raised) ↦ inl (rw same at kept, raised)
        | inr (done, free, more) ↦ inr (
          b,
          done,
          record {
            state = refl;
            requester = refl;
            free = rw same at free;
            approvals = rw same at more;
          },
        )
      ]

-- A call of `request` either raises and leaves the approvals alone, or the tier is HIGH or CRITICAL
-- and it adds one pending approval of the request under a new identifier.
pub request_approval-cases :
    (os : Platform) (request : SecurityRequest) (risk : RiskAssessment) (scope : Scope) (n : ℕ)
    (now : Option ℕ) (w w' : World) (r : Result Approval)
    → request_approval os request risk scope n now w ≡ (r, w')
    → ((w'.store.approvals ≡ w.store.approvals) × (is_ok r ≡ false))
      ⊎ ((requires_approval risk ≡ true)
          × (b : Approval) × (r ≡ ok b)
          × Requested request b w.store w'.store)
unfolding request_approval
request_approval-cases os request risk scope n now w w' r h =
    elim (Bool-cases (requires_approval risk && leb 1 n && leb n 3600)) [
      | inr refused ↦ inl (ground arith, ground arith)
      | inl passed ↦
          elim (request_first-cases os request risk scope n now scope.allowed_targets w w' r
            (ground arith)) [
              | inl kept ↦ inl kept
              | inr (b, done, q) ↦ inr (ground arith, b, done, q)
            ]
    ]
