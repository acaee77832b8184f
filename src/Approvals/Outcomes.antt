-- ===== src/Approvals/Outcomes.antt =====
-- Every way that a call of decide or revoke can end.
use mathlib.Core.Path.{subst}
use noble_cascade.Approvals.Decided.{
  Swapped, commit_decision-SwapOrRaise, update_approval-Swapped, update_approval-ok,
}
use noble_cascade.Approvals.Decisions.{
  Decision, decide, decide_found, decide_live, decided, lacks_grant, may_approve,
}
use noble_cascade.Errors.{Result, call_cases, is_ok, ok}
use noble_cascade.Models.{
  Approval, ApprovalState, AuthorizationGrant, active_at, expired, pending, same_approval_state,
}
use noble_cascade.Platform.{Platform}
use noble_cascade.Prelude.{
  Bool-cases, Option, Option-cases, String, arith, contains, eq_iff, false, inl, inr, ltb, none,
  refl, some, sym, true, ℕ, ◌<◌, ◌==◌, ◌||◌, ◌∙◌, ◌≡◌, ◌≢◌, ◌≤◌, ◌⊎◌,
}
use noble_cascade.Store.{
  Store, approval_key, find_row-key, get_approval, get_grant, update_approval,
}
use noble_cascade.World.{World}
use noble_cascade.World.Reading.{moment_at, moment_of-reading, read_clock, read_clock-store}

-- The grant lets `approver` decide on this approval at this moment.
pub record MayApprove (g : AuthorizationGrant) (a : Approval) (approver : String) (moment : ℕ)
    : Type 0 where
  pub principal : g.principal ≡ approver
  pub role : g.role ≡ "approver"
  pub capability : g.capability ≡ "approve"
  pub privilege : contains g.privileges "approve" ≡ true
  pub action : g.action ≡ a.action
  pub target : g.target_pattern ≡ a.target
  pub started : g.valid_from ≤ moment
  pub running : moment ≤ g.valid_until

may_approve-MayApprove :
    (g : AuthorizationGrant) (a : Approval) (approver : String) (moment : ℕ)
    → may_approve g a approver moment ≡ true
    → MayApprove g a approver moment
unfolding may_approve active_at
may_approve-MayApprove g a approver moment h = record {
  principal = (eq_iff g.principal approver).0 (ground arith);
  role = (eq_iff g.role "approver").0 (ground arith);
  capability = (eq_iff g.capability "approve").0 (ground arith);
  privilege = ground arith;
  action = (eq_iff g.action a.action).0 (ground arith);
  target = (eq_iff g.target_pattern a.target).0 (ground arith);
  started = ground arith;
  running = ground arith;
}

-- An approval was decided in time, by someone else than the requester who holds a grant for it.
pub record DecidedBy (d : Decision) (a : Approval) (moment : ℕ) (s : Store) : Type 0 where
  pub other : d.approver ≢ a.requester
  pub someone : d.approver ≢ ""
  pub in_time : moment ≤ a.expires_at
  pub grant : AuthorizationGrant
  pub held : get_grant d.approver_grant_id s ≡ some grant
  pub permitted : MayApprove grant a d.approver moment

lacks_grant-MayApprove :
    (found : Option AuthorizationGrant) (a : Approval) (approver : String) (moment : ℕ)
    → lacks_grant found a approver moment ≡ false
    → (g : AuthorizationGrant) × (found ≡ some g) × MayApprove g a approver moment
unfolding lacks_grant
lacks_grant-MayApprove none a approver moment h = ground arith
lacks_grant-MayApprove (some g) a approver moment h =
    (g, refl, may_approve-MayApprove g a approver moment (ground arith))

-- the swap found the approval that was read
pub same_stored :
    {a b c : Approval} {x : ApprovalState} {s s' : Store}
    → get_approval b.approval_id s ≡ some a
    → Swapped c b x s s'
    → Swapped a b x s s'
same_stored {a} {b} {c} {x} {s} {s'} h k =
    subst (λ y. Swapped y b x s s') (ground (arith, k.stored, h)) k

abbrev pub Untouched : World → World → Result Approval → Type 0
Untouched w w' r = (w'.store.approvals ≡ w.store.approvals) × (is_ok r ≡ false)

decide_live-cases :
    (os : Platform) (d : Decision) (a : Approval) (moment : ℕ) (w w' : World) (r : Result Approval)
    → get_approval a.approval_id w.store ≡ some a
    → moment ≤ a.expires_at
    → decide_live os d a moment w ≡ (r, w')
    → Untouched w w' r
      ⊎ ((r ≡ ok (decided a d moment))
          × DecidedBy d a moment w.store
          × Swapped a (decided a d moment) pending w.store w'.store)
unfolding decide_live decided
decide_live-cases os d a moment w w' r stored l h =
    elim (Bool-cases (d.approver == a.requester || d.approver == "")) [
      | inl same ↦ inl (ground arith, ground arith)
      | inr other ↦
          elim (Bool-cases
            (lacks_grant (get_grant d.approver_grant_id w.store) a d.approver moment)) [
              | inl lacking ↦ inl (ground arith, ground arith)
              | inr held ↦
                  let (g, found, permitted) = lacks_grant-MayApprove _ a d.approver moment held in
                  let by : DecidedBy d a moment w.store = record {
                    other = λ e. ground (arith, (eq_iff d.approver a.requester).1 e);
                    someone = λ e. ground (arith, (eq_iff d.approver "").1 e);
                    in_time = l;
                    grant = g;
                    held = found;
                    permitted = permitted;
                  } in
                  elim (commit_decision-SwapOrRaise os d (decided a d moment) w w' r
                    (ground arith)) [
                      | inl kept ↦ inl kept
                      | inr (done, c, k) ↦ inr (done, by, same_stored stored k)
                    ]
            ]
    ]

-- What `decide` makes of the approval that it read: nothing, the mark of expiry, or a decision.
abbrev pub Decides : Decision → Approval → ℕ → Store → Store → Result Approval → Type 0
Decides d a moment s s' r =
    ((s'.approvals ≡ s.approvals) × (is_ok r ≡ false))
    ⊎ ((is_ok r ≡ false)
        × (a.expires_at < moment)
        × Swapped a (record a { state = expired }) pending s s')
    ⊎ ((r ≡ ok (decided a d moment))
        × DecidedBy d a moment s
        × Swapped a (decided a d moment) pending s s')

decide_found-cases :
    (os : Platform) (d : Decision) (a : Approval) (moment : ℕ) (w w' : World) (r : Result Approval)
    → get_approval a.approval_id w.store ≡ some a
    → decide_found os d a moment w ≡ (r, w')
    → Decides d a moment w.store w'.store r
unfolding decide_found
decide_found-cases os d a moment w w' r stored h =
    elim (Bool-cases (same_approval_state a.state pending)) [
      | inr settled ↦ inl (ground arith, ground arith)
      | inl waiting ↦ elim (Bool-cases (ltb a.expires_at moment)) [
        | inl late ↦
            let b = record a { state = expired } in
            elim (call_cases (update_approval b pending w.store)) [
              | inr (e, s', q) ↦ absurd (update_approval-ok b pending w.store s' q)
              | inl (swapped, s', q) ↦
                  elim (update_approval-Swapped b pending w.store s' (ok swapped) q) [
                    | inl (kept, stale) ↦ inl (ground arith, ground arith)
                    | inr (fresh, c, k) ↦
                        let end : w'.store ≡ s' = ground arith in
                        inr (
                          inl (
                            ground arith,
                            ground arith,
                            subst (λ s. Swapped a b pending w.store s) (sym end)
                                (same_stored {b = b} stored k),
                          ))
                  ]
            ]
        | inr timely ↦
            elim (decide_live-cases os d a moment w w' r stored (ground arith) (ground arith)) [
              | inl kept ↦ inl kept
              | inr done ↦ inr (inr done)
            ]
      ]
    ]

pub get_approval-key :
    (k : String) (s : Store) (a : Approval) → get_approval k s ≡ some a → a.approval_id ≡ k
unfolding get_approval
get_approval-key k s a h = find_row-key approval_key k a s.approvals h

decide-read :
    (os : Platform) (d : Decision) (a : Approval) (w : World)
    → get_approval d.approval_id w.store ≡ some a
    → decide os d w ≡ decide_found os d a (moment_at os d.now w) (read_clock d.now w)
unfolding decide
decide-read os d a w h = ground (arith, moment_of-reading os d.now w)

-- A call of `decide` ends in one of three ways: it raises and leaves the approvals alone; it raises
-- and has marked a pending approval expired whose time was over; or it returns the decision on a
-- pending approval, made in time by somebody who is not the requester and holds a grant for it, and
-- has stored that decision.
pub decide-cases :
    (os : Platform) (d : Decision) (w w' : World) (r : Result Approval)
    → decide os d w ≡ (r, w')
    → ((w'.store.approvals ≡ w.store.approvals) × (is_ok r ≡ false))
      ⊎ ((a : Approval) × (get_approval d.approval_id w.store ≡ some a)
          × Decides d a (moment_at os d.now w) w.store w'.store r)
decide-cases os d w w' r h = elim (Option-cases (get_approval d.approval_id w.store)) [
  | inl missing ↦ unfold decide in inl (ground arith, ground arith)
  | inr (a, found) ↦
      let u = read_clock d.now w in
      let same = read_clock-store d.now w in
      let name = get_approval-key d.approval_id w.store a found in
      let stored : get_approval a.approval_id u.store ≡ some a =
        rw same (subst (λ k. get_approval k w.store ≡ some a) (sym name) found) in
      let ways =
        decide_found-cases os d a (moment_at os d.now w) u w' r stored
          (sym (decide-read os d a w found) ∙ h) in
      inr (a, found, subst (λ s. Decides d a (moment_at os d.now w) s w'.store r) same ways)
]
