-- ===== src/Authorization/Issue.antt =====
-- Lemmas on Authorizer.issue of noble/authorization.py, and on a check after it.
use mathlib.Core.Path.{subst}
use noble_cascade.Audit.{emit, event_of, safe}
use noble_cascade.Audit.Appends.{emit-appends, emit-event, event_at}
use noble_cascade.Authorization.{
  IssueRequest, capabilities_of, check, commit_grant, grant_of, is_subset, issue, issue_entry,
  issue_refusal, second,
}
use noble_cascade.Authorization.Check.{Permits, check_complete}
use noble_cascade.Errors.{call_cases, is_ok, ok}
use noble_cascade.Models.{AuditEvent, AuthorizationGrant, SecurityRequest, Target, allowed}
use noble_cascade.Platform.{Platform}
use noble_cascade.Prelude.{
  List, Option-cases, String, [], all-contains, ap, arith, concat, contains, eq_refl, given, inl,
  inr, none, refl, some, sym, true, ℕ, ◌*◌, ◌++◌, ◌+◌, ◌∙◌, ◌∷◌, ◌≡◌, ◌≤◌,
}
use noble_cascade.Store.{AuditRow, Store, find_row-append, get_grant, insert_row, put_grant}
use noble_cascade.World.{World, moment_of}

-- The grant is stored under its identifier, the event of its issuance is the last on the log, and nothing
-- else of the database changed.
pub record Committed (os : Platform) (q : IssueRequest) (grant : AuthorizationGrant) (s s' : Store)
    : Type 0 where
  pub fresh : get_grant grant.grant_id s ≡ none
  pub stored : get_grant grant.grant_id s' ≡ some grant
  pub row : AuditRow
  pub event : AuditEvent
  pub content : row.content ≡ os.event_text event
  pub about : event.request_id ≡ grant.grant_id
  pub decision : event.decision ≡ safe os "GRANT_ISSUANCE_REQUESTED"
  pub result : event.result ≡ safe os "pending"
  pub operator : event.operator ≡ safe os q.issuer
  pub action : event.action ≡ safe os q.action
  pub target : event.target ≡ safe os q.target.canonical
  pub store :
      s' ≡ record s { grants = s.grants ++ grant ∷ []; audit_events = s.audit_events ++ row ∷ [] }

put_grant-Committed :
    (grant : AuthorizationGrant) (s s' : Store)
    → put_grant grant s ≡ (ok tt, s')
    → (get_grant grant.grant_id s ≡ none) × (s' ≡ record s { grants = s.grants ++ grant ∷ [] })
unfolding put_grant get_grant insert_row
put_grant-Committed grant s s' h = ground arith

abbrev with_grant : AuthorizationGrant → Store → Store
with_grant grant s = record s { grants = s.grants ++ grant ∷ [] }

get_grant-append :
    (grant : AuthorizationGrant) (s : Store)
    → get_grant grant.grant_id s ≡ none
    → get_grant grant.grant_id (record s { grants = s.grants ++ grant ∷ [] }) ≡ some grant
unfolding get_grant
get_grant-append grant s h = rw find_row-append (ground (arith, eq_refl grant.grant_id))

pub commit_grant-Committed :
    (os : Platform) (q : IssueRequest) (grant : AuthorizationGrant) (w w' : World)
    {g : AuthorizationGrant}
    → commit_grant os q grant w ≡ (ok g, w')
    → (g ≡ grant) × Committed os q grant w.store w'.store
unfolding commit_grant get_grant event_of
commit_grant-Committed os q grant w w' h =
    elim (call_cases (emit os (issue_entry q grant.grant_id) w)) [
      | inr (e, u, p) ↦ absurd (ground arith)
      | inl (event, u, p) ↦
          let (row, text, logged) = emit-appends os (issue_entry q grant.grant_id) w u p in
          elim (call_cases (put_grant grant u.store)) [
            | inr (e, s', k) ↦ absurd (ground arith)
            | inl (_, s', k) ↦
                let (fresh, shape) = put_grant-Committed grant u.store s' k in
                let end : w'.store ≡ s' = ground arith in
                let stored = get_grant-append grant u.store fresh in
                (
                  ground arith,
                  record {
                    fresh = rw logged at fresh;
                    stored = rw (end, shape) stored;
                    row = row;
                    event = event_at os (issue_entry q grant.grant_id) w;
                    content =
                        text
                        ∙ ap os.event_text (emit-event os (issue_entry q grant.grant_id) w u p);
                    about = refl;
                    decision = refl;
                    result = refl;
                    operator = refl;
                    action = refl;
                    target = refl;
                    store = end ∙ shape ∙ ap (with_grant grant) logged;
                  },
                )
          ]
    ]

-- What every issued grant keeps to.
pub record Proper (grant : AuthorizationGrant) : Type 0 where
  pub capability : contains (capabilities_of grant.role) grant.capability ≡ true
  pub privileges :
      (p : String)
      → contains grant.privileges p ≡ true
      → contains (capabilities_of grant.role) p ≡ true
  pub own_privilege : contains grant.privileges grant.capability ≡ true
  pub begins : grant.valid_from + second ≤ grant.valid_until
  pub ends : grant.valid_until ≤ grant.valid_from + 86400 * second

issue_refusal-Proper :
    (os : Platform) (q : IssueRequest) (grant_id : String) (moment : ℕ)
    → issue_refusal os q ≡ none
    → Proper (grant_of q grant_id moment)
unfolding issue_refusal grant_of is_subset
issue_refusal-Proper os q grant_id moment h = record {
  capability = ground arith;
  privileges = λ p m.
      all-contains (λ x. contains (capabilities_of q.role) x) q.privileges p (ground arith) m;
  own_privilege = ground arith;
  begins = ground arith;
  ends = ground arith;
}

issue-committed :
    (os : Platform) (q : IssueRequest) (w w' : World) {grant : AuthorizationGrant}
    → issue os q w ≡ (ok grant, w')
    → (issue_refusal os q ≡ none)
      × (u : World) × (grant_id : String) × (moment : ℕ) × (u.store ≡ w.store)
      × (commit_grant os q (grant_of q grant_id moment) u ≡ (ok grant, w'))
unfolding issue moment_of
issue-committed os q w w' h =
    let grant_id = concat "grant" (concat "-" (os.hex w.draws)) in
    elim (Option-cases (issue_refusal os q)) [
      | inr (e, p) ↦ absurd (ground arith)
      | inl p ↦ elim (Option-cases q.now) [
        | inl n ↦ (
          p,
          record w { draws = w.draws + 1; readings = w.readings + 1 },
          grant_id,
          os.clock w.readings,
          refl,
          ground arith,
        )
        | inr (m, n) ↦ (p, record w { draws = w.draws + 1 }, grant_id, m, refl, ground arith)
      ]
    ]

-- A grant that `issue` returns is within its role and its lifetime. It is stored, the event of its
-- request, with the grant's identifier, the issuer, the action and the target, is the last on the log,
-- and the rest of the database is as it was.
pub issue-Proper :
    (os : Platform) (q : IssueRequest) (w w' : World) {grant : AuthorizationGrant}
    → issue os q w ≡ (ok grant, w')
    → Proper grant × Committed os q grant w.store w'.store
issue-Proper os q w w' {grant} h =
    let (allowed, u, grant_id, moment, before, run) = issue-committed os q w w' h in
    let (same, committed) = commit_grant-Committed os q (grant_of q grant_id moment) u w' run in
    let there =
      subst (λ s. Committed os q (grant_of q grant_id moment) s w'.store) before committed in
    (
      subst Proper (sym same) (issue_refusal-Proper os q grant_id moment allowed),
      subst (λ g. Committed os q g w.store w'.store) (sym same) there,
    )

-- A request that a grant was issued for: the same principal, action, purpose and target, and no
-- permission beyond the privileges.
pub record Matches (q : IssueRequest) (r : SecurityRequest) (t : Target) (ps : List String)
    : Type 0 where
  pub requester : r.requester ≡ q.principal
  pub action : r.action ≡ q.action
  pub purpose : r.purpose ≡ q.purpose
  pub canonical : t.canonical ≡ q.target.canonical
  pub permissions : (p : String) → contains ps p ≡ true → contains q.privileges p ≡ true

grant_of-Permits :
    (q : IssueRequest) (grant_id : String) (moment at : ℕ) (r : SecurityRequest) (t : Target)
    (ps : List String)
    → contains (capabilities_of q.role) q.capability ≡ true
    → Matches q r t ps
    → moment ≤ at
    → at ≤ moment + q.valid_for_seconds * second
    → Permits (grant_of q grant_id moment) r t ps at
unfolding grant_of
grant_of-Permits q grant_id moment at r t ps c m l u = record {
  principal = sym m.requester;
  target_pattern = sym m.canonical;
  purpose = sym m.purpose;
  action = sym m.action;
  started = l;
  running = u;
  capability = c;
  permissions = m.permissions;
}

-- A grant that was issued authorizes, while it lasts, the requests that name it and that it was
-- issued for: the same principal, action, purpose and target, and no permission beyond its own.
pub issue-check :
    (os : Platform) (q : IssueRequest) (w w' : World) {grant : AuthorizationGrant}
    (r : SecurityRequest) (t : Target) (ps : List String) (at : ℕ)
    → issue os q w ≡ (ok grant, w')
    → given r.authorization_grant ≡ some grant.grant_id
    → Matches q r t ps
    → grant.valid_from ≤ at
    → at ≤ grant.valid_until
    → is_ok (check os r t ps (some at) w').0 ≡ true
unfolding grant_of
issue-check os q w w' {grant} r t ps at h named m l u =
    let (allowed, v, grant_id, moment, before, run) = issue-committed os q w w' h in
    let g = grant_of q grant_id moment in
    let (same, committed) = commit_grant-Committed os q g v w' run in
    let proper = issue_refusal-Proper os q grant_id moment allowed in
    let from : g.valid_from ≤ at = subst (λ (x : AuthorizationGrant). x.valid_from ≤ at) same l in
    let until : at ≤ g.valid_until =
      subst (λ (x : AuthorizationGrant). at ≤ x.valid_until) same u in
    let name = named ∙ ap (λ (x : AuthorizationGrant). some x.grant_id) same in
    let permitted = grant_of-Permits q grant_id moment at r t ps proper.capability m from until in
    rw (check_complete os r t ps at w' g name committed.stored permitted)
