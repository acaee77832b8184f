-- ===== src/Authorization/Check.antt =====
-- Lemmas on Authorizer.check of noble/authorization.py.
use mathlib.Core.Path.{subst}
use noble_cascade.Authorization.{
  capabilities_of, check, check_given, check_grant, is_subset, permits,
}
use noble_cascade.Errors.{ok}
use noble_cascade.Models.{Authorization, AuthorizationGrant, SecurityRequest, Target, active_at}
use noble_cascade.Platform.{Platform}
use noble_cascade.Prelude.{
  List, Option, Option-cases, String, all-contains, all-intro, ap, arith, contains, eq_iff, given,
  inl, inr, none, refl, some, sym, true, ℕ, ◌+◌, ◌↔◌, ◌∙◌, ◌≡◌, ◌≢◌, ◌≤◌,
}
use noble_cascade.Store.{Store, find_row-key, get_grant}
use noble_cascade.World.{World, moment_of}
use noble_cascade.World.Reading.{moment_at}

-- The grant covers the request, on this target and with these permissions, at this moment.
pub record Permits (g : AuthorizationGrant) (request : SecurityRequest) (target : Target)
    (required_permissions : List String) (moment : ℕ) : Type 0 where
  pub principal : g.principal ≡ request.requester
  pub target_pattern : g.target_pattern ≡ target.canonical
  pub purpose : g.purpose ≡ request.purpose
  pub action : g.action ≡ request.action
  pub started : g.valid_from ≤ moment
  pub running : moment ≤ g.valid_until
  pub capability : contains (capabilities_of g.role) g.capability ≡ true
  pub permissions :
      (p : String) → contains required_permissions p ≡ true → contains g.privileges p ≡ true

is_subset_iff :
    (xs ys : List String)
    → (is_subset xs ys ≡ true) ↔ ((p : String) → contains xs p ≡ true → contains ys p ≡ true)
unfolding is_subset
is_subset_iff xs ys = (
  (λ h p m. all-contains (λ x. contains ys x) xs p h m),
  λ h. all-intro (λ x. contains ys x) xs h,
)

pub permits-Permits :
    (g : AuthorizationGrant) (r : SecurityRequest) (t : Target) (ps : List String) (moment : ℕ)
    → permits g r t ps moment ≡ true
    → Permits g r t ps moment
unfolding permits active_at
permits-Permits g r t ps moment h = record {
  principal = (eq_iff g.principal r.requester).0 (ground arith);
  target_pattern = (eq_iff g.target_pattern t.canonical).0 (ground arith);
  purpose = (eq_iff g.purpose r.purpose).0 (ground arith);
  action = (eq_iff g.action r.action).0 (ground arith);
  started = ground arith;
  running = ground arith;
  capability = ground arith;
  permissions = (is_subset_iff ps g.privileges).0 (ground arith);
}

pub permits_of_Permits :
    (g : AuthorizationGrant) (r : SecurityRequest) (t : Target) (ps : List String) (moment : ℕ)
    → Permits g r t ps moment
    → permits g r t ps moment ≡ true
unfolding permits active_at
permits_of_Permits g r t ps moment k = ground (
  arith,
  (eq_iff g.principal r.requester).1 k.principal,
  (eq_iff g.target_pattern t.canonical).1 k.target_pattern,
  (eq_iff g.purpose r.purpose).1 k.purpose,
  (eq_iff g.action r.action).1 k.action,
  (is_subset_iff ps g.privileges).1 k.permissions,
)

check_grant_sound :
    (os : Platform) (r : SecurityRequest) (t : Target) (ps : List String) (now : Option ℕ)
    (found : Option AuthorizationGrant) (w w' : World) {auth : Authorization}
    → check_grant os r t ps now found w ≡ (ok auth, w')
    → (g : AuthorizationGrant) × (found ≡ some g)
      × Permits g r t ps auth.checked_at
      × (auth.grant_id ≡ g.grant_id)
      × (auth.checked_at ≡ moment_at os now w)
      × (auth.role ≡ g.role)
      × (w'.store ≡ w.store)
unfolding check_grant moment_of
check_grant_sound os r t ps now none w w' h = cc
check_grant_sound os r t ps (some now) (some g) w w' {auth} h =
    let at : auth.checked_at ≡ now = ground arith in
    (
      g,
      refl,
      rw at (permits-Permits g r t ps now (ground arith)),
      ground arith,
      ground arith,
      ground arith,
      ground arith,
    )
check_grant_sound os r t ps none (some g) w w' {auth} h =
    let at : auth.checked_at ≡ os.clock w.readings = ground arith in
    (
      g,
      refl,
      rw at (permits-Permits g r t ps (os.clock w.readings) (ground arith)),
      ground arith,
      ground arith,
      ground arith,
      ground arith,
    )

given-some : (o : Option String) (s : String) → given o ≡ some s → (o ≡ some s) × (s ≢ "")
given-some none s h = cc
given-some (some x) s h = ground (arith, eq_iff x "")

pub get_grant-key :
    (k : String) (s : Store) (g : AuthorizationGrant) → get_grant k s ≡ some g → g.grant_id ≡ k
unfolding get_grant
get_grant-key k s g h = find_row-key (λ (g : AuthorizationGrant). g.grant_id) k g s.grants h

check_given_sound :
    (os : Platform) (r : SecurityRequest) (t : Target) (ps : List String) (now : Option ℕ)
    (key : Option String) (w w' : World) {auth : Authorization}
    → check_given os r t ps now key w ≡ (ok auth, w')
    → (g : AuthorizationGrant) × (key ≡ some auth.grant_id)
      × (get_grant auth.grant_id w.store ≡ some g)
      × Permits g r t ps auth.checked_at
      × (auth.checked_at ≡ moment_at os now w)
      × (auth.role ≡ g.role)
      × (w'.store ≡ w.store)
unfolding check_given
check_given_sound os r t ps now none w w' h = cc
check_given_sound os r t ps now (some k) w w' h =
    let (g, found, permitted, same, at, role, kept) =
      check_grant_sound os r t ps now (get_grant k w.store) w w' h in
    let named : k ≡ _ = sym (get_grant-key k w.store g found) ∙ sym same in
    (
      g,
      ap some named,
      subst (λ x. get_grant x w.store ≡ some g) named found,
      permitted,
      at,
      role,
      kept,
    )

-- A check that succeeds has found, under the identifier that the request names, a stored grant that
-- permits the request at the moment of the check, which is the given one or else the clock's; it
-- changes nothing in the database.
pub check_sound :
    (os : Platform) (r : SecurityRequest) (t : Target) (ps : List String) (now : Option ℕ)
    (w w' : World) {auth : Authorization}
    → check os r t ps now w ≡ (ok auth, w')
    → (g : AuthorizationGrant) × (r.authorization_grant ≡ some auth.grant_id)
      × (get_grant auth.grant_id w.store ≡ some g)
      × Permits g r t ps auth.checked_at
      × (auth.checked_at ≡ moment_at os now w)
      × (auth.role ≡ g.role)
      × (w'.store ≡ w.store)
unfolding check
check_sound os r t ps now w w' h =
    let (g, named, found, permitted, at, role, kept) =
      check_given_sound os r t ps now (given r.authorization_grant) w w' h in
    (g, (given-some r.authorization_grant _ named).0, found, permitted, at, role, kept)

-- A check without a given moment reads the clock once.
pub check_reads :
    (os : Platform) (r : SecurityRequest) (t : Target) (ps : List String) (w w' : World)
    {auth : Authorization}
    → check os r t ps none w ≡ (ok auth, w')
    → w'.readings ≡ w.readings + 1
unfolding check
check_reads os r t ps w w' h = elim (Option-cases (given r.authorization_grant)) [
  | inl e ↦ absurd (unfold check_given in ground (arith, h, e))
  | inr (k, e) ↦ elim (Option-cases (get_grant k w.store)) [
    | inl f ↦ absurd (unfold check_given check_grant in ground (arith, h, e, f))
    | inr (g, f) ↦ unfold check_given check_grant moment_of in ground (arith, h, e, f)
  ]
]

-- A stored grant that permits the request at the given moment is enough.
pub check_complete :
    (os : Platform) (r : SecurityRequest) (t : Target) (ps : List String) (moment : ℕ) (w : World)
    (g : AuthorizationGrant)
    → given r.authorization_grant ≡ some g.grant_id
    → get_grant g.grant_id w.store ≡ some g
    → Permits g r t ps moment
    → check os r t ps (some moment) w ≡ (
      ok (record {
        grant_id = g.grant_id;
        principal = g.principal;
        role = g.role;
        capability = g.capability;
        checked_at = moment;
      }),
      w,
    )
unfolding check check_given check_grant moment_of
check_complete os r t ps moment w g e f k = ground (arith, permits_of_Permits g r t ps moment k)
