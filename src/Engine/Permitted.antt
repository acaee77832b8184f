-- ===== src/Engine/Permitted.antt =====
-- What the authorization gate has found when it lets a request pass.
use mathlib.Core.Path.{subst}
use noble_cascade.Authorization.{check}
use noble_cascade.Authorization.Check.{Permits, check_reads, check_sound}
use noble_cascade.Engine.Frame.{
  Frame, Frame-trans, Read, Read-wider, end_ok, enter-Frame, note-Frame, on_world_ok, then_ok,
}
use noble_cascade.Engine.Gates.{authorization_gate}
use noble_cascade.Engine.Steps.{Run, Setting, doing, enter, note, obs, on_world}
use noble_cascade.Errors.{Exec, ok, pure, ◌>>=◌, ◌>>◌}
use noble_cascade.Models.{
  Authorization, AuthorizationGrant, SecurityRequest, Target, ToolDefinition, authorization_check,
  end, field, str,
}
use noble_cascade.Prelude.{Option, String, ap, arith, concat, none, some, ◌≡◌}
use noble_cascade.Store.{Store, get_grant}

pub get_grant-Frame :
    {r r' : Run} {x : Option AuthorizationGrant}
    → Frame r r'
    → (k : String) → get_grant k r'.world.store ≡ x
    → get_grant k r.world.store ≡ x
unfolding get_grant
get_grant-Frame f k h = rw f.grants at h

abbrev auth_end : Setting → SecurityRequest → Authorization → Exec Run Authorization
auth_end g request auth =
    doing (obs g request "AUTH" "authorization granted" (field "grant_id" (str auth.grant_id) end))
    >> pure auth

abbrev auth_note : Setting → SecurityRequest → Authorization → Exec Run Authorization
auth_note g request auth =
    note g request "AUTHORIZED"
      (concat "grant " (concat auth.grant_id " permits the required capability"))
    >> auth_end g request auth

pub authorization_gate_sound :
    (g : Setting) (request : SecurityRequest) (target : Target) (d : ToolDefinition) (r r' : Run)
    {auth : Authorization}
    → authorization_gate g request target d r ≡ (ok auth, r')
    → Frame r r'
      × (grant : AuthorizationGrant) × (request.authorization_grant ≡ some auth.grant_id)
      × (get_grant auth.grant_id r.world.store ≡ some grant)
      × Permits grant request target d.required_permissions auth.checked_at
      × Read g r r' auth.checked_at
unfolding authorization_gate
authorization_gate_sound g request target d r r' {auth} h =
    let asks : Unit {0} → Exec Run Authorization = λ _.
      on_world (check g.os request target d.required_permissions none) >>= auth_note g request in
    let (_, r1, entered, h1) = then_ok (enter g request authorization_check) asks r r' auth h in
    let (found, r2, checked, h2) =
      then_ok (on_world (check g.os request target d.required_permissions none))
        (auth_note g request) r1 r' auth h1 in
    let (_, r3, noted, h3) =
      then_ok
        (note g request "AUTHORIZED"
          (concat "grant " (concat found.grant_id " permits the required capability")))
        (λ _. auth_end g request found) r2 r' auth h2 in
    let (same, ended) =
      end_ok g request "AUTH" "authorization granted" (field "grant_id" (str found.grant_id) end) r3
        r' found auth h3 in
    let first = enter-Frame g request authorization_check r r1 entered in
    let (grant, named, stored, permitted, at, _, kept) =
      check_sound g.os request target d.required_permissions none r1.world r2.world
        (on_world_ok (check g.os request target d.required_permissions none) r1 r2 found checked) in
    let counted =
      check_reads g.os request target d.required_permissions r1.world r2.world
        (on_world_ok (check g.os request target d.required_permissions none) r1 r2 found checked) in
    let second_frame : Frame r1 r2 = record {
      grants = ap (λ (s : Store). s.grants) kept;
      approvals = ap (λ (s : Store). s.approvals) kept;
      readings = omega (arith, counted);
    } in
    let third = note-Frame g request "AUTHORIZED" _ r2 r3 noted in
    let rest = Frame-trans third ended in
    let read : Read g r1 r2 found.checked_at = record {
      reading = r1.world.readings;
      after = omega arith;
      before = omega (arith, counted);
      same = at;
    } in
    (
      Frame-trans first (Frame-trans second_frame rest),
      grant,
      subst (λ (a : Authorization). request.authorization_grant ≡ some a.grant_id) same named,
      subst (λ (a : Authorization). get_grant a.grant_id r.world.store ≡ some grant) same
          (get_grant-Frame first found.grant_id stored),
      subst
          (λ (a : Authorization). Permits grant request target d.required_permissions a.checked_at)
          same permitted,
      subst (λ (a : Authorization). Read g r r' a.checked_at) same
          (Read-wider g found.checked_at first.readings rest.readings read),
    )
