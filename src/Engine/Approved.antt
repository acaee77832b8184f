-- ===== src/Engine/Approved.antt =====
-- What the approval gate has found when it lets a request pass.
use mathlib.Core.Path.{subst}
use noble_cascade.Approvals.{ensure, request_approval}
use noble_cascade.Approvals.Valid.{Valid, ensure_reads, ensure_sound}
use noble_cascade.Engine.Clearance.{
  approval_gate, ask_and_raise, ensure_or_ask, state_text, wants_approval,
}
use noble_cascade.Engine.Frame.{
  Frame, Frame-trans, Read, Read-wider, enter-Frame, note-Frame, on_world_ok, then_ok,
}
use noble_cascade.Engine.Steps.{Run, Setting, doing, enter, note, obs, on_world}
use noble_cascade.Errors.{Exec, Raised, Result, err, is_ok, ok, pure, raise, ◌>>=◌, ◌>>◌}
use noble_cascade.Models.{
  Approval, RiskAssessment, Scope, SecurityRequest, approval_value, approved, end, field,
  requires_approval, str, waiting_for_approval,
}
use noble_cascade.Prelude.{
  Bool-cases, Option, String, ap, arith, given, if◌then◌else◌, inl, inr, none, refl, some, sym,
  true, ℕ, ◌≡◌, ◌≢◌, ◌≤◌,
}
use noble_cascade.Store.{Store, get_approval}
use noble_cascade.World.{World}

ask_and_raise-ok :
    (g : Setting) (request : SecurityRequest) (risk : RiskAssessment) (scoped : Scope) (e : Raised)
    (r r' : Run) {found : Option Approval}
    → ask_and_raise g request risk scoped e r ≢ (ok found, r')
unfolding ask_and_raise
ask_and_raise-ok g request risk scoped e r r' {found} h =
    let m = request_approval g.os request risk scoped 1800 none in
    let set = λ (a : Approval) (x : Run). record x {
      approval = some a;
      approval_state = approval_value a.state;
    } in
    let shown = λ (a : Approval).
      obs g request "AUTH" "approval required" (field "approval_id" (str a.approval_id) end) in
    let why : String = "awaiting a distinct authorized approver" in
    let asked_for : Approval → Exec Run (Option Approval) = λ a.
      doing (set a) >> (note g request "APPROVAL_PENDING" why >> (doing (shown a) >> raise e)) in
    let (a, r1, asked, h1) = then_ok (on_world m) asked_for r r' found h in
    let (_, r2, noted, h2) =
      then_ok (note g request "APPROVAL_PENDING" why) (λ _. doing (shown a) >> raise e) (set a r1)
        r' found h1 in
    ground (arith, ap (λ (x : Result (Option Approval) × Run). is_ok x.0) h2)

ensure_or_ask-ok :
    (g : Setting) (request : SecurityRequest) (risk : RiskAssessment) (scoped : Scope) (r r' : Run)
    {found : Option Approval}
    → ensure_or_ask g request risk scoped r ≡ (ok found, r')
    → on_world (ensure g.os request risk scoped none) r ≡ (ok found, r')
unfolding ensure_or_ask
ensure_or_ask-ok g request risk scoped r r' {found} h =
    answered (on_world (ensure g.os request risk scoped none) r) h
  where
    answered :
        (x : Result (Option Approval) × Run)
        → ◌≡◌ {A = Result (Option Approval) × Run}
            (let (y, q) = x in
              elim y [
                | ok approval ↦ (ok approval, q)
                | err e ↦
                    (if wants_approval e then ask_and_raise g request risk scoped e else raise e) q
              ])
            (ok found, r')
        → x ≡ (ok found, r')
    answered (ok a, q) k = k
    answered (err e, q) k = elim (Bool-cases (wants_approval e)) [
      | inl wanted ↦ absurd (ask_and_raise-ok g request risk scoped e q r' (rw wanted at k))
      | inr other ↦
          let never : ◌≡◌ {A = Result (Option Approval) × Run} (err e, q) (ok found, r') =
            rw other at k in
          absurd (ground (arith, ap (λ (x : Result (Option Approval) × Run). is_ok x.0) never))
    ]

-- If the tier is HIGH or CRITICAL, an approval is stored under the request's token in the first run, and
-- it is valid at a moment that was read between the two runs.
abbrev pub ApprovedIfNeeded :
    Setting → SecurityRequest → RiskAssessment → Scope → Run → Run → Option Approval → Type 0
ApprovedIfNeeded g request risk scoped r r' found =
    requires_approval risk ≡ true
    → (a : Approval) × (token : String) × (moment : ℕ) × (found ≡ some a)
      × (given request.approval_token ≡ some token)
      × (get_approval token r.world.store ≡ some a)
      × Valid g.os a request risk scoped moment
      × Read g r r' moment

ensure_passes :
    (g : Setting) (request : SecurityRequest) (risk : RiskAssessment) (scoped : Scope) (r r' : Run)
    {found : Option Approval}
    → ensure g.os request risk scoped none r.world ≡ (ok found, r'.world)
    → (r'.world.store ≡ r.world.store)
      × (r.world.readings ≤ r'.world.readings)
      × ApprovedIfNeeded g request risk scoped r r' found
unfolding ensure
ensure_passes g request risk scoped r r' {found} h =
    let w = r.world in
    let w' = r'.world in
    elim (Bool-cases (requires_approval risk)) [
      | inl needed ↦
          let (a, k, shown, named, stored, valid, kept) =
            ensure_sound g.os request risk scoped none w w' needed h in
          let counted = ensure_reads g.os request risk scoped w w' needed h in
          let read : Read g r r' (g.os.clock w.readings) = record {
            reading = w.readings;
            after = omega arith;
            before = omega (arith, counted);
            same = refl;
          } in
          (
            kept,
            omega (arith, counted),
            λ _. (a, k, g.os.clock w.readings, shown, named, stored, valid, read),
          )
      | inr spared ↦
          let free : ◌≡◌ {A = Result (Option Approval) × World} (ok none, w) (ok found, w') =
            rw (ensure, spared) at h in
          (
            sym (ap (λ (x : Result (Option Approval) × World). x.1.store) free),
            omega (arith, ap (λ (x : Result (Option Approval) × World). x.1.readings) free),
            λ n. absurd (cc (n, spared)),
          )
    ]

pub ApprovedIfNeeded-Frame :
    (g : Setting) (request : SecurityRequest) (risk : RiskAssessment) (scoped : Scope)
    {a b c d : Run}
    → Frame a b
    → c.world.readings ≤ d.world.readings
    → (found : Option Approval) → ApprovedIfNeeded g request risk scoped b c found
    → ApprovedIfNeeded g request risk scoped a d found
unfolding get_approval
ApprovedIfNeeded-Frame g request risk scoped f l found h needed =
    let (a, token, moment, shown, named, stored, valid, read) = h needed in
    (
      a,
      token,
      moment,
      shown,
      named,
      rw f.approvals at stored,
      valid,
      Read-wider g moment f.readings l read,
    )

pub approval_gate_sound :
    (g : Setting) (request : SecurityRequest) (risk : RiskAssessment) (scoped : Scope) (r r' : Run)
    {found : Option Approval}
    → approval_gate g request risk scoped r ≡ (ok found, r')
    → Frame r r' × ApprovedIfNeeded g request risk scoped r r' found
unfolding approval_gate
approval_gate_sound g request risk scoped r r' {found} h =
    let why : String = "approval satisfied or not required" in
    let set =
      λ (a : Option Approval) (x : Run). record x { approval = a; approval_state = state_text a } in
    let last : Option Approval → Exec Run (Option Approval) =
      λ a. enter g request approved >> pure a in
    let checked : Option Approval → Exec Run (Option Approval) =
      λ a. doing (set a) >> (note g request "APPROVAL_CHECKED" why >> last a) in
    let (_, r1, entered, h1) =
      then_ok (enter g request waiting_for_approval)
        (λ _. ensure_or_ask g request risk scoped >>= checked) r r' found h in
    let (a, r2, ensured, h2) =
      then_ok (ensure_or_ask g request risk scoped) checked r1 r' found h1 in
    let (_, r3, noted, h3) =
      then_ok (note g request "APPROVAL_CHECKED" why) (λ _. last a) (set a r2) r' found h2 in
    let (_, r4, gone_on, h4) = then_ok (enter g request approved) (λ _. pure a) r3 r' found h3 in
    let (stores, later, needed) = ensure_passes g request risk scoped r1 r2 (
      on_world_ok (ensure g.os request risk scoped none) r1 r2 a
        (ensure_or_ask-ok g request risk scoped r1 r2 ensured)) in
    let first = enter-Frame g request waiting_for_approval r r1 entered in
    let second_frame : Frame r1 (set a r2) = record {
      grants = ap (λ (s : Store). s.grants) stores;
      approvals = ap (λ (s : Store). s.approvals) stores;
      readings = later;
    } in
    let third = note-Frame g request "APPROVAL_CHECKED" why (set a r2) r3 noted in
    let fourth = enter-Frame g request approved r3 r4 gone_on in
    let same : a ≡ found = ground (arith, ap (λ (x : Result (Option Approval) × Run). x.0) h4) in
    let end_state : r4 ≡ r' = ap (λ (x : Result _ × Run). x.1) h4 in
    let rest = Frame-trans third (subst (Frame r3) end_state fourth) in
    (
      Frame-trans first (Frame-trans second_frame rest),
      subst (ApprovedIfNeeded g request risk scoped r r') same
          (ApprovedIfNeeded-Frame g request risk scoped first rest.readings a needed),
    )
