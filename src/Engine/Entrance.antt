-- ===== src/Engine/Entrance.antt =====
-- The first and the last gate of NobleEngine.run (noble/engine.py), as steps that keep a run
-- underway: the reservation of the request, and the approval.
use mathlib.Core.Path.{subst}
use noble_cascade.Approvals.{ensure, request_approval}
use noble_cascade.Engine.Clearance.{
  approval_gate, ask_and_raise, ensure_or_ask, run_gates, state_text, wants_approval,
}
use noble_cascade.Engine.Course.{authorization_gate-On, on_enter, risk_gate-On, scope_gate-On}
use noble_cascade.Engine.Gates.{
  authorization_gate, check_none, identity_refusal, reserve_id, risk_gate, scope_gate,
  shape_refusal, tool_name, validate_gate,
}
use noble_cascade.Engine.Steps.{Run, Setting, doing, enter, on_world}
use noble_cascade.Engine.Underway.{
  Keeps-check_none, Keeps-doing, Keeps-note, Keeps-obs, Keeps-world, Steady, Underway,
  Underway-Steady, world-Steady,
}
use noble_cascade.Engine.Undisturbed.{ensure-Same, request_approval-Same, reserve_id-Same}
use noble_cascade.Errors.{
  Exec, Raised, Result, Result-cases, lift, ok, raise, raise_if, ◌>>=◌, ◌>>◌,
}
use noble_cascade.Errors.Keeps.{
  Keeps, Keeps-bind, Keeps-if, Keeps-lift, Keeps-pure, Keeps-raise, Keeps-raise_if, Keeps-then,
}
use noble_cascade.Models.{
  Approval, RiskAssessment, Scope, SecurityRequest, Target, approval_value, approved, validating,
  waiting_for_approval,
}
use noble_cascade.Prelude.{
  Bool-cases, Option, Option-cases, String, arith, false, inl, inr, none, not, refl, some, true,
  ◌≡◌,
}
use noble_cascade.Registry.{get_tool}
use noble_cascade.Store.{Store, find_row, get_result, is_taken, result_key}
use noble_cascade.World.{World}

module _ (s0 : Store) (rid : String) (j : Option String) where
  abbrev On : Run → Type 0
  On = Underway s0 rid j

  abbrev on_steady : (r r' : Run) → Steady r r' → On r → On r'
  on_steady = Underway-Steady s0 rid j

  reserve_id-answer :
      (g : Setting) (request : SecurityRequest) (w : World)
      → (reserve_id g request w).0 ≡ ok (not (is_taken request.request_id w.store))
  unfolding reserve_id
  reserve_id-answer g request w = ground arith

  free_result :
      (s : Store) → is_taken rid s ≡ false → s.requests ≡ s0.requests → get_result rid s0 ≡ none
  unfolding is_taken get_result
  free_result s free same = elim (Option-cases (find_row result_key rid s0.requests)) [
    | inl e ↦ e
    | inr (a, e) ↦ absurd (ground (arith, e, same))
  ]

  marked : Run → Run
  marked r = record r { request_reserved = true }

  marked-On : (r : Run) → get_result rid s0 ≡ none → On r → On (marked r)
  unfolding marked
  marked-On r free u = record {
    live = u.live;
    tied = record {
      held = u.tied.held;
      leases = u.tied.leases;
      requests = u.tied.requests;
      fresh = λ _. free;
      execution = u.tied.execution;
    };
  }

  -- the reservation, with what comes after it
  reserve-On :
      {A : Type 0} (g : Setting) (request : SecurityRequest) (e : Raised) (k : Exec Run A)
      → request.request_id ≡ rid
      → Keeps On k
      → Keeps On (
          on_world (reserve_id g request) >>= λ reserved.
          raise_if (not reserved) e >> (doing marked >> k))
  reserve-On g request e k same later = record {
    after = λ r u.
        let w = (reserve_id g request r.world).1 in
        let after_call = record r { world = w } in
        let there : On after_call =
          on_steady r after_call (world-Steady r w (reserve_id-Same g request r.world)) u in
        elim (Bool-cases (is_taken request.request_id r.world.store)) [
          | inl taken ↦ rw (reserve_id-answer g request r.world, ◌>>=◌, taken) there
          | inr free ↦
              let none_yet =
                free_result r.world.store (subst (λ t. is_taken t r.world.store ≡ false) same free)
                  u.tied.requests in
              rw (reserve_id-answer g request r.world, ◌>>=◌, free)
                (later.after (marked after_call) (marked-On after_call none_yet there))
        ];
  }

  validate_gate-On :
      (g : Setting) (request : SecurityRequest)
      → request.request_id ≡ rid
      → Keeps On (validate_gate g request)
  unfolding validate_gate marked
  validate_gate-On g request same = Keeps-then On _ _ (Keeps-obs On on_steady g request _ _ _) (
      Keeps-then On (enter g request validating) _ (on_enter s0 rid j g request validating refl) (
        Keeps-then On (check_none (identity_refusal g request)) _
          (Keeps-check_none On on_steady (identity_refusal g request))
          (reserve-On g request _ _ same (
            Keeps-then On (check_none (shape_refusal request)) _
              (Keeps-check_none On on_steady (shape_refusal request))
              (Keeps-bind On (lift (get_tool g.config (tool_name request))) _
                (Keeps-lift On (get_tool g.config (tool_name request)))
                λ d. Keeps-then On _ _ (Keeps-raise_if On _ _) (
                  Keeps-then On _ _ (Keeps-note On on_steady g request _ _) (
                    Keeps-then On _ _ (Keeps-obs On on_steady g request _ _ _)
                      (Keeps-pure On d))))))))

  ask_and_raise-On :
      (g : Setting) (request : SecurityRequest) (risk : RiskAssessment) (scoped : Scope)
      (e : Raised)
      → Keeps On (ask_and_raise g request risk scoped e)
  unfolding ask_and_raise
  ask_and_raise-On g request risk scoped e =
      let m = request_approval g.os request risk scoped 1800 none in
      let set = λ (a : Approval) (r : Run). record r {
        approval = some a;
        approval_state = approval_value a.state;
      } in
      Keeps-bind On (on_world m) _
        (Keeps-world On on_steady m (request_approval-Same g.os request risk scoped 1800 none))
        λ a. Keeps-then On (doing (set a)) _ (Keeps-doing On on_steady (set a) (λ r. refl)) (
          Keeps-then On _ _ (Keeps-note On on_steady g request _ _)
            (Keeps-then On _ _ (Keeps-obs On on_steady g request _ _ _) (Keeps-raise On e)))

  ensure_or_ask-On :
      (g : Setting) (request : SecurityRequest) (risk : RiskAssessment) (scoped : Scope)
      → Keeps On (ensure_or_ask g request risk scoped)
  unfolding ensure_or_ask
  ensure_or_ask-On g request risk scoped = record {
    after = λ r u.
        let m = ensure g.os request risk scoped none in
        let w = (m r.world).1 in
        let after_call = record r { world = w } in
        let there : On after_call =
          on_steady r after_call
            (world-Steady r w (ensure-Same g.os request risk scoped none r.world)) u in
        elim (Result-cases (m r.world).0) [
          | inl (a, e) ↦ rw (e, ensure_or_ask) there
          | inr (x, e) ↦
              rw (e, ensure_or_ask)
                ((Keeps-if On (wants_approval x) (ask_and_raise g request risk scoped x) (raise x)
                    (ask_and_raise-On g request risk scoped x) (Keeps-raise On x)).after
                  after_call there)
        ];
  }

  approval_gate-On :
      (g : Setting) (request : SecurityRequest) (risk : RiskAssessment) (scoped : Scope)
      → Keeps On (approval_gate g request risk scoped)
  unfolding approval_gate
  approval_gate-On g request risk scoped =
      let set = λ (found : Option Approval) (r : Run). record r {
        approval = found;
        approval_state = state_text found;
      } in
      Keeps-then On (enter g request waiting_for_approval) _
        (on_enter s0 rid j g request waiting_for_approval refl)
        (Keeps-bind On (ensure_or_ask g request risk scoped) _
          (ensure_or_ask-On g request risk scoped)
          λ found.
            Keeps-then On (doing (set found)) _ (Keeps-doing On on_steady (set found) (λ r. refl)) (
              Keeps-then On _ _ (Keeps-note On on_steady g request _ _) (
                Keeps-then On (enter g request approved) _
                  (on_enter s0 rid j g request approved refl) (Keeps-pure On found))))

  pub run_gates-On :
      (g : Setting) (request : SecurityRequest) (normalized : Result Target)
      → request.request_id ≡ rid
      → Keeps On (run_gates g request normalized)
  unfolding run_gates
  run_gates-On g request normalized same =
      Keeps-bind On (validate_gate g request) _ (validate_gate-On g request same) λ d.
        Keeps-bind On (scope_gate g request normalized) _
          (scope_gate-On s0 rid j g request normalized)
          λ p.
            Keeps-bind On (authorization_gate g request p.0 d) _
              (authorization_gate-On s0 rid j g request p.0 d)
              λ auth.
                Keeps-bind On (risk_gate g request p.0 d) _ (risk_gate-On s0 rid j g request p.0 d)
                  λ risk.
                    Keeps-bind On (approval_gate g request risk p.1) _
                      (approval_gate-On g request risk p.1) λ found. Keeps-pure On _
