-- ===== src/Engine/Ending.antt =====
-- The handlers and the `finally` block of NobleEngine.run (noble/engine.py), as steps on its state.
use mathlib.Core.Path.{subst}
use noble_cascade.Engine.Collect.{run_body}
use noble_cascade.Engine.Failures.{state_for_error_ends}
use noble_cascade.Engine.Gathering.{Done, run_body-Done}
use noble_cascade.Engine.Handlers.{guarded, handle, is_closed, is_internal}
use noble_cascade.Engine.Outcomes.{outcome_for_error, state_for_error}
use noble_cascade.Engine.Steps.{Run, Setting, enter, obs}
use noble_cascade.Engine.Underway.{
  Tied, Tied-Steady, Tied-moved, Underway, Underway-Steady, Underway-failing, moved, obs-Steady,
}
use noble_cascade.Engine.Working.{Raising}
use noble_cascade.Errors.{
  NobleError, PyError, Raised, Result, Result-cases, builtin, code_value, err, noble, ok, py_name,
}
use noble_cascade.Models.{
  ExecutionState, SecurityRequest, Target, end, failed, field, internal_error, str,
}
use noble_cascade.Prelude.{
  Bool-cases, Option, String, ap, arith, concat, false, inl, inr, none, refl, some, sym, true, ◌≡◌,
  ◌⊎◌,
}
use noble_cascade.StateMachine.{has_state, is_terminal, terminal_states, validate_transition}
use noble_cascade.Store.{Store, put_observability}

-- a run that has ended
pub record Over (s0 : Store) (rid : String) (r : Run) : Type 0 where
  pub terminal : is_terminal r.state ≡ true
  pub lease : Option String
  pub tied : Tied s0 rid lease r

pub accepted :
    (s t : ExecutionState)
    → is_terminal s ≡ false
    → is_terminal t ≡ true
    → validate_transition s t ≡ ok tt
unfolding validate_transition
accepted s t live ends = ground arith

pub failed_terminal : is_terminal failed ≡ true
unfolding is_terminal has_state terminal_states
failed_terminal = refl

module _ (s0 : Store) (rid : String) where
  -- the handlers have ended the run
  abbrev pub Closes : Result (Unit {0}) × Run → Type 0
  Closes x = (x.0 ≡ ok tt) × Over s0 rid x.1

  enter_last :
      (g : Setting) (request : SecurityRequest) (t : ExecutionState) (r : Run) (j : Option String)
      → is_terminal r.state ≡ false
      → is_terminal t ≡ true
      → Tied s0 rid j r
      → Closes (enter g request t r)
  unfolding enter obs put_observability
  enter_last g request t r j live ends tied =
      rw (accepted r.state t live ends, enter)
        (
          refl,
          record {
            terminal = ends;
            lease = j;
            tied = Tied-Steady s0 rid j (moved t r) _ refl (Tied-moved s0 rid j t r tied);
          },
        )

  handle_noble :
      (g : Setting) (request : SecurityRequest) (e : NobleError) (r : Run)
      → Raising s0 rid r
      → Closes (handle g request (noble e) r)
  unfolding handle
  handle_noble g request e r (j, u) =
      let r1 = record r { error = some (code_value e.code); outcome = outcome_for_error e } in
      let r2 =
        obs g request "ERROR" (concat "blocked/failed: " (code_value e.code))
          (field "code" (str (code_value e.code)) end) r1 in
      let there =
        Underway-Steady s0 rid j r1 r2
          (obs-Steady g request "ERROR" (concat "blocked/failed: " (code_value e.code))
            (field "code" (str (code_value e.code)) end) r1)
          (Underway-failing s0 rid j (some (code_value e.code)) (outcome_for_error e) r u) in
      enter_last g request (state_for_error e) r2 j there.live (state_for_error_ends e).0 there.tied

  pub open_live : (s : ExecutionState) → is_terminal s ≡ false → is_closed s ≡ false
  unfolding is_closed is_terminal has_state terminal_states
  open_live s live = ground arith

  handle_builtin :
      (g : Setting) (request : SecurityRequest) (b : PyError) (r : Run)
      → is_internal b ≡ true
      → Raising s0 rid r
      → Closes (handle g request (builtin b) r)
  unfolding handle
  handle_builtin g request b r internal (j, u) =
      let r1 = record r { error = some "internal_error"; outcome = internal_error } in
      let r2 =
        obs g request "ERROR" "internal error" (field "error_type" (str (py_name b)) end) r1 in
      let there =
        Underway-Steady s0 rid j r1 r2
          (obs-Steady g request "ERROR" "internal error" (field "error_type" (str (py_name b)) end)
            r1)
          (Underway-failing s0 rid j (some "internal_error") internal_error r u) in
      rw (internal, open_live r2.state there.live)
        (enter_last g request failed r2 j there.live failed_terminal there.tied)

  handle_uncaught :
      (g : Setting) (request : SecurityRequest) (b : PyError) (r : Run)
      → is_internal b ≡ false
      → ◌≡◌ {A = Result (Unit {0}) × Run} (handle g request (builtin b) r) (err (builtin b), r)
  unfolding handle
  handle_uncaught g request b r uncaught = rw uncaught

  -- an exception that no handler takes
  abbrev pub Uncaught : Result (Unit {0}) × Run → Type 0
  Uncaught x =
      (b : PyError) × (is_internal b ≡ false) × (x.0 ≡ err (builtin b)) × Raising s0 rid x.1

  pub handle-Closes :
      (g : Setting) (request : SecurityRequest) (e : Raised) (r : Run)
      → Raising s0 rid r
      → Closes (handle g request e r) ⊎ Uncaught (handle g request e r)
  handle-Closes g request (noble e) r h = inl (handle_noble g request e r h)
  handle-Closes g request (builtin b) r h = elim (Bool-cases (is_internal b)) [
    | inl internal ↦ inl (handle_builtin g request b r internal h)
    | inr uncaught ↦ inr (
      b,
      uncaught,
      ap (λ (x : Result (Unit {0}) × Run). x.0) (handle_uncaught g request b r uncaught),
      subst (Raising s0 rid)
          (sym (ap (λ (x : Result (Unit {0}) × Run). x.1) (handle_uncaught g request b r uncaught)))
          h,
    )
  ]

  completed_terminal : (r : Run) → Done s0 rid r → Over s0 rid r
  unfolding is_terminal has_state terminal_states
  completed_terminal r d = record {
    terminal = ap is_terminal d.state;
    lease = d.lease;
    tied = d.tied;
  }

  pub guarded-Closes :
      (g : Setting) (request : SecurityRequest) (normalized : Result Target) (r : Run)
      → request.request_id ≡ rid
      → Underway s0 rid none r
      → Closes (guarded g request normalized r) ⊎ Uncaught (guarded g request normalized r)
  unfolding guarded
  guarded-Closes g request normalized r same u =
      let ends = (run_body-Done s0 rid g request normalized same).ends r u in
      let r' = (run_body g request normalized r).1 in
      elim (Result-cases (run_body g request normalized r).0) [
        | inl (_, e) ↦
            let d : Done s0 rid r' = rw e at ends in
            rw (guarded, e) (inl (refl, completed_terminal r' d))
        | inr (x, e) ↦
            let h : Raising s0 rid r' = rw e at ends in
            rw (guarded, e) (handle-Closes g request x r' h)
      ]
