-- ===== src/Engine/Whole.antt =====
-- NobleEngine.run of noble/engine.py from its first line to its last.
use mathlib.Core.Path.{subst}
use noble_cascade.Engine.Clearance.{Cleared, run_gates}
use noble_cascade.Engine.Closing.{Leases, Unreleased}
use noble_cascade.Engine.Collect.{run_body}
use noble_cascade.Engine.Ending.{Closes, Uncaught, failed_terminal, guarded-Closes}
use noble_cascade.Engine.Entrance.{run_gates-On}
use noble_cascade.Engine.Finish.{begin, finally_stage, result_of, run_request}
use noble_cascade.Engine.Handlers.{guarded, handle, is_internal}
use noble_cascade.Engine.Safety.{Entitled, run_gates_sound}
use noble_cascade.Engine.Settled.{Settled, finally_stage-Settled}
use noble_cascade.Engine.Steps.{Run, Setting}
use noble_cascade.Engine.Stopped.{Stopped, handle-Stopped}
use noble_cascade.Engine.Underway.{Underway}
use noble_cascade.Errors.{PyError, Raised, Result, Result-cases, builtin, err, ok, ◌>>=◌}
use noble_cascade.Models.{ExecutionResult, SecurityRequest, Target, completed}
use noble_cascade.Prelude.{
  Has, List, ap, arith, false, inl, inr, none, refl, some, sym, true, ◌∙◌, ◌≡◌, ◌≢◌, ◌⊎◌,
}
use noble_cascade.StateMachine.{has_state, is_terminal, terminal_states}
use noble_cascade.Store.{LeaseRow, get_result}
use noble_cascade.Workers.{WorkerIdentity}
use noble_cascade.World.{World}

begin-Underway :
    (g : Setting) (request : SecurityRequest) (workers : List WorkerIdentity) (world : World)
    → Underway world.store request.request_id none (begin g request workers world)
unfolding begin is_terminal has_state terminal_states
begin-Underway g request workers world = record {
  live = refl;
  tied = record {
    held = refl;
    leases = λ l h. inl h;
    requests = refl;
    fresh = λ h. absurd (ground (arith, h));
    execution = λ _. refl;
  };
}

module _ (g : Setting) (request : SecurityRequest) (normalized : Result Target)
    (workers : List WorkerIdentity) (world : World) where
  abbrev start : Run
  start = begin g request workers world

  -- NobleEngine.run, from its first line
  abbrev pub the_run : Result ExecutionResult × Run
  the_run = run_request g request normalized start

  -- the run as the handlers leave it
  abbrev left : Result (Unit {0}) × Run
  left = guarded g request normalized start

  abbrev end_of_run : Result (Unit {0}) × Run
  end_of_run = finally_stage g request left.1

  left-Closes :
      Closes world.store request.request_id left ⊎ Uncaught world.store request.request_id left
  left-Closes =
      guarded-Closes world.store request.request_id g request normalized start refl
        (begin-Underway g request workers world)

  left_settles : Settled g request world.store left.1 end_of_run
  left_settles = elim left-Closes [
    | inl (_, o) ↦ finally_stage-Settled g request world.store left.1 o.lease o.tied
    | inr (_, _, _, (j, u)) ↦ finally_stage-Settled g request world.store left.1 j u.tied
  ]

  the_run-state : the_run.1 ≡ end_of_run.1
  unfolding run_request
  the_run-state = elim (Result-cases end_of_run.0) [
    | inr (x, e) ↦ rw (e, run_request) refl
    | inl (_, e) ↦ elim (Result-cases left.0) [
      | inl (_, f) ↦ rw (e, f, run_request) refl
      | inr (x, f) ↦ rw (e, f, run_request) refl
    ]
  ]

  -- A lease that is active after a run, however that ended, was active before it; or it is the lease of
  -- the run, the database has refused to delete it, and the run is FAILED with the error
  -- "lease_cleanup_failed", or "audit_failure" where its last event could not be written either.
  pub run_request_releases :
      (l : LeaseRow)
      → Has l the_run.1.world.store.active_leases
      → Has l world.store.active_leases ⊎ Unreleased g l the_run.1
  run_request_releases = subst (Leases g world.store) (sym the_run-state) left_settles.leases

  answer_of : (x : Result (Unit {0})) (r : Run) → Result ExecutionResult
  answer_of (ok _) r = ok (result_of g request r)
  answer_of (err e) r = err e

  the_run-answer : the_run.0 ≡ answer_of left.0 end_of_run.1
  unfolding run_request answer_of
  the_run-answer = elim (Result-cases left.0) [
    | inl (_, f) ↦ rw (left_settles.fine, f, run_request) refl
    | inr (x, f) ↦ rw (left_settles.fine, f, run_request) refl
  ]

  -- how a run may end
  abbrev pub Ends : Result ExecutionResult × Run → Type 0
  Ends x =
      ((result : ExecutionResult) × (x.0 ≡ ok result) × (is_terminal result.state ≡ true))
      ⊎ ((b : PyError) × (x.0 ≡ err (builtin b)) × (is_internal b ≡ false))

  ended_terminal :
      (r0 : Run) (x : Result (Unit {0}) × Run)
      → is_terminal r0.state ≡ true
      → Settled g request world.store r0 x
      → is_terminal x.1.state ≡ true
  ended_terminal r0 x t s = elim s.ended [
    | inl (inl e, _) ↦ ap is_terminal e ∙ t
    | inl (inr e, _) ↦ ap is_terminal e ∙ failed_terminal
    | inr (e, _) ↦ ap is_terminal e ∙ failed_terminal
  ]

  -- A run always ends: it returns a result whose state is terminal, or it raises one of the built-in
  -- exceptions that no handler of it takes, an IndexError or a KeyError. It never raises a NobleError.
  pub run_request-Ends : Ends the_run
  unfolding answer_of result_of
  run_request-Ends = elim left-Closes [
    | inl (e, o) ↦ inl (
      result_of g request end_of_run.1,
      the_run-answer ∙ ap (λ (x : Result (Unit {0})). answer_of x end_of_run.1) e,
      ended_terminal left.1 end_of_run o.terminal left_settles,
    )
    | inr (b, uncaught, e, _) ↦
        inr
          (b, the_run-answer ∙ ap (λ (x : Result (Unit {0})). answer_of x end_of_run.1) e, uncaught)
  ]

  answer_ok :
      (x : Result (Unit {0})) (r : Run) (result : ExecutionResult)
      → answer_of x r ≡ ok result
      → result_of g request r ≡ result
  unfolding answer_of
  answer_ok (ok _) r result h =
      ap (λ (y : Result ExecutionResult). elim y [ ok a ↦ a | err _ ↦ result ]) h
  answer_ok (err e) r result h = absurd (ground (arith, h))

  -- The result that a run of a reserved request returns is the one that the database then gives back
  -- under its id, or its error is "audit_failure".
  pub run_request_records :
      (result : ExecutionResult)
      → the_run.0 ≡ ok result
      → the_run.1.request_reserved ≡ true
      → (get_result request.request_id the_run.1.world.store ≡ some result)
        ⊎ (result.error ≡ some "audit_failure")
  unfolding result_of
  run_request_records result h taken =
      let same : result_of g request end_of_run.1 ≡ result =
        answer_ok left.0 end_of_run.1 result (sym the_run-answer ∙ h) in
      elim left_settles.ended [
        | inl (_, recorded) ↦ inl (
            ap (λ (r : Run). get_result request.request_id r.world.store) the_run-state
            ∙ recorded (sym (ap (λ (r : Run). r.request_reserved) the_run-state) ∙ taken)
            ∙ ap some same)
        | inr (_, e) ↦ inr (sym (ap (λ (x : ExecutionResult). x.error) same) ∙ e)
      ]

  -- what a run that a gate stopped looks like, and one that passed
  abbrev pub Answered : Run → Type 0
  Answered r =
      ((c : Cleared) × (normalized ≡ ok c.target)
        × Entitled g request start (run_gates g request normalized start).1 c)
      ⊎ ((r.execution_id ≡ none) × (r.state ≢ completed))

  gates_left : Run
  gates_left = (run_gates g request normalized start).1

  stopped_body :
      (e : Raised)
      → (run_gates g request normalized start).0 ≡ err e
      → ◌≡◌ {A = Result (Unit {0}) × Run} (run_body g request normalized start) (err e, gates_left)
  unfolding run_body gates_left
  stopped_body e h = rw (h, ◌>>=◌) refl

  stopped_handle :
      (e : Raised)
      → (run_gates g request normalized start).0 ≡ err e
      → left ≡ handle g request e gates_left
  unfolding guarded
  stopped_handle e h =
      ap
        (λ (x : Result (Unit {0}) × Run). elim x.0 [
          | ok _ ↦ (ok tt, x.1)
          | err y ↦ handle g request y x.1
        ])
        (stopped_body e h)

  left-Stopped : (e : Raised) → (run_gates g request normalized start).0 ≡ err e → Stopped left.1
  unfolding gates_left
  left-Stopped e h =
      let u =
        (run_gates-On world.store request.request_id none g request normalized refl).after start
          (begin-Underway g request workers world) in
      subst (λ (x : Result (Unit {0}) × Run). Stopped x.1) (sym (stopped_handle e h))
        (handle-Stopped world.store g request e gates_left u.live (u.tied.execution refl))

  end-Stopped : Stopped left.1 → Stopped end_of_run.1
  end-Stopped s = record {
    execution_id = left_settles.execution_id ∙ s.execution_id;
    state = λ h. elim left_settles.ended [
      | inl (inl e, _) ↦ s.state (sym e ∙ h)
      | inl (inr e, _) ↦ ground (arith, e, h)
      | inr (e, _) ↦ ground (arith, e, h)
    ];
  }

  -- Whenever a run has registered an execution or reached COMPLETED, every gate was passed: against
  -- the database as it was when the run began, the request was entitled to run. The policy, the grant
  -- and the approval, where the risk asks for one, are each in force at a moment that the gates read
  -- from the clock.
  pub run_request_entitled : Answered the_run.1
  unfolding begin
  run_request_entitled = elim (Result-cases (run_gates g request normalized start).0) [
    | inl (c, e) ↦
        let (_, parsed, entitled) =
          run_gates_sound g request normalized start (run_gates g request normalized start).1
            {c = c}
            (ap (λ (x : Result Cleared). (x, (run_gates g request normalized start).1)) e) in
        inl (c, parsed, entitled)
    | inr (x, e) ↦
        let s = end-Stopped (left-Stopped x e) in
        inr (
          ap (λ (r : Run). r.execution_id) the_run-state ∙ s.execution_id,
          λ h. s.state (sym (ap (λ (r : Run). r.state) the_run-state) ∙ h),
        )
  ]
