-- ===== src/Engine/Working.antt =====
-- The stages of NobleEngine.run (noble/engine.py) after the gates, as steps of a run that is underway.
use noble_cascade.Engine.Clearance.{Cleared}
use noble_cascade.Engine.Dispatch.{
  Finished, context_stage, execute_stage, lease_request, lease_stage, precondition_refusal,
  run_tool, select_stage, take_lease, worker_stage,
}
use noble_cascade.Engine.Gates.{tool_name}
use noble_cascade.Engine.Leasing.{acquire_lease-rows}
use noble_cascade.Engine.Steps.{Run, Setting, doing, enter, obs, on_world}
use noble_cascade.Engine.Underway.{
  Keeps-audit_as, Keeps-enter, Keeps-note, Keeps-obs, Keeps-world, Steady, Tied-moved, Underway,
  Underway-Steady,
}
use noble_cascade.Engine.Undisturbed.{run_command-Same}
use noble_cascade.Errors.{Result-cases, lift, refuse, ◌>>=◌, ◌>>◌}
use noble_cascade.Errors.Keeps.{
  Keeps, Keeps-bind, Keeps-lift, Keeps-pure, Keeps-refuse, Keeps-then, Triple, Triple-Keeps,
  Triple-bind,
}
use noble_cascade.Execution.{ToolInvocation, run_command}
use noble_cascade.Models.{
  ExecutionState, SecurityRequest, Target, ToolDefinition, end, executing, field, str,
}
use noble_cascade.Platform.{Platform}
use noble_cascade.Prelude.{
  Has, Option, String, ap, arith, concat, false, inl, inr, none, refl, some, ◌∙◌, ◌≡◌, ◌⊎◌,
}
use noble_cascade.Registry.{validate_selection}
use noble_cascade.StateMachine.{is_terminal}
use noble_cascade.Store.{
  LeaseRequest, LeaseRow, Store, acquire_lease, put_observability, put_worker,
}
use noble_cascade.Workers.{create_worker, persist}
use noble_cascade.World.{World, new_id, utcnow}

-- what a run is while it holds a lease
abbrev pub Held : Store → String → Run → Type 0
Held s0 rid r = (i : String) × Underway s0 rid (some i) r

-- what a run is when a stage raises
abbrev pub Raising : Store → String → Run → Type 0
Raising s0 rid r = (j : Option String) × Underway s0 rid j r

module _ (s0 : Store) (rid : String) where
  abbrev Early : Run → Type 0
  Early = Underway s0 rid none

  Early-Steady : (r r' : Run) → Steady r r' → Early r → Early r'
  Early-Steady = Underway-Steady s0 rid none

  pub Held-Steady : (r r' : Run) → Steady r r' → Held s0 rid r → Held s0 rid r'
  Held-Steady r r' q (i, u) = (i, Underway-Steady s0 rid (some i) r r' q u)

  pub Held-enter :
      (g : Setting) (request : SecurityRequest) (s : ExecutionState)
      → is_terminal s ≡ false
      → Keeps (Held s0 rid) (enter g request s)
  Held-enter g request s live =
      Keeps-enter (Held s0 rid) Held-Steady g request s
        λ r (i, u). (i, record { live = live; tied = Tied-moved s0 rid (some i) s r u.tied })

  select_stage-Early :
      (g : Setting) (request : SecurityRequest) (target : Target)
      → Keeps Early (select_stage g request target)
  unfolding select_stage
  select_stage-Early g request target =
      let m = validate_selection g.config (tool_name request) request.action target.kind in
      Keeps-bind Early (lift m) _ (Keeps-lift Early m) λ selected.
        Keeps-then Early (refuse (precondition_refusal g request target selected)) _
          (Keeps-refuse Early (precondition_refusal g request target selected))
          (Keeps-then Early _ _ (Keeps-note Early Early-Steady g request _ _)
            (Keeps-pure Early selected))

  worker_stage-Early :
      (g : Setting) (request : SecurityRequest) (selected : ToolDefinition)
      → Keeps Early (worker_stage g request selected)
  unfolding worker_stage create_worker persist put_worker new_id obs put_observability
  worker_stage-Early g request selected = record { after = λ r u. Early-Steady r _ refl u }

  take_lease-answer :
      (g : Setting) (q : LeaseRequest) (w : World) (l : LeaseRow)
      → Has l (take_lease g q w).1.store.active_leases
      → Has l w.store.active_leases ⊎ (q.lease_id ≡ l.lease_id)
  unfolding take_lease utcnow
  take_lease-answer g q w l h = acquire_lease-rows q (g.os.clock w.readings) w.store l h

  take_lease-requests :
      (g : Setting) (q : LeaseRequest) (w : World)
      → (take_lease g q w).1.store.requests ≡ w.store.requests
  unfolding take_lease utcnow acquire_lease
  take_lease-requests g q w = ground arith

  -- the run once it has drawn the identifier of its lease
  abbrev leased : Platform → Run → Run
  leased os r = record r {
    world = (new_id os "lease" r.world).1;
    lease_id = some (concat "lease" (concat "-" (os.hex r.world.draws)));
  }

  leased-Underway :
      (os : Platform) (r : Run)
      → Early r
      → Underway s0 rid (some (concat "lease" (concat "-" (os.hex r.world.draws)))) (leased os r)
  unfolding new_id
  leased-Underway os r u = record {
    live = u.live;
    tied = record {
      held = refl;
      leases = λ l h. elim (u.tied.leases l h) [ inl k ↦ inl k | inr e ↦ absurd (ground arith) ];
      requests = u.tied.requests;
      fresh = u.tied.fresh;
      execution = λ e. absurd (ground arith);
    };
  }

  take_lease-Underway :
      (g : Setting) (q : LeaseRequest) (r : Run)
      → Underway s0 rid (some q.lease_id) r
      → Underway s0 rid (some q.lease_id) (on_world (take_lease g q) r).1
  take_lease-Underway g q r u = record {
    live = u.live;
    tied = record {
      held = u.tied.held;
      leases = λ l h. elim (take_lease-answer g q r.world l h) [
        | inl k ↦ u.tied.leases l k
        | inr e ↦ inr (ap some e)
      ];
      requests = take_lease-requests g q r.world ∙ u.tied.requests;
      fresh = u.tied.fresh;
      execution = u.tied.execution;
    };
  }

  -- the lease: whether it is granted or not, the run is tied to it
  lease_stage-Held :
      (g : Setting) (request : SecurityRequest) (target : Target) (selected : ToolDefinition)
      → Triple Early
          (Raising s0 rid)
          (λ (_ : String). Held s0 rid)
          (lease_stage g request target selected)
  unfolding lease_stage new_id
  lease_stage-Held g request target selected = record {
    ends = λ r u.
        let i = concat "lease" (concat "-" (g.os.hex r.world.draws)) in
        let q = lease_request g request target selected i in
        let there = take_lease-Underway g q (leased g.os r) (leased-Underway g.os r u) in
        elim (Result-cases (take_lease g q (leased g.os r).world).0) [
          | inl (_, e) ↦ rw (e, ◌>>=◌, ◌>>◌) (i, there)
          | inr (_, e) ↦ rw (e, ◌>>=◌, ◌>>◌) (some i, there)
        ];
  }

  -- the run once it names its execution
  named : String → Run → Run
  named lease_id r = record r { execution_id = some lease_id }

  named-Held : (lease_id : String) (r : Run) → Held s0 rid r → Held s0 rid (named lease_id r)
  unfolding named
  named-Held lease_id r (i, u) = (
    i,
    record {
      live = u.live;
      tied = record {
        held = u.tied.held;
        leases = u.tied.leases;
        requests = u.tied.requests;
        fresh = u.tied.fresh;
        execution = λ e. absurd (ground arith);
      };
    },
  )

  context_stage-Held :
      (g : Setting) (request : SecurityRequest) (c : Cleared) (selected : ToolDefinition)
      → Keeps (Held s0 rid) (context_stage g request c selected)
  unfolding context_stage utcnow
  context_stage-Held g request c selected = record { after = λ r h. Held-Steady r _ refl h }

  execute_stage-Held :
      (g : Setting) (request : SecurityRequest) (c : Cleared) (selected : ToolDefinition)
      (lease_id : String)
      → Keeps (Held s0 rid) (execute_stage g request c selected lease_id)
  unfolding execute_stage named
  execute_stage-Held g request c selected lease_id =
      let H = Held s0 rid in
      Keeps-then H (doing (named lease_id)) _ (record { after = λ r h. named-Held lease_id r h })
        (Keeps-then H (enter g request executing) _ (Held-enter g request executing refl) (
          Keeps-then H _ _ (Keeps-audit_as H Held-Steady g request _ _ _) (
            Keeps-then H _ _
              (Keeps-obs H Held-Steady g request "TOOL" "execution started"
                (field "execution_id" (str lease_id) end))
              (Keeps-bind H (context_stage g request c selected) _
                (context_stage-Held g request c selected)
                λ context.
                  let call : ToolInvocation = record {
                    invocation_id = lease_id;
                    definition = selected;
                    context = context;
                    parameters = request.parameters;
                  } in
                  Keeps-then H _ _
                    (Keeps-obs H Held-Steady g request "SANDBOX" "worker invocation"
                      (field "sandbox_id" (str context.sandbox_id) end))
                    (Keeps-bind H (on_world (run_command g.os g.conforms g.host g.config call)) _
                      (Keeps-world H Held-Steady (run_command g.os g.conforms g.host g.config call)
                        (run_command-Same g.os g.conforms g.host g.config call))
                      λ command. Keeps-pure H (record {
                        selected = selected;
                        lease = lease_id;
                        context = context;
                        command = command;
                      }))))))

  pub run_tool-Held :
      (g : Setting) (request : SecurityRequest) (c : Cleared)
      → Triple Early (Raising s0 rid) (λ (_ : Finished). Held s0 rid) (run_tool g request c)
  unfolding run_tool
  run_tool-Held g request c =
      let weaken : (r : Run) → Early r → Raising s0 rid r = λ r u. (none, u) in
      let weaken_held : (r : Run) → Held s0 rid r → Raising s0 rid r = λ r (i, u). (some i, u) in
      Triple-bind Early (Raising s0 rid) (select_stage g request c.target) _
        (Triple-Keeps Early (Raising s0 rid) (select_stage g request c.target) weaken
          (select_stage-Early g request c.target))
        λ selected.
          Triple-bind Early (Raising s0 rid) (worker_stage g request selected) _
            (Triple-Keeps Early (Raising s0 rid) (worker_stage g request selected) weaken
              (worker_stage-Early g request selected))
            λ _.
              Triple-bind Early (Raising s0 rid) (lease_stage g request c.target selected) _
                (lease_stage-Held g request c.target selected)
                λ lease_id.
                  Triple-Keeps (Held s0 rid) (Raising s0 rid)
                    (execute_stage g request c selected lease_id) weaken_held
                    (execute_stage-Held g request c selected lease_id)
