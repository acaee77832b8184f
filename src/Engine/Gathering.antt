-- ===== src/Engine/Gathering.antt =====
-- The stages of NobleEngine.run (noble/engine.py) from the end of the tool on, and its `try` block as
-- a whole.
use noble_cascade.Engine.Clearance.{run_gates}
use noble_cascade.Engine.Collect.{
  Gathered, add_evidence, add_finding, assessed_of, assign_gathered, collect, complete_stage,
  final_outcome, gather, gathering_of, issues_of, nothing_gathered, observation_stage, output_stage,
  record_evidence, report_stage, run_body,
}
use noble_cascade.Engine.Dispatch.{Finished, run_tool}
use noble_cascade.Engine.Entrance.{run_gates-On}
use noble_cascade.Engine.Steps.{Run, Setting, doing, enter, obs, on_world}
use noble_cascade.Engine.Underway.{
  Keeps-audit_as, Keeps-doing, Keeps-note, Keeps-obs, Keeps-world, Marks, Steady, Tied, Tied-Steady,
  Tied-moved, Underway, moved, obs-Steady,
}
use noble_cascade.Engine.Undisturbed.{
  build_evidence-Same, evaluate_observation-Same, put_evidence-Same, put_finding-Same,
}
use noble_cascade.Engine.Working.{Held, Held-Steady, Held-enter, Raising, run_tool-Held}
use noble_cascade.Errors.{Result, Result-cases, lift}
use noble_cascade.Errors.Keeps.{
  Keeps, Keeps-bind, Keeps-lift, Keeps-pure, Keeps-then, Triple, Triple-Keeps, Triple-bind,
}
use noble_cascade.Models.{
  Evidence, Fields, Json, SecurityRequest, Target, collecting_evidence, completed, end, field,
  finding_state_value, float, str, validating_result,
}
use noble_cascade.Outputs.{Observation, ValidatedToolOutput, build_evidence, validate}
use noble_cascade.Prelude.{
  List, Option, String, [], ap, concat, inl, inr, none, refl, some, ◌∙◌, ◌∷◌, ◌≡◌,
}
use noble_cascade.Reasoning.{evaluate_observation}
use noble_cascade.StateMachine.{validate_transition}
use noble_cascade.Store.{Store, put_evidence, put_finding, put_observability}
use noble_cascade.World.{new_id, on_store}

-- a run that completed
pub record Done (s0 : Store) (rid : String) (r : Run) : Type 0 where
  pub state : r.state ≡ completed
  pub lease : Option String
  pub tied : Tied s0 rid lease r

module _ (s0 : Store) (rid : String) where
  abbrev H : Run → Type 0
  H = Held s0 rid

  abbrev steady_held : (r r' : Run) → Steady r r' → H r → H r'
  steady_held = Held-Steady s0 rid

  output_stage-Held :
      (g : Setting) (request : SecurityRequest) (f : Finished) → Keeps H (output_stage g request f)
  unfolding output_stage
  output_stage-Held g request f =
      let m = validate g.sources g.conforms g.config.limits f.selected f.context f.command.stdout in
      let set = λ (checked : ValidatedToolOutput) (r : Run). record r {
        validation =
            some (record { valid = checked.complete; issues = issues_of g.os checked.warnings });
      } in
      Keeps-then H (enter g request collecting_evidence) _
        (Held-enter s0 rid g request collecting_evidence refl)
        (Keeps-then H _ _
          (Keeps-audit_as H steady_held g request "TOOL_FINISHED"
            (concat "trusted worker exited 0 in " (concat f.command.duration_seconds "s"))
            "completed")
          (Keeps-then H _ _
            (Keeps-obs H steady_held g request "TOOL" "tool finished" (
              field "duration" (float f.command.duration_seconds)
                (field "exit_code" (Json.int 0) end)))
            (Keeps-then H (enter g request validating_result) _
              (Held-enter s0 rid g request validating_result refl)
              (Keeps-bind H (lift m) _ (Keeps-lift H m) λ checked.
                Keeps-then H (doing (set checked)) _
                  (Keeps-doing H steady_held (set checked) (λ r. refl))
                  (Keeps-then H _ _
                    (Keeps-note H steady_held g request "OUTPUT_VALIDATED"
                      "output schema, provenance, source and reproduction checked")
                    (Keeps-then H _ _
                      (Keeps-obs H steady_held g request "EVIDENCE" "output validated" end)
                      (Keeps-pure H checked)))))))

  record_evidence-Held :
      (g : Setting) (request : SecurityRequest) (es : List Evidence) (acc : Gathered)
      → Keeps H (record_evidence g request es acc)
  unfolding record_evidence
  record_evidence-Held g request [] acc = Keeps-pure H acc
  record_evidence-Held g request (e ∷ es) acc =
      let m = on_store (put_evidence e) in
      Keeps-then H (on_world m) _ (Keeps-world H steady_held m (put_evidence-Same e)) (
        Keeps-then H _ _
          (Keeps-obs H steady_held g request "EVIDENCE" "evidence recorded" (
            field "evidence_id" (str e.evidence_id)
              (field "evidence_category" (str e.category) end)))
          (record_evidence-Held g request es (add_evidence g.os e acc)))

  observation_stage-Held :
      (g : Setting) (request : SecurityRequest) (f : Finished) (told : Fields) (seen : Observation)
      (acc : Gathered)
      → Keeps H (observation_stage g request f told seen acc)
  unfolding observation_stage
  observation_stage-Held g request f told seen acc =
      let gathering = gathering_of f told in
      Keeps-bind H (on_world (build_evidence g.os gathering seen)) _
        (Keeps-world H steady_held (build_evidence g.os gathering seen)
          (build_evidence-Same g.os gathering seen))
        λ evidence.
          let a = assessed_of request f seen evidence in
          Keeps-bind H (record_evidence g request evidence acc) _
            (record_evidence-Held g request evidence acc)
            λ acc'.
              Keeps-bind H (on_world (evaluate_observation g.os a)) _
                (Keeps-world H steady_held (evaluate_observation g.os a)
                  (evaluate_observation-Same g.os a))
                λ finding.
                  let m = on_store (put_finding finding request.request_id) in
                  Keeps-then H (on_world m) _
                    (Keeps-world H steady_held m (put_finding-Same finding request.request_id))
                    (Keeps-then H _ _
                      (Keeps-obs H steady_held g request "REPORT" "finding created" (
                        field "finding_id" (str finding.finding_id)
                          (field "state" (str (finding_state_value finding.state)) end)))
                      (Keeps-pure H (add_finding g.os finding acc')))

  gather-Held :
      (g : Setting) (request : SecurityRequest) (f : Finished) (told : Fields)
      (seen : List Observation) (acc : Gathered)
      → Keeps H (gather g request f told seen acc)
  unfolding gather
  gather-Held g request f told [] acc = Keeps-pure H acc
  gather-Held g request f told (o ∷ rest) acc =
      Keeps-bind H (observation_stage g request f told o acc) _
        (observation_stage-Held g request f told o acc)
        λ acc'. gather-Held g request f told rest acc'

  report_stage-Held :
      (g : Setting) (request : SecurityRequest) (ids : List String)
      → Keeps H (report_stage g request ids)
  unfolding report_stage new_id
  report_stage-Held g request [] = Keeps-pure H tt
  report_stage-Held g request (i ∷ is) = record { after = λ r h. steady_held r _ refl h }

  -- the last transition
  enter_completed :
      (g : Setting) (request : SecurityRequest)
      → Triple H (Raising s0 rid) (λ (_ : Unit {0}). Done s0 rid) (enter g request completed)
  unfolding enter obs put_observability
  enter_completed g request = record {
    ends = λ r (i, u). elim (Result-cases (validate_transition r.state completed)) [
      | inl (_, e) ↦
          rw (e, enter)
            (record {
              state = refl;
              lease = some i;
              tied =
                  Tied-Steady s0 rid (some i) (moved completed r) _ refl
                    (Tied-moved s0 rid (some i) completed r u.tied);
            })
      | inr (_, e) ↦ rw (e, enter) (some i, u)
    ];
  }

  Done-step :
      (f : Run → Run)
      → ((r : Run) → Steady r (f r))
      → Triple (Done s0 rid) (Raising s0 rid) (λ (_ : Unit {0}). Done s0 rid) (doing f)
  Done-step f q = record {
    ends = λ r d. record {
      state = ap (λ (m : Marks). m.state) (q r) ∙ d.state;
      lease = d.lease;
      tied = Tied-Steady s0 rid d.lease r (f r) (q r) d.tied;
    };
  }

  weaken_held : (r : Run) → H r → Raising s0 rid r
  weaken_held r (i, u) = (some i, u)

  complete_stage-Done :
      (g : Setting) (request : SecurityRequest) (checked : ValidatedToolOutput) (acc : Gathered)
      → Triple H
          (Raising s0 rid)
          (λ (_ : Unit {0}). Done s0 rid)
          (complete_stage g request checked acc)
  unfolding complete_stage
  complete_stage-Done g request checked acc =
      let E = Raising s0 rid in
      let last =
        λ (r : Run). record r { outcome = final_outcome checked.complete acc.finding_ids } in
      let shown =
        obs g request "REPORT" "execution completed" (field "outcome" (str "success") end) in
      Triple-bind H E (doing (assign_gathered acc)) _
        (Triple-Keeps H E (doing (assign_gathered acc)) weaken_held
          (Keeps-doing H steady_held (assign_gathered acc) (λ r. refl)))
        λ _.
          Triple-bind H E (report_stage g request acc.finding_ids) _
            (Triple-Keeps H E (report_stage g request acc.finding_ids) weaken_held
              (report_stage-Held g request acc.finding_ids))
            λ _. Triple-bind H E (enter g request completed) _ (enter_completed g request) λ _.
              Triple-bind (Done s0 rid) E (doing shown) _
                (Done-step shown (
                  obs-Steady g request "REPORT" "execution completed"
                    (field "outcome" (str "success") end)))
                λ _. Done-step last (λ r. refl)

  collect-Done :
      (g : Setting) (request : SecurityRequest) (f : Finished)
      → Triple H (Raising s0 rid) (λ (_ : Unit {0}). Done s0 rid) (collect g request f)
  unfolding collect
  collect-Done g request f =
      let E = Raising s0 rid in
      Triple-bind H E (output_stage g request f) _
        (Triple-Keeps H E (output_stage g request f) weaken_held (output_stage-Held g request f))
        λ checked.
          let loop = gather g request f checked.provenance checked.observations nothing_gathered in
          Triple-bind H E loop _
            (Triple-Keeps H E loop weaken_held
              (gather-Held g request f checked.provenance checked.observations nothing_gathered))
            λ acc. complete_stage-Done g request checked acc

  -- The `try` block returns in COMPLETED, and raises before the last transition.
  pub run_body-Done :
      (g : Setting) (request : SecurityRequest) (normalized : Result Target)
      → request.request_id ≡ rid
      → Triple
          (Underway s0 rid none)
          (Raising s0 rid)
          (λ (_ : Unit {0}). Done s0 rid)
          (run_body g request normalized)
  unfolding run_body
  run_body-Done g request normalized same =
      let E = Raising s0 rid in
      let P = Underway s0 rid none in
      Triple-bind P E (run_gates g request normalized) _
        (Triple-Keeps P E (run_gates g request normalized) (λ r u. (none, u))
          (run_gates-On s0 rid none g request normalized same))
        λ c.
          Triple-bind P E (run_tool g request c) _ (run_tool-Held s0 rid g request c)
            λ f. collect-Done g request f
