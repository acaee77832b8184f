-- ===== src/Engine/Collect.antt =====
-- NobleEngine.run of noble/engine.py from the end of the tool to the state COMPLETED.
use noble_cascade.Engine.Clearance.{run_gates}
use noble_cascade.Engine.Dispatch.{Finished, run_tool}
use noble_cascade.Engine.Steps.{Run, Setting, audit_as, doing, enter, note, obs, on_world}
use noble_cascade.Errors.{Exec, Result, lift, pure, ◌>>=◌, ◌>>◌}
use noble_cascade.Models.{
  Evidence, Fields, Finding, Json, Outcome, SecurityRequest, Target, array, collecting_evidence,
  completed, end, field, finding_state_value, float, inconclusive, str, success_no_findings,
  success_with_findings, text_items, validating_result,
}
use noble_cascade.Outputs.{Gathering, Observation, ValidatedToolOutput, build_evidence, validate}
use noble_cascade.Platform.{Platform}
use noble_cascade.Prelude.{
  Bool, List, Option, String, [], concat, if◌then◌else◌, is_nil, none, not, some, ◌++◌, ◌∷◌,
}
use noble_cascade.Reasoning.{Assessed, evaluate_observation}
use noble_cascade.Signing.{hash_evidence, hash_finding, hash_report}
use noble_cascade.Store.{put_evidence, put_finding}
use noble_cascade.Trust.{quarantine, redact_sensitive}
use noble_cascade.World.{new_id, on_store}

-- the four locals that the loop over the observations fills
pub record Gathered : Type 0 where
  pub evidence_ids : List String
  pub finding_ids : List String
  pub evidence_hashes : List (String × String)
  pub finding_hashes : List (String × String)

abbrev pub nothing_gathered : Gathered
nothing_gathered = record {
  evidence_ids = [];
  finding_ids = [];
  evidence_hashes = [];
  finding_hashes = [];
}

-- quarantine(redact_sensitive(warning)).sanitized, for each warning; 200_000 is the default length
unfoldable pub issues_of : Platform → List String → List String
unfolding quarantine redact_sensitive
issues_of os [] = []
issues_of os (w ∷ ws) = (quarantine os 200_000 (redact_sensitive os w)).sanitized ∷ issues_of os ws

-- COLLECTING_EVIDENCE and VALIDATING_RESULT
unfoldable pub output_stage : Setting → SecurityRequest → Finished → Exec Run ValidatedToolOutput
unfolding obs enter audit_as note validate issues_of
output_stage g request f = do
  enter g request collecting_evidence
  audit_as g request "TOOL_FINISHED"
      (concat "trusted worker exited 0 in " (concat f.command.duration_seconds "s")) "completed"
  doing (
      obs g request "TOOL" "tool finished"
        (field "duration" (float f.command.duration_seconds) (field "exit_code" (Json.int 0) end)))
  enter g request validating_result
  checked ←
      lift (validate g.sources g.conforms g.config.limits f.selected f.context f.command.stdout)
  doing (λ r. record r {
    validation =
        some (record { valid = checked.complete; issues = issues_of g.os checked.warnings });
  })
  note g request "OUTPUT_VALIDATED" "output schema, provenance, source and reproduction checked"
  doing (obs g request "EVIDENCE" "output validated" end)
  pure checked

abbrev pub add_evidence : Platform → Evidence → Gathered → Gathered
add_evidence os e acc = record acc {
  evidence_ids = acc.evidence_ids ++ e.evidence_id ∷ [];
  evidence_hashes = acc.evidence_hashes ++ (e.evidence_id, hash_evidence os e) ∷ [];
}

abbrev pub add_finding : Platform → Finding → Gathered → Gathered
add_finding os f acc = record acc {
  finding_ids = acc.finding_ids ++ f.finding_id ∷ [];
  finding_hashes = acc.finding_hashes ++ (f.finding_id, hash_finding os f) ∷ [];
}

-- the loop over the evidence of one observation
unfoldable pub record_evidence :
    Setting → SecurityRequest → List Evidence → Gathered → Exec Run Gathered
unfolding obs put_evidence hash_evidence
record_evidence g request [] acc = pure acc
record_evidence g request (e ∷ es) acc = do
  on_world (on_store (put_evidence e))
  doing (
      obs g request "EVIDENCE" "evidence recorded"
        (field "evidence_id" (str e.evidence_id) (field "evidence_category" (str e.category) end)))
  record_evidence g request es (add_evidence g.os e acc)

abbrev pub gathering_of : Finished → Fields → Gathering
gathering_of f tool_provenance = record {
  context = f.context;
  definition = f.selected;
  execution_id = f.lease;
  tool_provenance = tool_provenance;
}

abbrev pub assessed_of : SecurityRequest → Finished → Observation → List Evidence → Assessed
assessed_of request f seen evidence = record {
  observation = seen;
  evidence = evidence;
  request_id = request.request_id;
  target = f.context.target.canonical;
  tool = f.selected.name;
  version = f.selected.version;
  operator = request.requester;
  grant_id = f.context.authorization.grant_id;
}

-- the body of the loop over the observations
unfoldable pub observation_stage :
    Setting → SecurityRequest → Finished → Fields → Observation → Gathered → Exec Run Gathered
unfolding obs build_evidence record_evidence evaluate_observation put_finding hash_finding
    finding_state_value
observation_stage g request f tool_provenance seen acc = do
  evidence ← on_world (build_evidence g.os (gathering_of f tool_provenance) seen)
  acc' ← record_evidence g request evidence acc
  finding ← on_world (evaluate_observation g.os (assessed_of request f seen evidence))
  on_world (on_store (put_finding finding request.request_id))
  doing (
      obs g request "REPORT" "finding created" (
        field "finding_id" (str finding.finding_id)
          (field "state" (str (finding_state_value finding.state)) end)))
  pure (add_finding g.os finding acc')

-- the loop over the observations
unfoldable pub gather :
    Setting → SecurityRequest → Finished → Fields → List Observation → Gathered → Exec Run Gathered
unfolding observation_stage
gather g request f tool_provenance [] acc = pure acc
gather g request f tool_provenance (seen ∷ rest) acc = do
  acc' ← observation_stage g request f tool_provenance seen acc
  gather g request f tool_provenance rest acc'

-- hashes if hashes else None
abbrev pub unless_nil : List (String × String) → Option (List (String × String))
unless_nil [] = none
unless_nil (h ∷ hs) = some (h ∷ hs)

unfoldable pub report_fields : SecurityRequest → List String → Fields
unfolding text_items
report_fields request finding_ids =
    field "findings" (array (text_items finding_ids))
      (field "request_id" (str request.request_id) end)

-- the report's hash and identifier
unfoldable pub report_stage : Setting → SecurityRequest → List String → Exec Run (Unit {0})
unfolding new_id hash_report report_fields
report_stage g request finding_ids = if is_nil finding_ids then pure tt else (do
  doing
      (λ r. record r { report_hash = some (hash_report g.os (report_fields request finding_ids)) })
  report_id ← on_world (new_id g.os "report")
  doing (λ r. record r { report_id = some report_id }))

-- the outcome of a run that completed
unfoldable pub final_outcome : Bool → List String → Outcome
final_outcome complete finding_ids =
    if not complete
    then inconclusive
    else if is_nil finding_ids
    then success_no_findings
    else success_with_findings

abbrev pub assign_gathered : Gathered → Run → Run
assign_gathered acc r = record r {
  evidence_ids = acc.evidence_ids;
  finding_ids = acc.finding_ids;
  evidence_hashes = unless_nil acc.evidence_hashes;
  finding_hashes = unless_nil acc.finding_hashes;
}

-- the assignments after the loop, and COMPLETED
unfoldable pub complete_stage :
    Setting → SecurityRequest → ValidatedToolOutput → Gathered → Exec Run (Unit {0})
unfolding obs enter report_stage final_outcome
complete_stage g request checked acc = do
  doing (assign_gathered acc)
  report_stage g request acc.finding_ids
  enter g request completed
  doing (obs g request "REPORT" "execution completed" (field "outcome" (str "success") end))
  doing (λ r. record r { outcome = final_outcome checked.complete acc.finding_ids })

-- from the end of the tool to COMPLETED
unfoldable pub collect : Setting → SecurityRequest → Finished → Exec Run (Unit {0})
unfolding output_stage gather complete_stage
collect g request f = do
  checked ← output_stage g request f
  acc ← gather g request f checked.provenance checked.observations nothing_gathered
  complete_stage g request checked acc

-- the `try` block of `run`
unfoldable pub run_body : Setting → SecurityRequest → Result Target → Exec Run (Unit {0})
unfolding run_gates run_tool collect
run_body g request normalized = do
  cleared ← run_gates g request normalized
  finished ← run_tool g request cleared
  collect g request finished
