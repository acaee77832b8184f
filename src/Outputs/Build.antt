-- ===== src/Outputs/Build.antt =====
-- build_evidence of noble/evidence.py.
use noble_cascade.Errors.{Exec, builtin, pure, raise, type_error, ◌>>=◌}
use noble_cascade.Execution.{ExecutionContext}
use noble_cascade.Models.{Evidence, Fields, Json, ToolDefinition, bool, end, field, merge, str}
use noble_cascade.Outputs.Decode.{Observation, Reproduced}
use noble_cascade.Platform.{Platform}
use noble_cascade.Prelude.{
  List, String, [], concat, decimal, if◌then◌else◌, none, not, some, true, ℕ, ◌∷◌,
}
use noble_cascade.Trust.{QuarantineResult, quarantine, redact_sensitive}
use noble_cascade.World.{World, new_id, utcnow}

-- the keyword arguments of build_evidence
pub record Gathering : Type 0 where
  pub context : ExecutionContext
  pub definition : ToolDefinition
  pub execution_id : String
  pub tool_provenance : Fields

unfoldable pub source_text : Platform → Observation → QuarantineResult
unfolding quarantine redact_sensitive
source_text os seen = quarantine os 300 (redact_sensitive os seen.snippet)

unfoldable pub source_provenance : Platform → Gathering → Observation → Fields
unfolding merge source_text redact_sensitive
source_provenance os g seen =
    merge
      (field "source" (str "target-file") (
        field "file" (str (redact_sensitive os seen.file)) (
          field "line" (Json.int seen.line) (
            field "tool" (str g.definition.name) (
              field "operator" (str g.context.operator_id) (
                field "authorization_grant" (str g.context.authorization.grant_id) (
                  field "policy" (str g.context.scope.policy_name) (
                    field "tool_version" (str g.definition.version) (
                      field "source_sha256" (str (os.sha256 seen.snippet)) (
                        field "quarantined" (bool (source_text os seen).hostile)
                          (field "data_classification" (str "TARGET") end)))))))))))
      g.tool_provenance

unfoldable pub source_evidence : Platform → Gathering → Observation → String → ℕ → Evidence
unfolding source_text source_provenance
source_evidence os g seen evidence_id recorded_at = record {
  evidence_id = evidence_id;
  request_id = g.context.request_id;
  execution_id = g.execution_id;
  tool = g.definition.name;
  tool_version = g.definition.version;
  target = g.context.target.canonical;
  category = "source-code";
  content = (source_text os seen).sanitized;
  content_hash = os.sha256 (source_text os seen).sanitized;
  trust_level = "TARGET_CONTENT";
  recorded_at = recorded_at;
  provenance = source_provenance os g seen;
}

-- the local `content`
unfoldable pub reproduction_text : Reproduced → String
unfolding decimal
reproduction_text rep = concat "Synthetic in-memory SQLite: interpolated=" (
    concat (decimal rep.unsafe_rows)
      (concat " rows; parameterized=" (concat (decimal rep.parameterized_rows) " rows")))

unfoldable pub test_provenance : Gathering → Fields
unfolding merge
test_provenance g =
    merge
      (field "source" (str "known-synthetic-fixture-reproduction") (
        field "operator" (str g.context.operator_id) (
          field "authorization_grant" (str g.context.authorization.grant_id) (
            field "policy" (str g.context.scope.policy_name) (
              field "tool_version" (str g.definition.version) (
                field "independent_validation" (bool true)
                  (field "data_classification" (str "AGENT_DERIVED") end)))))))
      g.tool_provenance

unfoldable pub test_evidence : Platform → Gathering → Reproduced → String → ℕ → Evidence
unfolding reproduction_text test_provenance
test_evidence os g rep evidence_id recorded_at = record {
  evidence_id = evidence_id;
  request_id = g.context.request_id;
  execution_id = g.execution_id;
  tool = g.definition.name;
  tool_version = g.definition.version;
  target = g.context.target.canonical;
  category = "test-result";
  content = reproduction_text rep;
  content_hash = os.sha256 (reproduction_text rep);
  trust_level = "DERIVED_AGENT_DATA";
  recorded_at = recorded_at;
  provenance = test_provenance g;
}

-- the second record, of a verified observation; `None["unsafe_rows"]` raises TypeError
unfoldable pub add_test : Platform → Gathering → Observation → Evidence → Exec World (List Evidence)
unfolding new_id utcnow test_evidence
add_test os g seen first =
    if not seen.verified then pure (first ∷ []) else (elim seen.reproduction [
      | none ↦ raise (builtin type_error)
      | some rep ↦ do
        evidence_id ← new_id os "ev"
        recorded_at ← utcnow os
        pure (first ∷ test_evidence os g rep evidence_id recorded_at ∷ [])
    ])

-- build_evidence
unfoldable pub build_evidence : Platform → Gathering → Observation → Exec World (List Evidence)
unfolding new_id utcnow source_evidence add_test
build_evidence os g seen = do
  evidence_id ← new_id os "ev"
  recorded_at ← utcnow os
  add_test os g seen (source_evidence os g seen evidence_id recorded_at)
