-- ===== src/Outputs/Validate.antt =====
-- OutputValidator.validate of noble/evidence.py.
use noble_cascade.Config.{Limits}
use noble_cascade.Errors.{
  Raised, Result, builtin, err, fault, invalid_output, key_error, ok, or_else, unless,
}
use noble_cascade.Execution.{ExecutionContext}
use noble_cascade.Models.{Fields, Json, ToolDefinition}
use noble_cascade.Outputs.Checks.{invalid, names_text, observation_refusal}
use noble_cascade.Outputs.Decode.{Observation, ToolOutput, output_of}
use noble_cascade.Outputs.Fixture.{Sources}
use noble_cascade.Prelude.{
  Bool, List, Option, String, [], eqb, if◌then◌else◌, len, length, ltb, max, none, not, some, ℕ,
  ◌&&◌, ◌==◌, ◌||◌, ◌∷◌,
}

pub record ValidatedToolOutput : Type 0 where
  pub observations : List Observation
  pub complete : Bool
  pub warnings : List String
  pub provenance : Fields

-- the guards on the document as a whole
unfoldable pub provenance_refusal : ToolDefinition → ExecutionContext → ToolOutput → Option Raised
unfolding names_text
provenance_refusal definition context out =
    let scanner =
      (if definition.name == "static-code-scan" then "local-ast-sql-v1" else "fixture-sql-v1") in
    if not (out.request_id == context.request_id)
      || not (out.target == context.target.canonical)
      || not (out.tool == definition.name)
      || not (out.version == definition.version)
    then invalid "tool output provenance does not match invocation"
    else if not (names_text "scanner" scanner out.provenance)
    then invalid "tool output scanner provenance is not trusted"
    else none

-- the loop over the observations: the first that is refused ends it
unfoldable pub observations_refusal :
    Sources → ℕ → ToolDefinition → String → String → ToolOutput → List Observation → Option Raised
unfolding observation_refusal
observations_refusal io max definition root target out [] = none
observations_refusal io max definition root target out (seen ∷ rest) =
    or_else (observation_refusal io max definition root target out seen)
      (observations_refusal io max definition root target out rest)

-- the guard on the number of a verifier's observations
unfoldable pub fixture_count_refusal : ToolDefinition → ToolOutput → Option Raised
fixture_count_refusal definition out =
    if definition.name == "fixture-sql-verify" && not (eqb (length out.observations) 1)
    then invalid "fixture verifier must return exactly one observation"
    else none

-- the guards after the schema, in their order
unfoldable pub output_refusal :
    Sources → Limits → ToolDefinition → ExecutionContext → ToolOutput → Option Raised
unfolding provenance_refusal observations_refusal fixture_count_refusal
output_refusal io limits definition context out =
    let root = io.resolve context.workspace_root in
    let target = io.resolve context.target.canonical in
    or_else (provenance_refusal definition context out) (
      or_else
        (if ltb limits.max_observations (length out.observations)
          then invalid "too many tool observations"
          else none)
        (or_else
          (observations_refusal io limits.max_file_bytes definition root target out
            out.observations)
          (fixture_count_refusal definition out)))

abbrev pub validated_of : ToolOutput → ValidatedToolOutput
validated_of out = record {
  observations = out.observations;
  complete = out.complete;
  warnings = out.warnings;
  provenance = out.provenance;
}

-- the guards on a document that the schema admits; a field that is missing raises KeyError
unfoldable pub validate_document :
    Sources → Limits → ToolDefinition → ExecutionContext → Json → Result ValidatedToolOutput
unfolding output_of output_refusal
validate_document io limits definition context document = elim (output_of document) [
  | none ↦ err (builtin key_error)
  | some out ↦ unless (output_refusal io limits definition context out) (ok (validated_of out))
]

-- OutputValidator.validate
unfoldable pub validate :
    Sources
    → (Json → Json → Bool)
    → Limits
    → ToolDefinition
    → ExecutionContext
    → String
    → Result ValidatedToolOutput
unfolding validate_document
validate io conforms limits definition context raw =
    if ltb limits.max_output_bytes (len raw)
    then err (fault invalid_output "tool output exceeds configured size limit")
    else elim (io.loads raw) [
      | none ↦ err (fault invalid_output "tool output is not valid JSON")
      | some document ↦
          if not (conforms definition.output_schema document)
          then err (fault invalid_output "tool output violates its declared schema")
          else validate_document io limits definition context document
    ]
