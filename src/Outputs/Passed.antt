-- ===== src/Outputs/Passed.antt =====
-- The whole of OutputValidator.validate of noble/evidence.py, for an output that it lets pass.
-- The file lies in the workspace, and it is the target or lies in it.
use mathlib.Core.Path.{subst}
use noble_cascade.Config.{Limits}
use noble_cascade.Errors.{Raised, Result, err, ok, or_else, unless}
use noble_cascade.Execution.{ExecutionContext}
use noble_cascade.Models.{Json, ToolDefinition}
use noble_cascade.Outputs.Checks.{
  fixture_refusal, invalid, name_refusal, observation_refusal, outside, place_refusal, scan_refusal,
  source_refusal,
}
use noble_cascade.Outputs.Decode.{Observation, ToolOutput, output_of}
use noble_cascade.Outputs.Fixture.{Sources}
use noble_cascade.Outputs.Sound.{
  Confirmed, Shown, Suspected, fixture_refusal-Confirmed, or_else-none, scan_refusal-Suspected,
  source_refusal-Shown,
}
use noble_cascade.Outputs.Validate.{
  ValidatedToolOutput, fixture_count_refusal, observations_refusal, output_refusal,
  provenance_refusal, validate, validate_document, validated_of,
}
use noble_cascade.Prelude.{
  All, Bool, Bool-cases, List, Option, Option-cases, String, [], ap, arith, codes, count, eq_iff,
  eq_refl, false, has_part, if◌then◌else◌, inl, inr, len, length, ltb, none, refl, some, split_on,
  starts_with, ◌==◌, ◌∙◌, ◌∷◌, ◌≡◌, ◌≤◌, ◌⊎◌,
}

pub record InPlace (io : Sources) (root target file : String) (seen : Observation) : Type 0 where
  pub relative : starts_with (codes seen.file) (codes "/") ≡ false
  pub no_parent : has_part (split_on b'/' (codes seen.file)) (codes "..") ≡ false
  pub in_root : io.commonpath root file ≡ some root
  pub in_target : (file ≡ target) ⊎ (io.commonpath target file ≡ some target)

-- what stands behind one observation
pub record Checked (io : Sources) (limits : Limits) (definition : ToolDefinition)
    (context : ExecutionContext) (seen : Observation) : Type 0 where
  pub place :
      InPlace io
        (io.resolve context.workspace_root)
        (io.resolve context.target.canonical)
        (io.resolve_under (io.resolve context.workspace_root) seen.file)
        seen
  pub shown :
      Shown io limits.max_file_bytes
        (io.resolve_under (io.resolve context.workspace_root) seen.file)
        seen
  pub suspected :
      definition.name ≡ "static-code-scan"
      → Suspected io (io.resolve_under (io.resolve context.workspace_root) seen.file) seen
  pub confirmed :
      definition.name ≡ "fixture-sql-verify"
      → Confirmed io
          (io.resolve context.workspace_root)
          (io.resolve_under (io.resolve context.workspace_root) seen.file)
          seen

outside-none :
    (io : Sources) (root file message : String)
    → outside io root file message ≡ none
    → io.commonpath root file ≡ some root
unfolding outside
outside-none io root file message h = elim (Option-cases (io.commonpath root file)) [
  | inl e ↦ absurd (ground (arith, e, h))
  | inr (common, e) ↦ e ∙ ap some (ground (arith, e, h, eq_iff common root))
]

in_target_lem :
    (io : Sources) (root target file : String)
    → place_refusal io root target file ≡ none
    → (io.commonpath root file ≡ some root)
      × ((file ≡ target) ⊎ (io.commonpath target file ≡ some target))
unfolding place_refusal
in_target_lem io root target file h =
    let (inside, rest) = or_else-none _ _ h in
    (
      outside-none io root file "tool output references a file outside workspace" inside,
      elim (Bool-cases (io.is_file target)) [
        | inl e ↦ inl (ground (arith, e, rest, eq_iff file target))
        | inr e ↦ inr (
            outside-none io target file "tool output references a file outside target directory"
              (ground (arith, e, rest)))
      ],
    )

observation_refusal-Checked :
    (io : Sources) (limits : Limits) (definition : ToolDefinition) (context : ExecutionContext)
    (out : ToolOutput) (seen : Observation)
    → observation_refusal io limits.max_file_bytes definition
        (io.resolve context.workspace_root)
        (io.resolve context.target.canonical)
        out
        seen
      ≡ none
    → Checked io limits definition context seen
unfolding observation_refusal name_refusal
observation_refusal-Checked io limits definition context out seen h =
    let root = io.resolve context.workspace_root in
    let target = io.resolve context.target.canonical in
    let file = io.resolve_under root seen.file in
    let rest3 =
      (if definition.name == "static-code-scan"
        then scan_refusal io file seen
        else if definition.name == "fixture-sql-verify"
        then fixture_refusal io root file out seen
        else none) in
    let rest2 = or_else (source_refusal io limits.max_file_bytes file seen) rest3 in
    let rest1 = or_else (place_refusal io root target file) rest2 in
    let (named, h1) = or_else-none (name_refusal seen.file) rest1 h in
    let (placed, h2) = or_else-none (place_refusal io root target file) rest2 h1 in
    let (sourced, h3) = or_else-none (source_refusal io limits.max_file_bytes file seen) rest3 h2 in
    let (inside, reached) = in_target_lem io root target file placed in
    record {
      place = record {
        relative = ground (arith, named);
        no_parent = ground (arith, named);
        in_root = inside;
        in_target = reached;
      };
      shown = source_refusal-Shown io limits.max_file_bytes file seen sourced;
      suspected = λ e.
          scan_refusal-Suspected io file seen
            (ground (arith, h3, eq_refl "static-code-scan", ap (λ s. s == "static-code-scan") e));
      confirmed = λ e. fixture_refusal-Confirmed io root file out seen (
          ground (
            arith,
            h3,
            ap (λ s. s == "static-code-scan") e,
            ap (λ s. s == "fixture-sql-verify") e,
          ));
    }

observations_refusal-All :
    (io : Sources) (limits : Limits) (definition : ToolDefinition) (context : ExecutionContext)
    (out : ToolOutput) (all_seen : List Observation)
    → observations_refusal io limits.max_file_bytes definition
        (io.resolve context.workspace_root)
        (io.resolve context.target.canonical)
        out
        all_seen
      ≡ none
    → All (Checked io limits definition context) all_seen
unfolding observations_refusal
observations_refusal-All io limits definition context out [] h = tt
observations_refusal-All io limits definition context out (seen ∷ rest) h =
    let (first, later) = or_else-none _ _ h in
    (
      observation_refusal-Checked io limits definition context out seen first,
      observations_refusal-All io limits definition context out rest later,
    )

-- the document that passed
pub record Passed (io : Sources) (limits : Limits) (definition : ToolDefinition)
    (context : ExecutionContext) (raw : String) (result : ValidatedToolOutput) : Type 0 where
  pub size : len raw ≤ limits.max_output_bytes
  pub document : Json
  pub loaded : io.loads raw ≡ some document
  pub out : ToolOutput
  pub decoded : output_of document ≡ some out
  pub request_id : out.request_id ≡ context.request_id
  pub target : out.target ≡ context.target.canonical
  pub tool : out.tool ≡ definition.name
  pub version : out.version ≡ definition.version
  pub few : length result.observations ≤ limits.max_observations
  pub single : definition.name ≡ "fixture-sql-verify" → length result.observations ≡ 1
  pub observations : result.observations ≡ out.observations
  pub checked : All (Checked io limits definition context) result.observations

unless-ok :
    {A : Type 0} (o : Option Raised) (a b : A) → unless o (ok a) ≡ ok b → (o ≡ none) × (a ≡ b)
unless-ok none a b h = (refl, ap (λ (x : Result _). elim x [ ok y ↦ y | err _ ↦ a ]) h)
unless-ok (some e) a b h = absurd (ground (arith, h))

-- An output that the validator lets pass is no larger than the limit, is bound to the request, the
-- target, the tool and its version, and has no more observations than the limit, exactly one from the
-- verifier. Each of them names a relative file in the workspace and in the target, whose size is
-- within the limit, and quotes its line. A scan claims no reproduction and the parser finds the call on
-- that line; what the fixture's verifier claims has been reproduced outside the worker.
pub validate_sound :
    (io : Sources) (conforms : Json → Json → Bool) (limits : Limits) (definition : ToolDefinition)
    (context : ExecutionContext) (raw : String) (result : ValidatedToolOutput)
    → validate io conforms limits definition context raw ≡ ok result
    → Passed io limits definition context raw result
unfolding validate validate_document output_refusal provenance_refusal fixture_count_refusal
validate_sound io conforms limits definition context raw result h =
    elim (Bool-cases (ltb limits.max_output_bytes (len raw))) [
      | inl big ↦ absurd (ground (arith, h, big))
      | inr small ↦ elim (Option-cases (io.loads raw)) [
        | inl e ↦ absurd (ground (arith, h, small, e))
        | inr (document, e) ↦ elim (Option-cases (output_of document)) [
          | inl f ↦ absurd (ground (arith, h, small, e, f))
          | inr (out, f) ↦
              let each_refusal =
                observations_refusal io limits.max_file_bytes definition
                  (io.resolve context.workspace_root) (io.resolve context.target.canonical) out
                  out.observations in
              let crowd =
                (if ltb limits.max_observations (length out.observations)
                  then invalid "too many tool observations"
                  else none) in
              let rest2 = or_else each_refusal (fixture_count_refusal definition out) in
              let rest1 = or_else crowd rest2 in
              let (passed, same) =
                unless-ok (output_refusal io limits definition context out) (validated_of out)
                  result (ground (arith, h, small, e, f)) in
              let (bound, h1) =
                or_else-none (provenance_refusal definition context out) rest1 passed in
              let (few, h2) = or_else-none crowd rest2 h1 in
              let (each, count) =
                or_else-none each_refusal (fixture_count_refusal definition out) h2 in
              subst (Passed io limits definition context raw) same (record {
                size = ground (arith, small);
                document = document;
                loaded = e;
                out = out;
                decoded = f;
                request_id = ground (arith, bound, eq_iff out.request_id context.request_id);
                target = ground (arith, bound, eq_iff out.target context.target.canonical);
                tool = ground (arith, bound, eq_iff out.tool definition.name);
                version = ground (arith, bound, eq_iff out.version definition.version);
                few = ground (arith, few);
                single = λ n. ground (arith, count, ap (λ s. s == "fixture-sql-verify") n);
                observations = refl;
                checked =
                    observations_refusal-All io limits definition context out out.observations each;
              })
        ]
      ]
    ]
