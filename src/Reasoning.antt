-- ===== src/Reasoning.antt =====
-- noble/reasoning.py: from a validated observation and its evidence to a finding.
pub mod Proof
use noble_cascade.Errors.{
  Exec, Raised, evidence_validation_failed, pure, refusal, refuse, ◌>>=◌, ◌>>◌,
}
use noble_cascade.Models.{
  ConfidenceAssessment, Evidence, FalsePositiveAnalysis, Finding, FindingProvenance, Reproduction,
  SeverityAssessment, candidate, confirmed, confirmed_finding, get_field, is_true, medium,
  suspected, unresolved,
}
use noble_cascade.Outputs.{Observation}
use noble_cascade.Platform.{Platform}
use noble_cascade.Prelude.{
  Bool, List, Option, String, [], any, concat, decimal, false, if◌then◌else◌, is_nil, length, map,
  none, not, some, true, ℕ, ◌&&◌, ◌==◌, ◌||◌, ◌∷◌,
}
use noble_cascade.Trust.{quarantine, redact_sensitive}
use noble_cascade.World.{World, new_id, utcnow}

-- the arguments of evaluate_observation
pub record Assessed : Type 0 where
  pub observation : Observation
  pub evidence : List Evidence
  pub request_id : String
  pub target : String
  pub tool : String
  pub version : String
  pub operator : String
  pub grant_id : String

-- `safe`
unfoldable pub safe_text : Platform → String → String
unfolding quarantine redact_sensitive
safe_text os value = (quarantine os 500 (redact_sensitive os value)).sanitized

-- the first evidence of the category "source-code"
unfoldable pub source_of : List Evidence → Option Evidence
source_of [] = none
source_of (e ∷ es) = if e.category == "source-code" then some e else source_of es

-- `reproduced`
unfoldable pub reproduced : List Evidence → Bool
unfolding get_field is_true any
reproduced = any (λ (e : Evidence).
    e.category == "test-result" && is_true (get_field "independent_validation" e.provenance))

-- e.target != target or e.request_id != request_id
unfoldable pub is_foreign : Assessed → Evidence → Bool
is_foreign a e = not (e.target == a.target) || not (e.request_id == a.request_id)

-- the integrity of the source evidence
unfoldable pub source_checked : Platform → List Evidence → Bool
unfolding source_of
source_checked os evidence = elim (source_of evidence) [
  | none ↦ false
  | some e ↦ e.content_hash == os.sha256 e.content
]

-- the three refusals
unfoldable pub evidence_refusal : Platform → Assessed → Option Raised
unfolding is_foreign source_checked reproduced any
evidence_refusal os a =
    if is_nil a.evidence || any (is_foreign a) a.evidence
    then refusal evidence_validation_failed "evidence is missing or tied to the wrong execution"
    else if not (source_checked os a.evidence)
    then refusal evidence_validation_failed
        "source evidence was not independently integrity-checked"
    else if a.observation.verified && not (reproduced a.evidence)
    then refusal evidence_validation_failed "verified claim lacks an independent reproduction"
    else none

abbrev pub evidence_ids_of : List Evidence → List String
evidence_ids_of = map (λ (e : Evidence). e.evidence_id)

unfoldable pub confidence_of : Bool → ℕ → ConfidenceAssessment
confidence_of verified n = record {
  score = if verified then 94 else 45;
  level = if verified then "HIGH" else "LOW";
  evidence_count = n;
  contradictions = 0;
  rationale =
      if verified
      then "Known fixture hash and source AST match; in-memory SQLite reproduction independently confirmed"
      else "Only a syntax-level signature was observed; taint and exploitability unproven";
}

unfoldable pub false_positive_of : Platform → Assessed → FalsePositiveAnalysis
unfolding safe_text
false_positive_of os a =
    let verified = a.observation.verified in
    record {
      claim = safe_text os a.observation.title;
      supporting = evidence_ids_of a.evidence;
      missing =
          if verified
          then []
          else "Confirm that the interpolated value comes from an untrusted input"
            ∷ "Reproduce the issue safely with a local test" ∷ [];
      benign_explanations =
          if verified
          then []
          else "The value may be constant or already validated"
            ∷ "The SQL client may perform its own parameterization" ∷ [];
      contradictory = [];
      validation_steps =
          if verified
          then "Independently re-check fixture digest and AST"
            ∷ "Compare interpolated and parameterized SQL in isolated in-memory SQLite" ∷ []
          else "Manual data-flow review" ∷ "Controlled non-destructive reproduction" ∷ [];
      verdict = if verified then confirmed else unresolved;
      notes = if verified then "Synthetic local fixture only" else "Candidate, not confirmed";
    }

unfoldable pub severity_of : Bool → SeverityAssessment
severity_of verified = record {
  vector =
      if verified
      then "local synthetic fixture / no production exposure"
      else "undetermined exposure";
  tier = medium;
  impact = 5;
  exploitability = if verified then 3 else 1;
  exposure = 0;
  rationale = "Local-only evidence; production impact was not assessed";
}

unfoldable pub reproduction_of : Bool → Option Reproduction
reproduction_of verified =
    if verified
    then some (record {
      steps =
          "Verify the known fixture's SHA-256 and interpolated SQL AST"
          ∷ "Create an in-memory SQLite table with two synthetic records"
          ∷ "Contrast unsafe interpolated query (2 rows) with parameterized query (0 rows)" ∷ [];
      non_destructive = true;
      controlled = true;
      result = "Reproduced against the local synthetic fixture only";
    })
    else none

unfoldable pub finding_provenance_of : Platform → Assessed → ℕ → FindingProvenance
unfolding false_positive_of
finding_provenance_of os a assessed_at = record {
  source = "trusted-local-worker";
  tool = a.tool;
  tool_version = a.version;
  operator = a.operator;
  grant_id = a.grant_id;
  request_id = a.request_id;
  classification = if a.observation.verified then "synthetic" else "candidate";
  false_positive_analysis = false_positive_of os a;
  assessed_at = assessed_at;
}

unfoldable pub finding_of : Platform → Assessed → String → ℕ → Finding
unfolding safe_text confidence_of severity_of reproduction_of finding_provenance_of decimal
    redact_sensitive
finding_of os a finding_id assessed_at =
    let seen = a.observation in
    record {
      finding_id = finding_id;
      title = safe_text os seen.title;
      category = seen.category;
      target = a.target;
      description = safe_text os seen.description;
      evidence_ids = evidence_ids_of a.evidence;
      confidence = confidence_of seen.verified (length a.evidence);
      severity = severity_of seen.verified;
      impact = safe_text os seen.impact;
      affected_component = redact_sensitive os (concat seen.file (concat ":" (decimal seen.line)));
      reproduction = reproduction_of seen.verified;
      remediation = safe_text os seen.remediation;
      references = "https://cwe.mitre.org/data/definitions/89.html" ∷ [];
      state = if seen.verified then confirmed_finding else candidate;
      status = if seen.verified then confirmed else suspected;
      provenance = finding_provenance_of os a assessed_at;
      cwe = seen.cwe;
    }

-- evaluate_observation
unfoldable pub evaluate_observation : Platform → Assessed → Exec World Finding
unfolding evidence_refusal new_id utcnow finding_of
evaluate_observation os a = do
  refuse (evidence_refusal os a)
  finding_id ← new_id os "finding"
  assessed_at ← utcnow os
  pure (finding_of os a finding_id assessed_at)
