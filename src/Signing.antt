-- ===== src/Signing.antt =====
-- noble/signing.py: the hashes of evidence, findings and reports, over a canonical JSON text; the
-- dicts of noble/models.py that they are taken of.
use noble_cascade.Models.{
  ConfidenceAssessment, Evidence, FalsePositiveAnalysis, Fields, Finding, FindingProvenance, Json,
  SeverityAssessment, array, end, evidence_status_value, field, finding_state_value, object, str,
  text_items, tier_value,
}
use noble_cascade.Platform.{Platform}
use noble_cascade.Prelude.{Bool, List, String, [], map, sort_texts, ◌==◌, ◌∷◌}

unfoldable pub digest_json : Platform → Json → String
digest_json os value = os.sha256 (os.canonical value)

-- the dict `payload` of hash_evidence, at Evidence.to_dict
unfoldable pub evidence_payload : Evidence → Json
evidence_payload e = object (
    field "evidence_id" (str e.evidence_id) (
      field "content" (str e.content) (
        field "content_hash" (str e.content_hash) (
          field "target" (str e.target)
            (field "tool" (str e.tool) (field "provenance" (object e.provenance) end))))))

unfoldable pub hash_evidence : Platform → Evidence → String
unfolding digest_json evidence_payload
hash_evidence os e = digest_json os (evidence_payload e)

-- ConfidenceAssessment.to_dict
unfoldable pub confidence_dict : ConfidenceAssessment → Json
confidence_dict c = object (
    field "score" (Json.int c.score) (
      field "level" (str c.level) (
        field "evidence_count" (Json.int c.evidence_count) (
          field "contradictions" (Json.int c.contradictions)
            (field "rationale" (str c.rationale) end)))))

-- SeverityAssessment.to_dict
unfoldable pub severity_dict : SeverityAssessment → Json
unfolding tier_value
severity_dict s = object (
    field "vector" (str s.vector) (
      field "tier" (str (tier_value s.tier)) (
        field "impact" (Json.int s.impact) (
          field "exploitability" (Json.int s.exploitability)
            (field "exposure" (Json.int s.exposure) (field "rationale" (str s.rationale) end))))))

-- FalsePositiveAnalysis.to_dict
unfoldable pub analysis_dict : FalsePositiveAnalysis → Json
unfolding text_items evidence_status_value
analysis_dict a = object (
    field "claim" (str a.claim) (
      field "supporting" (array (text_items a.supporting)) (
        field "missing" (array (text_items a.missing)) (
          field "benign_explanations" (array (text_items a.benign_explanations)) (
            field "contradictory" (array (text_items a.contradictory)) (
              field "validation_steps" (array (text_items a.validation_steps)) (
                field "verdict" (str (evidence_status_value a.verdict))
                  (field "notes" (str a.notes) end))))))))

-- the dict `provenance` of evaluate_observation
unfoldable pub provenance_dict : Platform → FindingProvenance → Json
unfolding analysis_dict
provenance_dict os p = object (
    field "source" (str p.source) (
      field "tool" (str p.tool) (
        field "tool_version" (str p.tool_version) (
          field "operator" (str p.operator) (
            field "grant_id" (str p.grant_id) (
              field "request_id" (str p.request_id) (
                field "classification" (str p.classification) (
                  field "false_positive_analysis" (analysis_dict p.false_positive_analysis)
                    (field "assessed_at" (str (os.isoformat p.assessed_at)) end)))))))))

-- the dict `payload` of hash_finding, at Finding.to_dict
unfoldable pub finding_payload : Platform → Finding → Json
unfolding sort_texts confidence_dict severity_dict provenance_dict finding_state_value text_items
finding_payload os f = object (
    field "finding_id" (str f.finding_id) (
      field "title" (str f.title) (
        field "target" (str f.target) (
          field "evidence_ids" (array (text_items (sort_texts f.evidence_ids))) (
            field "confidence" (confidence_dict f.confidence) (
              field "severity" (severity_dict f.severity) (
                field "provenance" (provenance_dict os f.provenance)
                  (field "state" (str (finding_state_value f.state)) end))))))))

unfoldable pub hash_finding : Platform → Finding → String
unfolding digest_json finding_payload
hash_finding os f = digest_json os (finding_payload os f)

-- hash_report
unfoldable pub hash_report : Platform → Fields → String
unfolding digest_json
hash_report os report_data = digest_json os (object report_data)

-- sign_finding, up to the composite
pub record SignedFinding : Type 0 where
  pub finding_hash : String
  pub evidence_hashes : List (String × String)
  pub composite_hash : String

-- {e["evidence_id"]: hash_evidence(e) for e in evidence_list}, for distinct identifiers
unfoldable pub hashes_of : Platform → List Evidence → List (String × String)
unfolding hash_evidence
hashes_of os [] = []
hashes_of os (e ∷ es) = (e.evidence_id, hash_evidence os e) ∷ hashes_of os es

unfoldable pub sign_finding : Platform → Finding → List Evidence → SignedFinding
unfolding hash_finding hashes_of digest_json text_items sort_texts
sign_finding os f evidence =
    let finding_hash = hash_finding os f in
    let hashes = hashes_of os evidence in
    record {
      finding_hash = finding_hash;
      evidence_hashes = hashes;
      composite_hash = digest_json os (
          object (
            field "finding" (str finding_hash) (
              field "evidence"
                (array (text_items (sort_texts (map (λ (p : String × String). p.1) hashes))))
                end)));
    }

unfoldable pub verify_finding_integrity : Platform → Finding → String → Bool
unfolding hash_finding
verify_finding_integrity os f expected_finding_hash = hash_finding os f == expected_finding_hash
