-- ===== src/Reasoning/Proof.antt =====
-- What stands behind a finding of evaluate_observation in noble/reasoning.py.
-- what a finding rests on
use mathlib.Core.Path.{subst}
use noble_cascade.Errors.{ok}
use noble_cascade.Models.{
  Evidence, Fields, Finding, Json, confirmed_finding, end, field, get_field, is_true, merge,
  set_field,
}
use noble_cascade.Outputs.{
  Gathering, Observation, Reproduced, add_test, build_evidence, source_evidence, source_text,
  test_evidence, test_provenance,
}
use noble_cascade.Platform.{Platform}
use noble_cascade.Prelude.{
  All, Bool-cases, List, Option-cases, String, [], any, ap, arith, concat, eq_iff, eq_refl, false,
  inl, inr, map, none, refl, some, true, ℕ, ◌+◌, ◌==◌, ◌↔◌, ◌∙◌, ◌∷◌, ◌≡◌,
}
use noble_cascade.Reasoning.{
  Assessed, evaluate_observation, evidence_refusal, finding_of, is_foreign, reproduced,
  source_checked, source_of,
}
use noble_cascade.World.{World, new_id, utcnow}

pub record Grounded (os : Platform) (a : Assessed) (f : Finding) : Type 0 where
  pub bound :
      All (λ (e : Evidence). (e.target ≡ a.target) × (e.request_id ≡ a.request_id)) a.evidence
  pub source : Evidence
  pub first : source_of a.evidence ≡ some source
  pub intact : source.content_hash ≡ os.sha256 source.content
  pub confirmed : (f.state ≡ confirmed_finding) ↔ (a.observation.verified ≡ true)
  pub independent : f.state ≡ confirmed_finding → reproduced a.evidence ≡ true
  pub evidence_ids : f.evidence_ids ≡ map (λ (e : Evidence). e.evidence_id) a.evidence
  pub target : f.target ≡ a.target

own_evidence :
    (a : Assessed) (es : List Evidence)
    → any (is_foreign a) es ≡ false
    → All (λ (e : Evidence). (e.target ≡ a.target) × (e.request_id ≡ a.request_id)) es
unfolding any is_foreign
own_evidence a [] h = tt
own_evidence a (e ∷ es) h = (
  (
    ground (arith, h, eq_iff e.target a.target),
    ground (arith, h, eq_iff e.request_id a.request_id),
  ),
  own_evidence a es (ground (arith, h)),
)

source_intact :
    (os : Platform) (es : List Evidence)
    → source_checked os es ≡ true
    → (e : Evidence) × (source_of es ≡ some e) × (e.content_hash ≡ os.sha256 e.content)
unfolding source_checked
source_intact os es h = elim (Option-cases (source_of es)) [
  | inl e ↦ absurd (ground (arith, h, e))
  | inr (s, e) ↦ (s, e, ground (arith, h, e, eq_iff s.content_hash (os.sha256 s.content)))
]

finding_of-Grounded :
    (os : Platform) (a : Assessed) (finding_id : String) (assessed_at : ℕ)
    → evidence_refusal os a ≡ none
    → Grounded os a (finding_of os a finding_id assessed_at)
unfolding evidence_refusal finding_of
finding_of-Grounded os a finding_id assessed_at h =
    let (source, first, intact) = source_intact os a.evidence (ground (arith, h)) in
    record {
      bound = own_evidence a a.evidence (ground (arith, h));
      source = source;
      first = first;
      intact = intact;
      confirmed = ground arith;
      independent = λ c. ground (arith, h, c);
      evidence_ids = refl;
      target = refl;
    }

-- A finding is made only from evidence of the request and of the target, the first of which of the
-- source code has the hash of its content. The finding is CONFIRMED just when the observation is
-- verified, and then an independent reproduction is among the evidence. It lists the ids of the
-- evidence in order.
pub evaluate_observation_sound :
    (os : Platform) (a : Assessed) (w w' : World) (f : Finding)
    → evaluate_observation os a w ≡ (ok f, w')
    → Grounded os a f
unfolding evaluate_observation new_id utcnow
evaluate_observation_sound os a w w' f h = elim (Option-cases (evidence_refusal os a)) [
  | inr (x, e) ↦ absurd (ground (arith, h, e))
  | inl e ↦
      let id = concat "finding" (concat "-" (os.hex w.draws)) in
      let same : finding_of os a id (os.clock w.readings) ≡ f = ground (arith, h, e) in
      subst (Grounded os a) same (finding_of-Grounded os a id (os.clock w.readings) e)
]

get_field-set_field_ne :
    (j k : String) (v : Json) (fs : Fields)
    → (j == k) ≡ false
    → get_field k (set_field j v fs) ≡ get_field k fs
unfolding get_field set_field
get_field-set_field_ne j k v end h = ground (arith, h)
get_field-set_field_ne j k v (field i x fs) h =
    ground (arith, h, get_field-set_field_ne j k v fs h, eq_iff i j, eq_iff i k, eq_iff j k)

get_field-merge :
    (k : String) (fs gs : Fields)
    → get_field k gs ≡ none
    → get_field k (merge fs gs) ≡ get_field k fs
unfolding get_field merge
get_field-merge k fs end h = refl
get_field-merge k fs (field j v gs) h = elim (Bool-cases (j == k)) [
  | inl e ↦ absurd (ground (arith, h, e))
  | inr e ↦
      get_field-merge k (set_field j v fs) gs (ground (arith, h, e))
      ∙ get_field-set_field_ne j k v fs e
]

-- the observation and its evidence, as the engine hands them on
abbrev pub handed_on : Gathering → Observation → List Evidence → String → Assessed
handed_on g seen evidence grant_id = record {
  observation = seen;
  evidence = evidence;
  request_id = g.context.request_id;
  target = g.context.target.canonical;
  tool = g.definition.name;
  version = g.definition.version;
  operator = g.context.operator_id;
  grant_id = grant_id;
}

test_provenance-independent :
    (g : Gathering)
    → get_field "independent_validation" g.tool_provenance ≡ none
    → is_true (get_field "independent_validation" (test_provenance g)) ≡ true
unfolding test_provenance is_true get_field
test_provenance-independent g h =
    ap is_true (get_field-merge "independent_validation" _ g.tool_provenance h)

candidate_accepted :
    (os : Platform) (g : Gathering) (seen : Observation) (grant_id id : String) (t : ℕ)
    → seen.verified ≡ false
    → evidence_refusal os (handed_on g seen (source_evidence os g seen id t ∷ []) grant_id) ≡ none
unfolding evidence_refusal source_checked source_of is_foreign any source_evidence
candidate_accepted os g seen grant_id id t h = ground (
  arith,
  h,
  eq_refl g.context.request_id,
  eq_refl g.context.target.canonical,
  eq_refl (os.sha256 (source_text os seen).sanitized),
)

verified_accepted :
    (os : Platform) (g : Gathering) (seen : Observation) (rep : Reproduced)
    (grant_id id id' : String) (t t' : ℕ)
    → get_field "independent_validation" g.tool_provenance ≡ none
    → evidence_refusal os (
        handed_on g seen
          (source_evidence os g seen id t ∷ test_evidence os g rep id' t' ∷ [])
          grant_id)
      ≡ none
unfolding evidence_refusal source_checked source_of is_foreign any source_evidence test_evidence
    reproduced
verified_accepted os g seen rep grant_id id id' t t' h = ground (
  arith,
  test_provenance-independent g h,
  eq_refl g.context.request_id,
  eq_refl g.context.target.canonical,
  eq_refl (os.sha256 (source_text os seen).sanitized),
)

-- The evidence that build_evidence makes of an observation is never refused by evaluate_observation,
-- if the observation is of the request and the target of the evidence, and the worker's provenance,
-- which the schema keeps to three other names, has no "independent_validation".
pub build_evidence-accepted :
    (os : Platform) (g : Gathering) (seen : Observation) (grant_id : String)
    (evidence : List Evidence) (w w' : World)
    → get_field "independent_validation" g.tool_provenance ≡ none
    → build_evidence os g seen w ≡ (ok evidence, w')
    → evidence_refusal os (handed_on g seen evidence grant_id) ≡ none
unfolding build_evidence add_test new_id utcnow
build_evidence-accepted os g seen grant_id evidence w w' h made =
    let id = concat "ev" (concat "-" (os.hex w.draws)) in
    let id' = concat "ev" (concat "-" (os.hex (w.draws + 1))) in
    let t = os.clock w.readings in
    let t' = os.clock (w.readings + 1) in
    let source = source_evidence os g seen id t in
    let accepted : List Evidence → Type 0 =
      λ es. evidence_refusal os (handed_on g seen es grant_id) ≡ none in
    elim (Bool-cases seen.verified) [
      | inr e ↦
          let same : source ∷ [] ≡ evidence = ground (arith, made, e) in
          subst accepted same (candidate_accepted os g seen grant_id id t e)
      | inl e ↦ elim (Option-cases seen.reproduction) [
        | inl f ↦ absurd (ground (arith, made, e, f))
        | inr (rep, f) ↦
            let same : source ∷ test_evidence os g rep id' t' ∷ [] ≡ evidence =
              ground (arith, made, e, f) in
            subst accepted same (verified_accepted os g seen rep grant_id id id' t t' h)
      ]
    ]
