-- ===== src/Outputs/Decode.antt =====
-- The fields of a worker's output that OutputValidator.validate and build_evidence read, for a
-- document of the shape that OUTPUT_SCHEMA and OBSERVATION_SCHEMA of noble/registry.py admit.
use noble_cascade.Models.{
  Fields, Items, Json, cons, fields_at, flag_at, get_field, get_key, items_at, nil, null, number_at,
  text_at, texts_of,
}
use noble_cascade.Prelude.{Bool, List, Option, String, [], none, some, ℕ, ◌∷◌}

-- observation["reproduction"], if it is not None
pub record Reproduced : Type 0 where
  pub unsafe_rows : ℕ
  pub parameterized_rows : ℕ
  pub synthetic : Bool

pub record Observation : Type 0 where
  pub title : String
  pub category : String
  pub cwe : String
  pub file : String
  pub line : ℕ
  pub snippet : String
  pub description : String
  pub impact : String
  pub remediation : String
  pub verified : Bool
  pub reproduction : Option Reproduced

pub record ToolOutput : Type 0 where
  pub request_id : String
  pub target : String
  pub tool : String
  pub version : String
  pub observations : List Observation
  pub complete : Bool
  pub warnings : List String
  pub provenance : Fields

infixl 5 ◌>>=◌
abbrev ◌>>=◌ : {A B : Type 0} → Option A → (A → Option B) → Option B
none >>= f = none
some a >>= f = f a

unfoldable pub reproduction_at : Json → Option (Option Reproduced)
unfolding get_key get_field number_at flag_at
reproduction_at v = elim (get_key v "reproduction") [
  | none ↦ none
  | some null ↦ some none
  | some w ↦ do
    unsafe_rows ← number_at "unsafe_rows" w
    parameterized_rows ← number_at "parameterized_rows" w
    synthetic ← flag_at "synthetic" w
    some (
        some (record {
          unsafe_rows = unsafe_rows;
          parameterized_rows = parameterized_rows;
          synthetic = synthetic;
        }))
]

unfoldable pub observation_of : Json → Option Observation
unfolding text_at number_at flag_at reproduction_at
observation_of v = do
  title ← text_at "title" v
  category ← text_at "category" v
  cwe ← text_at "cwe" v
  file ← text_at "file" v
  line ← number_at "line" v
  snippet ← text_at "snippet" v
  description ← text_at "description" v
  impact ← text_at "impact" v
  remediation ← text_at "remediation" v
  verified ← flag_at "verified" v
  reproduction ← reproduction_at v
  some (record {
    title = title;
    category = category;
    cwe = cwe;
    file = file;
    line = line;
    snippet = snippet;
    description = description;
    impact = impact;
    remediation = remediation;
    verified = verified;
    reproduction = reproduction;
  })

unfoldable pub observations_of : Items → Option (List Observation)
unfolding observation_of
observations_of nil = some []
observations_of (cons v vs) = elim (observations_of vs) [
  | none ↦ none
  | some rest ↦ elim (observation_of v) [ none ↦ none | some o ↦ some (o ∷ rest) ]
]

unfoldable pub output_of : Json → Option ToolOutput
unfolding text_at flag_at items_at fields_at texts_of observations_of
output_of v = do
  request_id ← text_at "request_id" v
  target ← text_at "target" v
  tool ← text_at "tool" v
  version ← text_at "version" v
  found ← items_at "observations" v
  observations ← observations_of found
  complete ← flag_at "complete" v
  told ← items_at "warnings" v
  warnings ← texts_of told
  provenance ← fields_at "provenance" v
  some (record {
    request_id = request_id;
    target = target;
    tool = tool;
    version = version;
    observations = observations;
    complete = complete;
    warnings = warnings;
    provenance = provenance;
  })
