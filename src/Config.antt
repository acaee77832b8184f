-- ===== src/Config.antt =====
-- noble/config.py: the runtime configuration, from the parsed file on.
pub mod Ceilings
use noble_cascade.Errors.{Result, builtin, configuration_invalid, err, fault, ok, value_error}
use noble_cascade.Models.{Fields, Json, bool, float, get_field, get_key, is_object, object, str}
use noble_cascade.Prelude.{
  Bool, List, Option, String, [], codes, concat, ends_with, eqb, false, if◌then◌else◌, ltb, none,
  not, some, ℕ, ◌==◌, ◌||◌, ◌∷◌,
}
use noble_cascade.Scope.{Lookups}

pub record Limits : Type 0 where
  pub max_output_bytes : ℕ
  pub max_input_bytes : ℕ
  pub max_file_bytes : ℕ
  pub max_files : ℕ
  pub max_observations : ℕ
  pub timeout_seconds : ℕ
  pub cpu_seconds : ℕ
  pub memory_mb : ℕ
  pub global_concurrency : ℕ
  pub rate_per_minute : ℕ

pub record RuntimeConfig : Type 0 where
  pub workspace_root : String
  pub state_directory : String
  pub network_enabled : Bool
  pub limits : Limits

-- raw[key], if its type is int and it is positive
unfoldable pub positive_int : Fields → String → Option ℕ
unfolding get_field
positive_int raw key = elim (get_field key raw) [
  | some (Json.int n) ↦ if ltb 0 n then some n else none
  | _ ↦ none
]

-- the tuple `keys` of `load`
unfoldable pub limit_keys : List String
limit_keys =
    "max_output_bytes" ∷ "max_input_bytes" ∷ "max_file_bytes" ∷ "max_files" ∷ "max_observations"
    ∷ "timeout_seconds" ∷ "cpu_seconds" ∷ "memory_mb" ∷ "global_concurrency" ∷ "rate_per_minute"
    ∷ []

-- raw[key] for the keys; none if one is missing, no int, or not positive
unfoldable pub positive_ints : Fields → List String → Option (List ℕ)
unfolding positive_int
positive_ints raw [] = some []
positive_ints raw (k ∷ ks) = elim (positive_int raw k) [
  | none ↦ none
  | some n ↦ elim (positive_ints raw ks) [ none ↦ none | some ns ↦ some (n ∷ ns) ]
]

-- Limits(**…), on the values of the keys in order
unfoldable pub limits_from : List ℕ → Option Limits
limits_from (a ∷ b ∷ c ∷ d ∷ e ∷ f ∷ g ∷ h ∷ i ∷ j ∷ []) = some (record {
  max_output_bytes = a;
  max_input_bytes = b;
  max_file_bytes = c;
  max_files = d;
  max_observations = e;
  timeout_seconds = f;
  cpu_seconds = g;
  memory_mb = h;
  global_concurrency = i;
  rate_per_minute = j;
})
limits_from _ = none

unfoldable pub limits_of : Fields → Option Limits
unfolding positive_ints limits_from limit_keys
limits_of raw = elim (positive_ints raw limit_keys) [
  | none ↦ none
  | some values ↦ limits_from values
]

-- the last test of `load`
unfoldable pub exceeds_ceilings : Limits → Bool
exceeds_ceilings l =
    ltb 1048576 l.max_output_bytes
    || ltb 65536 l.max_input_bytes
    || ltb 1048576 l.max_file_bytes
    || ltb 1000 l.max_files
    || ltb 100 l.max_observations
    || ltb 60 l.timeout_seconds
    || ltb l.timeout_seconds l.cpu_seconds
    || ltb 1024 l.memory_mb
    || ltb 8 l.global_concurrency
    || ltb 120 l.rate_per_minute

-- value == 1
unfoldable pub equals_one : Option Json → Bool
equals_one (some (Json.int n)) = eqb n 1
equals_one (some (bool b)) = b
equals_one (some (float s)) = s == "1.0"
equals_one _ = false

-- value is False
unfoldable pub is_false : Option Json → Bool
is_false (some (bool b)) = not b
is_false _ = false

-- value == text
unfoldable pub equals_text : Option Json → String → Bool
equals_text (some (str s)) t = s == t
equals_text _ t = false

-- os.path.join, for a relative second part
unfoldable pub join_path : String → String → String
unfolding ends_with
join_path root part =
    if ends_with (codes root) (b'/' ∷ []) then concat root part else concat root (concat "/" part)

abbrev pub misconfigured : {A : Type 0} → String → Result A
misconfigured message = err (fault configuration_invalid message)

-- `load` from the limits on
unfoldable pub load_limits : String → String → Option Limits → Result RuntimeConfig
unfolding exceeds_ceilings
load_limits root state_path none = misconfigured "all runtime limits must be positive integers"
load_limits root state_path (some limits) =
    if exceeds_ceilings limits
    then misconfigured "runtime limits exceed security ceilings"
    else ok (record {
      workspace_root = root;
      state_directory = state_path;
      network_enabled = false;
      limits = limits;
    })

-- `load` from the mapping `limits` on
unfoldable pub load_mapping : String → String → Option Json → Result RuntimeConfig
unfolding load_limits limits_of
load_mapping root state_path (some (object raw)) = load_limits root state_path (limits_of raw)
load_mapping root state_path _ = misconfigured "runtime limits are missing"

-- RuntimeConfig.load, from the parsed file and the real path of the root on; commonpath may raise
unfoldable pub load : Lookups → String → Json → Result RuntimeConfig
unfolding get_key equals_one is_false equals_text join_path load_mapping
load io root parsed =
    if not (is_object parsed) || not (equals_one (get_key parsed "version"))
    then misconfigured "runtime configuration must declare version: 1"
    else if not (is_false (get_key parsed "network_enabled"))
    then misconfigured "network execution is not supported by the local runtime"
    else if not (equals_text (get_key parsed "state_directory") ".noble")
    then misconfigured "state_directory must be exactly .noble"
    else (let state_path = io.realpath (join_path root ".noble") in
        elim (io.commonpath root state_path) [
          | none ↦ err (builtin value_error)
          | some common ↦
              if not (common == root)
              then misconfigured "state_directory escapes workspace root"
              else load_mapping root state_path (get_key parsed "limits")
        ])
