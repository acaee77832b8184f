-- ===== src/Config/Ceilings.antt =====
-- The limits of every configuration that loads.
use mathlib.Core.Path.{subst}
use noble_cascade.Config.{
  Limits, RuntimeConfig, exceeds_ceilings, join_path, limit_keys, limits_from, limits_of, load,
  load_limits, load_mapping, positive_int, positive_ints,
}
use noble_cascade.Errors.{ok}
use noble_cascade.Models.{Fields, Json, get_field, get_key, null, object}
use noble_cascade.Prelude.{
  All, List, Option, Option-cases, String, [], arith, false, inl, inr, none, refl, some, ℕ, ◌∷◌,
  ◌≡◌, ◌≤◌,
}
use noble_cascade.Scope.{Lookups}

-- The ceilings of every limit that they name, and that no limit is zero.
pub record WithinCeilings (l : Limits) : Type 0 where
  pub max_output_bytes : (1 ≤ l.max_output_bytes) × (l.max_output_bytes ≤ 1048576)
  pub max_input_bytes : (1 ≤ l.max_input_bytes) × (l.max_input_bytes ≤ 65536)
  pub max_file_bytes : (1 ≤ l.max_file_bytes) × (l.max_file_bytes ≤ 1048576)
  pub max_files : (1 ≤ l.max_files) × (l.max_files ≤ 1000)
  pub max_observations : (1 ≤ l.max_observations) × (l.max_observations ≤ 100)
  pub timeout_seconds : (1 ≤ l.timeout_seconds) × (l.timeout_seconds ≤ 60)
  pub cpu_seconds : (1 ≤ l.cpu_seconds) × (l.cpu_seconds ≤ l.timeout_seconds)
  pub memory_mb : (1 ≤ l.memory_mb) × (l.memory_mb ≤ 1024)
  pub global_concurrency : (1 ≤ l.global_concurrency) × (l.global_concurrency ≤ 8)
  pub rate_per_minute : (1 ≤ l.rate_per_minute) × (l.rate_per_minute ≤ 120)

positive_int-positive :
    (raw : Fields) (key : String) (n : ℕ) → positive_int raw key ≡ some n → 1 ≤ n
unfolding positive_int
positive_int-positive raw key n h = elim (Option-cases (get_field key raw)) [
  | inl missing ↦ absurd (ground arith)
  | inr (v, e) ↦ of_value v e
]
  where
    of_value : (v : Json) → get_field key raw ≡ some v → 1 ≤ n
    of_value (Json.int m) e = ground arith
    of_value null e = absurd (ground arith)
    of_value _ e = absurd (ground arith)

positive_ints-positive :
    (raw : Fields) (ks : List String) (ns : List ℕ)
    → positive_ints raw ks ≡ some ns
    → All (λ n. 1 ≤ n) ns
unfolding positive_ints
positive_ints-positive raw [] ns h =
    let whole : [] ≡ ns = ground arith in subst (All (λ n. 1 ≤ n)) whole tt
positive_ints-positive raw (k ∷ ks) ns h = elim (Option-cases (positive_int raw k)) [
  | inl bad ↦ absurd (ground arith)
  | inr (n, first) ↦ elim (Option-cases (positive_ints raw ks)) [
    | inl bad ↦ absurd (ground arith)
    | inr (rest, later) ↦
        let whole : n ∷ rest ≡ ns = ground arith in
        subst (All (λ n. 1 ≤ n)) whole
          (positive_int-positive raw k n first, positive_ints-positive raw ks rest later)
  ]
]

limits_from-WithinCeilings :
    (ns : List ℕ) (l : Limits)
    → All (λ n. 1 ≤ n) ns
    → limits_from ns ≡ some l
    → exceeds_ceilings l ≡ false
    → WithinCeilings l
unfolding limits_from exceeds_ceilings
limits_from-WithinCeilings (a ∷ b ∷ c ∷ d ∷ k ∷ f ∷ g ∷ m ∷ i ∷ j ∷ []) l p e h = record {
  max_output_bytes = ground arith;
  max_input_bytes = ground arith;
  max_file_bytes = ground arith;
  max_files = ground arith;
  max_observations = ground arith;
  timeout_seconds = ground arith;
  cpu_seconds = ground arith;
  memory_mb = ground arith;
  global_concurrency = ground arith;
  rate_per_minute = ground arith;
}
limits_from-WithinCeilings _ l p e h = absurd (ground arith)

load_limits-WithinCeilings :
    (root state_path : String) (ls : Option Limits) (c : RuntimeConfig)
    → ((l : Limits) → ls ≡ some l → exceeds_ceilings l ≡ false → WithinCeilings l)
    → load_limits root state_path ls ≡ ok c
    → WithinCeilings c.limits × (c.network_enabled ≡ false)
unfolding load_limits
load_limits-WithinCeilings root state_path none c k h = absurd (ground arith)
load_limits-WithinCeilings root state_path (some l) c k h =
    let same : l ≡ c.limits = ground arith in
    (subst WithinCeilings same (k l refl (ground arith)), ground arith)

limits_of-WithinCeilings :
    (raw : Fields) (l : Limits)
    → limits_of raw ≡ some l
    → exceeds_ceilings l ≡ false
    → WithinCeilings l
unfolding limits_of
limits_of-WithinCeilings raw l e h = elim (Option-cases (positive_ints raw limit_keys)) [
  | inl bad ↦ absurd (ground arith)
  | inr (ns, p) ↦
      limits_from-WithinCeilings ns l (positive_ints-positive raw limit_keys ns p) (ground arith) h
]

load_mapping-WithinCeilings :
    (root state_path : String) (limits : Option Json) (c : RuntimeConfig)
    → load_mapping root state_path limits ≡ ok c
    → WithinCeilings c.limits × (c.network_enabled ≡ false)
unfolding load_mapping
load_mapping-WithinCeilings root state_path (some (object raw)) c h =
    load_limits-WithinCeilings root state_path (limits_of raw) c (limits_of-WithinCeilings raw) h
load_mapping-WithinCeilings root state_path _ c h = absurd (ground arith)

-- Whatever the configuration file says, a configuration that loads keeps the network off, has no
-- limit of zero, and none above its ceiling.
pub load-WithinCeilings :
    (io : Lookups) (root : String) (parsed : Json) (c : RuntimeConfig)
    → load io root parsed ≡ ok c
    → WithinCeilings c.limits × (c.network_enabled ≡ false)
unfolding load
load-WithinCeilings io root parsed c h =
    elim (Option-cases (io.commonpath root (io.realpath (join_path root ".noble")))) [
      | inl split ↦ absurd (ground arith)
      | inr (common, e) ↦
          load_mapping-WithinCeilings root (io.realpath (join_path root ".noble"))
            (get_key parsed "limits") c (ground arith)
    ]
