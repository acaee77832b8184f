-- ===== src/Scope/Engine.antt =====
-- ScopeEngine of noble/scope.py, from its validated fields on.
use noble_cascade.Errors.{Exec, fault, invalid_input, pure, raise_if, ◌>>=◌, ◌>>◌}
use noble_cascade.Models.{
  PolicyDecision, Scope, ScopeDecision, Target, TargetKind, allow, allowed, deny, unknown,
}
use noble_cascade.Platform.{Platform}
use noble_cascade.Prelude.{
  Bool, List, Option, String, [], any, concat, contains, false, if◌then◌else◌, is_nil, leb, none,
  not, some, true, ℕ, ◌&&◌, ◌∷◌,
}
use noble_cascade.Scope.Networks.{Lookups, contains_network, in_network, networks_of, within}
use noble_cascade.Scope.Patterns.{forbidden_match, host_of, hostname_match, repo_match}
use noble_cascade.World.{World, moment_of}

-- the fields that `evaluate` and `snapshot` read
pub record ScopeEngine : Type 0 where
  pub name : String
  pub allowed_domains : List String
  pub allowed_repositories : List String
  pub allowed_ip_ranges : List String
  pub allowed_endpoints : List String
  pub allowed_actions : List String
  pub forbidden_targets : List String
  pub forbidden_actions : List String
  pub valid_from : Option ℕ
  pub valid_until : Option ℕ
  pub allowed_roots : List String

-- the first test of `evaluate`, negated
unfoldable pub in_window : ScopeEngine → ℕ → Bool
in_window engine moment =
    elim engine.valid_from [ none ↦ true | some from ↦ leb from moment ]
    && elim engine.valid_until [ none ↦ true | some until ↦ leb moment until ]

abbrev pub decision : ScopeDecision → String → String → PolicyDecision
decision d rule reason = record { decision = d; rule = rule; reason = reason }

abbrev pub default_deny : PolicyDecision
default_deny = decision unknown "default_deny" "target not in scope"

-- the branch for hosts and URLs
unfoldable pub evaluate_host : ScopeEngine → Target → Bool → PolicyDecision
unfolding any hostname_match contains
evaluate_host engine target is_url =
    if any (λ entry. hostname_match entry (host_of target)) engine.allowed_domains
    then (if is_url
          && not (is_nil engine.allowed_endpoints)
          && not (contains engine.allowed_endpoints target.canonical)
        then decision unknown "endpoint" "endpoint not listed"
        else decision allow "domain" "host matched")
    else default_deny

-- the branch for one address
unfoldable pub evaluate_ip : Lookups → ScopeEngine → Target → PolicyDecision
unfolding networks_of in_network any
evaluate_ip io engine target = elim (networks_of io engine.allowed_ip_ranges) [
  | none ↦ default_deny
  | some networks ↦ elim (io.ip_address target.canonical) [
    | none ↦ default_deny
    | some addr ↦
        if any (λ network. in_network addr network) networks
        then decision allow "ip_range" "address matched"
        else default_deny
  ]
]

-- the branch for a network
unfoldable pub evaluate_cidr : Lookups → ScopeEngine → Target → PolicyDecision
unfolding networks_of contains_network any
evaluate_cidr io engine target = elim (networks_of io engine.allowed_ip_ranges) [
  | none ↦ default_deny
  | some networks ↦ elim (io.ip_network target.canonical) [
    | none ↦ default_deny
    | some inner ↦
        if any (λ network. contains_network inner network) networks
        then decision allow "ip_range" "CIDR is fully contained"
        else default_deny
  ]
]

-- the branch for paths
unfoldable pub evaluate_path : Lookups → ScopeEngine → Target → PolicyDecision
unfolding within any
evaluate_path io engine target =
    if any (λ root. within io target.canonical root) engine.allowed_roots
    then decision allow "directory" "path is under root"
    else default_deny

-- the branch for repositories
unfoldable pub evaluate_repository : ScopeEngine → Target → PolicyDecision
unfolding repo_match any
evaluate_repository engine target =
    if any (λ entry. repo_match entry target.canonical) engine.allowed_repositories
    then decision allow "repository" "repository matched"
    else default_deny

-- the branches of `evaluate` over the kind of the target
unfoldable pub evaluate_kind : Lookups → ScopeEngine → Target → PolicyDecision
unfolding evaluate_host evaluate_ip evaluate_cidr evaluate_path evaluate_repository
evaluate_kind io engine target = elim target.kind [
  | TargetKind.repository ↦ evaluate_repository engine target
  | TargetKind.host ↦ evaluate_host engine target false
  | TargetKind.url ↦ evaluate_host engine target true
  | TargetKind.ip ↦ evaluate_ip io engine target
  | TargetKind.cidr ↦ evaluate_cidr io engine target
  | TargetKind.path ↦ evaluate_path io engine target
  | TargetKind.local_workspace ↦ evaluate_path io engine target
]

-- `evaluate` at the moment that it read
unfoldable pub evaluate_at : Lookups → ScopeEngine → Target → String → ℕ → PolicyDecision
unfolding in_window contains any forbidden_match evaluate_kind
evaluate_at io engine target action moment =
    if not (in_window engine moment)
    then decision deny "scope_time_window" "scope not active"
    else if contains engine.forbidden_actions action
    then decision deny "forbidden_action" "action forbidden"
    else if not (contains engine.allowed_actions action)
    then decision deny "action_allowlist" "action not allowed"
    else if any (λ forbidden. forbidden_match forbidden target) engine.forbidden_targets
    then decision deny "forbidden_target" "target explicitly excluded"
    else evaluate_kind io engine target

-- ScopeEngine.evaluate
unfoldable pub evaluate :
    Platform → Lookups → ScopeEngine → Target → String → Option ℕ → Exec World PolicyDecision
unfolding evaluate_at moment_of
evaluate os io engine target action now = do
  moment ← moment_of os now
  pure (evaluate_at io engine target action moment)

unfoldable pub scope_of : ScopeEngine → Target → String → Scope
scope_of engine target action = record {
  policy_name = engine.name;
  allowed_targets = target.canonical ∷ [];
  denied_targets = engine.forbidden_targets;
  allowed_actions = action ∷ [];
  denied_actions = engine.forbidden_actions;
  valid_from = engine.valid_from;
  valid_until = engine.valid_until;
  target_classes = [];
  network_destinations = [];
}

-- ScopeEngine.snapshot
unfoldable pub snapshot : Platform → Lookups → ScopeEngine → Target → String → Exec World Scope
unfolding evaluate
snapshot os io engine target action = do
  d ← evaluate os io engine target action none
  raise_if (not (allowed d)) (fault invalid_input (concat "scope cannot be snapshotted: " d.reason))
  pure (scope_of engine target action)
