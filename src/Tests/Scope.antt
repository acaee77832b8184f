-- ===== src/Tests/Scope.antt =====
-- Concrete runs of the scope engine.
use noble_cascade.Models.{TargetKind, allowed, covers}
use noble_cascade.Prelude.{
  List, [], any, codes, contains, ends_with, length, lower, lstrip, none, refl, rstrip, same_codes,
  some, starts_with, true, ℕ, ◌++◌, ◌∷◌, ◌≡◌, ◌≤◌,
}
use noble_cascade.Scope.{
  Lookups, ScopeEngine, canonical_host, drop_last, evaluate, evaluate_at, evaluate_host,
  evaluate_kind, evaluate_path, forbidden_host, forbidden_match, host_codes_match, hostname_match,
  in_window, scope_of, snapshot, within,
}
use noble_cascade.Scope.Allowed.{evaluate_at_sound, snapshot_sound}
use noble_cascade.Scope.Listed.{InScope, Listed}
use noble_cascade.Scope.Lookalikes.{hostname_match-wildcard}
use noble_cascade.Tests.Data.{clean_slate, os, website, workspace}
use noble_cascade.World.{moment_of, utcnow}

abbrev lookups : Lookups
lookups = record {
  realpath = λ s. s;
  commonpath = λ a b. some b;
  ip_address = λ s. none;
  ip_network = λ s. none;
}

abbrev policy : ScopeEngine
policy = record {
  name = "local";
  allowed_domains = "*.example.com" ∷ [];
  allowed_repositories = "acme/*" ∷ [];
  allowed_ip_ranges = [];
  allowed_endpoints = [];
  allowed_actions = "static-analysis" ∷ [];
  forbidden_targets = "*.gov" ∷ [];
  forbidden_actions = "denial-of-service" ∷ [];
  valid_from = none;
  valid_until = some 5000;
  allowed_roots = "/work" ∷ [];
}

evaluate_at_sound_example :
    InScope policy website "static-analysis" 30 × Listed lookups policy website TargetKind.url
unfolding evaluate_at in_window contains any forbidden_match forbidden_host evaluate_kind
    evaluate_host hostname_match host_codes_match allowed starts_with ends_with same_codes lower
    rstrip lstrip drop_last
evaluate_at_sound_example = evaluate_at_sound lookups policy website "static-analysis" 30 refl

snapshot_sound_example :
    InScope policy workspace "static-analysis" 1000
    × Listed lookups policy workspace TargetKind.path
    × (covers (scope_of policy workspace "static-analysis") workspace ≡ true)
    × ((scope_of policy workspace "static-analysis").allowed_targets ≡ "/work/src" ∷ [])
    × ((scope_of policy workspace "static-analysis").allowed_actions ≡ "static-analysis" ∷ [])
    × (clean_slate.store ≡ clean_slate.store)
unfolding snapshot evaluate moment_of utcnow evaluate_at in_window contains any forbidden_match
    evaluate_kind evaluate_path within allowed scope_of
snapshot_sound_example =
    snapshot_sound os lookups policy workspace "static-analysis" clean_slate
      (record clean_slate { readings = 1 }) refl

hostname_match-wildcard_example :
    (front : List ℕ) × (1 ≤ length front)
    × (canonical_host "App.Example.com." ≡ front ++ b'.' ∷ codes "example.com")
unfolding hostname_match host_codes_match starts_with ends_with lower rstrip lstrip
hostname_match-wildcard_example =
    hostname_match-wildcard "*.example.com" "App.Example.com." (codes "example.com") refl refl
