-- ===== src/Scope/Listed.antt =====
-- What it takes for an allowlist of the scope policy to list a target.
use noble_cascade.Models.{Target, TargetKind, allowed}
use noble_cascade.Prelude.{
  Bool, Bool-cases, List, Option-cases, String, [], any, any-contains, arith, contains,
  contains-cons, eq_refl, false, inl, inr, is_nil, some, true, ℕ, ◌∷◌, ◌≡◌, ◌⊎◌,
}
use noble_cascade.Scope.Engine.{
  ScopeEngine, evaluate_cidr, evaluate_host, evaluate_ip, evaluate_kind, evaluate_path,
  evaluate_repository, in_window,
}
use noble_cascade.Scope.Networks.{
  IpAddress, IpNetwork, Lookups, contains_network, in_network, networks_of, within,
}
use noble_cascade.Scope.Patterns.{forbidden_match, host_of, hostname_match, repo_match}

-- One of the addresses' ranges covers the target's network or address.
pub record Covered (io : Lookups) (ranges : List String) (test : IpNetwork → Bool) : Type 0 where
  pub range : String
  pub listed : contains ranges range ≡ true
  pub network : IpNetwork
  pub parsed : io.ip_network range ≡ some network
  pub covering : test network ≡ true

abbrev pub HostListed : ScopeEngine → Target → Type 0
HostListed engine target =
    (entry : String) × (contains engine.allowed_domains entry ≡ true)
    × (hostname_match entry (host_of target) ≡ true)

-- The allowlist of the target's kind lists it; for a URL the endpoints restrict the hosts further.
abbrev pub Listed : Lookups → ScopeEngine → Target → TargetKind → Type 0
Listed io engine target TargetKind.repository =
    (entry : String) × (contains engine.allowed_repositories entry ≡ true)
    × (repo_match entry target.canonical ≡ true)
Listed io engine target TargetKind.host = HostListed engine target
Listed io engine target TargetKind.url =
    HostListed engine target
    × ((is_nil engine.allowed_endpoints ≡ true)
        ⊎ (contains engine.allowed_endpoints target.canonical ≡ true))
Listed io engine target TargetKind.ip =
    (addr : IpAddress) × (io.ip_address target.canonical ≡ some addr)
    × Covered io engine.allowed_ip_ranges (λ network. in_network addr network)
Listed io engine target TargetKind.cidr =
    (inner : IpNetwork) × (io.ip_network target.canonical ≡ some inner)
    × Covered io engine.allowed_ip_ranges (λ network. contains_network inner network)
Listed io engine target TargetKind.path =
    (root : String) × (contains engine.allowed_roots root ≡ true)
    × (within io target.canonical root ≡ true)
Listed io engine target TargetKind.local_workspace =
    (root : String) × (contains engine.allowed_roots root ≡ true)
    × (within io target.canonical root ≡ true)

-- Every condition of the policy that does not depend on the kind of the target holds.
pub record InScope (engine : ScopeEngine) (target : Target) (action : String) (moment : ℕ)
    : Type 0 where
  pub window : in_window engine moment ≡ true
  pub action_listed : contains engine.allowed_actions action ≡ true
  pub action_permitted : contains engine.forbidden_actions action ≡ false
  pub target_permitted :
      (p : String) → contains engine.forbidden_targets p ≡ true → forbidden_match p target ≡ false

networks_of-Covered :
    (io : Lookups) (ranges : List String) (test : IpNetwork → Bool) (networks : List IpNetwork)
    → networks_of io ranges ≡ some networks
    → any test networks ≡ true
    → Covered io ranges test
unfolding networks_of any contains
networks_of-Covered io [] test networks e h = absurd (ground arith)
networks_of-Covered io (r ∷ rs) test networks e h = elim (Option-cases (io.ip_network r)) [
  | inl bad ↦ absurd (ground arith)
  | inr (n, parsed) ↦ elim (Option-cases (networks_of io rs)) [
    | inl bad ↦ absurd (ground arith)
    | inr (rest, later) ↦ elim (Bool-cases (test n)) [
      | inl found ↦ record {
        range = r;
        listed = ground (arith, eq_refl r);
        network = n;
        parsed = parsed;
        covering = found;
      }
      | inr missed ↦
          let c = networks_of-Covered io rs test rest later (ground arith) in
          record {
            range = c.range;
            listed = contains-cons r rs c.range c.listed;
            network = c.network;
            parsed = c.parsed;
            covering = c.covering;
          }
    ]
  ]
]

evaluate_host-listed :
    (engine : ScopeEngine) (target : Target) (is_url : Bool)
    → allowed (evaluate_host engine target is_url) ≡ true
    → HostListed engine target
      × ((is_url ≡ false)
          ⊎ (is_nil engine.allowed_endpoints ≡ true)
          ⊎ (contains engine.allowed_endpoints target.canonical ≡ true))
unfolding evaluate_host allowed
evaluate_host-listed engine target is_url h = (
  any-contains (λ entry. hostname_match entry (host_of target)) engine.allowed_domains
      (ground arith),
  (elim (Bool-cases is_url) [
    | inr host ↦ inl host
    | inl is ↦ elim (Bool-cases (is_nil engine.allowed_endpoints)) [
      | inl open_ended ↦ inr (inl open_ended)
      | inr limited ↦ inr (inr (ground arith))
    ]
  ]),
)

evaluate_url-Listed :
    (io : Lookups) (engine : ScopeEngine) (target : Target)
    → allowed (evaluate_host engine target true) ≡ true
    → Listed io engine target TargetKind.url
evaluate_url-Listed io engine target h =
    let (listed, ends) = evaluate_host-listed engine target true h in
    elim ends [ inl never ↦ absurd (ground arith) | inr either ↦ (listed, either) ]

evaluate_ip-Listed :
    (io : Lookups) (engine : ScopeEngine) (target : Target)
    → allowed (evaluate_ip io engine target) ≡ true
    → Listed io engine target TargetKind.ip
unfolding evaluate_ip allowed
evaluate_ip-Listed io engine target h =
    elim (Option-cases (networks_of io engine.allowed_ip_ranges)) [
      | inl bad ↦ absurd (ground arith)
      | inr (networks, e) ↦ elim (Option-cases (io.ip_address target.canonical)) [
        | inl bad ↦ absurd (ground arith)
        | inr (addr, parsed) ↦ (
          addr,
          parsed,
          networks_of-Covered io engine.allowed_ip_ranges (λ network. in_network addr network)
              networks e (ground arith),
        )
      ]
    ]

evaluate_cidr-Listed :
    (io : Lookups) (engine : ScopeEngine) (target : Target)
    → allowed (evaluate_cidr io engine target) ≡ true
    → Listed io engine target TargetKind.cidr
unfolding evaluate_cidr allowed
evaluate_cidr-Listed io engine target h =
    elim (Option-cases (networks_of io engine.allowed_ip_ranges)) [
      | inl bad ↦ absurd (ground arith)
      | inr (networks, e) ↦ elim (Option-cases (io.ip_network target.canonical)) [
        | inl bad ↦ absurd (ground arith)
        | inr (inner, parsed) ↦ (
          inner,
          parsed,
          networks_of-Covered io engine.allowed_ip_ranges
              (λ network. contains_network inner network) networks e (ground arith),
        )
      ]
    ]

evaluate_path-Listed :
    (io : Lookups) (engine : ScopeEngine) (target : Target)
    → allowed (evaluate_path io engine target) ≡ true
    → Listed io engine target TargetKind.path
unfolding evaluate_path allowed
evaluate_path-Listed io engine target h =
    any-contains (λ root. within io target.canonical root) engine.allowed_roots (ground arith)

evaluate_repository-Listed :
    (io : Lookups) (engine : ScopeEngine) (target : Target)
    → allowed (evaluate_repository engine target) ≡ true
    → Listed io engine target TargetKind.repository
unfolding evaluate_repository allowed
evaluate_repository-Listed io engine target h =
    any-contains (λ entry. repo_match entry target.canonical) engine.allowed_repositories
      (ground arith)

pub evaluate_kind-Listed :
    (io : Lookups) (engine : ScopeEngine) (target : Target) (kind : TargetKind)
    → target.kind ≡ kind
    → allowed (evaluate_kind io engine target) ≡ true
    → Listed io engine target kind
unfolding evaluate_kind
evaluate_kind-Listed io engine target TargetKind.repository e h =
    evaluate_repository-Listed io engine target (rw e at h)
evaluate_kind-Listed io engine target TargetKind.host e h =
    (evaluate_host-listed engine target false (rw e at h)).0
evaluate_kind-Listed io engine target TargetKind.url e h =
    evaluate_url-Listed io engine target (rw e at h)
evaluate_kind-Listed io engine target TargetKind.ip e h =
    evaluate_ip-Listed io engine target (rw e at h)
evaluate_kind-Listed io engine target TargetKind.cidr e h =
    evaluate_cidr-Listed io engine target (rw e at h)
evaluate_kind-Listed io engine target TargetKind.path e h =
    evaluate_path-Listed io engine target (rw e at h)
evaluate_kind-Listed io engine target TargetKind.local_workspace e h =
    evaluate_path-Listed io engine target (rw e at h)
