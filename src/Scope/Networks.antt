-- ===== src/Scope/Networks.antt =====
-- IP addresses and networks, as noble/scope.py compares them, and what it takes from os.path and
-- from the parsers of `ipaddress`.
use noble_cascade.Prelude.{
  Bool, List, Option, String, [], eqb, false, if◌then◌else◌, leb, none, some, ℕ, ◌&&◌, ◌-◌, ◌/◌,
  ◌==◌, ◌^◌, ◌∷◌,
}

pub record IpAddress : Type 0 where
  pub version : ℕ
  pub value : ℕ

-- a network, with the value of its network_address
pub record IpNetwork : Type 0 where
  pub version : ℕ
  pub network_address : ℕ
  pub prefixlen : ℕ

pub record Lookups : Type 0 where
  -- os.path.realpath
  pub realpath : String → String
  -- os.path.commonpath of two paths; none where it raises ValueError
  pub commonpath : String → String → Option String
  -- ipaddress.ip_address; none where it raises ValueError
  pub ip_address : String → Option IpAddress
  -- ipaddress.ip_network(…, strict=False); none where it raises ValueError
  pub ip_network : String → Option IpNetwork

-- max_prefixlen of the version
unfoldable pub width : ℕ → ℕ
width version = if eqb version 4 then 32 else 128

-- the bits of an address that the mask of the network keeps
unfoldable pub masked : IpNetwork → ℕ → ℕ
unfolding width
masked network value = value / 2 ^ (width network.version - network.prefixlen)

-- address in network
unfoldable pub in_network : IpAddress → IpNetwork → Bool
unfolding masked
in_network address network =
    eqb address.version network.version
    && eqb (masked network address.value) (masked network network.network_address)

-- the generator of the `any` for a CIDR target
unfoldable pub contains_network : IpNetwork → IpNetwork → Bool
unfolding in_network
contains_network inner network =
    eqb inner.version network.version
    && leb network.prefixlen inner.prefixlen
    && in_network (record { version = inner.version; value = inner.network_address }) network

-- the list of the allowed networks; none where a range is none
unfoldable pub networks_of : Lookups → List String → Option (List IpNetwork)
networks_of io [] = some []
networks_of io (n ∷ ns) = elim (io.ip_network n) [
  | none ↦ none
  | some network ↦ elim (networks_of io ns) [ none ↦ none | some rest ↦ some (network ∷ rest) ]
]

-- _within
unfoldable pub within : Lookups → String → String → Bool
within io path root = elim (io.commonpath (io.realpath path) (io.realpath root)) [
  | none ↦ false
  | some common ↦ common == io.realpath root
]
