-- ===== src/Scope/Patterns.antt =====
-- The pattern matchers of noble/scope.py, on the code points of the texts. `lower` is taken on ASCII
-- letters, and os.path.normcase is the identity, as on POSIX.
use mathlib.Core.List.{reverse}
use noble_cascade.Models.{Target, TargetKind}
use noble_cascade.Prelude.{
  Bool, List, String, [], codes, count_code, drop, ends_with, eqb, if◌then◌else◌, length, lower,
  ltb, none, rstrip, same_codes, some, starts_with, ℕ, ◌&&◌, ◌++◌, ◌+◌, ◌==◌, ◌||◌, ◌∷◌,
}

-- s[:-n]
unfoldable pub drop_last : ℕ → List ℕ → List ℕ
drop_last n s = reverse (drop n (reverse s))

abbrev pub canonical_host : String → List ℕ
canonical_host s = rstrip b'.' (lower (codes s))

-- the body of _hostname_match, on the lowered texts without trailing dots
unfoldable pub host_codes_match : List ℕ → List ℕ → Bool
unfolding starts_with ends_with same_codes
host_codes_match pattern host =
    if starts_with pattern (codes "*.")
    then ends_with host (drop 1 pattern) && ltb (length (drop 1 pattern)) (length host)
    else same_codes host pattern

-- _hostname_match
unfoldable pub hostname_match : String → String → Bool
unfolding host_codes_match lower rstrip
hostname_match pattern host = host_codes_match (canonical_host pattern) (canonical_host host)

-- the body of _repo_match, on the lowered texts
unfoldable pub repo_codes_match : List ℕ → List ℕ → Bool
unfolding starts_with ends_with same_codes drop_last count_code
repo_codes_match pattern canonical =
    if ends_with pattern (codes "/*")
    then starts_with canonical (drop_last 2 pattern ++ b'/' ∷ [])
      && eqb (count_code b'/' canonical) 1
    else same_codes canonical pattern

-- _repo_match
unfoldable pub repo_match : String → String → Bool
unfolding repo_codes_match lower
repo_match pattern canonical = repo_codes_match (lower (codes pattern)) (lower (codes canonical))

-- target.host or ""
abbrev pub host_of : Target → String
host_of target = elim target.host [ none ↦ "" | some h ↦ h ]

-- the branch of _forbidden_match for hosts, URLs and addresses
unfoldable pub forbidden_host : String → Target → Bool
unfolding hostname_match starts_with ends_with lower drop_last
forbidden_host pattern target =
    if ends_with (codes pattern) (codes ".*")
    then starts_with (codes (host_of target)) (lower (drop_last 1 (codes pattern)))
      && ltb (length (codes pattern)) (length (codes (host_of target)) + 1)
    else hostname_match pattern (host_of target) || hostname_match pattern target.canonical

-- _forbidden_match
unfoldable pub forbidden_match : String → Target → Bool
unfolding repo_match forbidden_host
forbidden_match pattern target = elim target.kind [
  | TargetKind.repository ↦ repo_match pattern target.canonical
  | TargetKind.host ↦ forbidden_host pattern target
  | TargetKind.url ↦ forbidden_host pattern target
  | TargetKind.ip ↦ forbidden_host pattern target
  | TargetKind.cidr ↦ target.canonical == pattern
  | TargetKind.path ↦ target.canonical == pattern
  | TargetKind.local_workspace ↦ target.canonical == pattern
]
