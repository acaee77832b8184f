-- ===== src/Scope/Lookalikes.antt =====
-- Lemmas on the wildcard patterns of noble/scope.py: host names and repositories.
use mathlib.Core.List.{append_assoc, reverse, reverse-append, reverse-reverse}
use mathlib.Core.Path.{ap₂}
use noble_cascade.Prelude.{
  List, String, [], ap, arith, codes, count_code, drop, drop-length, ends_with, eqb, eqb→eq, false,
  length, length-append, length-reverse, lower, ltb, ltb→lt, refl, same_codes_refl, same_codes→eq,
  starts_with, starts_with-append, sym, true, ℕ, ◌&&◌, ◌++◌, ◌+◌, ◌↔◌, ◌∙◌, ◌∷◌, ◌≡◌, ◌≤◌,
}
use noble_cascade.Scope.Patterns.{
  canonical_host, drop_last, host_codes_match, hostname_match, repo_codes_match, repo_match,
}

pub starts_with-split : (s t : List ℕ) → starts_with s t ≡ true → (rest : List ℕ) × (s ≡ t ++ rest)
unfolding starts_with
starts_with-split s [] h = (s, refl)
starts_with-split [] (b ∷ t) h = ground arith
starts_with-split (a ∷ s) (b ∷ t) h =
    let (rest, e) = starts_with-split s t (ground arith) in
    let same : a ≡ b = ground arith in (rest, ap₂ ◌∷◌ same e)

pub ends_with-split : (s t : List ℕ) → ends_with s t ≡ true → (front : List ℕ) × (s ≡ front ++ t)
unfolding ends_with
ends_with-split s t h =
    let (rest, e) = starts_with-split (reverse s) (reverse t) h in
    (
      reverse rest,
      sym (reverse-reverse s)
          ∙ ap reverse e
          ∙ reverse-append (reverse t) rest
          ∙ ap (λ u. reverse rest ++ u) (reverse-reverse t),
    )

ends_with-append : (s t : List ℕ) → ends_with (s ++ t) t ≡ true
unfolding ends_with
ends_with-append s t = rw (reverse-append s t) (starts_with-append (reverse t) (reverse s))

longer-front :
    (front s : List ℕ) (h : List ℕ)
    → h ≡ front ++ s
    → ltb (length s) (length h) ≡ true
    → 1 ≤ length front
longer-front front s h e l =
    omega (arith, ap length e, length-append front s, ltb→lt (length s) (length h) l)

-- A pattern `*.domain` matches only hosts that are a nonempty text, a dot and the domain, so neither
-- the domain itself nor a name that merely ends in its letters; host and pattern are compared in
-- lower case and without trailing dots.
pub hostname_match-wildcard :
    (pattern host : String) (domain : List ℕ)
    → canonical_host pattern ≡ b'*' ∷ b'.' ∷ domain
    → hostname_match pattern host ≡ true
    → (front : List ℕ) × (1 ≤ length front) × (canonical_host host ≡ front ++ b'.' ∷ domain)
unfolding hostname_match host_codes_match starts_with
hostname_match-wildcard pattern host domain p h =
    let suffix = b'.' ∷ domain in
    let both : ends_with (canonical_host host) suffix
          && ltb (length suffix) (length (canonical_host host))
        ≡ true =
      rw p at h in
    let (front, e) = ends_with-split (canonical_host host) suffix (ground arith) in
    (front, longer-front front suffix (canonical_host host) e (ground arith), e)

-- A pattern without a wildcard matches the host that it names, and no other.
pub hostname_match-exact :
    (pattern host : String)
    → starts_with (canonical_host pattern) (codes "*.") ≡ false
    → (hostname_match pattern host ≡ true) ↔ (canonical_host host ≡ canonical_host pattern)
unfolding hostname_match host_codes_match
hostname_match-exact pattern host n = (
  (λ h. same_codes→eq (canonical_host host) (canonical_host pattern) (ground arith)),
  λ e. ground (arith, e, same_codes_refl (canonical_host pattern)),
)

count_code-append : (c : ℕ) (s t : List ℕ) → count_code c (s ++ t) ≡ count_code c s + count_code c t
unfolding count_code
count_code-append c [] t = ground arith
count_code-append c (a ∷ s) t = ground (arith, count_code-append c s t)

drop_last-append : (s t : List ℕ) → drop_last (length t) (s ++ t) ≡ s
unfolding drop_last
drop_last-append s t =
    ap (λ u. reverse (drop (length t) u)) (reverse-append s t)
    ∙ ap reverse (drop-length (reverse t) (reverse s) (length t) (length-reverse t))
    ∙ reverse-reverse s

last_slash :
    (owner name : List ℕ)
    → count_code b'/' owner + count_code b'/' (b'/' ∷ name) ≡ 1
    → count_code b'/' name ≡ 0
unfolding count_code
last_slash owner name h = ground arith

-- A pattern `owner/*` matches only the repositories of that owner: the owner, a slash and a name
-- without a slash; pattern and repository are compared in lower case.
pub repo_match-wildcard :
    (pattern canonical : String) (owner : List ℕ)
    → lower (codes pattern) ≡ owner ++ codes "/*"
    → repo_match pattern canonical ≡ true
    → (name : List ℕ) × (lower (codes canonical) ≡ owner ++ b'/' ∷ name)
      × (count_code b'/' name ≡ 0)
unfolding repo_match repo_codes_match
repo_match-wildcard pattern canonical owner p h =
    let c = lower (codes canonical) in
    let ends : ends_with (owner ++ codes "/*") (codes "/*") ≡ true =
      ends_with-append owner (codes "/*") in
    let cut : drop_last 2 (owner ++ codes "/*") ≡ owner = drop_last-append owner (codes "/*") in
    let both : starts_with c (owner ++ b'/' ∷ []) && eqb (count_code b'/' c) 1 ≡ true =
      rw (p, ends, cut) at h in
    let one : count_code b'/' c ≡ 1 = eqb→eq (count_code b'/' c) 1 (ground arith) in
    let (name, e) = starts_with-split c (owner ++ b'/' ∷ []) (ground arith) in
    let split = e ∙ append_assoc owner (b'/' ∷ []) name in
    let slashes = ap (count_code b'/') split ∙ count_code-append b'/' owner (b'/' ∷ name) in
    (name, split, last_slash owner name (sym slashes ∙ one))
