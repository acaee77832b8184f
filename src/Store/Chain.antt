-- ===== src/Store/Chain.antt =====
-- Lemmas on the hash chain of the audit log, in noble/store.py.
use mathlib.Core.List.{head?, reverse, reverse-append}
use noble_cascade.Errors.{ok}
use noble_cascade.Prelude.{
  Bool, Bool-cases, List, String, [], ap, arith, eq_iff, false, inl, inr, length, length-append,
  none, refl, some, suc, sym, take, true, ℕ, ◌++◌, ◌+◌, ◌-◌, ◌<◌, ◌==◌, ◌↔◌, ◌∙◌, ◌∷◌, ◌≡◌, ◌≤◌,
}
use noble_cascade.Store.Log.{
  append_audit, chain_digest, genesis, last_hash, next_sequence, verify_audit, verify_from,
}
use noble_cascade.Store.Rows.{insert_row}
use noble_cascade.Store.Tables.{AuditRow, Store}

-- Each row names the digest of the row before it, and its own.
abbrev pub IsChained : (String → String) → String → List AuditRow → Type 0
IsChained h prev [] = Unit
IsChained h prev (r ∷ rs) =
    (prev ≡ r.prev_hash)
    × (chain_digest h prev r.content ≡ r.event_hash)
    × IsChained h (chain_digest h prev r.content) rs

module _ (h : String → String) where
  pub verify_from_sound :
      (prev : String) (n : ℕ) (rows : List AuditRow)
      → (verify_from h prev n rows).0 ≡ true
      → IsChained h prev rows
  unfolding verify_from
  verify_from_sound prev n [] e = tt
  verify_from_sound prev n (r ∷ rs) e = ground (
    arith,
    eq_iff prev r.prev_hash,
    eq_iff (chain_digest h prev r.content) r.event_hash,
    verify_from_sound (chain_digest h prev r.content) (n + 1) rs,
  )

  pub verify_from_complete :
      (prev : String) (n : ℕ) (rows : List AuditRow)
      → IsChained h prev rows
      → verify_from h prev n rows ≡ (true, n + length rows)
  unfolding verify_from
  verify_from_complete prev n [] c = ground arith
  verify_from_complete prev n (r ∷ rs) c = ground (
    arith,
    eq_iff prev r.prev_hash,
    eq_iff (chain_digest h prev r.content) r.event_hash,
    verify_from_complete (chain_digest h prev r.content) (n + 1) rs c.2,
  )

  -- On a broken log the count is the length of the longest valid beginning.
  pub verify_from_prefix :
      (prev : String) (n : ℕ) (rows : List AuditRow) {m : ℕ}
      → verify_from h prev n rows ≡ (false, m)
      → (n ≤ m)
        × (m < n + length rows)
        × IsChained h prev (take (m - n) rows)
        × ¬ IsChained h prev (take (suc (m - n)) rows)
  unfolding verify_from
  verify_from_prefix prev n [] e = cc
  verify_from_prefix prev n (r ∷ rs) {m} e = elim (Bool-cases (prev == r.prev_hash)) [
    | inl p ↦ elim (Bool-cases (chain_digest h prev r.content == r.event_hash)) [
      | inl d ↦
          let (above, below, valid, broken) =
            verify_from_prefix (chain_digest h prev r.content) (n + 1) rs (rw (p, d) at e) in
          let step : m - n ≡ suc (m - (n + 1)) = omega arith in
          (
            omega arith,
            omega arith,
            rw step ((eq_iff _ _).0 p, (eq_iff _ _).0 d, valid),
            rw step (λ c. broken c.2),
          )
      | inr d ↦
          let same : m ≡ n = ground arith in
          let none_left : m - n ≡ 0 = omega arith in
          (
            omega arith,
            omega arith,
            rw none_left tt,
            λ c. cc ((eq_iff (chain_digest h prev r.content) r.event_hash).1 c.1, d),
          )
    ]
    | inr p ↦
        let same : m ≡ n = ground arith in
        let none_left : m - n ≡ 0 = omega arith in
        (omega arith, omega arith, rw none_left tt, λ c. cc ((eq_iff prev r.prev_hash).1 c.0, p))
  ]

  unfoldable pub tail_hash : String → List AuditRow → String
  tail_hash prev [] = prev
  tail_hash prev (r ∷ rs) = tail_hash r.event_hash rs

  head-append :
      (xs : List AuditRow) (r : AuditRow) (d : String)
      → elim (head? (xs ++ r ∷ [])) [ none ↦ d | some a ↦ a.event_hash ]
        ≡ elim (head? xs) [ none ↦ r.event_hash | some a ↦ a.event_hash ]
  head-append [] r d = refl
  head-append (x ∷ xs) r d = refl

  last_hash_from :
      (prev : String) (rows : List AuditRow)
      → elim (head? (reverse rows)) [ none ↦ prev | some a ↦ a.event_hash ] ≡ tail_hash prev rows
  unfolding tail_hash
  last_hash_from prev [] = refl
  last_hash_from prev (r ∷ rs) =
      rw (reverse-append (r ∷ []) rs)
        (head-append (reverse rs) r prev ∙ last_hash_from r.event_hash rs)

  IsChained-append :
      (prev : String) (rows : List AuditRow) (r : AuditRow)
      → IsChained h prev rows
      → r.prev_hash ≡ tail_hash prev rows
      → r.event_hash ≡ chain_digest h (tail_hash prev rows) r.content
      → IsChained h prev (rows ++ r ∷ [])
  unfolding tail_hash
  IsChained-append prev [] r c p d = (sym p, sym d, tt)
  IsChained-append prev (x ∷ rs) r c p d =
      (c.0, c.1, rw c.1 (IsChained-append x.event_hash rs r (rw c.1 at c.2) p d))

  abbrev next_row : String → String → List AuditRow → AuditRow
  next_row event_id content rows = record {
    sequence = next_sequence rows;
    event_id = event_id;
    content = content;
    prev_hash = last_hash rows;
    event_hash = chain_digest h (last_hash rows) content;
  }

  append_audit-rows :
      (event_id content : String) (s s' : Store) {digest : String}
      → append_audit h event_id content s ≡ (ok digest, s')
      → s'.audit_events ≡ s.audit_events ++ next_row event_id content s.audit_events ∷ []
  unfolding append_audit insert_row
  append_audit-rows event_id content s s' a = ground arith

  pub last_hash-eq : (rows : List AuditRow) → last_hash rows ≡ tail_hash genesis rows
  unfolding last_hash
  last_hash-eq rows = last_hash_from genesis rows

  -- An event that is appended to a log that verifies is verified with it.
  pub verify_audit-append :
      (event_id content : String) (s s' : Store) {digest : String} {n : ℕ}
      → verify_audit h s ≡ (true, n)
      → append_audit h event_id content s ≡ (ok digest, s')
      → verify_audit h s' ≡ (true, n + 1)
  unfolding verify_audit
  verify_audit-append event_id content s s' v a =
      let rows = s.audit_events in
      let valid = verify_from_sound genesis 0 rows (ap (λ (r : Bool × ℕ). r.0) v) in
      let longer =
        IsChained-append genesis rows (next_row event_id content rows) valid (last_hash-eq rows)
          (ap (λ (t : String). chain_digest h t content) (last_hash-eq rows)) in
      let before = verify_from_complete genesis 0 rows valid in
      let after =
        verify_from_complete genesis 0 (rows ++ next_row event_id content rows ∷ []) longer in
      rw (append_audit-rows event_id content s s' a)
        (ground (arith, length-append rows (next_row event_id content rows ∷ [])))

-- verify_audit answers true exactly on a chained log, and then counts every event.
pub verify_audit_complete :
    (h : String → String) (s : Store)
    → (verify_audit h s ≡ (true, length s.audit_events)) ↔ IsChained h genesis s.audit_events
unfolding verify_audit
verify_audit_complete h s = (
  (λ v. verify_from_sound h genesis 0 s.audit_events (ap (λ (r : Bool × ℕ). r.0) v)),
  λ c. rw (verify_from_complete h genesis 0 s.audit_events c) (ground arith),
)

-- On a log that does not verify, the count is the length of the longest beginning that is chained.
pub verify_audit-prefix :
    (h : String → String) (s : Store) {m : ℕ}
    → verify_audit h s ≡ (false, m)
    → (m < length s.audit_events)
      × IsChained h genesis (take m s.audit_events)
      × ¬ IsChained h genesis (take (suc m) s.audit_events)
unfolding verify_audit
verify_audit-prefix h s {m} v =
    let (_, below, valid, broken) = verify_from_prefix h genesis 0 s.audit_events v in
    let same : m - 0 ≡ m = omega arith in (omega arith, rw same at valid, rw same at broken)
