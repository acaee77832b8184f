-- ===== src/Store/Tamper.antt =====
-- Lemmas on two audit logs of noble/store.py that end in the same hash.
use mathlib.Core.Path.{ap₂}
use noble_cascade.Prelude.{
  Bool, Bool-cases, Has, List, String, [], ap, arith, concat, count_chars, eq_iff, inl, inr, length,
  map, refl, sym, true, ℕ, ◌==◌, ◌∙◌, ◌∷◌, ◌≡◌, ◌≢◌, ◌⊎◌,
}
use noble_cascade.Store.Chain.{
  IsChained, last_hash-eq, tail_hash, verify_from_complete, verify_from_sound,
}
use noble_cascade.Store.Log.{chain_digest, genesis, last_hash, verify_audit}
use noble_cascade.Store.Tables.{AuditRow, Store}
use text.Mathlib.TextLemmas.{append_cancel_left, append_inj}

-- what the digest of a row is taken of
abbrev pub hashed_text : AuditRow → String
hashed_text r = concat r.prev_hash (concat "\n" r.content)

-- A row of the one log and a row of the other whose texts differ and have one digest.
pub record Collision (h : String → String) (rows others : List AuditRow) : Type 0 where
  pub row : AuditRow
  pub other : AuditRow
  pub in_rows : Has row rows
  pub in_others : Has other others
  pub differ : hashed_text row ≢ hashed_text other
  pub collide : h (hashed_text row) ≡ h (hashed_text other)

abbrev pub contents : List AuditRow → List String
contents rows = map (λ (r : AuditRow). r.content) rows

-- hexdigest() of SHA-256 has 64 characters.
abbrev pub HasDigestLength : (String → String) → Type 0
HasDigestLength h = (s : String) → count_chars (h s) ≡ 64

module _ (h : String → String) (digests : HasDigestLength h) where
  -- one link: equal digests come from equal rows, or are a collision
  link :
      (r r' : AuditRow)
      → count_chars r.prev_hash ≡ count_chars r'.prev_hash
      → (hashed_text r ≢ hashed_text r') ⊎ ((r.prev_hash ≡ r'.prev_hash) × (r.content ≡ r'.content))
  link r r' n = elim (Bool-cases (hashed_text r == hashed_text r')) [
    | inl same ↦
        let (heads, tails) = append_inj ((eq_iff (hashed_text r) (hashed_text r')).0 same) n in
        inr (heads, append_cancel_left "\n" r.content r'.content tails)
    | inr other ↦ inl (λ s. cc ((eq_iff (hashed_text r) (hashed_text r')).1 s, other))
  ]

  -- the digest of a chained row is that of its text
  row_digest :
      (p : String) (r : AuditRow)
      → p ≡ r.prev_hash
      → chain_digest h p r.content ≡ r.event_hash
      → h (hashed_text r) ≡ r.event_hash
  unfolding chain_digest
  row_digest p r e d = sym (ap (λ (k : String). chain_digest h k r.content) e) ∙ d

  later-Collision :
      (x y : AuditRow) (rows others : List AuditRow)
      → Collision h rows others
      → Collision h (x ∷ rows) (y ∷ others)
  later-Collision x y rows others k = record {
    row = k.row;
    other = k.other;
    in_rows = inr k.in_rows;
    in_others = inr k.in_others;
    differ = k.differ;
    collide = k.collide;
  }

  digest_length : (p c : String) → count_chars (chain_digest h p c) ≡ 64
  unfolding chain_digest
  digest_length p c = digests _

  chains_agree :
      (p q : String) (rows others : List AuditRow)
      → count_chars p ≡ 64
      → count_chars q ≡ 64
      → IsChained h p rows
      → IsChained h q others
      → length rows ≡ length others
      → tail_hash h p rows ≡ tail_hash h q others
      → ((p ≡ q) × (contents rows ≡ contents others)) ⊎ Collision h rows others
  unfolding tail_hash
  chains_agree p q [] [] np nq c d l e = inl (e, refl)
  chains_agree p q [] (y ∷ ys) np nq c d l e = absurd (omega arith)
  chains_agree p q (x ∷ xs) [] np nq c d l e = absurd (omega arith)
  chains_agree p q (x ∷ xs) (y ∷ ys) np nq c d l e =
      let again =
        chains_agree x.event_hash y.event_hash xs ys (rw (← c.1) (digest_length _ _))
          (rw (← d.1) (digest_length _ _)) (rw c.1 at c.2) (rw d.1 at d.2) (omega arith) e in
      elim again [
        | inr hit ↦ inr (later-Collision x y xs ys hit)
        | inl (same, later) ↦ elim (link x y (cc (np, nq, c.0, d.0))) [
          | inl differ ↦ inr (record {
            row = x;
            other = y;
            in_rows = inl refl;
            in_others = inl refl;
            differ = differ;
            collide = row_digest p x c.0 c.1 ∙ same ∙ sym (row_digest q y d.0 d.1);
          })
          | inr (heads, now) ↦ inl (c.0 ∙ heads ∙ sym d.0, ap₂ ◌∷◌ now later)
        ]
      ]

-- For a hash function whose digests have 64 characters: two logs that verify, with as many events
-- and one last hash, hold the same events in the same order, or two of their own rows, one of each,
-- have different texts with one digest.
pub tamper_evidence :
    (h : String → String)
    → HasDigestLength h
    → (s t : Store) {n : ℕ} → verify_audit h s ≡ (true, n)
    → verify_audit h t ≡ (true, n)
    → last_hash s.audit_events ≡ last_hash t.audit_events
    → (contents s.audit_events ≡ contents t.audit_events)
      ⊎ Collision h s.audit_events t.audit_events
unfolding verify_audit
tamper_evidence h digests s t v w e =
    let c = verify_from_sound h genesis 0 s.audit_events (ap (λ (r : Bool × ℕ). r.0) v) in
    let d = verify_from_sound h genesis 0 t.audit_events (ap (λ (r : Bool × ℕ). r.0) w) in
    let n = verify_from_complete h genesis 0 s.audit_events c in
    let m = verify_from_complete h genesis 0 t.audit_events d in
    let ends = sym (last_hash-eq h s.audit_events) ∙ e ∙ last_hash-eq h t.audit_events in
    elim (chains_agree h digests genesis genesis s.audit_events t.audit_events refl refl c d
      (ground arith) ends) [ inl same ↦ inl same.1 | inr hit ↦ inr hit ]
