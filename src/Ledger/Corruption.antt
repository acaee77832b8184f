-- ===== src/Ledger/Corruption.antt =====
-- What the checks of noble/ledger_integrity.py find.
use noble_cascade.Ledger.Integrity.{
  Checkpoint, Corruption, compute_ledger_checkpoint, detect_corruption, first_broken,
  verify_checkpoint, write_checkpoint,
}
use noble_cascade.Platform.{Platform}
use noble_cascade.Prelude.{
  Bool, Bool-cases, List, String, [], ap, arith, concat, decimal, eq_refl, false, get_elem?, inl,
  inr, length, ltb, none, not, refl, some, suc, take, true, ℕ, ◌+◌, ◌-◌, ◌<◌, ◌==◌, ◌||◌, ◌↔◌, ◌∙◌,
  ◌∷◌, ◌≡◌, ◌≤◌, ◌⊎◌,
}
use noble_cascade.Store.{
  AuditRow, Keyed, Store, chain_digest, delete_rows, find_row, find_row-append, genesis, keyed,
  replace_row, verify_audit, verify_from,
}
use noble_cascade.Store.Chain.{
  IsChained, verify_audit-prefix, verify_from_complete, verify_from_prefix, verify_from_sound,
}

first_broken-verify_from :
    (h : String → String) (prev : String) (n : ℕ) (rows : List AuditRow) {m : ℕ}
    → verify_from h prev n rows ≡ (false, m)
    → (row : AuditRow) × (first_broken h prev n rows ≡ some (m, row))
      × (get_elem? rows (m - n) ≡ some row)
unfolding verify_from first_broken
first_broken-verify_from h prev n [] e = absurd (ground (arith, e))
first_broken-verify_from h prev n (r ∷ rs) {m} e =
    let digest = chain_digest h prev r.content in
    elim (Bool-cases (not (prev == r.prev_hash) || not (digest == r.event_hash))) [
      | inl broken ↦
          let here : m ≡ n = ground (arith, e, broken) in
          let start : m - n ≡ 0 = omega arith in (r, ground (arith, here, broken), rw start refl)
      | inr fits ↦
          let rest : verify_from h digest (n + 1) rs ≡ (false, m) = ground (arith, e, fits) in
          let (row, named, there) = first_broken-verify_from h digest (n + 1) rs rest in
          let (above, _, _, _) = verify_from_prefix h digest (n + 1) rs rest in
          let step : m - n ≡ suc (m - (n + 1)) = omega arith in
          (row, ground (arith, fits, named), rw step there)
    ]

-- a log that is whole; or the longest beginning that is, and the row after it by its number
abbrev pub Found : (String → String) → List AuditRow → Corruption → Type 0
Found h rows c =
    ((c.corrupted ≡ false)
      × (c.first_corrupted_sequence ≡ none)
      × (c.valid_prefix ≡ length rows)
      × IsChained h genesis rows)
    ⊎ ((c.corrupted ≡ true)
        × (c.valid_prefix < length rows)
        × IsChained h genesis (take c.valid_prefix rows)
        × (¬ IsChained h genesis (take (suc c.valid_prefix) rows))
        × (row : AuditRow) × (get_elem? rows c.valid_prefix ≡ some row)
        × (c.first_corrupted_sequence ≡ some row.sequence)
        × (c.message ≡ concat "corruption at sequence " (decimal row.sequence)))

-- detect_corruption reports no corruption just on a chained log, with every event valid and no number.
-- Otherwise it names, in its answer and in its message, the sequence number of a row of the log: the
-- rows before that one, as many as the answer counts, are chained, and with it they are not. So it
-- never answers "unknown corruption".
pub detect_corruption_lem :
    (os : Platform) (s : Store) → Found os.sha256 s.audit_events (detect_corruption os s)
unfolding detect_corruption verify_audit
detect_corruption_lem os s =
    let rows = s.audit_events in
    let answer = verify_audit os.sha256 s in
    elim (Bool-cases answer.0) [
      | inl valid ↦
          let chained = verify_from_sound os.sha256 genesis 0 rows valid in
          let counted = verify_from_complete os.sha256 genesis 0 rows chained in
          inl (ground (arith, counted), ground (arith, counted), ground (arith, counted), chained)
      | inr broken ↦
          let whole : verify_audit os.sha256 s ≡ (false, answer.1) =
            ap (λ (b : Bool). (b, answer.1)) broken in
          let (below, valid, longer) = verify_audit-prefix os.sha256 s whole in
          let (row, named, there) = first_broken-verify_from os.sha256 genesis 0 rows whole in
          let exact : answer.1 - 0 ≡ answer.1 = omega arith in
          rw (whole, named) (inr (refl, below, valid, longer, row, (rw exact at there), refl, refl))
    ]

find_row-delete_rows :
    (k : String) (rows : List (Keyed Checkpoint))
    → find_row keyed k (delete_rows keyed k rows) ≡ none
unfolding find_row delete_rows
find_row-delete_rows k [] = refl
find_row-delete_rows k (c ∷ cs) = ground (arith, find_row-delete_rows k cs)

-- the row that write_checkpoint leaves
abbrev stored_row : Platform → Store → Keyed Checkpoint
stored_row os s = record {
  key = (compute_ledger_checkpoint os s).checkpoint_hash;
  value = compute_ledger_checkpoint os s;
}

find_row-write_checkpoint :
    (os : Platform) (s : Store) (checkpoints : List (Keyed Checkpoint))
    → find_row keyed
        (compute_ledger_checkpoint os s).checkpoint_hash
        (write_checkpoint os s checkpoints)
      ≡ some (stored_row os s)
unfolding write_checkpoint replace_row
find_row-write_checkpoint os s checkpoints =
    let c = compute_ledger_checkpoint os s in
    find_row-append keyed c.checkpoint_hash (stored_row os s)
      (delete_rows keyed c.checkpoint_hash checkpoints)
    ∙ ground (arith, find_row-delete_rows c.checkpoint_hash checkpoints, eq_refl c.checkpoint_hash)

counted_lem :
    (os : Platform) (s s' : Store)
    → (not (
          ltb
            (compute_ledger_checkpoint os s').audit_count
            (compute_ledger_checkpoint os s).audit_count
          || ltb
              (compute_ledger_checkpoint os s').ledger_count
              (compute_ledger_checkpoint os s).ledger_count)
        ≡ true)
      ↔ ((length s.audit_events ≤ length s'.audit_events) × (length s.ledger ≤ length s'.ledger))
unfolding compute_ledger_checkpoint
counted_lem os s s' =
    ((λ h. (ground (arith, h), ground (arith, h))), λ (a, b). ground (arith, a, b))

-- A checkpoint that was written of one database verifies against another just if that has at least as
-- many events and rows of the ledger: a shorter log is noticed, and nothing but the lengths is
-- compared.
pub verify_checkpoint_lem :
    (os : Platform) (s s' : Store) (checkpoints : List (Keyed Checkpoint))
    → ((compute_ledger_checkpoint os s).checkpoint_hash == "") ≡ false
    → (verify_checkpoint os s'
          (write_checkpoint os s checkpoints)
          (some (compute_ledger_checkpoint os s).checkpoint_hash)
        ≡ true)
      ↔ ((length s.audit_events ≤ length s'.audit_events) × (length s.ledger ≤ length s'.ledger))
unfolding verify_checkpoint
verify_checkpoint_lem os s s' checkpoints named =
    rw
      (
        named,
        find_row-write_checkpoint os s checkpoints,
        eq_refl (compute_ledger_checkpoint os s).checkpoint_hash,
        verify_checkpoint,
      )
      (counted_lem os s s')
