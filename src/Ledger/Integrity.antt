-- ===== src/Ledger/Integrity.antt =====
-- noble/ledger_integrity.py: checkpoints over the audit log and the ledger, and the search for the
-- first broken event. The files that it writes besides the database, the moments and the messages of
-- verify_checkpoint are left out.
use mathlib.Core.List.{head?, reverse}
use noble_cascade.Models.{Fields, object}
use noble_cascade.Platform.{Platform}
use noble_cascade.Prelude.{
  Bool, List, Option, String, [], concat, decimal, false, given, if◌then◌else◌, length, ltb, map,
  none, not, some, take, true, ℕ, ◌+◌, ◌==◌, ◌||◌, ◌∷◌,
}
use noble_cascade.Store.{
  AuditRow, Keyed, Store, chain_digest, find_row, genesis, keyed, last_hash, replace_row,
  verify_audit,
}

pub record Checkpoint : Type 0 where
  pub audit_head : String
  pub ledger_head : String
  pub audit_count : ℕ
  pub ledger_count : ℕ
  pub checkpoint_hash : String

-- sha256 of the text of the last row of the ledger, or the genesis hash
unfoldable pub ledger_hash : Platform → List (Keyed Fields) → String
ledger_hash os rows = elim (head? (reverse rows)) [
  | none ↦ genesis
  | some r ↦ os.sha256 (os.canonical (object r.value))
]

-- compute_ledger_checkpoint
unfoldable pub compute_ledger_checkpoint : Platform → Store → Checkpoint
unfolding ledger_hash last_hash
compute_ledger_checkpoint os s =
    let audit_hash = last_hash s.audit_events in
    let tail_hash = ledger_hash os s.ledger in
    record {
      audit_head = audit_hash;
      ledger_head = tail_hash;
      audit_count = length s.audit_events;
      ledger_count = length s.ledger;
      checkpoint_hash = os.sha256 (concat audit_hash (concat ":" tail_hash));
    }

-- write_checkpoint, on the table ledger_checkpoints
unfoldable pub write_checkpoint :
    Platform → Store → List (Keyed Checkpoint) → List (Keyed Checkpoint)
unfolding compute_ledger_checkpoint replace_row
write_checkpoint os s =
    let cp = compute_ledger_checkpoint os s in
    replace_row keyed (record { key = cp.checkpoint_hash; value = cp })

-- verify_checkpoint
unfoldable pub verify_checkpoint : Platform → Store → List (Keyed Checkpoint) → Option String → Bool
unfolding compute_ledger_checkpoint find_row verify_audit
verify_checkpoint os s checkpoints checkpoint_hash =
    let current = compute_ledger_checkpoint os s in
    elim (given checkpoint_hash) [
      | some hash ↦ elim (find_row keyed hash checkpoints) [
        | none ↦ false
        | some row ↦
            let stored = row.value in
            if not (stored.checkpoint_hash == hash)
            then false
            else not (
                ltb current.audit_count stored.audit_count
                || ltb current.ledger_count stored.ledger_count)
      ]
      | none ↦ (verify_audit os.sha256 s).0
    ]

pub record Corruption : Type 0 where
  pub corrupted : Bool
  pub first_corrupted_sequence : Option ℕ
  pub valid_prefix : ℕ
  pub message : String

-- the loop of detect_corruption: the index of the first broken row, and the row
unfoldable pub first_broken : (String → String) → String → ℕ → List AuditRow → Option (ℕ × AuditRow)
unfolding chain_digest
first_broken sha256 prev idx [] = none
first_broken sha256 prev idx (row ∷ rows) =
    let expected = chain_digest sha256 prev row.content in
    let rest = first_broken sha256 expected (idx + 1) rows in
    if not (prev == row.prev_hash) || not (expected == row.event_hash)
    then some (idx, row)
    else rest

-- detect_corruption
unfoldable pub detect_corruption : Platform → Store → Corruption
unfolding verify_audit first_broken
detect_corruption os s =
    let (valid, n) = verify_audit os.sha256 s in
    if valid
    then record {
      corrupted = false;
      first_corrupted_sequence = none;
      valid_prefix = n;
      message = concat "no corruption, " (concat (decimal n) " events valid");
    }
    else (elim (first_broken os.sha256 genesis 0 s.audit_events) [
      | none ↦ record {
        corrupted = true;
        first_corrupted_sequence = none;
        valid_prefix = n;
        message = "unknown corruption";
      }
      | some (idx, row) ↦ record {
        corrupted = true;
        first_corrupted_sequence = some row.sequence;
        valid_prefix = idx;
        message = concat "corruption at sequence " (decimal row.sequence);
      }
    ])

-- what partial_recovery writes: the events and as many rows of the ledger; none where nothing is
-- corrupted
unfoldable pub partial_recovery : Platform → Store → Option (List String × List Fields)
unfolding detect_corruption
partial_recovery os s =
    let info = detect_corruption os s in
    if not info.corrupted
    then none
    else some (
      map (λ (r : AuditRow). r.content) (take info.valid_prefix s.audit_events),
      map (λ (r : Keyed Fields). r.value) (take info.valid_prefix s.ledger),
    )
