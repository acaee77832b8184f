-- ===== src/Store/Log.antt =====
-- The audit log: append_audit, list_audit and verify_audit, over a hash function.
use mathlib.Core.List.{head?, reverse}
use noble_cascade.Errors.{Exec, builtin, err, integrity_error, ok}
use noble_cascade.Prelude.{
  Bool, List, String, [], concat, count, false, if◌then◌else◌, map, none, not, some, take, true, ℕ,
  ◌+◌, ◌==◌, ◌||◌, ◌∷◌,
}
use noble_cascade.Store.Rows.{insert_row}
use noble_cascade.Store.Tables.{AuditRow, Store}

-- "0" * 64
abbrev pub genesis : String
genesis = "0000000000000000000000000000000000000000000000000000000000000000"

-- sha256(f"{prev_hash}\n{data}")
unfoldable pub chain_digest : (String → String) → String → String → String
chain_digest sha256 prev content = sha256 (concat prev (concat "\n" content))

-- the hash of the last row, or the genesis hash
unfoldable pub last_hash : List AuditRow → String
last_hash rows = elim (head? (reverse rows)) [ none ↦ genesis | some r ↦ r.event_hash ]

-- the next value of the column `sequence`, AUTOINCREMENT
unfoldable pub next_sequence : List AuditRow → ℕ
next_sequence rows = elim (head? (reverse rows)) [ none ↦ 1 | some r ↦ r.sequence + 1 ]

abbrev pub event_key : AuditRow → String
event_key r = r.event_id

-- append_audit, of an event's identifier and JSON text; event_id is UNIQUE
unfoldable pub append_audit : (String → String) → String → String → Exec Store String
append_audit sha256 event_id content s =
    let prev = last_hash s.audit_events in
    let digest = chain_digest sha256 prev content in
    elim (insert_row event_key
      (record {
        sequence = next_sequence s.audit_events;
        event_id = event_id;
        content = content;
        prev_hash = prev;
        event_hash = digest;
      })
      s.audit_events) [
        | none ↦ (err (builtin integrity_error), s)
        | some rows ↦ (ok digest, record s { audit_events = rows })
      ]

-- list_audit, the texts of the latest events
unfoldable pub list_audit : ℕ → Store → List String
list_audit limit s = map (λ (r : AuditRow). r.content) (take limit (reverse s.audit_events))

-- the loop of verify_audit
unfoldable pub verify_from : (String → String) → String → ℕ → List AuditRow → Bool × ℕ
verify_from sha256 prev count [] = (true, count)
verify_from sha256 prev count (r ∷ rs) =
    let digest = chain_digest sha256 prev r.content in
    let rest = verify_from sha256 digest (count + 1) rs in
    if not (prev == r.prev_hash) || not (digest == r.event_hash) then (false, count) else rest

unfoldable pub verify_audit : (String → String) → Store → Bool × ℕ
unfolding verify_from
verify_audit sha256 s = verify_from sha256 genesis 0 s.audit_events
