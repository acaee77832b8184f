-- ===== src/Audit/Appends.antt =====
-- What `emit` does to the world: one more event on the chain, or an exception.
use noble_cascade.Audit.{Entry, emit, event_of}
use noble_cascade.Errors.{Raised, err, ok}
use noble_cascade.Models.{AuditEvent}
use noble_cascade.Platform.{Platform}
use noble_cascade.Prelude.{[], arith, concat, ◌++◌, ◌+◌, ◌∷◌, ◌≡◌}
use noble_cascade.Store.{AuditRow, append_audit, chain_digest, insert_row, last_hash, next_sequence}
use noble_cascade.World.{World}

-- the state that `emit` passes to the database
abbrev pub drawn : World → World
drawn w = record w { draws = w.draws + 1; readings = w.readings + 1 }

abbrev pub event_at : Platform → Entry → World → AuditEvent
event_at os e w = event_of os (concat "audit" (concat "-" (os.hex w.draws))) (os.clock w.readings) e

pub emit-event :
    (os : Platform) (e : Entry) (w w' : World) {event : AuditEvent}
    → emit os e w ≡ (ok event, w')
    → event ≡ event_at os e w
unfolding emit append_audit insert_row
emit-event os e w w' h = ground arith

-- An event that is emitted stands on the log after the events before it, and nothing else of the
-- database changes.
pub emit-appends :
    (os : Platform) (e : Entry) (w w' : World) {event : AuditEvent}
    → emit os e w ≡ (ok event, w')
    → (row : AuditRow) × (row.content ≡ os.event_text event)
      × (w'.store ≡ record (w.store) { audit_events = w.store.audit_events ++ row ∷ [] })
unfolding emit append_audit insert_row
emit-appends os e w w' h =
    let s = w.store in
    let event = event_at os e w in
    let prev = last_hash s.audit_events in
    (
      record {
        sequence = next_sequence s.audit_events;
        event_id = concat "audit" (concat "-" (os.hex w.draws));
        content = os.event_text event;
        prev_hash = prev;
        event_hash = chain_digest os.sha256 prev (os.event_text event);
      },
      ground arith,
      ground arith,
    )

-- An event reads the clock once.
pub emit_reads :
    (os : Platform) (e : Entry) (w w' : World) {event : AuditEvent}
    → emit os e w ≡ (ok event, w')
    → w'.readings ≡ w.readings + 1
unfolding emit append_audit insert_row
emit_reads os e w w' h = ground arith

-- If `emit` raises, the database is as it was.
pub emit-raises :
    (os : Platform) (e : Entry) (w w' : World) {r : Raised}
    → emit os e w ≡ (err r, w')
    → w'.store ≡ w.store
unfolding emit append_audit insert_row
emit-raises os e w w' h = ground arith
