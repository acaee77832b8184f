-- ===== src/Store/Events.antt =====
-- The methods of `Store` for observability events and the list of workers. A row of the first is
-- keyed by the event, and its request stands in the field `request_id` of its document.
use noble_cascade.Errors.{Exec, ok}
use noble_cascade.Models.{Fields, get_field, str}
use noble_cascade.Prelude.{Bool, List, String, false, keep, some, ℕ, ◌==◌}
use noble_cascade.Store.Records.{keyed, latest}
use noble_cascade.Store.Rows.{replace_row}
use noble_cascade.Store.Tables.{Keyed, Store}

unfoldable pub put_observability : Keyed Fields → Exec Store (Unit {0})
put_observability row s =
    (ok tt, record s { observability = replace_row keyed row s.observability })

-- the column request_id
unfoldable pub is_event_of : String → Keyed Fields → Bool
unfolding get_field
is_event_of request_id row = elim (get_field "request_id" row.value) [
  | some (str s) ↦ s == request_id
  | _ ↦ false
]

unfoldable pub list_observability : String → Store → List (Keyed Fields)
unfolding keep is_event_of
list_observability request_id s = keep (λ row. is_event_of request_id row) s.observability

unfoldable pub list_observability_all : ℕ → Store → List (Keyed Fields)
list_observability_all limit s = latest limit s.observability

unfoldable pub list_workers : Store → List (Keyed Fields)
list_workers s = s.worker_registry
