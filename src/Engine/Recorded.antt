-- ===== src/Engine/Recorded.antt =====
-- What the end of NobleEngine.run (noble/engine.py) persists: the audit event, the ledger and the
-- result.
use mathlib.Core.Path.{subst}
use noble_cascade.Engine.Closing.{Closing, Freed, Freed-Steady, Leases-Steady, audit_as-raises}
use noble_cascade.Engine.Finish.{
  chain_of, ledger_stage, persist_stage, result_of, store_stage, tool_run_of, write_ledger,
}
use noble_cascade.Engine.Steps.{Run, Setting, audit_as, doing, on_world}
use noble_cascade.Engine.Underway.{Keeps-audit_as, Keeps-obs, Keeps-world, Marks, Same, Steady}
use noble_cascade.Engine.Undisturbed.{utcnow-Same}
use noble_cascade.Errors.{
  Exec, Result, Result-cases, builtin, err, integrity_error, ok, ◌>>=◌, ◌>>◌,
}
use noble_cascade.Errors.Keeps.{Keeps, Keeps-bind, Keeps-then}
use noble_cascade.Ledger.{chain_dict}
use noble_cascade.Models.{ExecutionResult, Fields, SecurityRequest, end, field, outcome_value, str}
use noble_cascade.Prelude.{
  Bool, Bool-cases, List, Option, Option-cases, String, [], ap, arith, code, eq_iff, false, given,
  if◌then◌else◌, inl, inr, none, refl, some, sym, true, ◌++◌, ◌∙◌, ◌∷◌, ◌≡◌, ◌⊎◌,
}
use noble_cascade.Store.{
  Store, delete_rows, find_row, find_row-append, get_result, insert_row, keyed, put_ledger,
  put_result, result_key,
}
use noble_cascade.World.{World, new_id, on_store, utcnow}

-- the result of the run is the one that the database has
abbrev pub Recorded : Setting → SecurityRequest → Run → Type 0
Recorded g request r =
    r.request_reserved ≡ true
    → get_result request.request_id r.world.store ≡ some (result_of g request r)

-- a row for a key that the table does not have
insert_row-fresh :
    (k : String) (row : ExecutionResult) (rows : List ExecutionResult)
    → row.request_id ≡ k
    → find_row result_key k rows ≡ none
    → insert_row result_key row rows ≡ some (rows ++ row ∷ [])
unfolding insert_row
insert_row-fresh k row rows e h =
    let absent : find_row result_key row.request_id rows ≡ none =
      subst (λ i. find_row result_key i rows ≡ none) (sym e) h in
    rw (absent, insert_row)

find_row-last :
    (k : String) (row : ExecutionResult) (rows : List ExecutionResult)
    → row.request_id ≡ k
    → find_row result_key k rows ≡ none
    → find_row result_key k (rows ++ row ∷ []) ≡ some row
find_row-last k row rows e h =
    find_row-append result_key k row rows ∙ ground (arith, h, e, eq_iff row.request_id k)

module _ (s0 : Store) (g : Setting) (request : SecurityRequest) (r0 : Run) where
  -- a run whose result is not stored yet, as the end of the block finds it
  abbrev pub Unstored : Run → Type 0
  Unstored r = Freed g s0 request.request_id r × Closing g s0 r0 r

  Closing-Steady : (r r' : Run) → Steady r r' → Closing g s0 r0 r → Closing g s0 r0 r'
  Closing-Steady r r' q c = record {
    state = ap (λ (m : Marks). m.state) q ∙ c.state;
    execution_id = ap (λ (m : Marks). m.execution_id) q ∙ c.execution_id;
    request_reserved = ap (λ (m : Marks). m.request_reserved) q ∙ c.request_reserved;
    leases = Leases-Steady g s0 request.request_id r r' q c.leases;
  }

  Unstored-Steady : (r r' : Run) → Steady r r' → Unstored r → Unstored r'
  Unstored-Steady r r' q (f, c) =
      (Freed-Steady g s0 request.request_id r r' q f, Closing-Steady r r' q c)

  put_ledger-Same : (i : String) (fs : Fields) (w : World) → Same w (on_store (put_ledger i fs) w).1
  unfolding put_ledger
  put_ledger-Same i fs w = record { leases = refl; requests = refl }

  tool_run_of-Same : (o : Option String) (w : World) → Same w (tool_run_of g o w).1
  unfolding tool_run_of new_id
  tool_run_of-Same o w = record { leases = ground arith; requests = ground arith }

  write_ledger-Unstored :
      (before : Run) (i : String) → Keeps Unstored (write_ledger g request before i)
  unfolding write_ledger
  write_ledger-Unstored before i =
      Keeps-bind Unstored (on_world (tool_run_of g before.tool_run_id)) _
        (Keeps-world Unstored Unstored-Steady (tool_run_of g before.tool_run_id)
          (tool_run_of-Same before.tool_run_id))
        λ tool_run_id.
          Keeps-bind Unstored (on_world (utcnow g.os)) _
            (Keeps-world Unstored Unstored-Steady (utcnow g.os) (utcnow-Same g.os))
            λ created_at.
              let fs = chain_dict g.os (chain_of g request before i tool_run_id created_at) in
              Keeps-then Unstored (on_world (on_store (put_ledger i fs))) _
                (Keeps-world Unstored Unstored-Steady (on_store (put_ledger i fs))
                  (put_ledger-Same i fs))
                (Keeps-obs Unstored Unstored-Steady g request "REPORT" "ledger chain recorded"
                  (field "execution_id" (str i) end))

  ledger_stage-Unstored :
      (r : Run)
      → Unstored r
      → ((ledger_stage g request r).0 ≡ ok tt) × Unstored (ledger_stage g request r).1
  unfolding ledger_stage
  ledger_stage-Unstored r u = elim (Option-cases (given r.execution_id)) [
    | inl e ↦ rw (e, ledger_stage) (refl, u)
    | inr (i, e) ↦ rw (e, ledger_stage) (refl, (write_ledger-Unstored r i).after r u)
  ]

  -- the run once its result has a row
  abbrev with_row : Run → Run
  with_row r = record r {
    world = record (r.world) {
      store = record (r.world.store) {
        requests = r.world.store.requests ++ result_of g request r ∷ [];
        request_reservations =
            delete_rows keyed request.request_id r.world.store.request_reservations;
      };
    };
  }

  put_result-row :
      (r : Run)
      → find_row result_key request.request_id r.world.store.requests ≡ none
      → ◌≡◌ {A = Result (Unit {0}) × Run}
          (on_world (on_store (put_result (result_of g request r))) r)
          (ok tt, with_row r)
  unfolding put_result result_of
  put_result-row r e =
      rw (insert_row-fresh request.request_id (result_of g request r) r.world.store.requests refl e)

  store_stage-row :
      (r : Run)
      → r.request_reserved ≡ true
      → find_row result_key request.request_id r.world.store.requests ≡ none
      → store_stage g request r ≡ (ok tt, with_row r)
  unfolding store_stage
  store_stage-row r taken e =
      ap
        (λ (b : Bool).
          if b then on_world (on_store (put_result (result_of g request r))) r else (ok tt, r))
        taken
      ∙ put_result-row r e

  store_stage-skips : (r : Run) → r.request_reserved ≡ false → store_stage g request r ≡ (ok tt, r)
  unfolding store_stage
  store_stage-skips r free =
      ap
        (λ (b : Bool).
          if b then on_world (on_store (put_result (result_of g request r))) r else (ok tt, r))
        free

  -- what is left to be said of the run once its result is stored
  abbrev pub Stored : Result (Unit {0}) × Run → Type 0
  Stored x = (x.0 ≡ ok tt) × Recorded g request x.1 × Closing g s0 r0 x.1

  row-Recorded :
      (r : Run)
      → find_row result_key request.request_id r.world.store.requests ≡ none
      → get_result request.request_id (with_row r).world.store
        ≡ some (result_of g request (with_row r))
  unfolding get_result result_of
  row-Recorded r e =
      find_row-last request.request_id (result_of g request r) r.world.store.requests refl e

  row_absent :
      (r : Run)
      → Freed g s0 request.request_id r
      → r.request_reserved ≡ true
      → find_row result_key request.request_id r.world.store.requests ≡ none
  unfolding get_result
  row_absent r f taken =
      subst (λ (rows : List ExecutionResult). find_row result_key request.request_id rows ≡ none)
        (sym f.requests) (f.fresh taken)

  store_stage-Stored : (r : Run) → Unstored r → Stored (store_stage g request r)
  store_stage-Stored r (f, c) = elim (Bool-cases r.request_reserved) [
    | inr free ↦
        subst Stored (sym (store_stage-skips r free))
          (refl, (λ h. absurd (ground (arith, free, h))), c)
    | inl taken ↦
        let absent = row_absent r f taken in
        subst Stored (sym (store_stage-row r taken absent)) (
          refl,
          (λ h. row-Recorded r absent),
          record {
            state = c.state;
            execution_id = c.execution_id;
            request_reserved = c.request_reserved;
            leases = λ l h. elim (c.leases l h) [
              | inl before ↦ inl before
              | inr u ↦
                  inr (record {
                    held = u.held;
                    refused = u.refused;
                    state = u.state;
                    error = u.error;
                  })
            ];
          },
        )
  ]

  -- the event FINISHED
  finished_event : Exec Run (Unit {0})
  finished_event r =
      audit_as g request "FINISHED"
        (elim r.error [ none ↦ "execution complete" | some code ↦ code ]) (outcome_value r.outcome)
        r

  finished_event-Unstored : Keeps Unstored finished_event
  unfolding finished_event
  finished_event-Unstored = record {
    after = λ r u.
        (Keeps-audit_as Unstored Unstored-Steady g request "FINISHED"
            (elim r.error [ none ↦ "execution complete" | some code ↦ code ])
            (outcome_value r.outcome)).after
          r u;
  }

  -- a database that refuses the event
  abbrev pub Refused : Result (Unit {0}) × Run → Type 0
  Refused x = (x.0 ≡ err (builtin integrity_error)) × Unstored x.1

  rest_of_block : Exec Run (Unit {0})
  rest_of_block =
      doing (λ (r : Run). record r { audit_event_ids = r.event_ids })
      >> (ledger_stage g request >> store_stage g request)

  rest_of_block-Stored : (r : Run) → Unstored r → Stored (rest_of_block r)
  unfolding rest_of_block ledger_stage get_result result_of
  rest_of_block-Stored r u =
      let r1 = record r { audit_event_ids = r.event_ids } in
      let (e, v) = ledger_stage-Unstored r1 (Unstored-Steady r r1 refl u) in
      rw e (store_stage-Stored (ledger_stage g request r1).1 v)

  pub persist_stage-ends :
      (r : Run)
      → Unstored r
      → Stored (persist_stage g request r) ⊎ Refused (persist_stage g request r)
  unfolding persist_stage finished_event rest_of_block
  persist_stage-ends r u =
      let u1 = finished_event-Unstored.after r u in
      elim (Result-cases (finished_event r).0) [
        | inl (_, e) ↦ inl (rw (e, ◌>>=◌) (rest_of_block-Stored (finished_event r).1 u1))
        | inr (x, e) ↦ inr (rw (e, ◌>>=◌) (ap err (audit_as-raises g request _ _ _ r e), u1))
      ]
