-- ===== src/Engine/Underway.antt =====
-- The state of a run of noble/engine.py between its first line and its last transition, and the steps
-- that leave it alone.
use mathlib.Core.Path.{subst}
use noble_cascade.Audit.{Entry, emit}
use noble_cascade.Engine.Gates.{check_none}
use noble_cascade.Engine.Steps.{
  Run, Setting, audit_as, doing, enter, note, obs, on_world, run_entry,
}
use noble_cascade.Errors.{Exec, Raised, Result-cases}
use noble_cascade.Errors.Keeps.{Keeps}
use noble_cascade.Models.{
  ExecutionResult, ExecutionState, Fields, Outcome, SecurityRequest, state_value,
}
use noble_cascade.Platform.{Platform}
use noble_cascade.Prelude.{
  Bool, Has, List, Option, String, [], ap, arith, false, inl, inr, none, refl, some, sym, true,
  ◌++◌, ◌∙◌, ◌∷◌, ◌≡◌, ◌⊎◌,
}
use noble_cascade.StateMachine.{is_terminal, validate_transition}
use noble_cascade.Store.{LeaseRow, Store, append_audit, get_result, put_observability}
use noble_cascade.World.{World}

-- What a step may not change while the run waits for the next: the run's own marks, the leases and
-- the results.
pub record Marks : Type 0 where
  pub state : ExecutionState
  pub lease_id : Option String
  pub execution_id : Option String
  pub error : Option String
  pub request_reserved : Bool
  pub leases : List LeaseRow
  pub requests : List ExecutionResult

abbrev pub marks : Run → Marks
marks r = record {
  state = r.state;
  lease_id = r.lease_id;
  execution_id = r.execution_id;
  error = r.error;
  request_reserved = r.request_reserved;
  leases = r.world.store.active_leases;
  requests = r.world.store.requests;
}

abbrev pub Steady : Run → Run → Type 0
Steady r r' = marks r' ≡ marks r

-- The run that started with the database `s0` holds the lease `j`, or none yet; every other lease in
-- the table was there before, and the results too.
pub record Tied (s0 : Store) (rid : String) (j : Option String) (r : Run) : Type 0 where
  pub held : r.lease_id ≡ j
  pub leases :
      (l : LeaseRow)
      → Has l r.world.store.active_leases
      → Has l s0.active_leases ⊎ (j ≡ some l.lease_id)
  pub requests : r.world.store.requests ≡ s0.requests
  pub fresh : r.request_reserved ≡ true → get_result rid s0 ≡ none
  pub execution : j ≡ none → r.execution_id ≡ none

-- ... and it has not ended.
pub record Underway (s0 : Store) (rid : String) (j : Option String) (r : Run) : Type 0 where
  pub live : is_terminal r.state ≡ false
  pub tied : Tied s0 rid j r

-- the run after `enter`, if the transition is accepted
abbrev pub moved : ExecutionState → Run → Run
moved s r = record r { state = s; states = r.states ++ state_value s ∷ [] }

module _ (s0 : Store) (rid : String) (j : Option String) where
  pub Tied-moved : (s : ExecutionState) (r : Run) → Tied s0 rid j r → Tied s0 rid j (moved s r)
  Tied-moved s r t = record {
    held = t.held;
    leases = t.leases;
    requests = t.requests;
    fresh = t.fresh;
    execution = t.execution;
  }

  -- a handler has set the error and the outcome
  pub Underway-failing :
      (error : Option String) (outcome : Outcome) (r : Run)
      → Underway s0 rid j r
      → Underway s0 rid j (record r { error = error; outcome = outcome })
  Underway-failing error outcome r u = record {
    live = u.live;
    tied = record {
      held = u.tied.held;
      leases = u.tied.leases;
      requests = u.tied.requests;
      fresh = u.tied.fresh;
      execution = u.tied.execution;
    };
  }

  pub Tied-Steady : (r r' : Run) → Steady r r' → Tied s0 rid j r → Tied s0 rid j r'
  Tied-Steady r r' q t = record {
    held = ap (λ (m : Marks). m.lease_id) q ∙ t.held;
    leases = λ l h. t.leases l (subst (Has l) (ap (λ (m : Marks). m.leases) q) h);
    requests = ap (λ (m : Marks). m.requests) q ∙ t.requests;
    fresh = λ h. t.fresh (sym (ap (λ (m : Marks). m.request_reserved) q) ∙ h);
    execution = λ h. ap (λ (m : Marks). m.execution_id) q ∙ t.execution h;
  }

  pub Underway-Steady : (r r' : Run) → Steady r r' → Underway s0 rid j r → Underway s0 rid j r'
  Underway-Steady r r' q u = record {
    live = ap (λ (m : Marks). is_terminal m.state) q ∙ u.live;
    tied = Tied-Steady r r' q u.tied;
  }

-- The database of a call that leaves the leases and the results alone.
pub record Same (w w' : World) : Type 0 where
  pub leases : w'.store.active_leases ≡ w.store.active_leases
  pub requests : w'.store.requests ≡ w.store.requests

pub Same-refl : (w : World) → Same w w
Same-refl w = record { leases = refl; requests = refl }

pub Same-trans : (u v w : World) → Same u v → Same v w → Same u w
Same-trans u v w p q = record { leases = q.leases ∙ p.leases; requests = q.requests ∙ p.requests }

pub obs-Steady :
    (g : Setting) (request : SecurityRequest) (c m : String) (fs : Fields) (r : Run)
    → Steady r (obs g request c m fs r)
unfolding obs put_observability
obs-Steady g request c m fs r = refl

pub world-Steady : (r : Run) (w : World) → Same r.world w → Steady r (record r { world = w })
world-Steady r w q = ground arith

logged-Steady :
    (r : Run) (w : World) (ids : List String)
    → Same r.world w
    → Steady r (record r { world = w; event_ids = ids })
logged-Steady r w ids q = ground arith

pub emit-Same : (os : Platform) (e : Entry) (w : World) → Same w (emit os e w).1
unfolding emit append_audit
emit-Same os e w = record { leases = ground arith; requests = ground arith }

-- the rules for the steps of a run, over a property that steady steps keep
module _ (P : Run → Type 0) (steady : (r r' : Run) → Steady r r' → P r → P r') where
  pub Keeps-doing : (f : Run → Run) → ((r : Run) → Steady r (f r)) → Keeps P (doing f)
  Keeps-doing f q = record { after = λ r h. steady r (f r) (q r) h }

  pub Keeps-obs :
      (g : Setting) (request : SecurityRequest) (c m : String) (fs : Fields)
      → Keeps P (doing (obs g request c m fs))
  Keeps-obs g request c m fs = Keeps-doing (obs g request c m fs) (obs-Steady g request c m fs)

  pub Keeps-world :
      {A : Type 0} (m : Exec World A) → ((w : World) → Same w (m w).1) → Keeps P (on_world m)
  Keeps-world m q = record {
    after = λ r h. steady r _ (world-Steady r (m r.world).1 (q r.world)) h;
  }

  pub Keeps-check_none : (o : Option Raised) → Keeps P (check_none o)
  Keeps-check_none none = record { after = λ r h. h }
  Keeps-check_none (some e) = record { after = λ r h. h }

  pub Keeps-audit_as :
      (g : Setting) (request : SecurityRequest) (d m o : String)
      → Keeps P (audit_as g request d m o)
  unfolding audit_as obs put_observability
  Keeps-audit_as g request d m o = record {
    after = λ r h.
        let entry = run_entry g request d m o r in
        let same = emit-Same g.os entry r.world in
        elim (Result-cases (emit g.os entry r.world).0) [
          | inl (event, e) ↦
              let logged = record r {
                world = (emit g.os entry r.world).1;
                event_ids = r.event_ids ++ event.event_id ∷ [];
              } in
              let written =
                steady r logged
                  (logged-Steady r (emit g.os entry r.world).1 (r.event_ids ++ event.event_id ∷ [])
                    same)
                  h in
              rw (e, audit_as) (steady logged _ refl written)
          | inr (x, e) ↦ rw (e, audit_as) (steady r _ (world-Steady r _ same) h)
        ];
  }

  pub Keeps-note :
      (g : Setting) (request : SecurityRequest) (d m : String) → Keeps P (note g request d m)
  unfolding note
  Keeps-note g request d m = Keeps-audit_as g request d m "pending"

  pub Keeps-enter :
      (g : Setting) (request : SecurityRequest) (s : ExecutionState)
      → ((r : Run) → P r → P (moved s r))
      → Keeps P (enter g request s)
  unfolding enter obs put_observability
  Keeps-enter g request s into = record {
    after = λ r h. elim (Result-cases (validate_transition r.state s)) [
      | inl (_, e) ↦ rw (e, enter) (steady (moved s r) _ refl (into r h))
      | inr (x, e) ↦ rw (e, enter) h
    ];
  }
