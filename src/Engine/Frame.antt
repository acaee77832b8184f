-- ===== src/Engine/Frame.antt =====
-- Lemmas on the gates of NobleEngine.run (noble/engine.py) as steps on its state.
use mathlib.Core.Path.{subst}
use noble_cascade.Audit.{emit}
use noble_cascade.Audit.Appends.{emit-appends, emit_reads}
use noble_cascade.Engine.Steps.{
  Run, Setting, audit_as, doing, enter, note, obs, on_world, run_entry,
}
use noble_cascade.Errors.{Exec, Result, Result-cases, call_cases, err, is_ok, ok, pure, ◌>>=◌, ◌>>◌}
use noble_cascade.Models.{ExecutionState, Fields, SecurityRequest}
use noble_cascade.Prelude.{String, ap, arith, inl, inr, refl, sym, ℕ, ◌<◌, ◌∙◌, ◌≡◌, ◌≤◌}
use noble_cascade.StateMachine.{validate_transition}
use noble_cascade.Store.{put_observability}
use noble_cascade.World.{World}

-- Only the log, the reservations and the events may have changed, and the clock may have been read.
pub record Frame (r r' : Run) : Type 0 where
  pub grants : r'.world.store.grants ≡ r.world.store.grants
  pub approvals : r'.world.store.approvals ≡ r.world.store.approvals
  pub readings : r.world.readings ≤ r'.world.readings

-- The moment is a reading of the clock that was made between the two runs.
pub record Read (g : Setting) (r r' : Run) (moment : ℕ) : Type 0 where
  pub reading : ℕ
  pub after : r.world.readings ≤ reading
  pub before : reading < r'.world.readings
  pub same : moment ≡ g.os.clock reading

pub Read-wider :
    (g : Setting) {a b c d : Run} (moment : ℕ)
    → a.world.readings ≤ b.world.readings
    → c.world.readings ≤ d.world.readings
    → Read g b c moment
    → Read g a d moment
Read-wider g moment p q h = record {
  reading = h.reading;
  after = omega (arith, p, h.after);
  before = omega (arith, q, h.before);
  same = h.same;
}

pub Frame-refl : (r : Run) → Frame r r
Frame-refl r = record { grants = refl; approvals = refl; readings = omega arith }

pub Frame-trans : {a b c : Run} → Frame a b → Frame b c → Frame a c
Frame-trans p q = record {
  grants = q.grants ∙ p.grants;
  approvals = q.approvals ∙ p.approvals;
  readings = omega (arith, p.readings, q.readings);
}

bind_ok {ℓ} :
    {S A B : Type ℓ} (x : Result A × S) (f : A → Exec S B) (s' : S) (b : B)
    → (let (r, t) = x in elim r [ ok a ↦ f a t | err e ↦ (err e, t) ]) ≡ (ok b, s')
    → (a : A) × (t : S) × (x ≡ (ok a, t)) × (f a t ≡ (ok b, s'))
bind_ok (ok a, t) f s' b h = (a, t, refl, h)
bind_ok (err e, t) f s' b h = absurd (ground arith)

-- the last step of a chain
pub then_ok {ℓ} :
    {S A B : Type ℓ} (m : Exec S A) (f : A → Exec S B) (s s' : S) (b : B)
    → (m >>= f) s ≡ (ok b, s')
    → (a : A) × (t : S) × (m s ≡ (ok a, t)) × (f a t ≡ (ok b, s'))
then_ok m f s s' b h = bind_ok (m s) f s' b h

pub obs-Frame :
    (g : Setting) (request : SecurityRequest) (c m : String) (fs : Fields) (r : Run)
    → Frame r (obs g request c m fs r)
unfolding obs put_observability
obs-Frame g request c m fs r = record { grants = refl; approvals = refl; readings = omega arith }

pub enter-Frame :
    (g : Setting) (request : SecurityRequest) (s : ExecutionState) (r r' : Run)
    → enter g request s r ≡ (ok tt, r')
    → Frame r r'
unfolding enter obs put_observability
enter-Frame g request s r r' h = elim (Result-cases (validate_transition r.state s)) [
  | inr (e, p) ↦
      let shape = rw (enter, p) at h in
      absurd (ground (arith, ap (λ (x : Result (Unit {0}) × Run). is_ok x.0) shape))
  | inl (_, p) ↦
      let shape = rw (enter, p) at h in
      record {
        grants = sym (ap (λ (x : Result (Unit {0}) × Run). x.1.world.store.grants) shape);
        approvals = sym (ap (λ (x : Result (Unit {0}) × Run). x.1.world.store.approvals) shape);
        readings = omega (arith, ap (λ (x : Result (Unit {0}) × Run). x.1.world.readings) shape);
      }
]

pub note-Frame :
    (g : Setting) (request : SecurityRequest) (d m : String) (r r' : Run)
    → note g request d m r ≡ (ok tt, r')
    → Frame r r'
unfolding note audit_as obs put_observability
note-Frame g request d m r r' h =
    elim (call_cases (emit g.os (run_entry g request d m "pending" r) r.world)) [
      | inr (e, u, p) ↦ absurd (ground arith)
      | inl (event, u, p) ↦
          let (row, _, logged) =
            emit-appends g.os (run_entry g request d m "pending" r) r.world u p in
          let later = emit_reads g.os (run_entry g request d m "pending" r) r.world u p in
          record {
            grants = ground arith;
            approvals = ground arith;
            readings = ground (arith, later);
          }
    ]

-- a call of a component that returns
pub on_world_ok :
    {A : Type 0} (m : Exec World A) (r r' : Run) (a : A)
    → on_world m r ≡ (ok a, r')
    → m r.world ≡ (ok a, r'.world)
on_world_ok m r r' a h = ap (λ (x : Result _ × Run). (x.0, x.1.world)) h

-- the end of a chain: an event is recorded and a value returned
pub end_ok :
    {A : Type 0} (g : Setting) (request : SecurityRequest) (c m : String) (fs : Fields) (r r' : Run)
    (a b : A)
    → (doing (obs g request c m fs) >> pure a) r ≡ (ok b, r')
    → (a ≡ b) × Frame r r'
end_ok g request c m fs r r' a b h =
    let same : obs g request c m fs r ≡ r' = ap (λ (x : Result _ × Run). x.1) h in
    (ground arith, subst (Frame r) same (obs-Frame g request c m fs r))
