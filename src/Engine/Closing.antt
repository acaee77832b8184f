-- ===== src/Engine/Closing.antt =====
-- The `finally` block of NobleEngine.run (noble/engine.py), on a run that the handlers have left.
use mathlib.Core.Path.{subst}
use noble_cascade.Audit.{emit}
use noble_cascade.Engine.Finish.{lease_lost, release_stage, stamp_stage}
use noble_cascade.Engine.Leasing.{release_lease-rows}
use noble_cascade.Engine.Steps.{Run, Setting, audit_as}
use noble_cascade.Engine.Underway.{Marks, Steady, Tied}
use noble_cascade.Errors.{Raised, Result, builtin, err, integrity_error, ok}
use noble_cascade.Models.{SecurityRequest, failed}
use noble_cascade.Prelude.{
  Bool-cases, Has, Option, String, ap, arith, false, inl, inr, none, refl, some, sym, true, ◌∙◌,
  ◌≡◌, ◌⊎◌,
}
use noble_cascade.Store.{LeaseRow, Store, append_audit, get_result, release_lease}
use noble_cascade.World.{utcnow}

-- A lease of the run that the database has refused to delete: the run has failed, and its error says
-- so, unless it says that the last event could not be written either.
pub record Unreleased (g : Setting) (l : LeaseRow) (r : Run) : Type 0 where
  pub held : r.lease_id ≡ some l.lease_id
  pub refused : g.release_fails l.lease_id ≡ true
  pub state : r.state ≡ failed
  pub error : (r.error ≡ some "lease_cleanup_failed") ⊎ (r.error ≡ some "audit_failure")

-- the leases in the table were there when the run began, or are its own
abbrev pub Leases : Setting → Store → Run → Type 0
Leases g s0 r =
    (l : LeaseRow) → Has l r.world.store.active_leases → Has l s0.active_leases ⊎ Unreleased g l r

-- The lease is dealt with, and the result is not stored yet.
pub record Freed (g : Setting) (s0 : Store) (rid : String) (r : Run) : Type 0 where
  pub leases : Leases g s0 r
  pub requests : r.world.store.requests ≡ s0.requests
  pub fresh : r.request_reserved ≡ true → get_result rid s0 ≡ none

-- what the end of the block leaves as it was, and the leases that it leaves
pub record Closing (g : Setting) (s0 : Store) (r0 r : Run) : Type 0 where
  pub state : r.state ≡ r0.state
  pub execution_id : r.execution_id ≡ r0.execution_id
  pub request_reserved : r.request_reserved ≡ r0.request_reserved
  pub leases : Leases g s0 r

-- what giving back the lease leaves of the run
pub record Released (g : Setting) (s0 : Store) (rid : String) (r : Run)
    (x : Result (Unit {0}) × Run) : Type 0 where
  pub fine : x.0 ≡ ok tt
  pub freed : Freed g s0 rid x.1
  pub state : (x.1.state ≡ r.state) ⊎ (x.1.state ≡ failed)
  pub execution_id : x.1.execution_id ≡ r.execution_id

module _ (g : Setting) (s0 : Store) (rid : String) where
  pub Leases-Steady : (r r' : Run) → Steady r r' → Leases g s0 r → Leases g s0 r'
  Leases-Steady r r' q f l h = elim (f l (subst (Has l) (ap (λ (m : Marks). m.leases) q) h)) [
    | inl before ↦ inl before
    | inr u ↦ inr (record {
      held = ap (λ (m : Marks). m.lease_id) q ∙ u.held;
      refused = u.refused;
      state = ap (λ (m : Marks). m.state) q ∙ u.state;
      error = elim u.error [
        | inl e ↦ inl (ap (λ (m : Marks). m.error) q ∙ e)
        | inr e ↦ inr (ap (λ (m : Marks). m.error) q ∙ e)
      ];
    })
  ]

  pub Freed-Steady : (r r' : Run) → Steady r r' → Freed g s0 rid r → Freed g s0 rid r'
  Freed-Steady r r' q f = record {
    leases = Leases-Steady r r' q f.leases;
    requests = ap (λ (m : Marks). m.requests) q ∙ f.requests;
    fresh = λ h. f.fresh (sym (ap (λ (m : Marks). m.request_reserved) q) ∙ h);
  }

  -- the run without its lease in the table
  abbrev lease_gone : String → Run → Run
  lease_gone i r = record r {
    world = record (r.world) { store = (release_lease false i r.world.store).1 };
  }

  -- a lease that the database does not delete
  release_stage-lost :
      (i : String) (r : Run)
      → r.lease_id ≡ some i
      → g.release_fails i ≡ true
      → ◌≡◌ {A = Result (Unit {0}) × Run} (release_stage g r) (ok tt, lease_lost r)
  unfolding release_stage
  release_stage-lost i r held refused = ground (arith, held, refused)

  release_stage-gone :
      (i : String) (r : Run)
      → r.lease_id ≡ some i
      → g.release_fails i ≡ false
      → ◌≡◌ {A = Result (Unit {0}) × Run} (release_stage g r) (ok tt, lease_gone i r)
  unfolding release_stage
  release_stage-gone i r held fine = ground (arith, held, fine)

  release_refused :
      (i : String) (r : Run)
      → g.release_fails i ≡ true
      → Tied s0 rid (some i) r
      → Released g s0 rid r (ok tt, lease_lost r)
  release_refused i r refused t = record {
    fine = refl;
    freed = record {
      leases = λ l h. elim (t.leases l h) [
        | inl before ↦ inl before
        | inr own ↦ inr (record {
          held = t.held ∙ own;
          refused = grind (arith, own, refused);
          state = refl;
          error = inl refl;
        })
      ];
      requests = t.requests;
      fresh = t.fresh;
    };
    state = inr refl;
    execution_id = refl;
  }

  release_done :
      (i : String) (r : Run) → Tied s0 rid (some i) r → Released g s0 rid r (ok tt, lease_gone i r)
  unfolding release_lease
  release_done i r t = record {
    fine = refl;
    freed = record {
      leases = λ l h.
          let (there, other) = release_lease-rows i r.world.store l h in
          elim (t.leases l there) [ inl k ↦ inl k | inr e ↦ absurd (other (ground arith)) ];
      requests = t.requests;
      fresh = t.fresh;
    };
    state = inl refl;
    execution_id = refl;
  }

  -- the lease is given back
  pub release_stage-Released :
      (r : Run) (j : Option String) → Tied s0 rid j r → Released g s0 rid r (release_stage g r)
  unfolding release_stage
  release_stage-Released r none t = rw t.held (record {
    fine = refl;
    freed = record {
      leases = λ l h. elim (t.leases l h) [ inl k ↦ inl k | inr e ↦ absurd (ground arith) ];
      requests = t.requests;
      fresh = t.fresh;
    };
    state = inl refl;
    execution_id = refl;
  })
  release_stage-Released r (some i) t = elim (Bool-cases (g.release_fails i)) [
    | inl refused ↦
        subst (Released g s0 rid r) (sym (release_stage-lost i r t.held refused))
          (release_refused i r refused t)
    | inr fine ↦
        subst (Released g s0 rid r) (sym (release_stage-gone i r t.held fine)) (release_done i r t)
  ]

  pub stamp_stage-Freed :
      (r : Run)
      → Freed g s0 rid r
      → ((stamp_stage g r).0 ≡ ok tt)
        × Freed g s0 rid (stamp_stage g r).1
        × Closing g s0 r (stamp_stage g r).1
  unfolding stamp_stage utcnow
  stamp_stage-Freed r f =
      let freed = Freed-Steady r (stamp_stage g r).1 refl f in
      (
        refl,
        freed,
        record {
          state = refl;
          execution_id = refl;
          request_reserved = refl;
          leases = freed.leases;
        },
      )

-- an audit event that is not written is a refused row
pub audit_as-raises :
    (g : Setting) (request : SecurityRequest) (d m o : String) (r : Run) {e : Raised}
    → (audit_as g request d m o r).0 ≡ err e
    → e ≡ builtin integrity_error
unfolding audit_as emit append_audit
audit_as-raises g request d m o r h = ground arith
