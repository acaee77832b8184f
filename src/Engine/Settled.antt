-- ===== src/Engine/Settled.antt =====
-- The `finally` block of NobleEngine.run (noble/engine.py), as a whole.
use noble_cascade.Engine.Closing.{Leases, release_stage-Released, stamp_stage-Freed}
use noble_cascade.Engine.Finish.{
  finally_stage, is_persistence, persist_or_fail, release_stage, stamp_stage,
}
use noble_cascade.Engine.Recorded.{Recorded, Unstored, persist_stage-ends}
use noble_cascade.Engine.Steps.{Run, Setting}
use noble_cascade.Engine.Underway.{Tied}
use noble_cascade.Errors.{Result, ok, ◌>>=◌, ◌>>◌}
use noble_cascade.Models.{ExecutionState, SecurityRequest, failed}
use noble_cascade.Prelude.{Option, String, inl, inr, refl, some, ◌∙◌, ◌≡◌, ◌⊎◌}
use noble_cascade.Store.{Store}

module _ (g : Setting) (request : SecurityRequest) where
  -- what the `finally` block makes of the run `r0` that it finds
  pub record Settled (s0 : Store) (r0 : Run) (x : Result (Unit {0}) × Run) : Type 0 where
    pub fine : x.0 ≡ ok tt
    pub leases : Leases g s0 x.1
    pub execution_id : x.1.execution_id ≡ r0.execution_id
    pub ended :
        (((x.1.state ≡ r0.state) ⊎ (x.1.state ≡ failed)) × Recorded g request x.1)
        ⊎ ((x.1.state ≡ failed) × (x.1.error ≡ some "audit_failure"))

  module _ (s0 : Store) (r0 : Run) where
    persist_or_fail-Settled :
        (r : Run) → Unstored s0 g request r0 r → Settled s0 r0 (persist_or_fail g request r)
    unfolding is_persistence persist_or_fail
    persist_or_fail-Settled r u = elim (persist_stage-ends s0 g request r0 r u) [
      | inl (e, recorded, c) ↦
          rw (e, persist_or_fail)
            (record {
              fine = refl;
              leases = c.leases;
              execution_id = c.execution_id;
              ended = inl (inl c.state, recorded);
            })
      | inr (e, (f, c)) ↦
          rw (e, persist_or_fail)
            (record {
              fine = refl;
              leases = λ l h. elim (c.leases l h) [
                | inl before ↦ inl before
                | inr u ↦
                    inr (record {
                      held = u.held;
                      refused = u.refused;
                      state = refl;
                      error = inr refl;
                    })
              ];
              execution_id = c.execution_id;
              ended = inr (refl, refl);
            })
    ]

  -- the state of a run that may have failed twice
  later_state :
      {s t u : ExecutionState}
      → (u ≡ t) ⊎ (u ≡ failed)
      → (t ≡ s) ⊎ (t ≡ failed)
      → (u ≡ s) ⊎ (u ≡ failed)
  later_state (inr e) _ = inr e
  later_state (inl e) (inl k) = inl (e ∙ k)
  later_state (inl e) (inr k) = inr (e ∙ k)

  module _ (s0 : Store) (r0 : Run) where
    pub finally_stage-Settled :
        (j : Option String)
        → Tied s0 request.request_id j r0
        → Settled s0 r0 (finally_stage g request r0)
    unfolding finally_stage stamp_stage
    finally_stage-Settled j t =
        let r1 = (release_stage g r0).1 in
        let given_back = release_stage-Released g s0 request.request_id r0 j t in
        let (e2, f2, c) = stamp_stage-Freed g s0 request.request_id r1 given_back.freed in
        let done = persist_or_fail-Settled s0 r1 (stamp_stage g r1).1 (f2, c) in
        rw (given_back.fine, ◌>>=◌, ◌>>◌)
          (record {
            fine = done.fine;
            leases = done.leases;
            execution_id = done.execution_id ∙ given_back.execution_id;
            ended = elim done.ended [
              | inl (e, w) ↦ inl (later_state e given_back.state, w)
              | inr w ↦ inr w
            ];
          })
