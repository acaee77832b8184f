-- ===== src/StateMachine/Every.antt =====
-- Tests of every state, made by evaluation.
use noble_cascade.Models.{
  ExecutionState, approved, authorization_check, blocked, cancelled, collecting_evidence, completed,
  created, dispatched, executing, failed, planned, reporting, risk_assessment, running, scope_check,
  timed_out, validating, validating_result, waiting_for_approval,
}
use noble_cascade.Prelude.{Bool, List, [], all, arith, inl, inr, refl, true, ◌∷◌, ◌≡◌, ◌⊎◌}

abbrev pub In : ExecutionState → List ExecutionState → Type 0
In s [] = ⊥
In s (x ∷ xs) = (s ≡ x) ⊎ In s xs

pub at_member :
    (p : ExecutionState → Bool) (s : ExecutionState) (xs : List ExecutionState)
    → all p xs ≡ true
    → In s xs
    → p s ≡ true
unfolding all
at_member p s [] h m = absurd m
at_member p s (x ∷ xs) h (inl e) = ground arith
at_member p s (x ∷ xs) h (inr m) = at_member p s xs (ground arith) m

abbrev pub all_states : List ExecutionState
all_states =
    created ∷ validating ∷ scope_check ∷ authorization_check ∷ risk_assessment
    ∷ waiting_for_approval ∷ approved ∷ planned ∷ dispatched ∷ running ∷ executing
    ∷ collecting_evidence ∷ validating_result ∷ reporting ∷ completed ∷ blocked ∷ failed ∷ timed_out
    ∷ cancelled ∷ []

listed : (s : ExecutionState) → In s all_states
listed created = inl refl
listed validating = inr (inl refl)
listed scope_check = inr (inr (inl refl))
listed authorization_check = inr (inr (inr (inl refl)))
listed risk_assessment = inr (inr (inr (inr (inl refl))))
listed waiting_for_approval = inr (inr (inr (inr (inr (inl refl)))))
listed approved = inr (inr (inr (inr (inr (inr (inl refl))))))
listed planned = inr (inr (inr (inr (inr (inr (inr (inl refl)))))))
listed dispatched = inr (inr (inr (inr (inr (inr (inr (inr (inl refl))))))))
listed running = inr (inr (inr (inr (inr (inr (inr (inr (inr (inl refl)))))))))
listed executing = inr (inr (inr (inr (inr (inr (inr (inr (inr (inr (inl refl))))))))))
listed collecting_evidence =
    inr (inr (inr (inr (inr (inr (inr (inr (inr (inr (inr (inl refl)))))))))))
listed validating_result =
    inr (inr (inr (inr (inr (inr (inr (inr (inr (inr (inr (inr (inl refl))))))))))))
listed reporting =
    inr (inr (inr (inr (inr (inr (inr (inr (inr (inr (inr (inr (inr (inl refl)))))))))))))
listed completed =
    inr (inr (inr (inr (inr (inr (inr (inr (inr (inr (inr (inr (inr (inr (inl refl))))))))))))))
listed blocked =
    inr
      (inr (inr (inr (inr (inr (inr (inr (inr (inr (inr (inr (inr (inr (inr (inl refl)))))))))))))))
listed failed = inr (
    inr (
      inr (inr (inr (inr (inr (inr (inr (inr (inr (inr (inr (inr (inr (inr (inl refl))))))))))))))))
listed timed_out = inr (
    inr (
      inr (
        inr (
          inr (inr (inr (inr (inr (inr (inr (inr (inr (inr (inr (inr (inr (inl refl)))))))))))))))))
listed cancelled = inr (
    inr (
      inr (
        inr (
          inr (
            inr (
              inr (inr (inr (inr (inr (inr (inr (inr (inr (inr (inr (inr (inl refl))))))))))))))))))

pub every_state :
    (p : ExecutionState → Bool) → all p all_states ≡ true → (s : ExecutionState) → p s ≡ true
every_state p h s = at_member p s all_states h (listed s)
