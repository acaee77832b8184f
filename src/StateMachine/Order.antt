-- ===== src/StateMachine/Order.antt =====
-- Lemmas on the sequences of transitions that noble/state_machine.py accepts.
use mathlib.Core.Path.{subst}
use noble_cascade.Errors.{is_ok, ok}
use noble_cascade.Models.{
  ExecutionState, approved, authorization_check, collecting_evidence, completed, created,
  dispatched, executing, planned, reporting, risk_assessment, running, scope_check, validating,
  validating_result, waiting_for_approval,
}
use noble_cascade.Prelude.{
  Bool, Bool-cases, List, [], all, ap, arith, eqb, false, if◌then◌else◌, inl, inr, length, not,
  refl, sym, true, ℕ, ◌++◌, ◌+◌, ◌||◌, ◌∙◌, ◌∷◌, ◌≡◌, ◌≢◌, ◌≤◌,
}
use noble_cascade.StateMachine.{
  can_transition, follow, is_terminal, transition, validate_transition,
}
use noble_cascade.StateMachine.Every.{all_states, every_state}
use noble_cascade.StateMachine.Table.{height, height-transition, transition-terminal}

-- The checks that stand before the run of a tool, in the order of NobleEngine.run.
abbrev pub gates : List ExecutionState
gates =
    validating ∷ scope_check ∷ authorization_check ∷ risk_assessment ∷ waiting_for_approval
    ∷ approved ∷ []

-- The tool has been started, or is about to be.
abbrev pub is_past_approval : ExecutionState → Bool
is_past_approval planned = true
is_past_approval dispatched = true
is_past_approval running = true
is_past_approval executing = true
is_past_approval collecting_evidence = true
is_past_approval validating_result = true
is_past_approval reporting = true
is_past_approval _ = false

follow-cons :
    (s t : ExecutionState) (ts : List ExecutionState) {u : ExecutionState}
    → follow s (t ∷ ts) ≡ ok u
    → (is_ok (transition s t) ≡ true) × (follow t ts ≡ ok u)
unfolding follow transition
follow-cons s t ts h = ground arith

-- An accepted sequence of transitions has at most 13 of them, and fewer the later it starts.
pub follow_bounded :
    (s : ExecutionState) (ts : List ExecutionState) {u : ExecutionState}
    → follow s ts ≡ ok u
    → length ts + height u ≤ height s
follow_bounded s [] h = unfold follow in ground arith
follow_bounded s (t ∷ ts) h =
    let (first, later) = follow-cons s t ts h in
    omega (arith, height-transition s t first, follow_bounded t ts later)

-- After a terminal state no transition at all is accepted.
pub follow-terminal :
    (s : ExecutionState) (ts : List ExecutionState) {u : ExecutionState}
    → is_terminal s ≡ true
    → follow s ts ≡ ok u
    → (ts ≡ []) × (u ≡ s)
unfolding follow
follow-terminal s [] e h = ground arith
follow-terminal s (t ∷ ts) e h = ground (arith, transition-terminal s t e)

abbrev is_gate : ExecutionState → Bool
is_gate created = true
is_gate validating = true
is_gate scope_check = true
is_gate authorization_check = true
is_gate risk_assessment = true
is_gate waiting_for_approval = true
is_gate _ = false

abbrev next_gate : ExecutionState → ExecutionState
next_gate created = validating
next_gate validating = scope_check
next_gate scope_check = authorization_check
next_gate authorization_check = risk_assessment
next_gate risk_assessment = waiting_for_approval
next_gate s = approved

abbrev one_way : ExecutionState → ExecutionState → Bool
one_way s t =
    not (is_gate s)
    || not (is_ok (transition s t))
    || is_terminal t
    || eqb (height t) (height (next_gate s))

one_way_table : all (λ s. all (λ t. one_way s t) all_states) all_states ≡ true
unfolding transition validate_transition all
one_way_table = refl

-- the inverse of `height` where it has one
abbrev at_height : ℕ → ExecutionState
at_height n =
    if eqb n 12
    then validating
    else if eqb n 11
    then scope_check
    else if eqb n 10
    then authorization_check
    else if eqb n 9
    then risk_assessment
    else if eqb n 8
    then waiting_for_approval
    else approved

at_height-height : (t : ExecutionState) → 7 ≤ height t → height t ≤ 12 → at_height (height t) ≡ t
at_height-height created l h = absurd (omega arith)
at_height-height _ l h = ground arith

next_gate-height : (s : ExecutionState) → (7 ≤ height (next_gate s)) × (height (next_gate s) ≤ 12)
next_gate-height created = omega arith
next_gate-height _ = omega arith

gate_step :
    (s t : ExecutionState)
    → is_gate s ≡ true
    → is_ok (transition s t) ≡ true
    → is_terminal t ≡ false
    → t ≡ next_gate s
gate_step s t g h e =
    let way =
      every_state (λ u. one_way s u)
        (every_state (λ v. all (λ u. one_way v u) all_states) one_way_table s) t in
    let same : height t ≡ height (next_gate s) = ground arith in
    let (l, h) = next_gate-height s in
    sym (at_height-height t (omega arith) (omega arith))
    ∙ ap at_height same
    ∙ at_height-height (next_gate s) l h

past-not-terminal : (u : ExecutionState) → is_past_approval u ≡ true → is_terminal u ≡ false
unfolding is_terminal
past-not-terminal created h = refl
past-not-terminal _ h = ground arith

-- One gate: a sequence that gets past the approval goes on to the next gate.
through_gate :
    (s : ExecutionState) (ts : List ExecutionState) {u : ExecutionState}
    → is_gate s ≡ true
    → is_past_approval s ≡ false
    → is_past_approval u ≡ true
    → follow s ts ≡ ok u
    → (rest : List ExecutionState) × (ts ≡ next_gate s ∷ rest) × (follow (next_gate s) rest ≡ ok u)
through_gate s [] g n p h = absurd (unfold follow in ground arith)
through_gate s (t ∷ ts) {u} g n p h =
    let (first, later) = follow-cons s t ts h in
    elim (Bool-cases (is_terminal t)) [
      | inl e ↦
          absurd (cc (ap is_terminal (follow-terminal t ts e later).1, past-not-terminal u p, e))
      | inr e ↦
          let same = gate_step s t g first e in
          (ts, ap (λ x. x ∷ ts) same, subst (λ x. follow x ts ≡ ok u) same later)
    ]

-- Every accepted sequence of transitions from CREATED that gets to the run of a tool begins with the
-- six gates, in order.
pub execution_needs_gates :
    (ts : List ExecutionState) {u : ExecutionState}
    → follow created ts ≡ ok u
    → is_past_approval u ≡ true
    → (rest : List ExecutionState) × (ts ≡ gates ++ rest)
execution_needs_gates ts h p =
    let (r1, e1, h1) = through_gate created ts refl refl p h in
    let (r2, e2, h2) = through_gate validating r1 refl refl p h1 in
    let (r3, e3, h3) = through_gate scope_check r2 refl refl p h2 in
    let (r4, e4, h4) = through_gate authorization_check r3 refl refl p h3 in
    let (r5, e5, h5) = through_gate risk_assessment r4 refl refl p h4 in
    let (r6, e6, h6) = through_gate waiting_for_approval r5 refl refl p h5 in (r6, cc)

-- COMPLETED is accepted from every state that is not terminal, although the table of transitions
-- lets only VALIDATING_RESULT and REPORTING complete.
pub completed_from_anywhere :
    (s : ExecutionState)
    → is_terminal s ≡ false
    → s ≢ validating_result
    → s ≢ reporting
    → (transition s completed ≡ ok completed) × (can_transition s completed ≡ false)
unfolding transition validate_transition
completed_from_anywhere created e v r = (refl, refl)
completed_from_anywhere validating_result e v r = absurd (v refl)
completed_from_anywhere reporting e v r = absurd (r refl)
completed_from_anywhere _ e v r = ground arith
