-- ===== src/Risk.antt =====
-- noble/risk.py: the score and the tier of a request, and the floor that noble/engine.py raises them
-- to. `assessed_at`, a reading of the clock, is left out of the assessment.
pub mod Score
pub mod Floor
use noble_cascade.Models.{
  Factor, RiskAssessment, RiskTier, SecurityRequest, Target, critical, get_key, high, is_true, low,
  medium, rank, tier_value,
}
use noble_cascade.Prelude.{
  Bool, List, String, [], concat, contains, false, if◌then◌else◌, leb, ltb, max, min, true, ℕ, ◌++◌,
  ◌+◌, ◌==◌, ◌||◌, ◌∷◌,
}

unfoldable pub low_actions : List String
low_actions = "static-analysis" ∷ "dependency-audit" ∷ "secret-scanning" ∷ "reconnaissance" ∷ []

unfoldable pub medium_actions : List String
medium_actions = "local-unit-test-verification" ∷ "non-destructive-fuzzing" ∷ []

unfoldable pub high_actions : List String
high_actions =
    "poc-execution" ∷ "active-fuzzing" ∷ "credential-testing" ∷ "exploit-verification" ∷ []

unfoldable pub critical_actions : List String
critical_actions =
    "production-modification" ∷ "data-exfiltration" ∷ "denial-of-service"
    ∷ "destructive-database-drop" ∷ []

-- the first `if` of `assess`
unfoldable pub base_score : String → ℕ
base_score action =
    if contains low_actions action
    then 10
    else if contains medium_actions action
    then 35
    else if contains high_actions action
    then 70
    else 95

unfoldable pub is_exposed : Target → Bool
is_exposed target = target.environment == "production" || target.environment == "internet-facing"

unfoldable pub wants_network : SecurityRequest → Bool
wants_network request = is_true (get_key request.parameters "network")

unfoldable pub wants_write : SecurityRequest → Bool
wants_write request = is_true (get_key request.parameters "write")

abbrev when {ℓ} : {A : Type ℓ} → Bool → A → List A
when true a = a ∷ []
when false a = []

-- the score before the cap
unfoldable pub raw_score : SecurityRequest → Target → ℕ
raw_score request target =
    let s = base_score request.action in
    let s = if is_exposed target then s + 35 else s in
    let s = if wants_network request then s + 25 else s in
    let s = if wants_write request then s + 20 else s in
    if contains critical_actions request.action then 100 else s

unfoldable pub factors_of : SecurityRequest → Target → List (String × Factor)
factors_of request target =
    ("action", Factor.text request.action)
      ∷ when (is_exposed target) ("environment", Factor.text target.environment)
    ++ when (wants_network request) ("network_exposure", Factor.flag true)
    ++ when (wants_write request) ("side_effects", Factor.text "write")
    ++ when (contains critical_actions request.action) ("destructive", Factor.flag true)

unfoldable pub tier_of : ℕ → RiskTier
tier_of score =
    if leb 90 score
    then critical
    else if leb 60 score
    then high
    else if leb 30 score
    then medium
    else low

-- RiskEngine.assess
unfoldable pub assess : SecurityRequest → Target → RiskAssessment
unfolding tier_of
assess request target =
    let score = min (raw_score request target) 100 in
    record {
      action = request.action;
      tier = tier_of score;
      score = score;
      factors = factors_of request target;
      rationale =
          concat (tier_value (tier_of score))
            ": action, environment, network and side effects evaluated";
    }

-- the floor of NobleEngine.run: the tier of the registered tool
unfoldable pub raise_to_floor : RiskTier → RiskAssessment → RiskAssessment
raise_to_floor floor risk =
    if ltb (rank risk.tier) (rank floor)
    then record risk {
      tier = floor;
      score = max risk.score (elim floor [ high ↦ 70 | _ ↦ 35 ]);
      rationale = concat risk.rationale "; raised to registered tool risk floor";
    }
    else risk
