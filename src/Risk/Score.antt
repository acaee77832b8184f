-- ===== src/Risk/Score.antt =====
-- How the score and the tier answer to the request.
use noble_cascade.Models.{SecurityRequest, Target, critical, low, medium, rank, requires_approval}
use noble_cascade.Prelude.{arith, contains, false, min, refl, true, ℕ, ◌↔◌, ◌≡◌, ◌≢◌, ◌≤◌}
use noble_cascade.Risk.{
  assess, base_score, critical_actions, is_exposed, low_actions, medium_actions, raw_score, tier_of,
  wants_network, wants_write,
}

-- The score is at most 100, and the tier is the one whose range it lies in.
pub assess_range :
    (request : SecurityRequest) (target : Target)
    → let risk = assess request target in (risk.score ≤ 100) × (risk.tier ≡ tier_of risk.score)
unfolding assess tier_of
assess_range request target = (omega arith, refl)

-- A request that is no less aggravated: each factor that the first has the second has too.
pub record Aggravates (r s : SecurityRequest) (t u : Target) : Type 0 where
  pub action : s.action ≡ r.action
  pub exposed : is_exposed t ≡ true → is_exposed u ≡ true
  pub network : wants_network r ≡ true → wants_network s ≡ true
  pub write : wants_write r ≡ true → wants_write s ≡ true

raw_score_mono :
    {r s : SecurityRequest} {t u : Target}
    → Aggravates r s t u
    → min (raw_score r t) 100 ≤ min (raw_score s u) 100
unfolding raw_score
raw_score_mono a = ground arith

tier_of_mono : (a b : ℕ) → a ≤ b → rank (tier_of a) ≤ rank (tier_of b)
unfolding tier_of rank
tier_of_mono a b h = ground arith

-- For one action, exposure, network and write access never lower the score or the tier.
pub assess_mono :
    {r s : SecurityRequest} {t u : Target}
    → Aggravates r s t u
    → ((assess r t).score ≤ (assess s u).score) × (rank (assess r t).tier ≤ rank (assess s u).tier)
unfolding assess
assess_mono {r} {s} {t} {u} a = (raw_score_mono a, tier_of_mono _ _ (raw_score_mono a))

-- An action that is neither in the low nor in the medium list needs an approval, whatever the
-- target.
pub assess_unknown :
    (request : SecurityRequest) (target : Target)
    → contains low_actions request.action ≡ false
    → contains medium_actions request.action ≡ false
    → ((assess request target).tier ≢ low)
      × ((assess request target).tier ≢ medium)
      × (requires_approval (assess request target) ≡ true)
unfolding assess raw_score base_score tier_of requires_approval rank
assess_unknown request target l m = ground arith

-- An action of the low list that is not in the critical one is critical exactly when the target is exposed and the tool wants both the network
-- and writes.
pub assess_low :
    (request : SecurityRequest) (target : Target)
    → contains low_actions request.action ≡ true
    → contains critical_actions request.action ≡ false
    → ((assess request target).tier ≡ critical)
      ↔ ((is_exposed target ≡ true) × (wants_network request ≡ true) × (wants_write request ≡ true))
unfolding assess raw_score base_score tier_of
assess_low request target l c = ground arith
