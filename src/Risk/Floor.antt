-- ===== src/Risk/Floor.antt =====
-- The risk floor of a registered tool.
use noble_cascade.Models.{RiskAssessment, RiskTier, rank}
use noble_cascade.Prelude.{arith, max, ◌≡◌}
use noble_cascade.Risk.{raise_to_floor}

-- The raised tier is at least that of the tool and that of the request, and is one of the two.
pub rank-raise_to_floor :
    (floor : RiskTier) (risk : RiskAssessment)
    → rank (raise_to_floor floor risk).tier ≡ max (rank risk.tier) (rank floor)
unfolding raise_to_floor rank
rank-raise_to_floor floor risk = ground arith
