-- ===== src/Trust/Levels.antt =====
-- The order of trust.
use noble_cascade.Prelude.{
  Bool, String, arith, codes, false, if◌then◌else◌, lower, ltb, same_codes, ℕ, ◌≡◌,
}

pub data TrustLevel : Type 0 where
  trusted_policy operator_input execution_policy derived_agent_data : TrustLevel
  tool_output target_content external_content secret : TrustLevel

unfoldable pub level_value : TrustLevel → ℕ
level_value trusted_policy = 60
level_value operator_input = 50
level_value execution_policy = 40
level_value derived_agent_data = 30
level_value tool_output = 20
level_value target_content = 10
level_value external_content = 5
level_value secret = 0

-- TrustLevel.outranks
unfoldable pub outranks : TrustLevel → TrustLevel → Bool
unfolding level_value
outranks a b = ltb (level_value b) (level_value a)

-- label_trust, on the source in lower case
unfoldable pub label_trust : String → TrustLevel
label_trust source =
    if same_codes (lower (codes source)) (codes "policy")
    then trusted_policy
    else if same_codes (lower (codes source)) (codes "operator")
    then operator_input
    else if same_codes (lower (codes source)) (codes "execution-policy")
    then execution_policy
    else if same_codes (lower (codes source)) (codes "agent")
    then derived_agent_data
    else if same_codes (lower (codes source)) (codes "tool")
    then tool_output
    else if same_codes (lower (codes source)) (codes "target")
    then target_content
    else external_content

-- An unknown source never outranks a known one.
pub label_trust_default :
    (source known : String)
    → label_trust source ≡ external_content
    → outranks (label_trust source) (label_trust known) ≡ false
unfolding label_trust outranks
label_trust_default source known h = rw h (ground arith)
