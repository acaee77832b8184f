-- ===== src/Trust.antt =====
-- noble/trust.py: trust levels, and the quarantine of untrusted text; `redact_sensitive` of
-- noble/evidence.py. A text is walked by its characters.
pub mod Clean
pub mod Levels
use noble_cascade.Platform.{Pattern, Platform, bearer, secret_value, signature, token_shapes}
use noble_cascade.Prelude.{
  Bool, List, String, [], code, eqb, false, if◌then◌else◌, leb, suc, true, zero, ℕ, ◌&&◌, ◌++◌,
  ◌||◌, ◌∷◌,
}

-- text[:n]
unfoldable pub prefix : ℕ → String → String
prefix zero s = ""
prefix (suc n) String.[] = ""
prefix (suc n) (String.◌∷◌ c s) = String.◌∷◌ c (prefix n s)

-- the class [\x00-\x08\x0b\x0c\x0e-\x1f\x7f]
unfoldable pub is_control : ℕ → Bool
is_control c = leb c 0x08 || eqb c 0x0b || eqb c 0x0c || leb 0x0e c && leb c 0x1f || eqb c 0x7f

-- re.sub(r"[\x00-\x08\x0b\x0c\x0e-\x1f\x7f]", "", text)
unfoldable pub strip_controls : String → String
strip_controls String.[] = ""
strip_controls (String.◌∷◌ c s) =
    let rest = strip_controls s in if is_control (code c) then rest else String.◌∷◌ c rest

unfoldable pub signatures : List Pattern
signatures =
    signature 0
    ∷ signature 1
    ∷ signature 2
    ∷ signature 3
    ∷ signature 4
    ∷ signature 5
    ∷ signature 6
    ∷ signature 7
    ∷ []

abbrev pub quarantined : String
quarantined = "[QUARANTINED_INSTRUCTION]"

pub record QuarantineResult : Type 0 where
  pub sanitized : String
  pub detections : List String
  pub hostile : Bool

-- the loop over INJECTION_SIGNATURES, on the cleaned text and the detections so far
unfoldable pub neutralise : Platform → List Pattern → String → List String → String × List String
neutralise os [] cleaned detections = (cleaned, detections)
neutralise os (p ∷ ps) cleaned detections =
    let found = os.search_text p cleaned in
    neutralise os ps (if found then os.replace p quarantined cleaned else cleaned)
      (if found then detections ++ os.pattern_text p ∷ [] else detections)

abbrev is_nonempty {ℓ} : {A : Type ℓ} → List A → Bool
is_nonempty [] = false
is_nonempty (_ ∷ _) = true

unfoldable pub quarantine : Platform → ℕ → String → QuarantineResult
unfolding neutralise
quarantine os max_length text =
    let (cleaned, detections) =
      neutralise os signatures (strip_controls (prefix max_length text)) [] in
    record { sanitized = cleaned; detections = detections; hostile = is_nonempty detections }

-- redact_sensitive; the replacements name groups of the pattern
unfoldable pub redact_sensitive : Platform → String → String
redact_sensitive os text =
    let cleaned = os.replace secret_value "\\1\\2[REDACTED]" text in
    let cleaned = os.replace token_shapes "[REDACTED_CREDENTIAL]" cleaned in
    os.replace bearer "Bearer [REDACTED]" cleaned
