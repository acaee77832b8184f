-- ===== src/Trust/Clean.antt =====
-- Lemmas on the text that the quarantine of noble/trust.py leaves.
use noble_cascade.Platform.{Pattern, Platform}
use noble_cascade.Prelude.{
  Bool-cases, List, String, [], arith, code, eqb, eqb→eq, false, inl, inr, ℕ, ◌++◌, ◌∷◌, ◌≡◌, ◌≢◌,
  ◌≤◌, ◌⊎◌,
}
use noble_cascade.Trust.{
  is_control, neutralise, prefix, quarantine, quarantined, signatures, strip_controls,
}

-- a tab, a newline, a carriage return, or a code from the space on that is not DEL
abbrev pub IsPlain : ℕ → Type 0
IsPlain c = (c ≡ 9) ⊎ (c ≡ 10) ⊎ (c ≡ 13) ⊎ ((32 ≤ c) × (c ≢ 127))

abbrev pub IsClean : String → Type 0
IsClean String.[] = Unit
IsClean (String.◌∷◌ c s) = IsPlain (code c) × IsClean s

is_control-IsPlain : (c : ℕ) → is_control c ≡ false → IsPlain c
unfolding is_control
is_control-IsPlain c h = elim (Bool-cases (eqb c 9)) [
  | inl e ↦ inl (eqb→eq c 9 e)
  | inr t ↦ elim (Bool-cases (eqb c 10)) [
    | inl e ↦ inr (inl (eqb→eq c 10 e))
    | inr n ↦ elim (Bool-cases (eqb c 13)) [
      | inl e ↦ inr (inr (inl (eqb→eq c 13 e)))
      | inr r ↦ inr (inr (inr (ground (arith, h, t, n, r), λ e. ground (arith, h, e))))
    ]
  ]
]

pub strip_controls-IsClean : (s : String) → IsClean (strip_controls s)
unfolding strip_controls
strip_controls-IsClean String.[] = tt
strip_controls-IsClean (String.◌∷◌ c s) = elim (Bool-cases (is_control (code c))) [
  | inl e ↦ rw (strip_controls, e) (strip_controls-IsClean s)
  | inr e ↦ rw (strip_controls, e) (is_control-IsPlain (code c) e, strip_controls-IsClean s)
]

-- What re.sub does with a replacement that is clean: it puts the replacement in
-- place of pieces of the text.
abbrev pub ReplacesCleanly : Platform → Type 0
ReplacesCleanly os = (p : Pattern) (s : String) → IsClean s → IsClean (os.replace p quarantined s)

module _ (os : Platform) (law : ReplacesCleanly os) where
  neutralise-IsClean :
      (ps : List Pattern) (s : String) (found : List String)
      → IsClean s
      → IsClean (neutralise os ps s found).0
  unfolding neutralise
  neutralise-IsClean [] s found h = h
  neutralise-IsClean (p ∷ ps) s found h = elim (Bool-cases (os.search_text p s)) [
    | inl e ↦
        rw (neutralise, e)
          (neutralise-IsClean ps (os.replace p quarantined s) (found ++ os.pattern_text p ∷ [])
            (law p s h))
    | inr e ↦ rw (neutralise, e) (neutralise-IsClean ps s found h)
  ]

  -- Of the characters below the space, tab, newline and carriage return may be left.
  pub quarantine-IsClean : (n : ℕ) (text : String) → IsClean (quarantine os n text).sanitized
  unfolding quarantine
  quarantine-IsClean n text =
      neutralise-IsClean signatures (strip_controls (prefix n text)) []
        (strip_controls-IsClean (prefix n text))
