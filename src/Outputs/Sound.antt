-- ===== src/Outputs/Sound.antt =====
-- What an output that OutputValidator.validate of noble/evidence.py lets pass has been checked for.
-- The line of the file that the observation names is the one that it shows.
use noble_cascade.Errors.{Raised, or_else}
use noble_cascade.Outputs.Checks.{
  fixture_refusal, has_line, same_reproduction, scan_refusal, source_refusal,
}
use noble_cascade.Outputs.Decode.{Observation, Reproduced, ToolOutput}
use noble_cascade.Outputs.Fixture.{CheckedFixture, Sources, verify_fixture}
use noble_cascade.Prelude.{
  Bool-cases, List, Option, Option-cases, String, arith, eq_iff, false, get_elem?, inl, inr, ltb,
  none, refl, some, true, ℕ, ◌-◌, ◌≡◌, ◌≤◌,
}
use noble_cascade.Trust.{prefix}

pub record Shown (io : Sources) (max_file_bytes : ℕ) (file : String) (seen : Observation)
    : Type 0 where
  pub size : ℕ
  pub stat : io.size file ≡ some size
  pub small : size ≤ max_file_bytes
  pub lines : List String
  pub read : io.lines file ≡ some lines
  pub line : String
  pub there : get_elem? lines (seen.line - 1) ≡ some line
  pub same : prefix 300 line ≡ seen.snippet

-- A scan claims no reproduction, and Python's parser finds the call on that line.
pub record Suspected (io : Sources) (file : String) (seen : Observation) : Type 0 where
  pub unverified : seen.verified ≡ false
  pub unreproduced : seen.reproduction ≡ none
  pub lines : List String
  pub read : io.lines file ≡ some lines
  pub calls : List ℕ
  pub parsed : io.sql_calls lines ≡ some calls
  pub found : has_line calls seen.line ≡ true

-- The verifier outside the worker has found what the worker claims.
pub record Confirmed (io : Sources) (root file : String) (seen : Observation) : Type 0 where
  pub verified : seen.verified ≡ true
  pub checked : CheckedFixture
  pub independent : verify_fixture io file root ≡ some checked
  pub claimed : Reproduced
  pub reproduction : seen.reproduction ≡ some claimed
  pub line : checked.source_line ≡ seen.line
  pub unsafe_rows : claimed.unsafe_rows ≡ checked.unsafe_rows
  pub parameterized_rows : claimed.parameterized_rows ≡ checked.parameterized_rows
  pub synthetic : claimed.synthetic ≡ true

pub or_else-none : (a b : Option Raised) → or_else a b ≡ none → (a ≡ none) × (b ≡ none)
or_else-none none b h = (refl, h)
or_else-none (some e) b h = absurd (ground (arith, h))

pub source_refusal-Shown :
    (io : Sources) (max_file_bytes : ℕ) (file : String) (seen : Observation)
    → source_refusal io max_file_bytes file seen ≡ none
    → Shown io max_file_bytes file seen
unfolding source_refusal
source_refusal-Shown io max_file_bytes file seen h = elim (Option-cases (io.size file)) [
  | inl e ↦ absurd (ground (arith, e, h))
  | inr (size, e) ↦ elim (Bool-cases (ltb max_file_bytes size)) [
    | inl big ↦ absurd (ground (arith, e, h, big))
    | inr small ↦ elim (Option-cases (io.lines file)) [
      | inl f ↦ absurd (ground (arith, e, h, small, f))
      | inr (lines, f) ↦ elim (Option-cases (get_elem? lines (seen.line - 1))) [
        | inl l ↦ absurd (ground (arith, e, h, small, f, l))
        | inr (line, l) ↦ record {
          size = size;
          stat = e;
          small = ground (arith, small);
          lines = lines;
          read = f;
          line = line;
          there = l;
          same = ground (arith, e, h, small, f, l, eq_iff (prefix 300 line) seen.snippet);
        }
      ]
    ]
  ]
]

pub scan_refusal-Suspected :
    (io : Sources) (file : String) (seen : Observation)
    → scan_refusal io file seen ≡ none
    → Suspected io file seen
unfolding scan_refusal
scan_refusal-Suspected io file seen h = elim (Option-cases (io.lines file)) [
  | inl e ↦ absurd (ground (arith, e, h))
  | inr (lines, e) ↦ elim (Option-cases (io.sql_calls lines)) [
    | inl f ↦ absurd (ground (arith, e, h, f))
    | inr (calls, f) ↦ record {
      unverified = ground (arith, h);
      unreproduced = ground (arith, h);
      lines = lines;
      read = e;
      calls = calls;
      parsed = f;
      found = ground (arith, e, h, f);
    }
  ]
]

same_reproduction-claimed :
    (checked : CheckedFixture) (seen : Observation) (claimed : Reproduced)
    → seen.reproduction ≡ some claimed
    → same_reproduction checked seen ≡ true
    → (checked.source_line ≡ seen.line)
      × (claimed.unsafe_rows ≡ checked.unsafe_rows)
      × (claimed.parameterized_rows ≡ checked.parameterized_rows)
      × (claimed.synthetic ≡ true)
unfolding same_reproduction
same_reproduction-claimed checked seen claimed e h =
    (ground (arith, e, h), ground (arith, e, h), ground (arith, e, h), ground (arith, e, h))

pub fixture_refusal-Confirmed :
    (io : Sources) (root file : String) (out : ToolOutput) (seen : Observation)
    → fixture_refusal io root file out seen ≡ none
    → Confirmed io root file seen
unfolding fixture_refusal same_reproduction
fixture_refusal-Confirmed io root file out seen h =
    elim (Option-cases (verify_fixture io file root)) [
      | inl e ↦ absurd (ground (arith, e, h))
      | inr (checked, e) ↦ elim (Option-cases seen.reproduction) [
        | inl f ↦ absurd (ground (arith, e, h, f))
        | inr (claimed, f) ↦
            let (l, u, p, s) =
              same_reproduction-claimed checked seen claimed f (ground (arith, e, h, f)) in
            record {
              verified = ground (arith, h);
              checked = checked;
              independent = e;
              claimed = claimed;
              reproduction = f;
              line = l;
              unsafe_rows = u;
              parameterized_rows = p;
              synthetic = s;
            }
      ]
    ]
