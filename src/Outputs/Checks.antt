-- ===== src/Outputs/Checks.antt =====
-- The loop body of OutputValidator.validate in noble/evidence.py: what one observation has to pass.
use noble_cascade.Errors.{Raised, builtin, invalid_output, or_else, refusal, value_error}
use noble_cascade.Models.{Fields, ToolDefinition, get_field, str}
use noble_cascade.Outputs.Decode.{Observation, ToolOutput}
use noble_cascade.Outputs.Fixture.{CheckedFixture, Sources, expected_sha256, verify_fixture}
use noble_cascade.Prelude.{
  Bool, List, Option, String, [], codes, count_code, eqb, false, get_elem?, has_part, if◌then◌else◌,
  is_some, ltb, none, not, some, split_on, starts_with, ℕ, ◌&&◌, ◌-◌, ◌==◌, ◌||◌, ◌∷◌,
}
use noble_cascade.Trust.{prefix}

abbrev pub invalid : String → Option Raised
invalid message = refusal invalid_output message

-- the guard on the name of the file
unfoldable pub name_refusal : String → Option Raised
unfolding starts_with split_on has_part count_code
name_refusal file =
    if starts_with (codes file) (codes "/")
      || has_part (split_on b'/' (codes file)) (codes "..")
      || ltb 0 (count_code 0x5c (codes file))
    then invalid "tool output references an unsafe file"
    else none

-- os.path.commonpath((root, file)) != root
unfoldable pub outside : Sources → String → String → String → Option Raised
outside io root file message = elim (io.commonpath root file) [
  | none ↦ some (builtin value_error)
  | some common ↦ if common == root then none else invalid message
]

-- the guards on where the file lies
unfoldable pub place_refusal : Sources → String → String → String → Option Raised
unfolding outside
place_refusal io root target file =
    or_else (outside io root file "tool output references a file outside workspace") (
      if io.is_file target
      then (if file == target
          then none
          else invalid "tool output references a different target file")
      else outside io target file "tool output references a file outside target directory")

-- the `try` block around the file, and the comparison with its line; the schema admits lines from 1
unfoldable pub source_refusal : Sources → ℕ → String → Observation → Option Raised
unfolding prefix
source_refusal io max_file_bytes file seen =
    let unreadable = invalid "tool output file or line is unreadable" in
    elim (io.size file) [
      | none ↦ unreadable
      | some size ↦
          if ltb max_file_bytes size
          then invalid "tool output references an oversized file"
          else elim (io.lines file) [
            | none ↦ unreadable
            | some lines ↦ elim (get_elem? lines (seen.line - 1)) [
              | none ↦ unreadable
              | some line ↦
                  if prefix 300 line == seen.snippet
                  then none
                  else invalid "tool output snippet does not match source line"
            ]
          ]
    ]

-- n in xs
unfoldable pub has_line : List ℕ → ℕ → Bool
has_line [] n = false
has_line (x ∷ xs) n = eqb x n || has_line xs n

-- the branch for static-code-scan
unfoldable pub scan_refusal : Sources → String → Observation → Option Raised
unfolding has_line
scan_refusal io file seen =
    if seen.verified || is_some seen.reproduction
    then invalid "a static scan cannot claim a verified reproduction"
    else elim (io.lines file) [
      | none ↦ invalid "tool output file or line is unreadable"
      | some lines ↦ elim (io.sql_calls lines) [
        | none ↦ invalid "candidate source cannot be parsed independently"
        | some calls ↦
            if has_line calls seen.line
            then none
            else invalid "candidate does not match an independent SQL AST check"
      ]
    ]

-- the last test of the branch for fixture-sql-verify, negated
unfoldable pub same_reproduction : CheckedFixture → Observation → Bool
same_reproduction checked seen = elim seen.reproduction [
  | none ↦ false
  | some actual ↦
      eqb checked.source_line seen.line
      && eqb actual.unsafe_rows checked.unsafe_rows
      && eqb actual.parameterized_rows checked.parameterized_rows
      && actual.synthetic
]

-- provenance.get(key) == value, for a text
unfoldable pub names_text : String → String → Fields → Bool
unfolding get_field
names_text key value fs = elim (get_field key fs) [ some (str s) ↦ s == value | _ ↦ false ]

-- the branch for fixture-sql-verify
unfoldable pub fixture_refusal :
    Sources → String → String → ToolOutput → Observation → Option Raised
unfolding names_text same_reproduction verify_fixture
fixture_refusal io root file out seen =
    if not seen.verified || not out.complete
    then invalid "fixture verification did not complete"
    else if not (names_text "fixture_sha256" expected_sha256 out.provenance)
    then invalid "fixture digest does not match known fixture"
    else elim (verify_fixture io file root) [
      | none ↦ invalid "independent fixture verification failed"
      | some checked ↦
          if same_reproduction checked seen
          then none
          else invalid "fixture reproduction was not independently confirmed"
    ]

-- the guards of one observation, in their order
unfoldable pub observation_refusal :
    Sources → ℕ → ToolDefinition → String → String → ToolOutput → Observation → Option Raised
unfolding name_refusal place_refusal source_refusal scan_refusal fixture_refusal
observation_refusal io max_file_bytes definition root target out seen =
    let file = io.resolve_under root seen.file in
    or_else (name_refusal seen.file) (
      or_else (place_refusal io root target file) (
        or_else (source_refusal io max_file_bytes file seen) (
          if definition.name == "static-code-scan"
          then scan_refusal io file seen
          else if definition.name == "fixture-sql-verify"
          then fixture_refusal io root file out seen
          else none)))
