-- ===== src/Outputs/Fixture.antt =====
-- noble/builtins/fixture_sql.py, with what the validator of noble/evidence.py takes from outside.
-- what `run` and verify_fixture ask the file system for
use noble_cascade.Models.{Json}
use noble_cascade.Prelude.{
  Bool, List, Option, String, [], concat, eqb, false, if◌then◌else◌, none, not, some, true, ℕ, ◌==◌,
  ◌||◌, ◌∷◌,
}

pub record Files : Type 0 where
  -- Path(path).exists()
  pub exists : String → Bool
  -- Path(path).resolve(strict=True); none where it raises OSError
  pub resolve_strict : String → Option String
  -- hashlib.sha256(path.read_bytes()).hexdigest(); none where it raises OSError
  pub digest : String → Option String

-- EXPECTED_SHA256
abbrev pub expected_sha256 : String
expected_sha256 = "92d5e1dcf2af2be4450259210a150fd9fbf1c623c0d0c6852be3a4bfdadd18ba"

-- the dict that verify_fixture returns
pub record CheckedFixture : Type 0 where
  pub source_line : ℕ
  pub unsafe_rows : ℕ
  pub parameterized_rows : ℕ

-- what the validator takes from the file system, from Python's parser, from `json` and from the
-- sqlite connection of noble/builtins/fixture_sql.py
pub record Sources : Type 0 where
  -- json.loads with the two hooks; none where it raises
  pub loads : String → Option Json
  -- str(Path(path).resolve())
  pub resolve : String → String
  -- str((root / relative).resolve())
  pub resolve_under : String → String → String
  -- os.path.commonpath of two absolute paths; none where it raises ValueError
  pub commonpath : String → String → Option String
  pub is_file : String → Bool
  -- file.stat().st_size; none where it raises OSError
  pub size : String → Option ℕ
  -- file.read_text(encoding="utf-8").splitlines(); none where it raises
  pub lines : String → Option (List String)
  -- the lines of the calls that the generator over `ast.walk` finds; none on a SyntaxError
  pub sql_calls : List String → Option (List ℕ)
  -- the lines of the calls of `execute` with a joined string that verify_fixture finds
  pub format_calls : List String → List ℕ
  -- the numbers of rows that sqlite answers to its two queries
  pub unsafe_rows : ℕ
  pub parameterized_rows : ℕ
  pub files : Files

-- fixture_is_exact of noble/builtins/fixture_sql.py; none where it raises OSError
unfoldable pub fixture_is_exact : Files → String → String → Option Bool
fixture_is_exact files target root =
    elim (files.resolve_strict (concat root "/tests/fixtures/sql_injection.py")) [
      | none ↦ none
      | some expected ↦ elim (files.resolve_strict target) [
        | none ↦ none
        | some actual ↦
            if not (actual == expected)
            then some false
            else (elim (files.digest target) [ none ↦ none | some d ↦ some (d == expected_sha256) ])
      ]
    ]

-- verify_fixture; none where it raises. The digest pins the file, so the parser accepts it.
unfoldable pub verify_fixture : Sources → String → String → Option CheckedFixture
unfolding fixture_is_exact
verify_fixture io target root = elim (fixture_is_exact io.files target root) [
  | some true ↦ elim (io.lines target) [
    | none ↦ none
    | some lines ↦ elim (io.format_calls lines) [
      | n ∷ [] ↦
          if not (eqb io.unsafe_rows 2) || not (eqb io.parameterized_rows 0)
          then none
          else some (record {
            source_line = n;
            unsafe_rows = io.unsafe_rows;
            parameterized_rows = io.parameterized_rows;
          })
      | _ ↦ none
    ]
  ]
  | _ ↦ none
]
