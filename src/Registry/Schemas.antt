-- ===== src/Registry/Schemas.antt =====
-- The JSON schemas of noble/registry.py.
use noble_cascade.Models.{Fields, Items, Json, array, bool, cons, end, field, nil, object, str}
use noble_cascade.Prelude.{List, String, [], false, map, true, ℕ, ◌∷◌}

abbrev pub fields : List (String × Json) → Fields
fields [] = end
fields ((k, v) ∷ rest) = field k v (fields rest)

abbrev pub dict : List (String × Json) → Json
dict kvs = object (fields kvs)

abbrev pub items : List Json → Items
items [] = nil
items (v ∷ vs) = cons v (items vs)

abbrev pub strings : List String → Json
strings names = array (items (map (λ s. str s) names))

abbrev pub bounded_text : ℕ → ℕ → Json
bounded_text least most =
    dict
      (("type", str "string") ∷ ("minLength", Json.int least) ∷ ("maxLength", Json.int most) ∷ [])

abbrev pub capped_text : ℕ → Json
capped_text most = dict (("type", str "string") ∷ ("maxLength", Json.int most) ∷ [])

abbrev pub pattern_schema : String → Json
pattern_schema p = dict (("type", str "string") ∷ ("pattern", str p) ∷ [])

abbrev pub constant : Json → Json
constant v = dict (("const", v) ∷ [])

abbrev pub integer_from : ℕ → Json
integer_from least = dict (("type", str "integer") ∷ ("minimum", Json.int least) ∷ [])

abbrev pub integer_between : ℕ → ℕ → Json
integer_between least most =
    dict (("type", str "integer") ∷ ("minimum", Json.int least) ∷ ("maximum", Json.int most) ∷ [])

abbrev pub typed : String → Json
typed name = dict (("type", str name) ∷ [])

-- OBSERVATION_SCHEMA
unfoldable pub observation_schema : Json
observation_schema = dict (
    ("type", str "object")
    ∷ (
      "required",
      strings (
          "title" ∷ "category" ∷ "cwe" ∷ "file" ∷ "line" ∷ "snippet" ∷ "description" ∷ "impact"
          ∷ "remediation" ∷ "verified" ∷ "reproduction" ∷ []),
    )
    ∷ (
      "properties",
      dict (
          ("title", bounded_text 1 180)
          ∷ ("category", constant (str "sql-injection"))
          ∷ ("cwe", constant (str "CWE-89"))
          ∷ ("file", bounded_text 1 300)
          ∷ ("line", integer_from 1)
          ∷ ("snippet", capped_text 300)
          ∷ ("description", bounded_text 1 500)
          ∷ ("impact", bounded_text 1 500)
          ∷ ("remediation", bounded_text 1 500)
          ∷ ("verified", typed "boolean")
          ∷ (
            "reproduction",
            dict (
                (
                  "anyOf",
                  array (
                      items (
                        typed "null"
                        ∷ dict (
                            ("type", str "object")
                            ∷ (
                              "required",
                              strings ("unsafe_rows" ∷ "parameterized_rows" ∷ "synthetic" ∷ []),
                            )
                            ∷ (
                              "properties",
                              dict (
                                  ("unsafe_rows", integer_between 0 10)
                                  ∷ ("parameterized_rows", integer_between 0 10)
                                  ∷ ("synthetic", constant (bool true))
                                  ∷ []),
                            )
                            ∷ ("additionalProperties", bool false)
                            ∷ [])
                        ∷ [])),
                )
                ∷ []),
          )
          ∷ []),
    )
    ∷ ("additionalProperties", bool false)
    ∷ [])

-- OUTPUT_SCHEMA
unfoldable pub output_schema_value : Json
output_schema_value = dict (
    ("type", str "object")
    ∷ (
      "required",
      strings (
          "request_id" ∷ "target" ∷ "tool" ∷ "version" ∷ "observations" ∷ "complete" ∷ "warnings"
          ∷ "provenance" ∷ []),
    )
    ∷ (
      "properties",
      dict (
          ("request_id", pattern_schema "^req-[0-9a-f]{32}$")
          ∷ ("target", bounded_text 1 2048)
          ∷ ("tool", dict (("enum", strings ("static-code-scan" ∷ "fixture-sql-verify" ∷ [])) ∷ []))
          ∷ ("version", constant (str "1.0.0"))
          ∷ (
            "observations",
            dict (
                ("type", str "array")
                ∷ ("maxItems", Json.int 100)
                ∷ ("items", observation_schema)
                ∷ []),
          )
          ∷ ("complete", typed "boolean")
          ∷ (
            "warnings",
            dict (
                ("type", str "array")
                ∷ ("maxItems", Json.int 10)
                ∷ ("items", capped_text 100)
                ∷ []),
          )
          ∷ (
            "provenance",
            dict (
                ("type", str "object")
                ∷ (
                  "properties",
                  dict (
                      ("files_inspected", integer_between 0 1000)
                      ∷ ("fixture_sha256", pattern_schema "^[0-9a-f]{64}$")
                      ∷ ("scanner", capped_text 80)
                      ∷ []),
                )
                ∷ ("additionalProperties", bool false)
                ∷ []),
          )
          ∷ []),
    )
    ∷ ("additionalProperties", bool false)
    ∷ [])

-- INPUT_SCHEMA
unfoldable pub input_schema_value : Json
input_schema_value = dict (
    ("type", str "object")
    ∷ ("properties", dict (("max_files", integer_between 1 1000) ∷ []))
    ∷ ("additionalProperties", bool false)
    ∷ [])
