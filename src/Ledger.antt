-- ===== src/Ledger.antt =====
-- noble/ledger.py: the chain that ties an execution together, and its JSON form.
pub mod Trip
pub mod Integrity
pub mod Corruption
use noble_cascade.Errors.{
  Exec, Result, builtin, err, key_error, lift, ok, pure, raise, type_error, value_error, ◌>>=◌,
  ◌>>◌,
}
use noble_cascade.Models.{
  Fields, Json, array, end, field, get_field, null, str, text_items, texts_of,
}
use noble_cascade.Platform.{Platform}
use noble_cascade.Prelude.{List, Option, String, [], none, some, ℕ}
use noble_cascade.World.{World, utcnow}

pub record LedgerChain : Type 0 where
  pub request_id : String
  pub execution_id : String
  pub worker_id : String
  pub tool_run_id : String
  pub evidence_ids : List String
  pub finding_ids : List String
  pub report_id : Option String
  pub audit_event_ids : List String
  pub policy_version : String
  pub policy_hash : String
  pub configuration_hash : String
  pub worker_image_digest : String
  pub created_at : ℕ

-- an optional text as JSON
abbrev pub optional_text : Option String → Json
optional_text none = null
optional_text (some s) = str s

-- LedgerChain.to_dict
unfoldable pub chain_dict : Platform → LedgerChain → Fields
unfolding text_items
chain_dict os c = field "request_id" (str c.request_id) (
    field "execution_id" (str c.execution_id) (
      field "worker_id" (str c.worker_id) (
        field "tool_run_id" (str c.tool_run_id) (
          field "evidence_ids" (array (text_items c.evidence_ids)) (
            field "finding_ids" (array (text_items c.finding_ids)) (
              field "report_id" (optional_text c.report_id) (
                field "audit_event_ids" (array (text_items c.audit_event_ids)) (
                  field "policy_version" (str c.policy_version) (
                    field "policy_hash" (str c.policy_hash) (
                      field "configuration_hash" (str c.configuration_hash) (
                        field "worker_image_digest" (str c.worker_image_digest)
                          (field "created_at" (str (os.isoformat c.created_at)) end))))))))))))

-- data[key], on a field that holds a text: KeyError if it is missing. Fields of other types, which
-- `to_dict` does not write, raise TypeError here.
unfoldable pub required_text : Fields → String → Result String
unfolding get_field
required_text data_fields key = elim (get_field key data_fields) [
  | none ↦ err (builtin key_error)
  | some (str s) ↦ ok s
  | some _ ↦ err (builtin type_error)
]

-- data.get(key, default)
unfoldable pub text_or : Fields → String → String → Result String
unfolding get_field
text_or data_fields key default = elim (get_field key data_fields) [
  | none ↦ ok default
  | some (str s) ↦ ok s
  | some _ ↦ err (builtin type_error)
]

-- data.get(key)
unfoldable pub nullable_text : Fields → String → Result (Option String)
unfolding get_field
nullable_text data_fields key = elim (get_field key data_fields) [
  | none ↦ ok none
  | some null ↦ ok none
  | some (str s) ↦ ok (some s)
  | some _ ↦ err (builtin type_error)
]

-- tuple(data.get(key, []))
unfoldable pub tuple_at : Fields → String → Result (List String)
unfolding get_field texts_of
tuple_at data_fields key = elim (get_field key data_fields) [
  | none ↦ ok []
  | some (array vs) ↦ elim (texts_of vs) [ none ↦ err (builtin type_error) | some xs ↦ ok xs ]
  | some _ ↦ err (builtin type_error)
]

-- datetime.fromisoformat(data["created_at"]) if "created_at" in data else utcnow(); the parser is an
-- argument, none where it raises ValueError
unfoldable pub created_at_of : Platform → (String → Option ℕ) → Fields → Exec World ℕ
unfolding get_field utcnow
created_at_of os fromisoformat data_fields = elim (get_field "created_at" data_fields) [
  | none ↦ utcnow os
  | some (str s) ↦ elim (fromisoformat s) [ none ↦ raise (builtin value_error) | some t ↦ pure t ]
  | some _ ↦ raise (builtin type_error)
]

-- LedgerChain.from_dict
unfoldable pub chain_of_dict : Platform → (String → Option ℕ) → Fields → Exec World LedgerChain
unfolding required_text text_or nullable_text tuple_at created_at_of
chain_of_dict os fromisoformat data_fields = do
  request_id ← lift (required_text data_fields "request_id")
  execution_id ← lift (required_text data_fields "execution_id")
  worker_id ← lift (required_text data_fields "worker_id")
  tool_run_id ← lift (required_text data_fields "tool_run_id")
  evidence_ids ← lift (tuple_at data_fields "evidence_ids")
  finding_ids ← lift (tuple_at data_fields "finding_ids")
  report_id ← lift (nullable_text data_fields "report_id")
  audit_event_ids ← lift (tuple_at data_fields "audit_event_ids")
  policy_version ← lift (text_or data_fields "policy_version" "unknown")
  policy_hash ← lift (text_or data_fields "policy_hash" "")
  configuration_hash ← lift (text_or data_fields "configuration_hash" "")
  worker_image_digest ← lift (text_or data_fields "worker_image_digest" "")
  created_at ← created_at_of os fromisoformat data_fields
  pure (record {
    request_id = request_id;
    execution_id = execution_id;
    worker_id = worker_id;
    tool_run_id = tool_run_id;
    evidence_ids = evidence_ids;
    finding_ids = finding_ids;
    report_id = report_id;
    audit_event_ids = audit_event_ids;
    policy_version = policy_version;
    policy_hash = policy_hash;
    configuration_hash = configuration_hash;
    worker_image_digest = worker_image_digest;
    created_at = created_at;
  })
