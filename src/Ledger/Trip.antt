-- ===== src/Ledger/Trip.antt =====
-- Lemmas on the JSON form of a chain of noble/ledger.py.
use noble_cascade.Errors.{ok}
use noble_cascade.Ledger.{
  LedgerChain, chain_dict, chain_of_dict, created_at_of, nullable_text, required_text, text_or,
  tuple_at,
}
use noble_cascade.Models.{get_field, text_items, texts_of}
use noble_cascade.Platform.{Platform}
use noble_cascade.Prelude.{List, Option, String, [], arith, refl, some, ℕ, ◌∷◌, ◌≡◌}
use noble_cascade.World.{World}

texts_of-text_items : (xs : List String) → texts_of (text_items xs) ≡ some xs
unfolding texts_of text_items
texts_of-text_items [] = refl
texts_of-text_items (x ∷ xs) = rw (texts_of-text_items xs)

-- A chain that is read back from its dict is the chain that was written, and the world is left alone,
-- if the parser of moments reads back what isoformat writes.
pub chain_of_dict-chain_dict :
    (os : Platform) (fromisoformat : String → Option ℕ) (c : LedgerChain) (w : World)
    → ((t : ℕ) → fromisoformat (os.isoformat t) ≡ some t)
    → chain_of_dict os fromisoformat (chain_dict os c) w ≡ (ok c, w)
unfolding chain_of_dict chain_dict required_text text_or nullable_text tuple_at created_at_of
    get_field
chain_of_dict-chain_dict os fromisoformat c w parses = ground (
  arith,
  texts_of-text_items c.evidence_ids,
  texts_of-text_items c.finding_ids,
  texts_of-text_items c.audit_event_ids,
  parses c.created_at,
)
