-- ===== src/Models/Values.antt =====
-- The values of `dict[str, Any]`: what JSON has. A negative integer `negative n` is -(n + 1), and a
-- float is kept as its text.
use noble_cascade.Prelude.{
  Bool, List, Option, String, [], false, if◌then◌else◌, none, not, some, suc, true, zero, ℕ, ◌==◌,
  ◌||◌, ◌∷◌,
}

mutual
  pub data Json : Type 0 where
    null : Json
    bool : Bool → Json
    int : ℕ → Json
    negative : ℕ → Json
    float : String → Json
    str : String → Json
    array : Items → Json
    object : Fields → Json

  pub data Items : Type 0 where
    nil : Items
    cons : Json → Items → Items

  pub data Fields : Type 0 where
    end : Fields
    field : String → Json → Fields → Fields

-- d.get(key), on the fields of an object
unfoldable pub get_field : String → Fields → Option Json
get_field k end = none
get_field k (field j v fs) = if j == k then some v else get_field k fs

-- isinstance(value, dict)
unfoldable pub is_object : Json → Bool
is_object (object _) = true
is_object _ = false

-- value.get(key). On a value that is no dict Python raises AttributeError; the engine refuses such
-- parameters before it reads them.
unfoldable pub get_key : Json → String → Option Json
unfolding get_field
get_key (object fs) k = get_field k fs
get_key _ k = none

-- o is True
unfoldable pub is_true : Option Json → Bool
is_true (some (bool true)) = true
is_true _ = false

-- bool(o): the truth value of a value, or of None
unfoldable pub truthy : Option Json → Bool
truthy none = false
truthy (some null) = false
truthy (some (bool b)) = b
truthy (some (int zero)) = false
truthy (some (int (suc n))) = true
truthy (some (negative n)) = true
truthy (some (float s)) = not (s == "0.0" || s == "-0.0")
truthy (some (str s)) = not (s == "")
truthy (some (array nil)) = false
truthy (some (array (cons v vs))) = true
truthy (some (object end)) = false
truthy (some (object (field k v fs))) = true

-- d[key] = value
unfoldable pub set_field : String → Json → Fields → Fields
set_field k v end = field k v end
set_field k v (field j w fs) = if j == k then field k v fs else field j w (set_field k v fs)

-- {**fs, **gs}
unfoldable pub merge : Fields → Fields → Fields
unfolding set_field
merge fs end = fs
merge fs (field k v gs) = merge (set_field k v fs) gs

-- d.get(key), if it is a text
unfoldable pub text_at : String → Json → Option String
unfolding get_key get_field
text_at k v = elim (get_key v k) [ some (str s) ↦ some s | _ ↦ none ]

-- d.get(key), if it is an integer from 0
unfoldable pub number_at : String → Json → Option ℕ
unfolding get_key get_field
number_at k v = elim (get_key v k) [ some (int n) ↦ some n | _ ↦ none ]

-- d.get(key), if it is a bool
unfoldable pub flag_at : String → Json → Option Bool
unfolding get_key get_field
flag_at k v = elim (get_key v k) [ some (bool b) ↦ some b | _ ↦ none ]

-- d.get(key), if it is a dict
unfoldable pub fields_at : String → Json → Option Fields
unfolding get_key get_field
fields_at k v = elim (get_key v k) [ some (object fs) ↦ some fs | _ ↦ none ]

-- d.get(key), if it is a list
unfoldable pub items_at : String → Json → Option Items
unfolding get_key get_field
items_at k v = elim (get_key v k) [ some (array vs) ↦ some vs | _ ↦ none ]

-- the texts of a list of texts
unfoldable pub texts_of : Items → Option (List String)
texts_of nil = some []
texts_of (cons (str s) vs) = elim (texts_of vs) [ none ↦ none | some rest ↦ some (s ∷ rest) ]
texts_of (cons _ vs) = none

-- a list of texts
unfoldable pub text_items : List String → Items
text_items [] = nil
text_items (s ∷ rest) = cons (str s) (text_items rest)
