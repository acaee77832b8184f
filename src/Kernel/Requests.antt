-- ===== src/Kernel/Requests.antt =====
-- What a request must be for the kernel to take it up.
use noble_cascade.Authorization.{is_identity}
use noble_cascade.Errors.{ok}
use noble_cascade.Kernel.{KernelDecision, is_hex, is_request_id, validate_request}
use noble_cascade.Models.{SecurityRequest, is_object}
use noble_cascade.Prelude.{
  All, Bool-cases, List, Option, String, [], all, ap, arith, codes, drop, eq_iff, given, inl, inr,
  is_some, leb, length, none, refl, some, starts_with, true, ℕ, ◌&&◌, ◌++◌, ◌∷◌, ◌≡◌, ◌≢◌, ◌≤◌, ◌⊎◌,
}

-- a digit from 0 to 9, or a letter from a to f
abbrev pub IsHexCode : ℕ → Type 0
IsHexCode c = ((48 ≤ c) × (c ≤ 57)) ⊎ ((97 ≤ c) × (c ≤ 102))

-- "req-" and 32 hexadecimal digits in lower case
pub record NamesRequest (s : String) : Type 0 where
  pub digits : List ℕ
  pub shape : codes s ≡ codes "req-" ++ digits
  pub many : length digits ≡ 32
  pub hexadecimal : All IsHexCode digits

-- The request names the local actor, an action and a tool, and its identifier is well formed.
pub record WellFormed (actor : String) (request : SecurityRequest) : Type 0 where
  pub requester : request.requester ≡ actor
  pub identity : is_identity request.requester ≡ true
  pub request_id : NamesRequest request.request_id
  pub action : request.action ≢ ""
  pub tool : (name : String) × (request.tool ≡ some name) × (name ≢ "")
  pub parameters : is_object request.parameters ≡ true

is_hex-IsHexCode : (c : ℕ) → is_hex c ≡ true → IsHexCode c
unfolding is_hex
is_hex-IsHexCode c h = elim (Bool-cases (leb 48 c && leb c 57)) [
  | inl e ↦ inl (ground (arith, e), ground (arith, e))
  | inr e ↦ inr (ground (arith, e, h), ground (arith, e, h))
]

all_hex-All : (cs : List ℕ) → all is_hex cs ≡ true → All IsHexCode cs
unfolding all
all_hex-All [] h = tt
all_hex-All (c ∷ cs) h =
    (is_hex-IsHexCode c (ground (arith, h)), all_hex-All cs (ground (arith, h)))

starts_with-drop :
    (cs : List ℕ) (a b c d : ℕ)
    → starts_with cs (a ∷ b ∷ c ∷ d ∷ []) ≡ true
    → cs ≡ a ∷ b ∷ c ∷ d ∷ drop 4 cs
unfolding starts_with
starts_with-drop [] a b c d h = absurd (ground (arith, h))
starts_with-drop (w ∷ []) a b c d h = absurd (ground (arith, h))
starts_with-drop (w ∷ x ∷ []) a b c d h = absurd (ground (arith, h))
starts_with-drop (w ∷ x ∷ y ∷ []) a b c d h = absurd (ground (arith, h))
starts_with-drop (w ∷ x ∷ y ∷ z ∷ cs) a b c d h = ground (arith, h)

is_request_id-NamesRequest : (s : String) → is_request_id s ≡ true → NamesRequest s
unfolding is_request_id
is_request_id-NamesRequest s h =
    let cs = codes s in
    let shape = starts_with-drop cs 114 101 113 45 (ground (arith, h)) in
    record {
      digits = drop 4 cs;
      shape = shape;
      many = ground (arith, h, ap length shape);
      hexadecimal = all_hex-All (drop 4 cs) (ground (arith, h));
    }

given_tool : (o : Option String) → is_some (given o) ≡ true → (s : String) × (o ≡ some s) × (s ≢ "")
given_tool none h = absurd (ground arith)
given_tool (some s) h = (s, refl, λ e. ground (arith, (eq_iff s "").1 e))

-- A request that validation accepts comes from the local actor and is well formed, and the decision
-- says so.
pub validate_request-WellFormed :
    (actor : String) (request : SecurityRequest) (d : KernelDecision)
    → validate_request actor request ≡ ok d
    → WellFormed actor request × (d.allowed ≡ true)
unfolding validate_request
validate_request-WellFormed actor request d h = (
  record {
    requester = (eq_iff request.requester actor).0 (ground arith);
    identity = ground arith;
    request_id = is_request_id-NamesRequest request.request_id (ground arith);
    action = λ e. ground (arith, (eq_iff request.action "").1 e);
    tool = given_tool request.tool (ground arith);
    parameters = ground arith;
  },
  ground arith,
)
