-- ===== src/Errors/Calls.antt =====
-- A call that reads and writes a state and may raise. What was written before a raise stays.
use noble_cascade.Errors.Classes.{ErrorClass, Raised, make, noble}
use noble_cascade.Prelude.{
  Bool, Option, String, [], false, if◌then◌else◌, inl, inr, none, refl, some, true, ◌≡◌, ◌⊎◌,
}

pub data Result {ℓ} (A : Type ℓ) : Type ℓ where
  ok : A → Result A
  err : Raised → Result A

abbrev pub Exec {ℓ} : Type ℓ → Type ℓ → Type ℓ
Exec S A = S → Result A × S

-- raise cls(message)
abbrev pub fault : ErrorClass → String → Raised
fault c message = noble (make c message [])

module _ {ℓ} {S A : Type ℓ} where
  abbrev pub pure : A → Exec S A
  pure a s = (ok a, s)

  abbrev pub raise : Raised → Exec S A
  raise e s = (err e, s)

  abbrev pub lift : Result A → Exec S A
  lift r s = (r, s)

  abbrev pub gets : (S → A) → Exec S A
  gets f s = (ok (f s), s)

infixl 5 ◌>>=◌ ◌>>◌
abbrev pub ◌>>=◌ {ℓ} : {S A B : Type ℓ} → Exec S A → (A → Exec S B) → Exec S B
◌>>=◌ m f s = let (r, s') = m s in elim r [ ok a ↦ f a s' | err e ↦ (err e, s') ]

abbrev pub ◌>>◌ {ℓ} : {S A B : Type ℓ} → Exec S A → Exec S B → Exec S B
m >> k = m >>= λ _. k

module _ {S : Type 0} where
  -- if test: raise e
  abbrev pub raise_if : Bool → Raised → Exec S (Unit {0})
  raise_if b e s = (if b then err e else ok tt, s)

module _ {S : Type 0} where
  -- the first refusal of a chain of guards
  abbrev pub refuse : Option Raised → Exec S (Unit {0})
  refuse none s = (ok tt, s)
  refuse (some e) s = (err e, s)

-- raise cls(message), as the answer of a guard
abbrev pub refusal : ErrorClass → String → Option Raised
refusal c message = some (fault c message)

-- the answer of the first guard that refuses
abbrev pub or_else : Option Raised → Option Raised → Option Raised
or_else none o = o
or_else (some e) o = some e

-- a value that a guard lets pass
abbrev pub unless {ℓ} : {A : Type ℓ} → Option Raised → Result A → Result A
unless none r = r
unless (some e) r = err e

abbrev pub is_ok {ℓ} : {A : Type ℓ} → Result A → Bool
is_ok (ok _) = true
is_ok (err _) = false

-- How a call can end, for a split that keeps the equation.
pub call_cases {ℓ} :
    {S A : Type ℓ} (r : Result A × S)
    → ((a : A) × (s : S) × (r ≡ (ok a, s))) ⊎ ((e : Raised) × (s : S) × (r ≡ (err e, s)))
call_cases (ok a, s) = inl (a, s, refl)
call_cases (err e, s) = inr (e, s, refl)

pub Result-cases {ℓ} :
    {A : Type ℓ} (r : Result A) → ((a : A) × (r ≡ ok a)) ⊎ ((e : Raised) × (r ≡ err e))
Result-cases (ok a) = inl (a, refl)
Result-cases (err e) = inr (e, refl)
