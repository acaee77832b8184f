-- ===== src/Prelude/Text.antt =====
-- Text: membership tests on native strings, and the scans of Python's `str` methods that walk a
-- text, over its code points.
use Prim.Native.Char.{code}
use Prim.Native.Nat.{suc, zero, ℕ, ◌%◌, ◌+◌, ◌/◌, ◌<◌, ◌≤◌}
use Prim.Native.String.{String, ◌++◌ as ◌s++◌}
use mathlib.Core.Bool.{Bool, false, true, ◌&&◌, ◌||◌}
use mathlib.Core.List.{List, [], reverse, ◌++◌, ◌∷◌}
use mathlib.Core.Logic.{inl, inr}
use mathlib.Core.Option.{Option, none, some}
use mathlib.Core.Path.{refl, subst, ◌≡◌}
use native.Mathlib.Omega.{arith}
use noble_cascade.Prelude.Lists.{all, any}
use noble_cascade.Prelude.Tests.{Bool-cases, if◌then◌else◌, leb, ltb}
use text.Mathlib.Text.{◌==◌}
use text.Mathlib.TextEquality.{eq_iff}
use text.Mathlib.TextPositions.{eq_refl}

-- s + t
abbrev pub concat : String → String → String
concat s t = s s++ t

-- `s in xs`, for a collection of texts
unfoldable pub contains : List String → String → Bool
contains [] s = false
contains (x ∷ xs) s = x == s || contains xs s

abbrev pub eqb : ℕ → ℕ → Bool
eqb a b = leb a b && leb b a

pub eqb→eq : (a b : ℕ) → eqb a b ≡ true → a ≡ b
eqb→eq a b h = ground arith

abbrev pub codes : String → List ℕ
codes String.[] = []
codes (String.◌∷◌ c s) = code c ∷ codes s

-- s == t
unfoldable pub same_codes : List ℕ → List ℕ → Bool
same_codes [] [] = true
same_codes (a ∷ s) (b ∷ t) = eqb a b && same_codes s t
same_codes _ _ = false

-- s.startswith(t)
unfoldable pub starts_with : List ℕ → List ℕ → Bool
starts_with s [] = true
starts_with [] (b ∷ t) = false
starts_with (a ∷ s) (b ∷ t) = eqb a b && starts_with s t

-- s.endswith(t)
unfoldable pub ends_with : List ℕ → List ℕ → Bool
unfolding starts_with
ends_with s t = starts_with (reverse s) (reverse t)

-- s.lower(), on ASCII letters; other characters are left alone
unfoldable pub lower : List ℕ → List ℕ
lower [] = []
lower (c ∷ s) = (if leb b'A' c && leb c b'Z' then c + 32 else c) ∷ lower s

-- s.lstrip(c), of the one character `c`
unfoldable pub lstrip : ℕ → List ℕ → List ℕ
lstrip c [] = []
lstrip c (a ∷ s) = let rest = lstrip c s in if eqb a c then rest else a ∷ s

-- s.rstrip(c)
unfoldable pub rstrip : ℕ → List ℕ → List ℕ
unfolding lstrip
rstrip c s = reverse (lstrip c (reverse s))

-- s.count(c)
unfoldable pub count_code : ℕ → List ℕ → ℕ
count_code c [] = 0
count_code c (a ∷ s) = let rest = count_code c s in if eqb a c then suc rest else rest

pub same_codes_refl : (s : List ℕ) → same_codes s s ≡ true
unfolding same_codes
same_codes_refl [] = refl
same_codes_refl (a ∷ s) = ground (arith, same_codes_refl s)

pub same_codes→eq : (s t : List ℕ) → same_codes s t ≡ true → s ≡ t
unfolding same_codes
same_codes→eq [] [] h = refl
same_codes→eq [] (b ∷ t) h = ground arith
same_codes→eq (a ∷ s) [] h = ground arith
same_codes→eq (a ∷ s) (b ∷ t) h = ground (arith, same_codes→eq s t)

pub starts_with-append : (s t : List ℕ) → starts_with (s ++ t) s ≡ true
unfolding starts_with
starts_with-append [] t = refl
starts_with-append (a ∷ s) t = ground (arith, starts_with-append s t)

-- an optional text that is not empty: the texts for which `if text:` holds
abbrev pub given : Option String → Option String
given none = none
given (some s) = if s == "" then none else some s

pub contains-cons :
    (x : String) (xs : List String) (s : String) → contains xs s ≡ true → contains (x ∷ xs) s ≡ true
unfolding contains
contains-cons x xs s h = ground arith

-- what holds of every member
pub all-contains :
    (p : String → Bool) (xs : List String) (s : String)
    → all p xs ≡ true
    → contains xs s ≡ true
    → p s ≡ true
unfolding all contains
all-contains p [] s a h = cc
all-contains p (x ∷ xs) s a h = elim (Bool-cases (x == s)) [
  | inl e ↦ subst (λ t. p t ≡ true) ((eq_iff x s).0 e) (ground arith)
  | inr n ↦ all-contains p xs s (ground arith) (ground arith)
]

pub all-intro :
    (p : String → Bool) (xs : List String)
    → ((s : String) → contains xs s ≡ true → p s ≡ true)
    → all p xs ≡ true
unfolding all contains
all-intro p [] h = refl
all-intro p (x ∷ xs) h =
    let later = all-intro p xs (λ s m. h s (contains-cons x xs s m)) in
    ground (arith, h x, eq_refl x)

-- a member that the test finds
pub any-contains :
    (p : String → Bool) (xs : List String)
    → any p xs ≡ true
    → (s : String) × (contains xs s ≡ true) × (p s ≡ true)
unfolding any contains
any-contains p [] h = cc
any-contains p (x ∷ xs) h = elim (Bool-cases (p x)) [
  | inl found ↦ (x, ground (arith, eq_refl x), found)
  | inr missed ↦
      let (s, m, found) = any-contains p xs (ground arith) in (s, contains-cons x xs s m, found)
]

-- no member passes a test that `any` does not find passed
pub any-none :
    (p : String → Bool) (xs : List String) (s : String)
    → any p xs ≡ false
    → contains xs s ≡ true
    → p s ≡ false
unfolding any contains
any-none p [] s a h = cc
any-none p (x ∷ xs) s a h = elim (Bool-cases (x == s)) [
  | inl e ↦ subst (λ t. p t ≡ false) ((eq_iff x s).0 e) (ground arith)
  | inr n ↦ any-none p xs s (ground arith) (ground arith)
]

pub none-any :
    (p : String → Bool) (xs : List String)
    → ((s : String) → contains xs s ≡ true → p s ≡ false)
    → any p xs ≡ false
unfolding any contains
none-any p [] h = refl
none-any p (x ∷ xs) h =
    let later = none-any p xs (λ s m. h s (contains-cons x xs s m)) in
    ground (arith, h x, eq_refl x)

-- the character of a digit
abbrev digit : ℕ → String
digit zero = "0"
digit (suc zero) = "1"
digit (suc (suc zero)) = "2"
digit (suc (suc (suc zero))) = "3"
digit (suc (suc (suc (suc zero)))) = "4"
digit (suc (suc (suc (suc (suc zero))))) = "5"
digit (suc (suc (suc (suc (suc (suc zero)))))) = "6"
digit (suc (suc (suc (suc (suc (suc (suc zero))))))) = "7"
digit (suc (suc (suc (suc (suc (suc (suc (suc zero)))))))) = "8"
digit _ = "9"

-- the digits before `acc`, for as many as the fuel allows
decimal_from : ℕ → ℕ → String → String
decimal_from zero n acc = acc
decimal_from (suc fuel) n acc =
    let longer = concat (digit (n % 10)) acc in
    let rest = decimal_from fuel (n / 10) longer in if ltb n 10 then longer else rest

-- str(n); a number has no more digits than its value, plus one
unfoldable pub decimal : ℕ → String
unfolding decimal_from
decimal n = decimal_from (suc n) n ""

tenth_smaller : (n : ℕ) → ltb n 10 ≡ false → n / 10 < n
tenth_smaller n h = let big : 10 ≤ n = ground (arith, h) in omega arith

-- More fuel than the number itself changes nothing: the digits are all written.
decimal_from-fuel :
    (fuel more n : ℕ) (acc : String)
    → n < fuel
    → fuel ≤ more
    → decimal_from more n acc ≡ decimal_from fuel n acc
unfolding decimal_from
decimal_from-fuel zero more n acc small le = absurd (ground (arith, small))
decimal_from-fuel (suc fuel) zero n acc small le = absurd (ground (arith, le))
decimal_from-fuel (suc fuel) (suc more) n acc small le = elim (Bool-cases (ltb n 10)) [
  | inl last ↦ ground (arith, last)
  | inr longer ↦
      let smaller = tenth_smaller n longer in
      ground (
        arith,
        longer,
        decimal_from-fuel fuel more (n / 10) (concat (digit (n % 10)) acc)
            (ground (arith, smaller, small)) (ground (arith, le)),
      )
]

-- s.split(c), of the one character `c`
unfoldable pub split_on : ℕ → List ℕ → List (List ℕ)
split_on c [] = [] ∷ []
split_on c (a ∷ s) = elim (split_on c s) [
  | [] ↦ [] ∷ []
  | part ∷ parts ↦ if eqb a c then [] ∷ part ∷ parts else (a ∷ part) ∷ parts
]

-- part in parts
unfoldable pub has_part : List (List ℕ) → List ℕ → Bool
unfolding same_codes
has_part [] part = false
has_part (p ∷ ps) part = same_codes p part || has_part ps part

-- s <= t, by the code points
unfoldable pub text_le : List ℕ → List ℕ → Bool
text_le [] t = true
text_le (a ∷ s) [] = false
text_le (a ∷ s) (b ∷ t) = ltb a b || eqb a b && text_le s t

unfoldable pub insert_text : String → List String → List String
unfolding text_le
insert_text s [] = s ∷ []
insert_text s (t ∷ rest) =
    let later = insert_text s rest in
    if text_le (codes s) (codes t) then s ∷ t ∷ rest else t ∷ later

-- sorted(xs)
unfoldable pub sort_texts : List String → List String
unfolding insert_text
sort_texts [] = []
sort_texts (s ∷ rest) = insert_text s (sort_texts rest)
