-- ===== src/Errors/Keeps.antt =====
-- Invariants of calls that may raise, with a rule for each way in which a call is put together.
use noble_cascade.Errors.Calls.{
  Exec, Result, Result-cases, err, lift, ok, pure, raise, raise_if, refuse, ◌>>=◌, ◌>>◌,
}
use noble_cascade.Errors.Classes.{Raised}
use noble_cascade.Prelude.{Bool, Option, false, if◌then◌else◌, inl, inr, none, some, true}

-- whatever the call does, `P` holds of the state that it leaves
pub record Keeps {S A : Type 0} (P : S → Type 0) (m : Exec S A) : Type 0 where
  pub after : (s : S) → P s → P (m s).1

-- what holds when the call returns, and what holds when it raises
abbrev pub Post : {S A : Type 0} → (S → Type 0) → (A → S → Type 0) → Result A → S → Type 0
Post E Q (ok a) s = Q a s
Post E Q (err e) s = E s

-- started in `P`, the call returns in `Q` or raises in `E`
pub record Triple {S A : Type 0} (P E : S → Type 0) (Q : A → S → Type 0) (m : Exec S A)
    : Type 0 where
  pub ends : (s : S) → P s → Post E Q (m s).0 (m s).1

module _ {S : Type 0} (P : S → Type 0) where
  pub Keeps-bind :
      {A B : Type 0} (m : Exec S A) (f : A → Exec S B)
      → Keeps P m
      → ((a : A) → Keeps P (f a))
      → Keeps P (m >>= f)
  Keeps-bind m f first later = record {
    after = λ s h. elim (Result-cases (m s).0) [
      | inl (a, e) ↦ rw (e, ◌>>=◌) ((later a).after (m s).1 (first.after s h))
      | inr (x, e) ↦ rw (e, ◌>>=◌) (first.after s h)
    ];
  }

  pub Keeps-then :
      {A B : Type 0} (m : Exec S A) (k : Exec S B) → Keeps P m → Keeps P k → Keeps P (m >> k)
  Keeps-then m k first later = Keeps-bind m (λ _. k) first (λ _. later)

  pub Keeps-pure : {A : Type 0} (a : A) → Keeps P (pure a)
  Keeps-pure a = record { after = λ s h. h }

  pub Keeps-raise : {A : Type 0} (e : Raised) → Keeps P (raise {A = A} e)
  Keeps-raise e = record { after = λ s h. h }

  pub Keeps-lift : {A : Type 0} (x : Result A) → Keeps P (lift x)
  Keeps-lift x = record { after = λ s h. h }

  pub Keeps-raise_if : (b : Bool) (e : Raised) → Keeps P (raise_if b e)
  Keeps-raise_if b e = record { after = λ s h. h }

  pub Keeps-refuse : (o : Option Raised) → Keeps P (refuse o)
  Keeps-refuse none = record { after = λ s h. h }
  Keeps-refuse (some e) = record { after = λ s h. h }

  -- a guard, and what stands behind it
  pub Keeps-if :
      {A : Type 0} (b : Bool) (m n : Exec S A)
      → Keeps P m
      → Keeps P n
      → Keeps P (if b then m else n)
  Keeps-if true m n h k = h
  Keeps-if false m n h k = k

module _ {S : Type 0} (P E : S → Type 0) where
  -- an invariant as the condition before and after
  pub Triple-Keeps :
      {A : Type 0} (m : Exec S A) → ((s : S) → P s → E s) → Keeps P m → Triple P E (λ (_ : A). P) m
  Triple-Keeps m weaken kept = record {
    ends = λ s h. elim (Result-cases (m s).0) [
      | inl (a, e) ↦ rw e (kept.after s h)
      | inr (x, e) ↦ rw e (weaken (m s).1 (kept.after s h))
    ];
  }

  pub Triple-bind :
      {A B : Type 0} {Q : A → S → Type 0} {R : B → S → Type 0} (m : Exec S A) (f : A → Exec S B)
      → Triple P E Q m
      → ((a : A) → Triple (Q a) E R (f a))
      → Triple P E R (m >>= f)
  Triple-bind {A} {B} {Q} {R} m f first later = record {
    ends = λ s h. elim (Result-cases (m s).0) [
      | inl (a, e) ↦ rw (e, ◌>>=◌) ((later a).ends (m s).1 (rw e at (first.ends s h)))
      | inr (x, e) ↦ rw (e, ◌>>=◌) (rw e at (first.ends s h))
    ];
  }
