-- ===== src/Engine/Leasing.antt =====
-- Lemmas on the lease of a run: which rows `acquire_lease` and `release_lease` of noble/store.py
-- leave in the table.
use mathlib.Core.Path.{subst}
use noble_cascade.Prelude.{
  Bool, Bool-cases, Has, List, Option-cases, String, [], ap, arith, eq_iff, false, inl, inr, keep,
  ltb, not, some, true, ℕ, ◌++◌, ◌==◌, ◌∷◌, ◌≡◌, ◌≢◌, ◌⊎◌,
}
use noble_cascade.Store.{
  LeaseRequest, LeaseRow, Store, acquire_lease, delete_rows, insert_row, lease_key, live_leases,
  new_lease, over_limit, recent_calls, release_lease,
}

pub Has-append : {A : Type 0} (a : A) (xs ys : List A) → Has a (xs ++ ys) → Has a xs ⊎ Has a ys
Has-append a [] ys h = inr h
Has-append a (x ∷ xs) ys (inl e) = inl (inl e)
Has-append a (x ∷ xs) ys (inr h) = elim (Has-append a xs ys h) [
  | inl k ↦ inl (inr k)
  | inr k ↦ inr k
]

kept_first :
    {A : Type 0} (p : A → Bool) (a x : A) (xs : List A)
    → p x ≡ true
    → Has a (x ∷ keep p xs)
    → (Has a (keep p xs) → Has a xs × (p a ≡ true))
    → Has a (x ∷ xs) × (p a ≡ true)
kept_first p a x xs yes_x (inl e) rest = (inl e, subst (λ y. p y ≡ true) e yes_x)
kept_first p a x xs yes_x (inr k) rest = let (there, kept) = rest k in (inr there, kept)

pub Has-keep :
    {A : Type 0} (p : A → Bool) (a : A) (xs : List A) → Has a (keep p xs) → Has a xs × (p a ≡ true)
unfolding keep
Has-keep p a [] h = elim h [ ]
Has-keep p a (x ∷ xs) h = elim (Bool-cases (p x)) [
  | inl yes_x ↦
      let first_or_rest : Has a (x ∷ keep p xs) = rw yes_x at h in
      kept_first p a x xs yes_x first_or_rest (Has-keep p a xs)
  | inr no_x ↦
      let later : Has a (keep p xs) = rw no_x at h in
      let (there, kept) = Has-keep p a xs later in (inr there, kept)
]

-- a row that is inserted, or was there
inserted :
    (row l : LeaseRow) (rows rows' : List LeaseRow)
    → insert_row lease_key row rows ≡ some rows'
    → Has l rows'
    → Has l rows ⊎ (row ≡ l)
unfolding insert_row
inserted row l rows rows' e h =
    let same : rows' ≡ rows ++ row ∷ [] = ground arith in
    last_one (Has-append l rows (row ∷ []) (subst (Has l) same h))
  where
    last_one : Has l rows ⊎ Has l (row ∷ []) → Has l rows ⊎ (row ≡ l)
    last_one (inl k) = inl k
    last_one (inr (inl k)) = inr k
    last_one (inr (inr k)) = elim k [ ]

live_leases-rows :
    (now : ℕ) (rows : List LeaseRow) (l : LeaseRow) → Has l (live_leases now rows) → Has l rows
unfolding live_leases
live_leases-rows now rows l h = (Has-keep (λ (r : LeaseRow). not (ltb r.expires_at now)) l rows h).0

-- A row that stands in the table after acquire_lease was there before, or has the key of the request.
pub acquire_lease-rows :
    (q : LeaseRequest) (now : ℕ) (s : Store) (l : LeaseRow)
    → Has l (acquire_lease q now s).1.active_leases
    → Has l s.active_leases ⊎ (q.lease_id ≡ l.lease_id)
unfolding acquire_lease
acquire_lease-rows q now s l h =
    let calls = recent_calls now s.rate_calls in
    let leases = live_leases now s.active_leases in
    elim (Bool-cases (over_limit q calls leases)) [
      | inl over ↦ inl (rw (acquire_lease, over) at h)
      | inr under ↦ elim (Option-cases (insert_row lease_key (new_lease q now) leases)) [
        | inl e ↦ inl (rw (acquire_lease, under, e) at h)
        | inr (rows, e) ↦
            let stored : Has l rows = rw (acquire_lease, under, e) at h in
            placed (inserted (new_lease q now) l leases rows e stored)
      ]
    ]
  where
    placed :
        Has l (live_leases now s.active_leases) ⊎ (new_lease q now ≡ l)
        → Has l s.active_leases ⊎ (q.lease_id ≡ l.lease_id)
    placed (inl k) = inl (live_leases-rows now s.active_leases l k)
    placed (inr e) = inr (ap (λ (r : LeaseRow). r.lease_id) e)

-- A row that stands in the table after release_lease was there before, and has another key.
pub release_lease-rows :
    (i : String) (s : Store) (l : LeaseRow)
    → Has l (release_lease false i s).1.active_leases
    → Has l s.active_leases × (l.lease_id ≢ i)
unfolding release_lease delete_rows
release_lease-rows i s l h =
    let (there, kept) = Has-keep (λ (r : LeaseRow). not (r.lease_id == i)) l s.active_leases h in
    (there, λ e. ground (arith, eq_iff l.lease_id i, kept))
