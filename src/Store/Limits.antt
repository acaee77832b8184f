-- ===== src/Store/Limits.antt =====
-- Lemmas on one call of acquire_lease or release_lease of noble/store.py.
use noble_cascade.Errors.{Raised, err, ok}
use noble_cascade.Prelude.{
  [], arith, count, count-append, false, length, length-append, ℕ, ◌++◌, ◌∷◌, ◌≡◌, ◌≤◌,
}
use noble_cascade.Store.Lease.{
  LeaseRequest, acquire_lease, is_local_call, is_principal_call, live_leases, new_call, new_lease,
  over_limit, recent_calls,
}
use noble_cascade.Store.Rows.{insert_row}
use noble_cascade.Store.Tables.{Store}

-- What a granted lease wrote, and that no limit was reached before it.
pub record Granted (q : LeaseRequest) (now : ℕ) (s s' : Store) : Type 0 where
  pub within :
      over_limit q (recent_calls now s.rate_calls) (live_leases now s.active_leases) ≡ false
  pub calls : s'.rate_calls ≡ recent_calls now s.rate_calls ++ new_call q now ∷ []
  pub leases : s'.active_leases ≡ live_leases now s.active_leases ++ new_lease q now ∷ []

pub acquire_lease-Granted :
    (q : LeaseRequest) (now : ℕ) (s s' : Store)
    → acquire_lease q now s ≡ (ok tt, s')
    → Granted q now s s'
unfolding acquire_lease insert_row
acquire_lease-Granted q now s s' h = ground arith

-- A lease that is granted fits all three limits, the granted one included.
pub acquire_lease-bounds :
    (q : LeaseRequest) (now : ℕ) (s s' : Store)
    → acquire_lease q now s ≡ (ok tt, s')
    → (length s'.active_leases ≤ q.max_concurrent)
      × (count (is_local_call q.principal q.tool q.target) s'.rate_calls ≤ q.per_minute)
      × (count (is_principal_call q.principal) s'.rate_calls ≤ q.global_per_minute)
unfolding over_limit count
acquire_lease-bounds q now s s' h =
    let g = acquire_lease-Granted q now s s' h in
    let kept = recent_calls now s.rate_calls in
    let local = is_local_call q.principal q.tool q.target in
    rw (g.calls, g.leases)
      (ground (
        arith,
        g.within,
        length-append (live_leases now s.active_leases) (new_lease q now ∷ []),
        count-append local kept (new_call q now ∷ []),
        count-append (is_principal_call q.principal) kept (new_call q now ∷ []),
      ))

-- A refusal leaves the database as it was, the expired rows included.
pub acquire_lease-refused :
    (q : LeaseRequest) (now : ℕ) (s s' : Store) {e : Raised}
    → acquire_lease q now s ≡ (err e, s')
    → s' ≡ s
unfolding acquire_lease insert_row
acquire_lease-refused q now s s' h = ground arith
