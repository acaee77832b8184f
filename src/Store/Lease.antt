-- ===== src/Store/Lease.antt =====
-- Rate limits and leases: acquire_lease and release_lease. `timeout` and the clock are microseconds.
use noble_cascade.Errors.{
  Detail, Exec, builtin, err, integrity_error, make, noble, ok, operational_error, rate_limited,
}
use noble_cascade.Prelude.{
  Bool, List, String, [], count, if◌then◌else◌, keep, leb, length, ltb, none, not, some, ℕ, ◌&&◌,
  ◌++◌, ◌+◌, ◌==◌, ◌||◌, ◌∷◌,
}
use noble_cascade.Store.Rows.{delete_rows, insert_row}
use noble_cascade.Store.Tables.{LeaseRow, RateCall, Store}

abbrev pub minute : ℕ
minute = 60000000

-- the grace that a lease has after its timeout
abbrev pub grace : ℕ
grace = 5000000

-- DELETE FROM rate_calls WHERE called_at < timestamp - 60.0
unfoldable pub recent_calls : ℕ → List RateCall → List RateCall
unfolding keep
recent_calls timestamp = keep (λ (c : RateCall). not (ltb (c.called_at + minute) timestamp))

-- DELETE FROM active_leases WHERE expires_at < timestamp
unfoldable pub live_leases : ℕ → List LeaseRow → List LeaseRow
unfolding keep
live_leases timestamp = keep (λ (l : LeaseRow). not (ltb l.expires_at timestamp))

unfoldable pub is_local_call : String → String → String → RateCall → Bool
is_local_call principal tool target c =
    c.principal == principal && c.tool == tool && c.target == target

unfoldable pub is_principal_call : String → RateCall → Bool
is_principal_call principal c = c.principal == principal

-- the arguments of acquire_lease
pub record LeaseRequest : Type 0 where
  pub lease_id : String
  pub principal : String
  pub tool : String
  pub target : String
  pub per_minute : ℕ
  pub global_per_minute : ℕ
  pub max_concurrent : ℕ
  pub timeout : ℕ

abbrev pub lease_key : LeaseRow → String
lease_key l = l.lease_id

-- the test before the ROLLBACK
unfoldable pub over_limit : LeaseRequest → List RateCall → List LeaseRow → Bool
unfolding count is_local_call is_principal_call
over_limit q calls leases =
    leb q.per_minute (count (is_local_call q.principal q.tool q.target) calls)
    || leb q.global_per_minute (count (is_principal_call q.principal) calls)
    || leb q.max_concurrent (length leases)

abbrev pub new_call : LeaseRequest → ℕ → RateCall
new_call q now = record {
  principal = q.principal;
  tool = q.tool;
  target = q.target;
  called_at = now;
}

abbrev pub new_lease : LeaseRequest → ℕ → LeaseRow
new_lease q now = record {
  lease_id = q.lease_id;
  principal = q.principal;
  tool = q.tool;
  target = q.target;
  expires_at = now + q.timeout + grace;
}

-- acquire_lease; on a refusal the deletions are rolled back too
unfoldable pub acquire_lease : LeaseRequest → ℕ → Exec Store (Unit {0})
acquire_lease q now s =
    let calls = recent_calls now s.rate_calls in
    let leases = live_leases now s.active_leases in
    if over_limit q calls leases
    then (
      err (
          noble (
            make rate_limited "rate or concurrency limit exceeded" (
              ("tool", Detail.text q.tool)
              ∷ ("limit", Detail.int q.per_minute)
              ∷ ("max_concurrent", Detail.int q.max_concurrent)
              ∷ []))),
      s,
    )
    else (elim (insert_row lease_key (new_lease q now) leases) [
      | none ↦ (err (builtin integrity_error), s)
      | some rows ↦
          (ok tt, record s { rate_calls = calls ++ new_call q now ∷ []; active_leases = rows })
    ])

-- release_lease, where SQLite refuses the statement or runs it
unfoldable pub release_lease : Bool → String → Exec Store (Unit {0})
release_lease refused lease_id s =
    if refused
    then (err (builtin operational_error), s)
    else (ok tt, record s { active_leases = delete_rows lease_key lease_id s.active_leases })
