-- ===== src/Store/Traffic.antt =====
-- Lemmas on sequences of calls of acquire_lease and release_lease of noble/store.py.
use noble_cascade.Errors.{is_ok, ok}
use noble_cascade.Prelude.{
  All, Bool, List, String, [], arith, count, count-append, count-keep_le, false, if◌then◌else◌,
  keep, keep-append, keep-keep, length, length-append, length-keep_le, ltb, not, refl, true, ℕ,
  ◌++◌, ◌+◌, ◌==◌, ◌∷◌, ◌≡◌, ◌≤◌,
}
use noble_cascade.Store.Lease.{
  LeaseRequest, acquire_lease, is_local_call, is_principal_call, live_leases, minute, new_call,
  new_lease, over_limit, recent_calls, release_lease,
}
use noble_cascade.Store.Limits.{acquire_lease-Granted, acquire_lease-bounds}
use noble_cascade.Store.Rows.{delete_rows, insert_row}
use noble_cascade.Store.Tables.{LeaseRow, RateCall, Store, new_store}

-- A client of the database: a call of acquire_lease at a time, or of release_lease, which the database
-- may refuse.
pub data LeaseOp : Type 0 where
  acquire : LeaseRequest → ℕ → LeaseOp
  release : Bool → String → LeaseOp

-- The database, with the granted calls so far.
pub record Traffic : Type 0 where
  pub store : Store
  pub granted_calls : List RateCall

unfoldable pub step : Traffic → LeaseOp → Traffic
step t (acquire q now) =
    let (r, s') = acquire_lease q now t.store in
    record {
      store = s';
      granted_calls = if is_ok r then t.granted_calls ++ new_call q now ∷ [] else t.granted_calls;
    }
step t (release refused lease_id) = record t { store = (release_lease refused lease_id t.store).1 }

unfoldable pub run_ops : Traffic → List LeaseOp → Traffic
run_ops t [] = t
run_ops t (op ∷ ops) = run_ops (step t op) ops

-- Every request names the same bound on concurrent leases, as the configuration has it.
abbrev pub AtMost : ℕ → LeaseOp → Type 0
AtMost k (acquire q now) = q.max_concurrent ≤ k
AtMost k (release refused lease_id) = Unit

acquire_lease-bounded :
    (k : ℕ) (q : LeaseRequest) (now : ℕ) (s : Store)
    → q.max_concurrent ≤ k
    → length s.active_leases ≤ k
    → length (acquire_lease q now s).1.active_leases ≤ k
unfolding acquire_lease over_limit insert_row
acquire_lease-bounded k q now s a h =
    ground (arith, length-append (live_leases now s.active_leases) (new_lease q now ∷ []))

release_lease-bounded :
    (k : ℕ) (refused : Bool) (lease_id : String) (s : Store)
    → length s.active_leases ≤ k
    → length (release_lease refused lease_id s).1.active_leases ≤ k
unfolding release_lease delete_rows
release_lease-bounded k refused lease_id s h =
    ground (arith, length-keep_le (λ (l : LeaseRow). not (l.lease_id == lease_id)) s.active_leases)

step-bounded :
    (k : ℕ) (t : Traffic) (op : LeaseOp)
    → AtMost k op
    → length t.store.active_leases ≤ k
    → length (step t op).store.active_leases ≤ k
unfolding step
step-bounded k t (acquire q now) a h = acquire_lease-bounded k q now t.store a h
step-bounded k t (release refused lease_id) a h = release_lease-bounded k refused lease_id t.store h

-- If every request names at most the bound `k` on concurrent leases and no more than `k` are active,
-- then no more than `k` are active after any calls, in whatever order.
pub leases_bounded :
    (k : ℕ) (t : Traffic) (ops : List LeaseOp)
    → All (AtMost k) ops
    → length t.store.active_leases ≤ k
    → length (run_ops t ops).store.active_leases ≤ k
unfolding run_ops
leases_bounded k t [] a h = h
leases_bounded k t (op ∷ ops) a h = leases_bounded k (step t op) ops a.1 (step-bounded k t op a.0 h)

-- The times of the acquisitions do not go back.
abbrev pub InOrder : ℕ → List LeaseOp → Type 0
InOrder now [] = Unit
InOrder now (acquire q later ∷ ops) = (now ≤ later) × InOrder later ops
InOrder now (release refused lease_id ∷ ops) = InOrder now ops

-- From `now` on, the table holds every granted call of the last minute.
record Tracks (now : ℕ) (t : Traffic) : Type 0 where
  window :
      (later : ℕ)
      → now ≤ later
      → recent_calls later t.granted_calls ≡ recent_calls later t.store.rate_calls

recent-recent :
    (now later : ℕ) (calls : List RateCall)
    → now ≤ later
    → recent_calls later (recent_calls now calls) ≡ recent_calls later calls
unfolding recent_calls
recent-recent now later calls h =
    keep-keep (λ (c : RateCall). not (ltb (c.called_at + minute) later))
      (λ (c : RateCall). not (ltb (c.called_at + minute) now)) calls (λ c e. ground arith)

recent-append :
    (now : ℕ) (calls more : List RateCall)
    → recent_calls now (calls ++ more) ≡ recent_calls now calls ++ recent_calls now more
unfolding recent_calls
recent-append now calls more =
    keep-append (λ (c : RateCall). not (ltb (c.called_at + minute) now)) calls more

new-Tracks : (now : ℕ) → Tracks now (record { store = new_store; granted_calls = [] })
unfolding new_store recent_calls keep
new-Tracks now = record { window = λ later h. refl }

acquire-Tracks :
    (now : ℕ) (q : LeaseRequest) (at : ℕ) (t : Traffic)
    → now ≤ at
    → Tracks now t
    → Tracks at (step t (acquire q at))
unfolding step acquire_lease insert_row
acquire-Tracks now q at t h k = record {
  window = λ later l. grind (
    arith,
    k.window later (omega arith),
    recent-recent at later t.store.rate_calls l,
    recent-append later t.granted_calls (new_call q at ∷ []),
    recent-append later (recent_calls at t.store.rate_calls) (new_call q at ∷ []),
  );
}

release-Tracks :
    (now : ℕ) (refused : Bool) (lease_id : String) (t : Traffic)
    → Tracks now t
    → Tracks now (step t (release refused lease_id))
unfolding step release_lease
release-Tracks now true lease_id t k = record { window = k.window }
release-Tracks now false lease_id t k = record { window = k.window }

unfoldable pub end_time : ℕ → List LeaseOp → ℕ
end_time now [] = now
end_time now (acquire q later ∷ ops) = end_time later ops
end_time now (release refused lease_id ∷ ops) = end_time now ops

run_ops-Tracks :
    (now : ℕ) (t : Traffic) (ops : List LeaseOp)
    → InOrder now ops
    → Tracks now t
    → Tracks (end_time now ops) (run_ops t ops)
unfolding run_ops end_time
run_ops-Tracks now t [] o k = k
run_ops-Tracks now t (acquire q later ∷ ops) o k =
    run_ops-Tracks later (step t (acquire q later)) ops o.1 (acquire-Tracks now q later t o.0 k)
run_ops-Tracks now t (release refused lease_id ∷ ops) o k =
    run_ops-Tracks now (step t (release refused lease_id)) ops o
      (release-Tracks now refused lease_id t k)

abbrev pub quiet : Traffic
quiet = record { store = new_store; granted_calls = [] }

count-recent_le :
    (now : ℕ) (p : RateCall → Bool) (calls : List RateCall)
    → count p (recent_calls now calls) ≤ count p calls
unfolding recent_calls
count-recent_le now p calls =
    count-keep_le p (λ (c : RateCall). not (ltb (c.called_at + minute) now)) calls

count_window :
    (p : RateCall → Bool) (q : LeaseRequest) (now : ℕ) (t : Traffic) (s' : Store)
    → Tracks now t
    → acquire_lease q now t.store ≡ (ok tt, s')
    → count p (recent_calls now (t.granted_calls ++ new_call q now ∷ [])) ≤ count p s'.rate_calls
count_window p q now t s' k h =
    let g = acquire_lease-Granted q now t.store s' h in
    let c = new_call q now ∷ [] in
    rw (g.calls, recent-append now t.granted_calls c, k.window now (omega arith))
      (omega (
        arith,
        count-append p (recent_calls now t.store.rate_calls) (recent_calls now c),
        count-append p (recent_calls now t.store.rate_calls) c,
        count-recent_le now p c,
      ))

-- Whatever calls came before, in the order of their times: when an acquisition is granted, the
-- principal has made at most `global_per_minute` granted calls in the minute that ends there, and at
-- most `per_minute` of them with this tool on this target, the new one included.
pub rate_window :
    (start : ℕ) (ops : List LeaseOp) (q : LeaseRequest) (now : ℕ) (s' : Store)
    → InOrder start ops
    → end_time start ops ≤ now
    → acquire_lease q now (run_ops quiet ops).store ≡ (ok tt, s')
    → let calls = recent_calls now ((run_ops quiet ops).granted_calls ++ new_call q now ∷ []) in
      (count (is_principal_call q.principal) calls ≤ q.global_per_minute)
      × (count (is_local_call q.principal q.tool q.target) calls ≤ q.per_minute)
rate_window start ops q now s' o e h =
    let t = run_ops quiet ops in
    let k = run_ops-Tracks start quiet ops o (new-Tracks start) in
    let here : Tracks now t = record { window = λ later l. k.window later (omega arith) } in
    let b = acquire_lease-bounds q now t.store s' h in
    (
      omega (arith, count_window (is_principal_call q.principal) q now t s' here h),
      omega (arith, count_window (is_local_call q.principal q.tool q.target) q now t s' here h),
    )
