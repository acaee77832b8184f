-- ===== src/Store/Recovery.antt =====
-- The two repairs of RecoveryManager in noble/recovery.py, at the moment `now`; a repair answers with the
-- number of rows that it deleted.
use noble_cascade.Errors.{Exec, ok}
use noble_cascade.Prelude.{List, [], arith, keep, length, refl, ℕ, ◌-◌, ◌∷◌, ◌≡◌, ◌≤◌}
use noble_cascade.Store.Lease.{LeaseRequest, acquire_lease, live_leases, recent_calls}
use noble_cascade.Store.Tables.{LeaseRow, RateCall, Store}

unfoldable pub recover_stalled_leases : ℕ → Exec Store ℕ
unfolding live_leases
recover_stalled_leases now s =
    let leases = live_leases now s.active_leases in
    (ok (length s.active_leases - length leases), record s { active_leases = leases })

unfoldable pub recover_stale_rate_calls : ℕ → Exec Store ℕ
unfolding recent_calls
recover_stale_rate_calls now s =
    let calls = recent_calls now s.rate_calls in
    (ok (length s.rate_calls - length calls), record s { rate_calls = calls })

-- a row that the later sweep keeps is kept by the earlier one
live_leases-live_leases :
    (now t : ℕ) (rows : List LeaseRow)
    → now ≤ t
    → live_leases t (live_leases now rows) ≡ live_leases t rows
unfolding live_leases keep
live_leases-live_leases now t [] le = refl
live_leases-live_leases now t (l ∷ ls) le = ground (arith, le, live_leases-live_leases now t ls le)

recent_calls-recent_calls :
    (now t : ℕ) (rows : List RateCall)
    → now ≤ t
    → recent_calls t (recent_calls now rows) ≡ recent_calls t rows
unfolding recent_calls keep
recent_calls-recent_calls now t [] le = refl
recent_calls-recent_calls now t (c ∷ cs) le =
    ground (arith, le, recent_calls-recent_calls now t cs le)

-- the database after both repairs
abbrev pub recovered : ℕ → Store → Store
recovered now s = (recover_stale_rate_calls now (recover_stalled_leases now s).1).1

swept_answer :
    (q : LeaseRequest) (t : ℕ) (s s' : Store)
    → live_leases t s'.active_leases ≡ live_leases t s.active_leases
    → recent_calls t s'.rate_calls ≡ recent_calls t s.rate_calls
    → (acquire_lease q t s').0 ≡ (acquire_lease q t s).0
unfolding acquire_lease
swept_answer q t s s' leases calls = ground (arith, leases, calls)

-- The repairs change no decision on a lease: whoever asks for one afterwards gets the answer that
-- would have been given without them.
pub recovered_lem :
    (q : LeaseRequest) (now t : ℕ) (s : Store)
    → now ≤ t
    → (acquire_lease q t (recovered now s)).0 ≡ (acquire_lease q t s).0
unfolding recover_stalled_leases recover_stale_rate_calls
recovered_lem q now t s le =
    swept_answer q t s (recovered now s) (live_leases-live_leases now t s.active_leases le)
      (recent_calls-recent_calls now t s.rate_calls le)
