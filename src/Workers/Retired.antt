-- ===== src/Workers/Retired.antt =====
-- Sequences of calls of the registry of noble/worker_identity.py.
use mathlib.Core.Path.{subst}
use noble_cascade.Errors.{builtin, err, ok, runtime_error}
use noble_cascade.Platform.{Platform}
use noble_cascade.Prelude.{
  Bool-cases, List, Option, Option-cases, String, [], ap, arith, concat, eq_iff, false, inl, inr,
  refl, some, sym, ℕ, ◌+◌, ◌==◌, ◌∙◌, ◌∷◌, ◌≡◌, ◌≤◌, ◌⊎◌,
}
use noble_cascade.Store.{
  find_row, find_row-append, find_row-key, find_row-update_ne, find_row-update_self, update_row,
}
use noble_cascade.Workers.{
  Crew, WorkerIdentity, assert_can_execute, create_worker, destroy, destroyed_at, find_worker,
  is_activate, is_active, is_destroyed, persist, retire, retired, set_worker, store_worker,
  worker_key,
}

pub data WorkerCall : Type 0 where
  creates : String → String → List (String × String) → Option String → WorkerCall
  retires destroys : String → WorkerCall

-- the registry after the call, whether it returned or raised
unfoldable pub after_call : Platform → WorkerCall → Crew → Crew
unfolding create_worker retire destroy
after_call os (creates v d t i) c = (create_worker os v d t i c).1
after_call os (retires i) c = (retire os i c).1
after_call os (destroys i) c = (destroy os i c).1

unfoldable pub after_calls : Platform → List WorkerCall → Crew → Crew
unfolding after_call
after_calls os [] c = c
after_calls os (k ∷ ks) c = after_calls os ks (after_call os k c)

-- a worker that is known, and that no longer takes jobs
pub record Withdrawn (i : String) (c : Crew) : Type 0 where
  pub worker : WorkerIdentity
  pub known : find_worker i c ≡ some worker
  pub idle : is_activate worker.lifecycle ≡ false

-- no identifier drawn from now on is the worker's
abbrev pub Unrepeated : Platform → String → Crew → Type 0
Unrepeated os i c =
    (n : ℕ) → c.world.draws ≤ n → (concat "worker" (concat "-" (os.hex n)) == i) ≡ false

find_row-set_worker :
    (i : String) (w : WorkerIdentity) (ws : List WorkerIdentity)
    → (w.worker_id == i) ≡ false
    → find_row worker_key i (set_worker w ws) ≡ find_row worker_key i ws
unfolding set_worker
find_row-set_worker i w ws h = elim (Option-cases (find_row worker_key w.worker_id ws)) [
  | inl e ↦ ground (arith, e, h, find_row-append worker_key i w ws)
  | inr (old, e) ↦ rw (e, set_worker) (find_row-update_ne worker_key w.worker_id i w ws refl h)
]

stored_idle :
    (os : Platform) (i : String) (w : WorkerIdentity) (c : Crew)
    → is_activate w.lifecycle ≡ false
    → (old : WorkerIdentity) → find_worker w.worker_id c ≡ some old
    → Withdrawn i c
    → Withdrawn i (store_worker os w c)
unfolding store_worker find_worker
stored_idle os i w c idle old e h = elim (Bool-cases (w.worker_id == i)) [
  | inl same ↦
      let i_is : w.worker_id ≡ i = ground (arith, same, eq_iff w.worker_id i) in
      record {
        worker = w;
        known =
            ap (λ j. find_row worker_key j (update_row worker_key w.worker_id w c.workers))
              (sym i_is)
            ∙ find_row-update_self worker_key w.worker_id w old c.workers e refl;
        idle = idle;
      }
  | inr other ↦ record {
    worker = h.worker;
    known = find_row-update_ne worker_key w.worker_id i w c.workers refl other ∙ h.known;
    idle = h.idle;
  }
]

-- the worker that is stored is one that the registry had
found_own :
    (j : String) (w : WorkerIdentity) (c : Crew)
    → find_worker j c ≡ some w
    → find_worker w.worker_id c ≡ some w
unfolding find_worker
found_own j w c e =
    ap (λ k. find_row worker_key k c.workers) (find_row-key worker_key j w c.workers e) ∙ e

abbrev Kept : Platform → String → Crew → Crew → Type 0
Kept os i c c' = Withdrawn i c' × (c.world.draws ≤ c'.world.draws)

retire-Kept :
    (os : Platform) (i j : String) (c : Crew) → Withdrawn i c → Kept os i c (retire os j c).1
unfolding retire store_worker persist
retire-Kept os i j c h = elim (Option-cases (find_worker j c)) [
  | inl e ↦ rw (e, retire) (h, ground arith)
  | inr (w, e) ↦ elim (Bool-cases (is_destroyed w.lifecycle)) [
    | inl d ↦ rw (e, d, retire) (h, ground arith)
    | inr d ↦
        let w' = record w { lifecycle = retired } in
        rw (e, d, retire) (stored_idle os i w' c refl w (found_own j w c e) h, ground arith)
  ]
]

destroy-Kept :
    (os : Platform) (i j : String) (c : Crew) → Withdrawn i c → Kept os i c (destroy os j c).1
unfolding destroy store_worker persist find_worker
destroy-Kept os i j c h = elim (Option-cases (find_worker j c)) [
  | inl e ↦ rw (e, destroy) (h, ground arith)
  | inr (w, e) ↦
      let w' = destroyed_at w (os.clock c.world.readings) in
      let read = record c { world = record (c.world) { readings = c.world.readings + 1 } } in
      let same : Withdrawn i read = record { worker = h.worker; known = h.known; idle = h.idle } in
      rw (e, destroy) (stored_idle os i w' read refl w (found_own j w c e) same, ground arith)
]

after_call-Kept :
    (os : Platform) (i : String) (k : WorkerCall) (c : Crew)
    → Unrepeated os i c
    → Withdrawn i c
    → Kept os i c (after_call os k c)
unfolding after_call create_worker persist find_worker
after_call-Kept os i (creates v d t m) c u h = (
  record {
    worker = h.worker;
    known = find_row-set_worker i _ c.workers (u c.world.draws (ground arith)) ∙ h.known;
    idle = h.idle;
  },
  ground arith,
)
after_call-Kept os i (retires j) c u h = retire-Kept os i j c h
after_call-Kept os i (destroys j) c u h = destroy-Kept os i j c h

refused_work :
    (i : String) (c : Crew)
    → Withdrawn i c
    → (is_active i c ≡ false) × (assert_can_execute i c ≡ err (builtin runtime_error))
unfolding is_active assert_can_execute
refused_work i c h = (ground (arith, h.known, h.idle), ground (arith, h.known, h.idle))

-- a call of retire or of destroy that returned
abbrev pub Withdraws : Platform → String → Crew → Crew → Type 0
Withdraws os i c c' =
    (w : WorkerIdentity) × ((retire os i c ≡ (ok w, c')) ⊎ (destroy os i c ≡ (ok w, c')))

stored_self :
    (os : Platform) (i : String) (w old : WorkerIdentity) (c : Crew)
    → is_activate w.lifecycle ≡ false
    → w.worker_id ≡ i
    → find_worker i c ≡ some old
    → Withdrawn i (store_worker os w c)
unfolding store_worker find_worker
stored_self os i w old c idle own e = record {
  worker = w;
  known =
      ap (λ j. find_row worker_key i (update_row worker_key j w c.workers)) own
      ∙ find_row-update_self worker_key i w old c.workers e own;
  idle = idle;
}

own_key : (i : String) (w : WorkerIdentity) (c : Crew) → find_worker i c ≡ some w → w.worker_id ≡ i
unfolding find_worker
own_key i w c e = find_row-key worker_key i w c.workers e

retire-Withdrawn :
    (os : Platform) (i : String) (c c' : Crew) (w : WorkerIdentity)
    → retire os i c ≡ (ok w, c')
    → Withdrawn i c'
unfolding retire
retire-Withdrawn os i c c' w h = elim (Option-cases (find_worker i c)) [
  | inl e ↦ absurd (ground (arith, h, e))
  | inr (old, e) ↦ elim (Bool-cases (is_destroyed old.lifecycle)) [
    | inl d ↦ absurd (ground (arith, h, e, d))
    | inr d ↦
        let w' = record old { lifecycle = retired } in
        let end : store_worker os w' c ≡ c' = ground (arith, h, e, d) in
        subst (Withdrawn i) end (stored_self os i w' old c refl (own_key i old c e) e)
  ]
]

destroy-Withdrawn :
    (os : Platform) (i : String) (c c' : Crew) (w : WorkerIdentity)
    → destroy os i c ≡ (ok w, c')
    → Withdrawn i c'
unfolding destroy find_worker
destroy-Withdrawn os i c c' w h = elim (Option-cases (find_worker i c)) [
  | inl e ↦ absurd (ground (arith, h, e))
  | inr (old, e) ↦
      let w' = destroyed_at old (os.clock c.world.readings) in
      let read = record c { world = record (c.world) { readings = c.world.readings + 1 } } in
      let end : store_worker os w' read ≡ c' = ground (arith, h, e) in
      subst (Withdrawn i) end (stored_self os i w' old read refl (own_key i old c e) e)
]

stays-Withdrawn :
    (os : Platform) (i : String) (calls : List WorkerCall) (c : Crew)
    → Unrepeated os i c
    → Withdrawn i c
    → (is_active i (after_calls os calls c) ≡ false)
      × (assert_can_execute i (after_calls os calls c) ≡ err (builtin runtime_error))
unfolding after_calls
stays-Withdrawn os i [] c u h = refused_work i c h
stays-Withdrawn os i (k ∷ ks) c u h =
    let (h', more) = after_call-Kept os i k c u h in
    stays-Withdrawn os i ks (after_call os k c) (λ n le. u n (ground (arith, le, more))) h'

-- Once a call of retire or of destroy has returned, the worker that it names never takes a job again,
-- whatever the registry is asked for afterwards, as long as no new identifier repeats its own.
pub never_active_again :
    (os : Platform) (i : String) (calls : List WorkerCall) (c c' : Crew)
    → Withdraws os i c c'
    → Unrepeated os i c'
    → (is_active i (after_calls os calls c') ≡ false)
      × (assert_can_execute i (after_calls os calls c') ≡ err (builtin runtime_error))
never_active_again os i calls c c' (w, inl h) u =
    stays-Withdrawn os i calls c' u (retire-Withdrawn os i c c' w h)
never_active_again os i calls c c' (w, inr h) u =
    stays-Withdrawn os i calls c' u (destroy-Withdrawn os i c c' w h)
