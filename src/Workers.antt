-- ===== src/Workers.antt =====
-- noble/worker_identity.py: the registry of workers and their life cycle.
pub mod Retired
use noble_cascade.Errors.{Exec, Result, builtin, err, ok, runtime_error, value_error}
use noble_cascade.Models.{Fields, array, end, field, nil, null, object, str}
use noble_cascade.Platform.{Platform}
use noble_cascade.Prelude.{
  Bool, List, Option, String, [], concat, false, given, if◌then◌else◌, is_nil, keep, none, some,
  true, ℕ, ◌++◌, ◌+◌, ◌∷◌,
}
use noble_cascade.Store.{find_row, put_worker, update_row}
use noble_cascade.World.{World}

pub data WorkerLifecycle : Type 0 where
  build verify sign activate monitor retired destroyed : WorkerLifecycle

unfoldable pub lifecycle_value : WorkerLifecycle → String
lifecycle_value build = "BUILD"
lifecycle_value verify = "VERIFY"
lifecycle_value sign = "SIGN"
lifecycle_value activate = "ACTIVATE"
lifecycle_value monitor = "MONITOR"
lifecycle_value retired = "RETIRE"
lifecycle_value destroyed = "DESTROYED"

-- `tool_run_ids`, which nothing sets, is left out.
pub record WorkerIdentity : Type 0 where
  pub worker_id : String
  pub image_digest : String
  pub runtime_version : String
  pub tool_versions : List (String × String)
  pub creation_time : ℕ
  pub destruction_time : Option ℕ
  pub lifecycle : WorkerLifecycle

-- a dict[str, str] as a JSON object
unfoldable pub text_fields : List (String × String) → Fields
text_fields [] = end
text_fields ((k, v) ∷ rest) = field k (str v) (text_fields rest)

-- WorkerIdentity.to_dict
unfoldable pub worker_dict : Platform → WorkerIdentity → Fields
unfolding text_fields lifecycle_value
worker_dict os w = field "worker_id" (str w.worker_id) (
    field "image_digest" (str w.image_digest) (
      field "runtime_version" (str w.runtime_version) (
        field "tool_versions" (object (text_fields w.tool_versions)) (
          field "creation_time" (str (os.isoformat w.creation_time)) (
            field "destruction_time"
              (elim w.destruction_time [ none ↦ null | some t ↦ str (os.isoformat t) ])
              (field "lifecycle" (str (lifecycle_value w.lifecycle))
                (field "tool_run_ids" (array nil) end)))))))

-- the world, with the dict `_workers` of the registry
pub record Crew : Type 0 where
  pub world : World
  pub workers : List WorkerIdentity

abbrev pub worker_key : WorkerIdentity → String
worker_key w = w.worker_id

-- self._workers[worker_id] = worker
unfoldable pub set_worker : WorkerIdentity → List WorkerIdentity → List WorkerIdentity
unfolding find_row update_row
set_worker w ws = elim (find_row worker_key w.worker_id ws) [
  | none ↦ ws ++ w ∷ []
  | some _ ↦ update_row worker_key w.worker_id w ws
]

-- self._store.put_worker(w.to_dict())
unfoldable pub persist : Platform → WorkerIdentity → World → World
unfolding worker_dict put_worker
persist os w world = record world {
  store = (put_worker w.worker_id (worker_dict os w) world.store).1;
}

-- create_worker, of a registry with a store; `compute_worker_digest` is an argument
unfoldable pub create_worker :
    Platform → String → String → List (String × String) → Option String → Exec Crew WorkerIdentity
unfolding set_worker persist
create_worker os runtime_version computed tool_versions image_digest c =
    let worker : WorkerIdentity = record {
      worker_id = concat "worker" (concat "-" (os.hex c.world.draws));
      image_digest = elim (given image_digest) [ none ↦ computed | some d ↦ d ];
      runtime_version = runtime_version;
      tool_versions =
          if is_nil tool_versions
          then ("static-code-scan", "1.0.0") ∷ ("fixture-sql-verify", "1.0.0") ∷ []
          else tool_versions;
      creation_time = os.clock c.world.readings;
      destruction_time = none;
      lifecycle = activate;
    } in
    let drawn = record (c.world) { draws = c.world.draws + 1; readings = c.world.readings + 1 } in
    (ok worker, record { world = persist os worker drawn; workers = set_worker worker c.workers })

-- get
unfoldable pub find_worker : String → Crew → Option WorkerIdentity
unfolding find_row
find_worker worker_id c = find_row worker_key worker_id c.workers

abbrev pub is_destroyed : WorkerLifecycle → Bool
is_destroyed destroyed = true
is_destroyed _ = false

abbrev pub is_activate : WorkerLifecycle → Bool
is_activate activate = true
is_activate _ = false

-- the worker object with its new fields, in the dict and in the database
unfoldable pub store_worker : Platform → WorkerIdentity → Crew → Crew
unfolding persist update_row
store_worker os w c = record {
  world = persist os w c.world;
  workers = update_row worker_key w.worker_id w c.workers;
}

-- retire
unfoldable pub retire : Platform → String → Exec Crew WorkerIdentity
unfolding find_worker store_worker
retire os worker_id c = elim (find_worker worker_id c) [
  | none ↦ (err (builtin value_error), c)
  | some w ↦ if is_destroyed w.lifecycle then (err (builtin value_error), c) else (
    ok (record w { lifecycle = retired }),
    store_worker os (record w { lifecycle = retired }) c,
  )
]

abbrev pub destroyed_at : WorkerIdentity → ℕ → WorkerIdentity
destroyed_at w t = record w { lifecycle = destroyed; destruction_time = some t }

-- destroy
unfoldable pub destroy : Platform → String → Exec Crew WorkerIdentity
unfolding find_worker store_worker
destroy os worker_id c = elim (find_worker worker_id c) [
  | none ↦ (err (builtin value_error), c)
  | some w ↦
      let w' = destroyed_at w (os.clock c.world.readings) in
      let read = record c { world = record (c.world) { readings = c.world.readings + 1 } } in
      (ok w', store_worker os w' read)
]

-- is_active
unfoldable pub is_active : String → Crew → Bool
unfolding find_worker
is_active worker_id c = elim (find_worker worker_id c) [
  | none ↦ false
  | some w ↦ is_activate w.lifecycle
]

-- list_active
unfoldable pub list_active : Crew → List WorkerIdentity
unfolding keep
list_active c = keep (λ (w : WorkerIdentity). is_activate w.lifecycle) c.workers

-- assert_can_execute
unfoldable pub assert_can_execute : String → Crew → Result (Unit {0})
unfolding find_worker
assert_can_execute worker_id c = elim (find_worker worker_id c) [
  | none ↦ err (builtin runtime_error)
  | some w ↦ if is_activate w.lifecycle then ok tt else err (builtin runtime_error)
]
