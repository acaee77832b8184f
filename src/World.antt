-- ===== src/World.antt =====
-- The state of the control plane: the database, with the number of identifiers drawn and of clock
-- readings made so far. A reading that only fills a field which the records leave out is not counted.
pub mod Reading
use noble_cascade.Errors.{Exec, ok, pure}
use noble_cascade.Platform.{Platform}
use noble_cascade.Prelude.{Option, String, concat, none, some, ℕ, ◌+◌}
use noble_cascade.Store.{Store}

pub record World : Type 0 where
  pub store : Store
  pub draws : ℕ
  pub readings : ℕ

-- new_id(kind) of noble/models.py
unfoldable pub new_id : Platform → String → Exec World String
new_id os kind w =
    (ok (concat kind (concat "-" (os.hex w.draws))), record w { draws = w.draws + 1 })

-- utcnow()
unfoldable pub utcnow : Platform → Exec World ℕ
utcnow os w = (ok (os.clock w.readings), record w { readings = w.readings + 1 })

-- now or utcnow()
unfoldable pub moment_of : Platform → Option ℕ → Exec World ℕ
unfolding utcnow
moment_of os none = utcnow os
moment_of os (some now) = pure now

-- a method of the database
abbrev pub on_store : {A : Type 0} → Exec Store A → Exec World A
on_store m w = let (r, s') = m w.store in (r, record w { store = s' })

-- a look into the database
abbrev pub from_store : {A : Type 0} → (Store → A) → Exec World A
from_store f w = (ok (f w.store), w)
