-- ===== src/World/Reading.antt =====
-- What `now or utcnow()` reads, and what it leaves behind.
use noble_cascade.Errors.{ok}
use noble_cascade.Platform.{Platform}
use noble_cascade.Prelude.{Option, none, refl, some, ℕ, ◌+◌, ◌≡◌}
use noble_cascade.World.{World, moment_of}

-- the reading that `now or utcnow()` takes
abbrev pub moment_at : Platform → Option ℕ → World → ℕ
moment_at os none w = os.clock w.readings
moment_at os (some now) w = now

-- the world after `now or utcnow()`
abbrev pub read_clock : Option ℕ → World → World
read_clock none w = record w { readings = w.readings + 1 }
read_clock (some now) w = w

pub read_clock-store : (now : Option ℕ) (w : World) → (read_clock now w).store ≡ w.store
read_clock-store none w = refl
read_clock-store (some now) w = refl

pub moment_of-reading :
    (os : Platform) (now : Option ℕ) (w : World)
    → moment_of os now w ≡ (ok (moment_at os now w), read_clock now w)
unfolding moment_of
moment_of-reading os none w = refl
moment_of-reading os (some now) w = refl
