-- ===== src/Tests/Locks.antt =====
-- The theorems on spinlocks at machines of one and two harts.
use csse332_final_project.Base.{◌≡◌, refl, true, false, update}
use csse332_final_project.Run.{ok, panic, spins}
use csse332_final_project.Spinlock.{free_lock, holding, acquire}
use csse332_final_project.Spinlock.Laws.{acquired}
use csse332_final_project.Spinlock.Harts.{
  Cpu, System, view, commit, acquires, Step, returns, call, acquire-exclusive,
}

abbrev cpu : Cpu
cpu = record { noff = 0; intena = false; intr = true; proc = 0 }

-- Hart 0 holds lock 5.
abbrev harts : System
harts = record {
  locks = update (λ _. free_lock) 5 (record { locked = true; cpu = 1 });
  cpus = update (λ _. cpu) 0 (record cpu { noff = 1; intr = false });
}

-- Hart 1 takes lock 6 meanwhile.
abbrev harts' : System
harts' = commit 1 (acquired 6 (view 1 harts)) harts

step : Step 1 harts harts'
unfolding call acquire
step = returns (acquires 6) (acquired 6 (view 1 harts)) refl

takes_lock : acquire 6 (view 1 harts) ≡ ok tt (acquired 6 (view 1 harts))
unfolding acquire
takes_lock = refl

acquire-exclusive_example : (holding 6 (view 0 harts) ≡ false) × (holding 6 (view 0 harts') ≡ false)
acquire-exclusive_example = acquire-exclusive 1 0 6 harts (acquired 6 (view 1 harts)) takes_lock

-- A hart that takes its own lock again panics, and one that takes another's spins.
takes_twice : acquire 5 (view 0 harts) ≡ panic
unfolding acquire
takes_twice = refl

waits : acquire 5 (view 1 harts) ≡ spins
unfolding acquire
waits = refl
