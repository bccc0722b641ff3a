-- ===== src/Sleeplock.antt =====
-- xv6-riscv/kernel/sleeplock.c. The inner spinlock is held over straight-line code, so each function
-- is one step. A caller that would have to sleep gets `spins`: its acquiresleep goes on when the
-- lock is free.
use csse332_final_project.Base.{ℕ, Bool, true, false, ◌&&◌, if◌then◌else◌, ◌==◌}
use csse332_final_project.Run.{Cmd, ok, spins}

-- `pid` is the process that holds the lock.
pub record Sleeplock : Type 0 where
  pub locked : Bool
  pub pid : ℕ

abbrev pub initsleeplock : Sleeplock
initsleeplock = record { locked = false; pid = 0 }

abbrev pub acquiresleep : ℕ → Cmd Sleeplock (Unit {0})
acquiresleep me lk = if lk.locked then spins else ok tt (record { locked = true; pid = me })

abbrev pub releasesleep : Sleeplock → Sleeplock
releasesleep lk = record lk { locked = false; pid = 0 }

abbrev pub holdingsleep : ℕ → Sleeplock → Bool
holdingsleep me lk = lk.locked && (lk.pid == me)
