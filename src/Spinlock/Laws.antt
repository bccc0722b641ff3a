-- ===== src/Spinlock/Laws.antt =====
-- What acquire and release do to a machine, and that they undo one another.
use csse332_final_project.Base.{
  ℕ, ◌+◌, ◌-◌, ◌<◌, ◌≡◌, true, false, ◌&&◌, if◌then◌else◌, ◌==◌, update, arith,
}
use csse332_final_project.Run.{ok, panic, spins, ◌>>◌}
use csse332_final_project.Spinlock.{Machine, free_lock, holding, acquire, release}

-- Interrupts are off wherever push_off is in force, and a free lock has no holder.
pub record IsSane (m : Machine) : Type 0 where
  pub quiet : 0 < m.noff → m.intr ≡ false
  pub ownerless : (l : ℕ) → (m.locks l).locked ≡ false → (m.locks l).cpu ≡ 0

-- The machine after a successful acquire.
abbrev pub acquired : ℕ → Machine → Machine
acquired l m = record m {
  locks = update m.locks l (record { locked = true; cpu = m.self });
  noff = m.noff + 1;
  intena = if m.noff == 0 then m.intr else m.intena;
  intr = false;
}

-- The machine after a successful release.
abbrev pub released : ℕ → Machine → Machine
released l m = record m {
  locks = update m.locks l free_lock;
  noff = m.noff - 1;
  intr = if ((m.noff - 1) == 0) && m.intena then true else m.intr;
}

pub acquire-ok :
    (l : ℕ) (m : Machine) → (m.locks l).locked ≡ false → acquire l m ≡ ok tt (acquired l m)
unfolding acquire
acquire-ok l m free = ground arith

pub release-ok :
    (l : ℕ) (m : Machine)
    → holding l m ≡ true
    → m.intr ≡ false
    → 0 < m.noff
    → release l m ≡ ok tt (released l m)
unfolding release
release-ok l m held off n = ground arith

-- acquire answers in one of three ways, by the state of the lock alone: it takes a free lock,
-- panics where this hart holds it, and spins where another does.
pub acquire_cases :
    (l : ℕ) (m : Machine)
    → acquire l m ≡ (
        if (m.locks l).locked
        then if (m.locks l).cpu == m.self then panic else spins
        else ok tt (acquired l m))
unfolding acquire
acquire_cases l m = ground arith

-- Taking a free lock and releasing it leaves every lock, the nesting depth and the interrupt
-- enable as they were.
pub release-acquire :
    (l : ℕ) (m : Machine)
    → IsSane m
    → (m.locks l).locked ≡ false
    → (t : Machine) × ((acquire l >> release l) m ≡ ok tt t)
      × ((k : ℕ) → t.locks k ≡ m.locks k)
      × (t.noff ≡ m.noff)
      × (t.intr ≡ m.intr)
unfolding acquire release
release-acquire l m sane free = (
  released l (acquired l m),
  ground arith,
  λ k. ground (arith, sane.ownerless l),
  omega arith,
  ground (arith, sane.quiet),
)
