-- ===== src/Spinlock.antt =====
-- xv6-riscv/kernel/spinlock.c: spinlocks, and the nesting of push_off and pop_off on one hart.
-- A lock is named by a number. `Machine` is what the code running on one hart sees: all locks, and
-- the struct cpu of that hart, which no other hart writes.
pub mod Laws
pub mod Harts
use csse332_final_project.Base.{
  ℕ, ◌+◌, ◌-◌, ◌<◌, ◌≡◌, Bool, true, false, not, ◌&&◌, if◌then◌else◌, ltb, ◌==◌, update,
}
use csse332_final_project.Run.{Cmd, ok, panic, spins, pure, ◌>>=◌, ◌>>◌}

-- `cpu` is 0 for a null pointer, and else the address of the holder's struct cpu.
pub record Lock : Type 0 where
  pub locked : Bool
  pub cpu : ℕ

-- `intr` is the SIE bit of sstatus, `self` the value of mycpu(), `proc` that of mycpu()->proc.
pub record Machine : Type 0 where
  pub locks : ℕ → Lock
  pub self : ℕ
  pub noff : ℕ
  pub intena : Bool
  pub intr : Bool
  pub proc : ℕ

abbrev pub free_lock : Lock
free_lock = record { locked = false; cpu = 0 }

unfoldable pub initlock : ℕ → Cmd Machine (Unit {0})
initlock l m = ok tt (record m { locks = update m.locks l free_lock })

unfoldable pub holding : ℕ → Machine → Bool
holding l m = (m.locks l).locked && ((m.locks l).cpu == m.self)

unfoldable pub push_off : Cmd Machine (Unit {0})
push_off m = ok tt (record m {
  noff = m.noff + 1;
  intena = if m.noff == 0 then m.intr else m.intena;
  intr = false;
})

unfoldable pub pop_off : Cmd Machine (Unit {0})
pop_off m =
    if m.intr
    then panic
    else if ltb m.noff 1
    then panic
    else ok tt (record m {
      noff = m.noff - 1;
      intr = if ((m.noff - 1) == 0) && m.intena then true else m.intr;
    })

-- The atomic swap, and the store of the holder. It does not return while another hart holds the
-- lock: `spins`.
take_lock : ℕ → Cmd Machine (Unit {0})
take_lock l m =
    if (m.locks l).locked
    then spins
    else ok tt (record m { locks = update m.locks l (record { locked = true; cpu = m.self }) })

unfoldable pub acquire : ℕ → Cmd Machine (Unit {0})
unfolding push_off holding take_lock
acquire l = push_off >> λ m. if holding l m then panic else take_lock l m

unfoldable pub release : ℕ → Cmd Machine (Unit {0})
unfolding pop_off holding
release l m =
    if holding l m then pop_off (record m { locks = update m.locks l free_lock }) else panic
