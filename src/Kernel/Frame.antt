-- ===== src/Kernel/Frame.antt =====
-- What a critical section leaves as it was: the locks, the nesting depth, the interrupt enable.
use csse332_final_project.Base.{ℕ, ◌≡◌, refl, ◌∙◌, true, false, arith}
use csse332_final_project.Run.{ok}
use csse332_final_project.Spinlock.{Machine, holding}
use csse332_final_project.Spinlock.Laws.{IsSane, acquired, released, acquire-ok, release-ok}
use csse332_final_project.Kernel.{Proc, Kernel, lock, unlock}

-- `t` is `m` but for the saved interrupt flag.
pub record Restored (m t : Machine) : Type 0 where
  pub locks : (l : ℕ) → t.locks l ≡ m.locks l
  pub self : t.self ≡ m.self
  pub noff : t.noff ≡ m.noff
  pub intr : t.intr ≡ m.intr
  pub proc : t.proc ≡ m.proc

pub Restored-refl : (m : Machine) → Restored m m
Restored-refl m = record { locks = λ l. refl; self = refl; noff = refl; intr = refl; proc = refl }

pub Restored-trans : {m t u : Machine} → Restored m t → Restored t u → Restored m u
Restored-trans r s = record {
  locks = λ l. s.locks l ∙ r.locks l;
  self = s.self ∙ r.self;
  noff = s.noff ∙ r.noff;
  intr = s.intr ∙ r.intr;
  proc = s.proc ∙ r.proc;
}

pub Restored-IsSane : {m t : Machine} → Restored m t → IsSane m → IsSane t
Restored-IsSane r s = record {
  quiet = λ h. ground (arith, r.noff, r.intr, s.quiet);
  ownerless = λ l h. ground (arith, r.locks l, s.ownerless l);
}

abbrev pub IsFreeLock : ℕ → Machine → Type 0
IsFreeLock l m = (m.locks l).locked ≡ false

pub holding-acquired : (l : ℕ) (m : Machine) → holding l (acquired l m) ≡ true
unfolding holding
holding-acquired l m = ground arith

module _ {F : Type 0} where
  pub lock-ok :
      (l : ℕ) (k : Kernel F)
      → IsFreeLock l k.machine
      → lock l k ≡ ok tt (record k { machine = acquired l k.machine })
  lock-ok l k free = rw (acquire-ok l k.machine free)

  -- Releasing the lock that was taken last, whatever was done between to the rest of the kernel.
  pub unlock-ok :
      (l : ℕ) (m : Machine) (k : Kernel F)
      → k.machine ≡ acquired l m
      → unlock l k ≡ ok tt (record k { machine = released l (acquired l m) })
  unlock-ok l m k e = rw (e, release-ok l (acquired l m) (holding-acquired l m) refl (omega arith))

pub released-Restored :
    (l : ℕ) (m : Machine) → IsSane m → IsFreeLock l m → Restored m (released l (acquired l m))
released-Restored l m sane free = record {
  locks = λ j. ground (arith, sane.ownerless l);
  self = refl;
  noff = omega arith;
  intr = ground (arith, sane.quiet);
  proc = refl;
}

module _ {F : Type 0} where
  -- `t` is `k` but for the table and the saved interrupt flag.
  pub record SameRest (k t : Kernel F) : Type 0 where
    pub machine : Restored k.machine t.machine
    pub memory : t.memory ≡ k.memory
    pub files : t.files ≡ k.files
    pub nextpid : t.nextpid ≡ k.nextpid
    pub initproc : t.initproc ≡ k.initproc

  pub SameRest-refl : (k : Kernel F) → SameRest k k
  SameRest-refl k = record {
    machine = Restored-refl k.machine;
    memory = refl;
    files = refl;
    nextpid = refl;
    initproc = refl;
  }

  pub SameRest-trans : {k t u : Kernel F} → SameRest k t → SameRest t u → SameRest k u
  SameRest-trans r s = record {
    machine = Restored-trans r.machine s.machine;
    memory = s.memory ∙ r.memory;
    files = s.files ∙ r.files;
    nextpid = s.nextpid ∙ r.nextpid;
    initproc = s.initproc ∙ r.initproc;
  }

  -- The kernel after a critical section under the lock `l`, which left the table as `ps`.
  abbrev pub after_section : ℕ → (ℕ → Proc) → Kernel F → Kernel F
  after_section l ps k = record k { machine = released l (acquired l k.machine); procs = ps }

  pub after_section-SameRest :
      (l : ℕ) (ps : ℕ → Proc) (k : Kernel F)
      → IsSane k.machine
      → IsFreeLock l k.machine
      → SameRest k (after_section l ps k)
  after_section-SameRest l ps k sane free = record {
    machine = released-Restored l k.machine sane free;
    memory = refl;
    files = refl;
    nextpid = refl;
    initproc = refl;
  }
