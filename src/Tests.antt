-- ===== src/Tests.antt =====
-- Machines, memories and kernels on which the theorems and the code are tried.
mod Locks
mod Pages
mod Tables
mod Slots
mod Threads
mod Logs
mod Buffers
mod Inodes
mod Paths
mod Pipes
mod Descriptors
mod Consoles
use csse332_final_project.Base.{ℕ, refl, ◌+◌, ◌*◌, Bool, true, false, List, [], ◌∷◌, update}
use csse332_final_project.Spinlock.{Lock, Machine, free_lock}
use csse332_final_project.Spinlock.Laws.{IsSane}
use csse332_final_project.Memory.{Memory}
use csse332_final_project.Vm.{make_pte, pte_r, pte_w, pte_u}
use csse332_final_project.Kernel.{unused, runnable, running, sleeping, ProcState, Proc, Kernel}

-- One hart with interrupts on, that holds no lock and runs the process of slot 1.
abbrev pub idle_machine : Machine
idle_machine = record {
  locks = λ _. free_lock;
  self = 1;
  noff = 0;
  intena = false;
  intr = true;
  proc = 1;
}

pub idle_machine-IsSane : IsSane idle_machine
idle_machine-IsSane = record { quiet = λ h. elim h [ ]; ownerless = λ l h. refl }

-- No page is free, and every word is 0.
abbrev pub empty_memory : Memory
empty_memory = record { word = λ _. 0; freelist = 0; refcount = λ _. 0; kernel_end = 0x8002_1000 }

-- Two free pages.
abbrev pub two_pages : Memory
two_pages = record empty_memory {
  word = update (λ _. 0) 0x8002_2000 0x8002_3000;
  freelist = 0x8002_2000;
}

-- A page table at 0x80022000 that maps the virtual page 0 to 0x80025000, for user code.
abbrev pub mapped_memory : Memory
mapped_memory = record empty_memory {
  word =
      update
        (update (update (λ _. 0) 0x8002_2000 (make_pte 0x8002_3000 0)) 0x8002_3000
          (make_pte 0x8002_4000 0))
        0x8002_4000 (make_pte 0x8002_5000 (pte_r + pte_w + pte_u));
}

abbrev pub blank : Proc
blank = record {
  state = unused;
  chan = 0;
  killed = false;
  xstate = 0;
  pid = 0;
  parent = 0;
  kstack = 0;
  sz = 0;
  pagetable = 0;
  trapframe = 0;
  context = record { ra = 0; sp = 0; saved = λ _. 0 };
  ofile = λ _. 0;
  cwd = 0;
  name = [];
  is_thread = false;
  tid = 0;
  group_leader = 0;
  group_next = 0;
  group_prev = 0;
  num_children = 0;
  ref_count = 0;
}

abbrev pub with_table : (ℕ → Proc) → Kernel (Unit {0})
with_table ps = record {
  machine = idle_machine;
  memory = empty_memory;
  files = tt;
  procs = ps;
  nextpid = 4;
  initproc = 1;
  trampoline_pa = 0x8000_7000;
  forkret_pc = 0x8000_1a00;
}

-- Slot 1 runs process 1; slots 2 and 3 hold its children 2 and 3, which sleep on channels 7 and 8.
abbrev pub family : ℕ → Proc
family =
    update
      (update (update (λ _. blank) 1 (record blank { state = running; pid = 1 })) 2
        (record blank { state = sleeping; pid = 2; parent = 1; chan = 7 }))
      3 (record blank { state = sleeping; pid = 3; parent = 1; chan = 8 })

-- Slot 1 leads a group with the threads of slots 3 and 2, of ids 2 and 1.
abbrev pub group : ℕ → Proc
group =
    update
      (update
        (update (λ _. blank) 1
          (record blank {
            state = running;
            pid = 1;
            group_leader = 1;
            group_next = 3;
            group_prev = 2;
            num_children = 2;
            ref_count = 3;
          }))
        2
        (record blank {
          state = runnable;
          pid = 2;
          parent = 1;
          is_thread = true;
          tid = 1;
          group_leader = 1;
          group_next = 1;
          group_prev = 3;
        }))
      3
      (record blank {
        state = sleeping;
        pid = 3;
        parent = 1;
        is_thread = true;
        tid = 2;
        group_leader = 1;
        group_next = 2;
        group_prev = 1;
      })
