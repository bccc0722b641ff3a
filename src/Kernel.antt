-- ===== src/Kernel.antt =====
-- xv6-riscv/kernel/proc.h: the process table and what else a system call reaches, and commands on
-- its parts. A pointer to a struct proc is its slot's number from 1 to NPROC, and 0 is null. The
-- spinlock of slot `p` is the lock named `p`.
pub mod Frame
use csse332_final_project.Base.{
  ℕ, zero, suc, ◌+◌, ◌-◌, ◌*◌, ◌%◌, ◌^◌, Bool, true, false, List, if◌then◌else◌, ltb, ◌==◌, update,
}
use csse332_final_project.Run.{Run, Cmd, ok, panic, fault, pure, put_back, ◌>>=◌, ◌>>◌}
use csse332_final_project.Spinlock.{Machine, acquire, release, push_off, pop_off}
use csse332_final_project.Memory.{Memory}

pub data ProcState : Type 0 where
  unused used sleeping runnable running zombie ghost : ProcState

-- The values of enum procstate.
abbrev pub state_code : ProcState → ℕ
state_code unused = 0
state_code used = 1
state_code sleeping = 2
state_code runnable = 3
state_code running = 4
state_code zombie = 5
state_code ghost = 6

abbrev pub is_state : ProcState → ProcState → Bool
is_state s t = state_code s == state_code t

abbrev pub nproc : ℕ
nproc = 64

-- A walk round a ring of slots ends within so many rounds.
unfoldable pub ring_rounds : ℕ
ring_rounds = nproc + 1

abbrev pub nofile : ℕ
nofile = 16

-- `saved` holds the callee-saved registers s0 to s11.
pub record Context : Type 0 where
  pub ra : ℕ
  pub sp : ℕ
  pub saved : ℕ → ℕ

-- An int field is a 32-bit pattern. `name` is the string before its null.
pub record Proc : Type 0 where
  pub state : ProcState
  pub chan : ℕ
  pub killed : Bool
  pub xstate : ℕ
  pub pid : ℕ
  pub parent : ℕ
  pub kstack : ℕ
  pub sz : ℕ
  pub pagetable : ℕ
  pub trapframe : ℕ
  pub context : Context
  pub ofile : ℕ → ℕ
  pub cwd : ℕ
  pub name : List ℕ
  pub is_thread : Bool
  pub tid : ℕ
  pub group_leader : ℕ
  pub group_next : ℕ
  pub group_prev : ℕ
  pub num_children : ℕ
  pub ref_count : ℕ

-- `files` is the state of the file system, of a type that its interface gives. `trampoline_pa` and
-- `forkret_pc` are the addresses of linker symbols.
pub record Kernel (F : Type 0) : Type 0 where
  pub machine : Machine
  pub memory : Memory
  pub files : F
  pub procs : ℕ → Proc
  pub nextpid : ℕ
  pub initproc : ℕ
  pub trampoline_pa : ℕ
  pub forkret_pc : ℕ

-- The locks that stand beside the table.
abbrev pub wait_lock : ℕ
wait_lock = 65

abbrev pub pid_lock : ℕ
pid_lock = 66

abbrev pub proc_table_lock : ℕ
proc_table_lock = 67

module _ {F : Type 0} where
  abbrev pub on_machine : {A : Type 0} → Cmd Machine A → Cmd (Kernel F) A
  on_machine c k = put_back (λ m. record k { machine = m }) (c k.machine)

  abbrev pub on_memory : {A : Type 0} → Cmd Memory A → Cmd (Kernel F) A
  on_memory c k = put_back (λ m. record k { memory = m }) (c k.memory)

  abbrev pub on_files : {A : Type 0} → Cmd F A → Cmd (Kernel F) A
  on_files c k = put_back (λ s. record k { files = s }) (c k.files)

  abbrev pub lock : ℕ → Cmd (Kernel F) (Unit {0})
  lock l = on_machine (acquire l)

  abbrev pub unlock : ℕ → Cmd (Kernel F) (Unit {0})
  unlock l = on_machine (release l)

  -- mycpu()->proc
  abbrev pub myproc : Cmd (Kernel F) ℕ
  myproc k = ok k.machine.proc k

  abbrev pub myproc_safe : Cmd (Kernel F) ℕ
  myproc_safe = do on_machine push_off; p ← myproc; on_machine pop_off; pure p

  abbrev pub with_procs : (ℕ → Proc) → Kernel F → Kernel F
  with_procs ps k = record k { procs = ps }

  -- A load of a field of `*p`, and a store to `*p`.
  abbrev pub load : {A : Type 0} → ℕ → (Proc → A) → Cmd (Kernel F) A
  load p field k = if p == 0 then fault else ok (field (k.procs p)) k

  abbrev pub edit : ℕ → (Proc → Proc) → Cmd (Kernel F) (Unit {0})
  edit p f k = if p == 0 then fault else ok tt (with_procs (update k.procs p (f (k.procs p))) k)

-- (uint64) of an int
abbrev pub extend_sign : ℕ → ℕ
extend_sign n = if ltb n (2 ^ 31) then n else n + (2 ^ 64 - 2 ^ 32)

abbrev pub minus_one32 : ℕ
minus_one32 = 2 ^ 32 - 1

abbrev pub minus_one64 : ℕ
minus_one64 = 2 ^ 64 - 1
