-- ===== src/Pipe.antt =====
-- xv6-riscv/kernel/pipe.c: a pipe is a ring of PIPESIZE bytes between two counters. It is named by
-- the address of its page, as is its spinlock, and lies beside the kernel that its calls change.
-- A read or write runs up to its answer, or to the switch in its call of sleep, and goes on from
-- there in a function of its own.
pub mod Queue
use csse332_final_project.Base.{
  ℕ, zero, suc, ◌+◌, ◌-◌, ◌%◌, ◌^◌, Bool, true, false, not, ◌&&◌, ◌||◌, Option, none, some, List,
  [], ◌∷◌, if◌then◌else◌, ltb, ◌==◌, update, inc32, get_or,
}
use csse332_final_project.Run.{Cmd, ok, panic, out_of_fuel, pure, fails, put_back, ◌>>=◌, ◌>>◌}
use csse332_final_project.Spinlock.{initlock}
use csse332_final_project.Memory.{add64}
use csse332_final_project.Kalloc.{kfree}
use csse332_final_project.Vm.{Status, success, failure}
use csse332_final_project.Copy.{copyin, copyout}
use csse332_final_project.Kernel.{
  Kernel, Proc, lock, unlock, myproc, load, on_machine, on_memory, minus_one32,
}
use csse332_final_project.Sched.{wakeup, sleep_enter, sleep_leave, killed}

abbrev pub pipesize : ℕ
pipesize = 512

pub record Pipe : Type 0 where
  pub bytes : ℕ → ℕ
  pub nread : ℕ
  pub nwrite : ℕ
  pub readopen : Bool
  pub writeopen : Bool

pub record Pipes (F : Type 0) : Type 0 where
  pub kernel : Kernel F
  pub pipe : ℕ → Pipe

-- &pi->nread and &pi->nwrite, behind the 24 bytes of the lock and the data.
abbrev pub nread_chan : ℕ → ℕ
nread_chan pi = pi + 536

abbrev pub nwrite_chan : ℕ → ℕ
nwrite_chan pi = pi + 540

-- nwrite == nread + PIPESIZE, and nread == nwrite
abbrev pub is_full : Pipe → Bool
is_full p = p.nwrite == (p.nread + pipesize) % 2 ^ 32

abbrev pub is_empty : Pipe → Bool
is_empty p = p.nread == p.nwrite

-- pi->data[pi->nwrite++ % PIPESIZE] = ch
pub put : ℕ → Pipe → Pipe
put ch p = record p { bytes = update p.bytes (p.nwrite % pipesize) ch; nwrite = inc32 p.nwrite }

-- ch = pi->data[pi->nread++ % PIPESIZE]
abbrev pub next_byte : Pipe → ℕ
next_byte p = p.bytes (p.nread % pipesize)

pub advance : Pipe → Pipe
advance p = record p { nread = inc32 p.nread }

-- The answer, or how many bytes have been moved when the call goes to sleep.
pub data Moved : Type 0 where
  answers : ℕ → Moved
  sleeps : ℕ → Moved

-- The rounds of a loop from 0 to the int n.
abbrev pub int_rounds : ℕ → ℕ
int_rounds n = if ltb n (2 ^ 31) then n else 0

module _ {F : Type 0} where
  abbrev pub on_kernel : {A : Type 0} → Cmd (Kernel F) A → Cmd (Pipes F) A
  on_kernel c s = put_back (λ k. record s { kernel = k }) (c s.kernel)

  abbrev pub edit_pipe : ℕ → (Pipe → Pipe) → Cmd (Pipes F) (Unit {0})
  edit_pipe pi f s = ok tt (record s { pipe = update s.pipe pi (f (s.pipe pi)) })

  abbrev pub load_pipe : {A : Type 0} → ℕ → (Pipe → A) → Cmd (Pipes F) A
  load_pipe pi field s = ok (field (s.pipe pi)) s

  -- pipealloc() on a page that kalloc has given.
  unfoldable pub init_pipe : ℕ → Cmd (Pipes F) (Unit {0})
  init_pipe pi = do
    edit_pipe pi (λ p. record p { readopen = true; writeopen = true; nwrite = 0; nread = 0 })
    on_kernel (on_machine (initlock pi))

  unfoldable pub pipeclose : ℕ → Bool → Cmd (Pipes F) (Unit {0})
  pipeclose pi writable = do
    on_kernel (lock pi)
    (if writable
        then (do
          edit_pipe pi (λ p. record p { writeopen = false })
          on_kernel (wakeup (nread_chan pi)))
        else (do
          edit_pipe pi (λ p. record p { readopen = false })
          on_kernel (wakeup (nwrite_chan pi))))
    closed ← load_pipe pi (λ p. not p.readopen && not p.writeopen)
    on_kernel (unlock pi)
    if closed then on_kernel (on_memory (kfree pi)) else pure tt

  finish_write : ℕ → ℕ → Cmd (Pipes F) Moved
  finish_write pi i = do on_kernel (wakeup (nread_chan pi)); on_kernel (unlock pi); pure (answers i)

  -- The loop of pipewrite with `k` bytes left, of which `i` have been written.
  pub pipewrite_from : ℕ → ℕ → ℕ → ℕ → Cmd (Pipes F) Moved
  unfolding finish_write put
  pipewrite_from zero pi addr i = finish_write pi i
  pipewrite_from (suc k) pi addr i = do
    pr ← on_kernel myproc
    open_end ← load_pipe pi (λ p. p.readopen)
    dead ← if open_end then on_kernel (killed pr) else pure true
    elim dead [
      | true ↦ (do on_kernel (unlock pi); pure (answers minus_one32))
      | false ↦ (do
        full ← load_pipe pi is_full
        elim full [
          | true ↦ (do
            on_kernel (wakeup (nread_chan pi))
            on_kernel (sleep_enter (nwrite_chan pi) pi)
            pure (sleeps i))
          | false ↦ (do
            pt ← on_kernel (load pr (λ r. r.pagetable))
            (r, bs) ← on_kernel (on_memory (copyin pt (add64 addr i) 1))
            elim r [
              | failure ↦ finish_write pi i
              | success ↦ (do edit_pipe pi (put (get_or bs 0 0)); pipewrite_from k pi addr (i + 1))
            ])
        ])
    ]

  unfoldable pub pipewrite : ℕ → ℕ → ℕ → Cmd (Pipes F) Moved
  unfolding pipewrite_from
  pipewrite pi addr n = do on_kernel (lock pi); pipewrite_from (int_rounds n) pi addr 0

  -- pipewrite() from the switch in sleep on, with `i` of the n bytes written.
  unfoldable pub pipewrite_on : Bool → ℕ → ℕ → ℕ → ℕ → Cmd (Pipes F) Moved
  unfolding pipewrite_from
  pipewrite_on intena pi addr n i = do
    on_kernel (sleep_leave intena pi)
    pipewrite_from (n - i) pi addr i

  finish_read : ℕ → ℕ → Cmd (Pipes F) Moved
  finish_read pi i = do on_kernel (wakeup (nwrite_chan pi)); on_kernel (unlock pi); pure (answers i)

  -- The copying loop of piperead with `k` bytes left.
  pub read_bytes : ℕ → ℕ → ℕ → ℕ → Cmd (Pipes F) Moved
  unfolding finish_read advance
  read_bytes zero pi addr i = finish_read pi i
  read_bytes (suc k) pi addr i = do
    empty ← load_pipe pi is_empty
    elim empty [
      | true ↦ finish_read pi i
      | false ↦ (do
        ch ← load_pipe pi next_byte
        edit_pipe pi advance
        pr ← on_kernel myproc
        pt ← on_kernel (load pr (λ r. r.pagetable))
        r ← on_kernel (on_memory (copyout pt (add64 addr i) (ch ∷ [])))
        elim r [ failure ↦ finish_read pi i | success ↦ read_bytes k pi addr (i + 1) ])
    ]

  -- piperead() with the lock held.
  pub piperead_round : ℕ → ℕ → ℕ → Cmd (Pipes F) Moved
  unfolding read_bytes
  piperead_round pi addr n = do
    pr ← on_kernel myproc
    waits ← load_pipe pi (λ p. is_empty p && p.writeopen)
    if not waits then read_bytes (int_rounds n) pi addr 0 else (do
      dead ← on_kernel (killed pr)
      if dead
          then (do on_kernel (unlock pi); pure (answers minus_one32))
          else (do on_kernel (sleep_enter (nread_chan pi) pi); pure (sleeps 0)))

  unfoldable pub piperead : ℕ → ℕ → ℕ → Cmd (Pipes F) Moved
  unfolding piperead_round
  piperead pi addr n = do on_kernel (lock pi); piperead_round pi addr n

  -- piperead() from the switch in sleep on.
  unfoldable pub piperead_on : Bool → ℕ → ℕ → ℕ → Cmd (Pipes F) Moved
  unfolding piperead_round
  piperead_on intena pi addr n = do on_kernel (sleep_leave intena pi); piperead_round pi addr n
