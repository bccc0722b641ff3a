-- ===== src/Syscall.antt =====
-- xv6-riscv/kernel/syscall.c from the table of calls on, and sysproc.c. A call answers, sleeps, or
-- does not come back. fork, exit, thread_create and thread_exit, which reach the open files through the
-- interface Files, are the parameter `calls`, by their numbers.
use csse332_final_project.Base.{
  ℕ, ◌+◌, ◌-◌, ◌%◌, ◌^◌, Bool, not, Option, none, some, List, [], ◌∷◌, if◌then◌else◌, ltb, ◌==◌,
  pos32, update, get_or,
}
use csse332_final_project.Run.{Cmd, ok, pure, ◌>>=◌, ◌>>◌}
use csse332_final_project.Kernel.{lock, unlock, myproc, minus_one64, extend_sign}
use csse332_final_project.Sched.{kill, killed, sleep_enter, sleep_leave}
use csse332_final_project.Life.{Waited, wait}
use csse332_final_project.Group.{growproc}
use csse332_final_project.Thread.{getfamily, getstatus, thread_join}
use csse332_final_project.Pipe.{Moved}
use csse332_final_project.Printf.{number, text, printf}
use csse332_final_project.Console.Devices.{consoleread, consolewrite, spoon}
use csse332_final_project.Os.{
  Os, on_kernel, on_terminal, of_proc, load_frame, store_frame, argint, argaddr,
}
use csse332_final_project.Ftable.{Device}
use csse332_final_project.Sysfile.{sys_read, sys_write, sys_fstat, sys_dup, sys_close, sys_link}
use csse332_final_project.Sysfile.Names.{sys_unlink, sys_mkdir, sys_mknod, sys_chdir}
use csse332_final_project.Sysfile.Opens.{sys_open, sys_pipe}
use csse332_final_project.Exec.Image.{sys_exec}

pub data Called : Type 0 where
  returns : ℕ → Called
  blocks : Called

abbrev pub tickslock : ℕ
tickslock = 71

abbrev pub sys_getpid : Cmd Os ℕ
sys_getpid = do pid ← of_proc (λ r. r.pid); pure (extend_sign pid)

-- The answer of wait() or thread_join(), as a uint64.
abbrev pub waited : (ℕ → ℕ) → Waited → Called
waited widen (Waited.answers r) = returns (widen r)
waited widen Waited.sleeps = blocks

abbrev pub moved : Moved → Called
moved (Moved.answers r) = returns r
moved (Moved.sleeps i) = blocks

unfoldable pub sys_wait : Cmd Os Called
sys_wait = do p ← argaddr 0; r ← on_kernel (wait p); pure (waited extend_sign r)

unfoldable pub sys_sbrk : Cmd Os ℕ
sys_sbrk = do
  n ← argint 0
  addr ← of_proc (λ r. r.sz)
  r ← on_kernel (growproc n)
  pure (if not (r == 0) then minus_one64 else addr)

-- `ticks_chan` is the address of ticks.
module _ (ticks_chan : ℕ) where
  -- One pass of the loop of sys_sleep, with tickslock held. The int n is compared as a uint.
  pub sleep_round : ℕ → ℕ → Cmd Os Called
  sleep_round n ticks0 = do
    ticks ← (λ s. ok s.ticks s)
    if not (ltb ((ticks + 2 ^ 32 - ticks0) % 2 ^ 32) n)
        then (do on_kernel (unlock tickslock); pure (returns 0))
        else (do
          p ← on_kernel myproc
          dead ← on_kernel (killed p)
          if dead
              then (do on_kernel (unlock tickslock); pure (returns minus_one64))
              else (do on_kernel (sleep_enter ticks_chan tickslock); pure blocks))

  unfoldable pub sys_sleep : Cmd Os Called
  unfolding sleep_round
  sys_sleep = do
    n ← argint 0
    on_kernel (lock tickslock)
    ticks0 ← (λ s. ok s.ticks s)
    sleep_round n ticks0

  -- sys_sleep() from the switch in sleep on.
  unfoldable pub sys_sleep_on : Bool → ℕ → ℕ → Cmd Os Called
  unfolding sleep_round
  sys_sleep_on intena n ticks0 = do on_kernel (sleep_leave intena tickslock); sleep_round n ticks0

unfoldable pub sys_kill : Cmd Os ℕ
sys_kill = do pid ← argint 0; r ← on_kernel (kill pid); pure (extend_sign r)

unfoldable pub sys_uptime : Cmd Os ℕ
sys_uptime = do
  on_kernel (lock tickslock)
  ticks ← (λ s. ok s.ticks s)
  on_kernel (unlock tickslock)
  pure ticks

unfoldable pub sys_spoon : Cmd Os ℕ
sys_spoon = do addr ← argaddr 0; on_terminal (spoon addr)

unfoldable pub sys_thread_join : Cmd Os Called
sys_thread_join = do
  id ← argaddr 0
  r ← on_kernel (thread_join (id % 2 ^ 32))
  pure (waited (λ x. x) r)

-- getfamily() and getstatus() read their arguments themselves.
unfoldable pub sys_getfamily : Cmd Os ℕ
sys_getfamily = do buf ← argaddr 0; max ← argint 1; on_kernel (getfamily buf max)

unfoldable pub sys_getstatus : Cmd Os ℕ
sys_getstatus = do tid ← argint 0; on_kernel (getstatus tid)

-- The entry that consoleinit writes to devsw. The UART can take `idle i` bytes after byte i of a write.
abbrev pub console_device : (ℕ → ℕ) → Device
console_device idle = record {
  read = some (λ addr n. on_terminal (consoleread addr n));
  write = some (λ addr n. on_terminal (consolewrite idle addr n));
}

abbrev pub devsw : (ℕ → ℕ) → ℕ → Device
devsw idle = update (λ _. record { read = none; write = none }) 1 (console_device idle)

abbrev answering : Cmd Os ℕ → Option (Cmd Os Called)
answering call = some (do r ← call; pure (returns r))

abbrev moving : Cmd Os Moved → Option (Cmd Os Called)
moving call = some (do r ← call; pure (moved r))

-- "%d %s: unknown sys call %d\n"
abbrev pub unknown_format : List ℕ
unknown_format =
    b'%' ∷ b'd' ∷ b' ' ∷ b'%' ∷ b's' ∷ b':' ∷ b' ' ∷ b'u' ∷ b'n' ∷ b'k' ∷ b'n' ∷ b'o' ∷ b'w' ∷ b'n'
    ∷ b' ' ∷ b's' ∷ b'y' ∷ b's' ∷ b' ' ∷ b'c' ∷ b'a' ∷ b'l' ∷ b'l' ∷ b' ' ∷ b'%' ∷ b'd' ∷ b'\n' ∷ []

module _ (calls : ℕ → Cmd Os Called) (pad : List ℕ) (idle : ℕ → ℕ) (ticks_chan : ℕ) where
  -- The table of system calls, from number 0 on.
  pub syscalls : List (Option (Cmd Os Called))
  syscalls =
      none
      ∷ some (calls 1)
      ∷ some (calls 2)
      ∷ some sys_wait
      ∷ answering sys_pipe
      ∷ moving (sys_read (devsw idle))
      ∷ answering sys_kill
      ∷ answering sys_exec
      ∷ answering (sys_fstat pad)
      ∷ answering sys_chdir
      ∷ answering sys_dup
      ∷ answering sys_getpid
      ∷ answering sys_sbrk
      ∷ some (sys_sleep ticks_chan)
      ∷ answering sys_uptime
      ∷ answering sys_open
      ∷ moving (sys_write (devsw idle))
      ∷ answering sys_mknod
      ∷ answering sys_unlink
      ∷ answering sys_link
      ∷ answering sys_mkdir
      ∷ answering sys_close
      ∷ answering sys_spoon
      ∷ some (calls 23)
      ∷ some sys_thread_join
      ∷ some (calls 25)
      ∷ answering sys_getfamily
      ∷ answering sys_getstatus
      ∷ []

  abbrev pub finish_call : Called → Cmd Os Called
  finish_call (returns r) = do store_frame 112 r; pure (returns r)
  finish_call blocks = pure blocks

  abbrev pub call_entry : ℕ → Option (Cmd Os Called) → Cmd Os Called
  call_entry num (some call) = do r ← call; finish_call r
  call_entry num none = do
    pid ← of_proc (λ r. r.pid)
    name ← of_proc (λ r. r.name)
    on_terminal (printf (some unknown_format) (number pid ∷ text (some name) ∷ number num ∷ []))
    store_frame 112 minus_one64
    pure (returns minus_one64)

  -- a7 is an int.
  unfoldable pub syscall : Cmd Os Called
  unfolding syscalls
  syscall = do
    a7 ← load_frame 168
    let num = a7 % 2 ^ 32
    call_entry num (if pos32 num then get_or syscalls num none else none)
