-- ===== src/Sched.antt =====
-- xv6-riscv/kernel/proc.c: scheduling, sleeping and waking. A swtch ends the run of the code that
-- calls it, so what stands behind a call of sched() is a function of its own, run when the
-- scheduler has switched back.
pub mod Wakeup
pub mod Kill
pub mod Yield
use csse332_final_project.Base.{
  ℕ, zero, suc, ◌+◌, Bool, true, false, not, ◌&&◌, if◌then◌else◌, ◌==◌,
}
use csse332_final_project.Run.{Cmd, ok, panic, pure, fails, ◌>>=◌, ◌>>◌}
use csse332_final_project.Spinlock.{holding}
use csse332_final_project.Kernel.{
  ProcState, sleeping, runnable, running, is_state, nproc, Proc, Kernel, lock, unlock, myproc, load,
  edit, on_machine, minus_one32,
}

module _ {F : Type 0} where
  -- intr_on(), before each pass of scheduler() over the table.
  unfoldable pub begin_pass : Cmd (Kernel F) (Unit {0})
  begin_pass = on_machine (λ m. ok tt (record m { intr = true }))

  -- One round of that pass: whether slot `p` was found runnable, and is now switched
  -- to, with its lock held.
  unfoldable pub dispatch : ℕ → Cmd (Kernel F) Bool
  dispatch p = do
    lock p
    s ← load p (λ r. r.state)
    if is_state s runnable
        then (do
          edit p (λ r. record r { state = running })
          on_machine (λ m. ok tt (record m { proc = p }))
          pure true)
        else (do unlock p; pure false)

  -- The rest of that round, when the process has switched back.
  unfoldable pub retire : ℕ → Cmd (Kernel F) (Unit {0})
  retire p = do on_machine (λ m. ok tt (record m { proc = 0 })); unlock p

  -- The checks of sched() before its swtch.
  unfoldable pub sched : Cmd (Kernel F) (Unit {0})
  sched = do
    p ← myproc
    s ← load p (λ r. r.state)
    λ k.
        if not (holding p k.machine)
        then panic
        else if not (k.machine.noff == 1)
        then panic
        else if is_state s running
        then panic
        else if k.machine.intr
        then panic
        else ok tt k

  -- sched() after its swtch. `intena` is what the hart's flag was before it, which sched() keeps.
  unfoldable pub sched_leave : Bool → Cmd (Kernel F) (Unit {0})
  sched_leave intena = on_machine (λ m. ok tt (record m { intena = intena }))

  -- yield() up to its switch, and after it.
  unfoldable pub yield_enter : Cmd (Kernel F) (Unit {0})
  unfolding sched
  yield_enter = do p ← myproc; lock p; edit p (λ r. record r { state = runnable }); sched

  unfoldable pub yield_leave : Bool → Cmd (Kernel F) (Unit {0})
  unfolding sched_leave
  yield_leave intena = do sched_leave intena; p ← myproc; unlock p

  -- sleep() up to its switch, and after it.
  unfoldable pub sleep_enter : ℕ → ℕ → Cmd (Kernel F) (Unit {0})
  unfolding sched
  sleep_enter chan lk = do
    p ← myproc
    lock p
    unlock lk
    edit p (λ r. record r { chan = chan; state = sleeping })
    sched

  unfoldable pub sleep_leave : Bool → ℕ → Cmd (Kernel F) (Unit {0})
  unfolding sched_leave
  sleep_leave intena lk = do
    sched_leave intena
    p ← myproc
    edit p (λ r. record r { chan = 0 })
    unlock p
    lock lk

  -- The loop of wakeup over the `n` slots from `p` on.
  wake_one : ℕ → ℕ → Cmd (Kernel F) (Unit {0})
  wake_one chan p = do
    me ← myproc
    if p == me then pure tt else (do
      lock p
      s ← load p (λ r. r.state)
      c ← load p (λ r. r.chan)
      (if is_state s sleeping && (c == chan)
          then edit p (λ r. record r { state = runnable })
          else pure tt)
      unlock p)

  wake_from : ℕ → ℕ → ℕ → Cmd (Kernel F) (Unit {0})
  unfolding wake_one
  wake_from zero chan p = pure tt
  wake_from (suc n) chan p = wake_one chan p >> wake_from n chan (p + 1)

  unfoldable pub wakeup : ℕ → Cmd (Kernel F) (Unit {0})
  unfolding wake_from
  wakeup chan = wake_from nproc chan 1

  -- kill(): the int 0 or -1.
  kill_from : ℕ → ℕ → ℕ → Cmd (Kernel F) ℕ
  kill_from zero pid p = pure minus_one32
  kill_from (suc n) pid p = do
    lock p
    id ← load p (λ r. r.pid)
    if id == pid
        then (do
          edit p (λ r. record r { killed = true })
          s ← load p (λ r. r.state)
          (if is_state s sleeping then edit p (λ r. record r { state = runnable }) else pure tt)
          unlock p
          pure 0)
        else (do unlock p; kill_from n pid (p + 1))

  unfoldable pub kill : ℕ → Cmd (Kernel F) ℕ
  unfolding kill_from
  kill pid = kill_from nproc pid 1

  unfoldable pub setkilled : ℕ → Cmd (Kernel F) (Unit {0})
  setkilled p = do lock p; edit p (λ r. record r { killed = true }); unlock p

  unfoldable pub killed : ℕ → Cmd (Kernel F) Bool
  killed p = do lock p; b ← load p (λ r. r.killed); unlock p; pure b
