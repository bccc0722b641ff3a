-- ===== src/Life.antt =====
-- xv6-riscv/kernel/proc.c: reparent and wait. wait runs up to its answer, or to the switch in its
-- call of sleep, and goes on from there in wait_on.
pub mod Reparent
use csse332_final_project.Base.{
  ℕ, zero, suc, ◌+◌, ◌-◌, ◌*◌, ◌/◌, ◌%◌, ◌^◌, Bool, true, false, not, ◌&&◌, ◌||◌, Option, none,
  some, List, [], ◌∷◌, if◌then◌else◌, ltb, leb, ◌==◌, update, pos32, dec32,
}
use csse332_final_project.Run.{Cmd, ok, panic, fault, out_of_fuel, pure, fails, ◌>>=◌, ◌>>◌}
use csse332_final_project.Memory.{Memory, pgsize, add64, store}
use csse332_final_project.Vm.{
  Status, success, failure, pte_r, pte_w, pte_u, pte2pa, walk, mappages, uvmunmap, va_rounds,
}
use csse332_final_project.Uvm.{uvmfirst, uvmalloc, uvmdealloc, uvmcopy}
use csse332_final_project.Copy.{copyout}
use csse332_final_project.Kernel.{
  zombie, used, runnable, is_state, nproc, nofile, Proc, Kernel, lock, unlock, myproc, load, edit,
  on_memory, on_files, wait_lock, extend_sign, minus_one32,
}
use csse332_final_project.Files.{Files}
use csse332_final_project.Sched.{sched, wakeup, killed, sleep_enter, sleep_leave}
use csse332_final_project.Proc.{allocproc, freeproc, proc_freepagetable}

-- The answer of a call, unless it has to sleep first.
pub data Waited : Type 0 where
  answers : ℕ → Waited
  sleeps : Waited

-- The int at an address, as copyout moves it.
abbrev pub int_bytes : ℕ → List ℕ
int_bytes n = n % 256 ∷ n / 2 ^ 8 % 256 ∷ n / 2 ^ 16 % 256 ∷ n / 2 ^ 24 % 256 ∷ []

module _ {F : Type 0} where
  -- The loop of reparent over the `n` slots from `pp` on.
  pub reparent_from : ℕ → ℕ → ℕ → Cmd (Kernel F) (Unit {0})
  reparent_from zero p pp = pure tt
  reparent_from (suc n) p pp = do
    parent ← load pp (λ r. r.parent)
    if parent == p
        then (λ k. (do edit pp (λ r. record r { parent = k.initproc }); wakeup k.initproc) k)
        else pure tt
    reparent_from n p (pp + 1)

  unfoldable pub reparent : ℕ → Cmd (Kernel F) (Unit {0})
  unfolding reparent_from
  reparent p = reparent_from nproc p 1

  -- The scan of wait over the `n` slots from `pp` on, with wait_lock held: the answer, if a zombie
  -- child was found, else whether there are children.
  scan_children : ℕ → ℕ → ℕ → ℕ → Bool → Cmd (Kernel F) (Option ℕ × Bool)
  scan_children zero p addr pp havekids = pure (none, havekids)
  scan_children (suc n) p addr pp havekids = do
    parent ← load pp (λ r. r.parent)
    if not (parent == p) then scan_children n p addr (pp + 1) havekids else (do
      lock pp
      s ← load pp (λ r. r.state)
      if not (is_state s zombie) then (do unlock pp; scan_children n p addr (pp + 1) true) else (do
        pid ← load pp (λ r. r.pid)
        xstate ← load pp (λ r. r.xstate)
        pt ← load p (λ r. r.pagetable)
        copied ← if addr == 0 then pure success else on_memory (copyout pt addr (int_bytes xstate))
        elim copied [
          | failure ↦ (do unlock pp; unlock wait_lock; pure (some minus_one32, true))
          | success ↦ (do freeproc pp; unlock pp; unlock wait_lock; pure (some pid, true))
        ]))

  -- One pass of wait's endless loop, with wait_lock held; `sleeps` is the switch in its call of
  -- sleep(p, &wait_lock).
  wait_round : ℕ → ℕ → Cmd (Kernel F) Waited
  unfolding scan_children
  wait_round p addr = do
    (found, havekids) ← scan_children nproc p addr 1 false
    elim found [
      | some answer ↦ pure (answers answer)
      | none ↦ (do
        dead ← if havekids then killed p else pure true
        if dead
            then (do unlock wait_lock; pure (answers minus_one32))
            else (do sleep_enter p wait_lock; pure sleeps))
    ]

  unfoldable pub wait : ℕ → Cmd (Kernel F) Waited
  unfolding wait_round
  wait addr = do p ← myproc; lock wait_lock; wait_round p addr

  -- wait() from the switch in sleep on, when the process has been woken.
  unfoldable pub wait_on : Bool → ℕ → Cmd (Kernel F) Waited
  unfolding wait_round
  wait_on intena addr = do sleep_leave intena wait_lock; p ← myproc; wait_round p addr
