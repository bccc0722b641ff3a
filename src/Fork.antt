-- ===== src/Fork.antt =====
-- xv6-riscv/kernel/proc.c: userinit, fork, exit and thread_exit. The last two are modelled up to
-- their switch to the scheduler, which does not come back.
use csse332_final_project.Base.{
  ℕ, zero, suc, ◌+◌, ◌-◌, not, ◌&&◌, List, [], ◌∷◌, if◌then◌else◌, ltb, leb, ◌==◌, update,
}
use csse332_final_project.Run.{Cmd, ok, fault, pure, fails, ◌>>=◌, ◌>>◌}
use csse332_final_project.Memory.{Memory, pgsize, store}
use csse332_final_project.Vm.{success, failure}
use csse332_final_project.Uvm.{uvmfirst, uvmcopy}
use csse332_final_project.Kernel.{
  zombie, runnable, nofile, Kernel, lock, unlock, myproc, load, edit, on_memory, on_files,
  wait_lock, minus_one32,
}
use csse332_final_project.Files.{Files}
use csse332_final_project.Sched.{sched, wakeup}
use csse332_final_project.Life.{reparent}
use csse332_final_project.Proc.{allocproc, drop_ref, freeproc, proc_freepagetable}

-- Byte offsets in struct trapframe.
abbrev pub tf_epc : ℕ
tf_epc = 24

abbrev pub tf_ra : ℕ
tf_ra = 40

abbrev pub tf_sp : ℕ
tf_sp = 48

abbrev pub tf_a0 : ℕ
tf_a0 = 112

abbrev pub tf_size : ℕ
tf_size = 288

-- *dst = *src for two trapframes.
abbrev pub copy_trapframe : ℕ → ℕ → Memory → Memory
copy_trapframe dst src m = record m {
  word = λ a. if leb dst a && ltb a (dst + tf_size) then m.word (src + (a - dst)) else m.word a;
}

module _ {F : Type 0} where
  -- A change to the trapframe of slot `p`.
  abbrev pub with_trapframe : ℕ → (ℕ → Memory → Memory) → Cmd (Kernel F) (Unit {0})
  with_trapframe p f = do
    tf ← load p (λ r. r.trapframe)
    if tf == 0 then (λ _. fault) else on_memory (λ m. ok tt (f tf m))

module _ {F : Type 0} (fs : Files F) where
  -- The first process; `initcode` is the program.
  unfoldable pub userinit : List ℕ → Cmd (Kernel F) (Unit {0})
  userinit initcode = do
    p ← allocproc
    λ k. ok tt (record k { initproc = p })
    pt ← load p (λ r. r.pagetable)
    on_memory (uvmfirst pt initcode)
    edit p (λ r. record r { sz = pgsize })
    with_trapframe p (λ tf. store (tf + tf_epc) 0)
    with_trapframe p (λ tf. store (tf + tf_sp) pgsize)
    cwd ← on_files fs.namei_root
    edit p (λ r. record r {
      name = b'i' ∷ b'n' ∷ b'i' ∷ b't' ∷ b'c' ∷ b'o' ∷ b'd' ∷ b'e' ∷ [];
      cwd = cwd;
      state = runnable;
    })
    unlock p

  -- The loop of fork and thread_create over the `n` descriptors from `fd` on.
  pub dup_files : ℕ → ℕ → ℕ → ℕ → Cmd (Kernel F) (Unit {0})
  dup_files zero p np fd = pure tt
  dup_files (suc n) p np fd = do
    f ← load p (λ r. r.ofile fd)
    (if f == 0 then pure tt else (do
      g ← on_files (fs.filedup f)
      edit np (λ r. record r { ofile = update r.ofile fd g })))
    dup_files n p np (fd + 1)

  unfoldable pub fork : Cmd (Kernel F) ℕ
  unfolding dup_files
  fork = do
    p ← myproc
    np ← allocproc
    if np == 0 then pure minus_one32 else (do
      old ← load p (λ r. r.pagetable)
      new ← load np (λ r. r.pagetable)
      sz ← load p (λ r. r.sz)
      copied ← on_memory (uvmcopy old new sz)
      elim copied [
        | failure ↦ (do freeproc np; unlock np; pure minus_one32)
        | success ↦ (do
          edit np (λ r. record r { sz = sz })
          from ← load p (λ r. r.trapframe)
          with_trapframe np (λ tf. copy_trapframe tf from)
          with_trapframe np (λ tf. store (tf + tf_a0) 0)
          dup_files nofile p np 0
          cwd ← load p (λ r. r.cwd)
          cwd' ← on_files (fs.idup cwd)
          name ← load p (λ r. r.name)
          edit np (λ r. record r { cwd = cwd'; name = name })
          pid ← load np (λ r. r.pid)
          unlock np
          lock wait_lock
          edit np (λ r. record r { parent = p })
          unlock wait_lock
          lock np
          edit np (λ r. record r { state = runnable })
          unlock np
          pure pid)
      ])

  close_files : ℕ → ℕ → ℕ → Cmd (Kernel F) (Unit {0})
  close_files zero p fd = pure tt
  close_files (suc n) p fd = do
    f ← load p (λ r. r.ofile fd)
    (if f == 0
        then pure tt
        else (do on_files (fs.fileclose f); edit p (λ r. record r { ofile = update r.ofile fd 0 })))
    close_files n p (fd + 1)

  wake_parent : ℕ → Cmd (Kernel F) (Unit {0})
  wake_parent p = do
    lock wait_lock
    parent ← load p (λ r. r.parent)
    (if parent == 0 then pure tt else wakeup parent)
    unlock wait_lock

  -- exit() of a process that is not a thread.
  exit_process : ℕ → ℕ → Cmd (Kernel F) (Unit {0})
  unfolding close_files wake_parent
  exit_process p status = do
    lock p
    close_files nofile p 0
    on_files fs.begin_op
    cwd ← load p (λ r. r.cwd)
    (if cwd == 0 then pure tt else on_files (fs.iput cwd))
    on_files fs.end_op
    edit p (λ r. record r { cwd = 0 })
    lock wait_lock
    reparent p
    unlock wait_lock
    pt ← load p (λ r. r.pagetable)
    sz ← load p (λ r. r.sz)
    (if pt == 0
        then pure tt
        else (do proc_freepagetable pt sz; edit p (λ r. record r { pagetable = 0; sz = 0 })))
    edit p (λ r. record r { xstate = status; state = zombie })
    wake_parent p
    sched

  -- A process that is no thread goes on to exit(-1), which then finds the same.
  unfoldable pub thread_exit : Cmd (Kernel F) (Unit {0})
  unfolding exit_process wake_parent
  thread_exit = do
    p ← myproc
    if p == 0 then fails else (do
      lock p
      thread ← load p (λ r. r.is_thread)
      if not thread then (do unlock p; exit_process p minus_one32) else (do
        group ← load p (λ r. r.group_leader)
        let leader = if group == 0 then p else group
        (if p == leader then pure tt else lock leader)
        drop_ref leader
        (if p == leader then pure tt else unlock leader)
        edit p (λ r. record r { xstate = 0; state = zombie })
        wake_parent p
        sched))

  unfoldable pub exit : ℕ → Cmd (Kernel F) (Unit {0})
  unfolding exit_process
  exit status = do
    p ← myproc
    thread ← load p (λ r. r.is_thread)
    if thread then thread_exit else exit_process p status
