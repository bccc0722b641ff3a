-- ===== src/Proc.antt =====
-- xv6-riscv/kernel/proc.c: slots of the process table, from procinit to freeproc, with the page
-- table of a process.
pub mod Alloc
pub mod Free
use csse332_final_project.Base.{
  ℕ, zero, suc, ◌+◌, ◌-◌, ◌%◌, ◌^◌, Bool, true, false, not, ◌&&◌, if◌then◌else◌, ◌==◌, [], inc32,
  dec32, pos32,
}
use csse332_final_project.Run.{Cmd, ok, panic, fault, out_of_fuel, pure, fails, ◌>>=◌, ◌>>◌}
use csse332_final_project.Spinlock.{initlock}
use csse332_final_project.Memory.{pgsize, trampoline, trapframe_va, kstack_va}
use csse332_final_project.Kalloc.{kalloc, kfree}
use csse332_final_project.Vm.{
  success, failure, pte_r, pte_w, pte_x, mappages, kvmmap, uvmunmap, uvmcreate,
}
use csse332_final_project.Uvm.{uvmfree, uvmfree_shared, uvmfree_shared_thread}
use csse332_final_project.Kernel.{
  unused, used, ghost, is_state, nproc, ring_rounds, Proc, Kernel, lock, unlock, load, edit,
  on_machine, on_memory, wait_lock, pid_lock, proc_table_lock,
}

-- What freeproc does last, to a leader and to a process without threads.
abbrev pub reset_slot : Proc → Proc
reset_slot r = record r {
  pagetable = 0;
  sz = 0;
  group_leader = 0;
  group_next = 0;
  group_prev = 0;
  is_thread = false;
  tid = 0;
  state = unused;
  num_children = 0;
  ref_count = 0;
  cwd = 0;
  parent = 0;
  name = [];
  chan = 0;
  killed = false;
}

module _ {F : Type 0} where
  -- The loop of proc_mapstacks over the `n` slots from index `i` on.
  map_stacks : ℕ → ℕ → ℕ → Cmd (Kernel F) (Unit {0})
  map_stacks zero pt i = pure tt
  map_stacks (suc n) pt i = do
    pa ← on_memory kalloc
    if pa == 0 then fails else on_memory (kvmmap pt (kstack_va i) pa pgsize (pte_r + pte_w))
    map_stacks n pt (i + 1)

  unfoldable pub proc_mapstacks : ℕ → Cmd (Kernel F) (Unit {0})
  unfolding map_stacks
  proc_mapstacks pt = map_stacks nproc pt 0

  init_slots : ℕ → ℕ → Cmd (Kernel F) (Unit {0})
  init_slots zero p = pure tt
  init_slots (suc n) p = do
    on_machine (initlock p)
    edit p (λ r. record r { state = unused; kstack = kstack_va (p - 1) })
    init_slots n (p + 1)

  unfoldable pub procinit : Cmd (Kernel F) (Unit {0})
  unfolding init_slots
  procinit = do
    on_machine (initlock pid_lock)
    on_machine (initlock wait_lock)
    on_machine (initlock proc_table_lock)
    init_slots nproc 1

  unfoldable pub allocpid : Cmd (Kernel F) ℕ
  allocpid = do
    lock pid_lock
    pid ← λ k. ok k.nextpid k
    λ k. ok tt (record k { nextpid = inc32 k.nextpid })
    unlock pid_lock
    pure pid

  unfoldable pub proc_pagetable : ℕ → Cmd (Kernel F) ℕ
  proc_pagetable p = do
    pt ← on_memory uvmcreate
    tf ← load p (λ r. r.trapframe)
    if pt == 0 then pure 0 else λ k.
        (do
          r ← on_memory (mappages pt trampoline pgsize k.trampoline_pa (pte_r + pte_x))
          elim r [
            | failure ↦ (do on_memory (uvmfree pt 0); pure 0)
            | success ↦ (do
              r' ← on_memory (mappages pt trapframe_va pgsize tf (pte_r + pte_w))
              elim r' [
                | success ↦ pure pt
                | failure ↦ (do
                  on_memory (uvmunmap pt trampoline 1 false)
                  on_memory (uvmfree pt 0)
                  pure 0)
              ])
          ])
          k

  unfoldable pub proc_freepagetable : ℕ → ℕ → Cmd (Kernel F) (Unit {0})
  proc_freepagetable pt sz = do
    on_memory (uvmunmap pt trampoline 1 false)
    on_memory (uvmunmap pt trapframe_va 1 false)
    on_memory (uvmfree_shared pt sz)

  unfoldable pub proc_freepagetable_thread : ℕ → ℕ → Cmd (Kernel F) (Unit {0})
  proc_freepagetable_thread pt sz = do
    on_memory (uvmunmap pt trampoline 1 false)
    on_memory (uvmunmap pt trapframe_va 1 false)
    on_memory (uvmfree_shared_thread pt sz)

  free_trapframe : ℕ → Cmd (Kernel F) (Unit {0})
  free_trapframe p = do
    tf ← load p (λ r. r.trapframe)
    if tf == 0 then pure tt else (do on_memory (kfree tf); edit p (λ r. record r { trapframe = 0 }))

  -- The body of freeproc's loop over the other threads of the group.
  free_member : ℕ → Cmd (Kernel F) (Unit {0})
  unfolding free_trapframe proc_freepagetable_thread
  free_member q = do
    lock q
    free_trapframe q
    pt ← load q (λ r. r.pagetable)
    sz ← load q (λ r. r.sz)
    (if pt == 0
        then pure tt
        else (do proc_freepagetable_thread pt sz; edit q (λ r. record r { pagetable = 0; sz = 0 })))
    edit q (λ r. record r {
      group_leader = 0;
      group_next = 0;
      group_prev = 0;
      is_thread = false;
      tid = 0;
      cwd = 0;
      num_children = 0;
      ref_count = 0;
      state = unused;
    })
    unlock q

  -- while(q != p): a ring of slots is left after at most NPROC rounds.
  free_members : ℕ → ℕ → ℕ → Cmd (Kernel F) (Unit {0})
  unfolding free_member
  free_members zero p q = λ _. out_of_fuel
  free_members (suc n) p q = elim (q == p) [
    | true ↦ pure tt
    | false ↦ (do next ← load q (λ r. r.group_next); free_member q; free_members n p next)
  ]

  unfoldable pub free_rest : ℕ → Cmd (Kernel F) (Unit {0})
  unfolding free_trapframe
  free_rest p = do free_trapframe p; edit p reset_slot

  -- if(leader->ref_count > 0) leader->ref_count--;
  pub drop_ref : ℕ → Cmd (Kernel F) (Unit {0})
  drop_ref leader = do
    refs ← load leader (λ r. r.ref_count)
    if pos32 refs then edit leader (λ r. record r { ref_count = dec32 r.ref_count }) else pure tt

  free_grouped : ℕ → ℕ → Cmd (Kernel F) (Unit {0})
  unfolding free_members
  free_grouped p leader = do
    refs ← load leader (λ r. r.ref_count)
    if (p == leader) && not (refs == 0)
        then fails
        else if not (p == leader)
        then edit p (λ r. record r { state = ghost })
        else (do first ← load p (λ r. r.group_next); free_members ring_rounds p first; free_rest p)

  unfoldable pub freeproc : ℕ → Cmd (Kernel F) (Unit {0})
  unfolding free_grouped
  freeproc p = do
    leader ← load p (λ r. r.group_leader)
    if leader == 0 then free_rest p else (do drop_ref leader; free_grouped p leader)

  -- The scan of allocproc: the first unused slot of the `n` from `p` on, with its lock held.
  find_unused : ℕ → ℕ → Cmd (Kernel F) ℕ
  find_unused zero p = pure 0
  find_unused (suc n) p = do
    lock p
    s ← load p (λ r. r.state)
    if is_state s unused then pure p else (do unlock p; find_unused n (p + 1))

  -- `goto found` of allocproc.
  init_proc : ℕ → Cmd (Kernel F) ℕ
  unfolding allocpid proc_pagetable freeproc
  init_proc p = do
    pid ← allocpid
    edit p (λ r. record r {
      pid = pid;
      state = used;
      group_leader = 0;
      group_prev = 0;
      group_next = 0;
      num_children = 0;
      ref_count = 0;
    })
    tf ← on_memory kalloc
    edit p (λ r. record r { trapframe = tf })
    if tf == 0 then (do freeproc p; unlock p; pure 0) else (do
      pt ← proc_pagetable p
      edit p (λ r. record r { pagetable = pt })
      if pt == 0 then (do freeproc p; unlock p; pure 0) else λ k.
          (do
            edit p (λ r. record r {
              context = record { ra = k.forkret_pc; sp = r.kstack + pgsize; saved = λ _. 0 };
            })
            pure p)
            k)

  unfoldable pub allocproc : Cmd (Kernel F) ℕ
  unfolding find_unused init_proc
  allocproc = do p ← find_unused nproc 1; if p == 0 then pure 0 else init_proc p
