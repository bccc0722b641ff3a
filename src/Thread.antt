-- ===== src/Thread.antt =====
-- xv6-riscv/kernel/proc.c: the system calls on threads. The threads of a group are a ring through
-- group_next, from the leader on.
pub mod Family
pub mod Tables
pub mod Link
use csse332_final_project.Base.{
  ℕ, zero, suc, ◌+◌, ◌-◌, ◌*◌, ◌%◌, ◌^◌, Bool, true, false, not, ◌&&◌, ◌||◌, Option, none, some,
  List, [], ◌∷◌, if◌then◌else◌, leb, ◌==◌, inc32, dec32, pos32,
}
use csse332_final_project.Run.{Cmd, ok, panic, fault, out_of_fuel, pure, fails, ◌>>=◌, ◌>>◌}
use csse332_final_project.Memory.{pgsize, add64, fill_page, store}
use csse332_final_project.Kalloc.{kalloc}
use csse332_final_project.Vm.{success, failure, pte_r, pte_w, pte_u, mappages}
use csse332_final_project.Uvm.{uvmshare}
use csse332_final_project.Copy.{copyout}
use csse332_final_project.Kernel.{
  zombie, runnable, is_state, state_code, nproc, ring_rounds, nofile, Proc, Kernel, lock, unlock,
  myproc, myproc_safe, load, edit, on_memory, on_files, wait_lock, extend_sign, minus_one64,
}
use csse332_final_project.Files.{Files}
use csse332_final_project.Sched.{sleep_enter, sleep_leave}
use csse332_final_project.Proc.{allocproc, freeproc}
use csse332_final_project.Life.{Waited, answers, sleeps, int_bytes}
use csse332_final_project.Group.{around}
use csse332_final_project.Fork.{
  with_trapframe, copy_trapframe, dup_files, tf_epc, tf_ra, tf_sp, tf_a0,
}

module _ {F : Type 0} where
  -- `cur->group_leader ? cur->group_leader : cur`
  abbrev pub leader_of : ℕ → Cmd (Kernel F) ℕ
  leader_of p = do leader ← load p (λ r. r.group_leader); pure (if leader == 0 then p else leader)

  -- The loop of getfamily, with `count` tids written to the user's buffer. A ring is left after at
  -- most NPROC rounds.
  family_from : ℕ → ℕ → ℕ → ℕ → ℕ → ℕ → ℕ → Cmd (Kernel F) ℕ
  family_from zero pt buf max leader p count = λ _. out_of_fuel
  family_from (suc n) pt buf max leader p count = elim (not (pos32 max) || leb max count) [
    | true ↦ pure count
    | false ↦ (do
      tid ← load p (λ r. r.tid)
      r ← on_memory (copyout pt (add64 buf (count * 4)) (int_bytes tid))
      next ← load p (λ r. r.group_next)
      elim r [
        | failure ↦ pure minus_one64
        | success ↦ elim (next == leader) [
          | true ↦ pure (count + 1)
          | false ↦ family_from n pt buf max leader next (count + 1)
        ]
      ])
  ]

  -- `max` is an int, read from the caller's registers like `buf`.
  unfoldable pub getfamily : ℕ → ℕ → Cmd (Kernel F) ℕ
  unfolding family_from
  getfamily buf max = do
    cur ← myproc
    pt ← load cur (λ r. r.pagetable)
    leader ← leader_of cur
    family_from ring_rounds pt buf max leader leader 0

  status_from : ℕ → ℕ → ℕ → ℕ → Cmd (Kernel F) ℕ
  status_from zero tid leader p = λ _. out_of_fuel
  status_from (suc n) tid leader p = do
    t ← load p (λ r. r.tid)
    s ← load p (λ r. r.state)
    next ← load p (λ r. r.group_next)
    if t == tid then pure (state_code s) else elim (next == leader) [
      | true ↦ pure minus_one64
      | false ↦ status_from n tid leader next
    ]

  unfoldable pub getstatus : ℕ → Cmd (Kernel F) ℕ
  unfolding status_from
  getstatus tid = do cur ← myproc; leader ← leader_of cur; status_from ring_rounds tid leader leader

  -- The locks that thread_create holds beside that of the new slot.
  lock_group : ℕ → ℕ → Cmd (Kernel F) (Unit {0})
  lock_group p leader = if leader == p then pure tt else (do unlock p; lock leader; lock p)

  -- A process without a group becomes the leader of one.
  start_group : ℕ → Cmd (Kernel F) (Unit {0})
  start_group p = do
    group ← load p (λ r. r.group_leader)
    if group == 0
        then edit p (λ r. record r {
          group_leader = p;
          group_next = p;
          group_prev = p;
          num_children = 0;
          ref_count = 1;
        })
        else pure tt

  count_thread : ℕ → Cmd (Kernel F) (Unit {0})
  count_thread leader =
      edit leader
        (λ r. record r { num_children = inc32 r.num_children; ref_count = inc32 r.ref_count })

  -- The new slot goes behind the leader in the ring.
  pub link_thread : ℕ → ℕ → Cmd (Kernel F) (Unit {0})
  link_thread np leader = do
    tid ← load leader (λ r. r.num_children)
    next ← load leader (λ r. r.group_next)
    edit np
        (λ r. record r { tid = tid; group_leader = leader; group_prev = leader; group_next = next })
    edit next (λ r. record r { group_prev = np })
    edit leader (λ r. record r { group_next = np })

  -- `bad:` of thread_create: first the ring, then the locks.
  pub unlink_thread : ℕ → ℕ → Cmd (Kernel F) (Unit {0})
  unlink_thread np leader = do
    prev ← load np (λ r. r.group_prev)
    next ← load np (λ r. r.group_next)
    edit prev (λ r. record r { group_next = next })
    next' ← load np (λ r. r.group_next)
    prev' ← load np (λ r. r.group_prev)
    edit next' (λ r. record r { group_prev = prev' })
    edit leader
        (λ r. record r { num_children = dec32 r.num_children; ref_count = dec32 r.ref_count })

  abandon_thread : ℕ → ℕ → ℕ → Cmd (Kernel F) ℕ
  unfolding unlink_thread
  abandon_thread p np leader = do
    unlink_thread np leader
    unlock p
    (if not (leader == p) && not (leader == 0) then unlock leader else pure tt)
    unlock np
    pure minus_one64

  -- The stack page at `va`, mapped in every thread of the group.
  map_stack : ℕ → ℕ → ℕ → Cmd (Kernel F) Bool
  map_stack leader va page =
      around ring_rounds leader
        (λ q. (do
          edit q (λ r. record r { sz = add64 va pgsize })
          pt ← load q (λ r. r.pagetable)
          on_memory (mappages pt va pgsize page (pte_w + pte_r + pte_u))
          pure false))
        leader

  -- thread_join(): the scan of the `n` slots from `tp` on, with wait_lock held.
  scan_threads : ℕ → ℕ → ℕ → ℕ → Bool → Cmd (Kernel F) (Option ℕ × Bool)
  scan_threads zero p id tp havekids = pure (none, havekids)
  scan_threads (suc n) p id tp havekids = do
    parent ← load tp (λ r. r.parent)
    tid ← load tp (λ r. r.tid)
    thread ← load tp (λ r. r.is_thread)
    if not ((parent == p) && ((tid == id) && thread))
        then scan_threads n p id (tp + 1) havekids
        else (do
          lock tp
          s ← load tp (λ r. r.state)
          if not (is_state s zombie)
              then (do unlock tp; scan_threads n p id (tp + 1) true)
              else (do freeproc tp; unlock tp; unlock wait_lock; pure (some tid, true)))

  -- One pass of thread_join's endless loop, with wait_lock held.
  join_round : ℕ → ℕ → Cmd (Kernel F) Waited
  unfolding scan_threads
  join_round p id = do
    (found, havekids) ← scan_threads nproc p id 1 false
    elim found [
      | some tid ↦ pure (answers (extend_sign tid))
      | none ↦ (do
        dead ← if havekids then load p (λ r. r.killed) else pure true
        if dead
            then (do unlock wait_lock; pure (answers minus_one64))
            else (do sleep_enter p wait_lock; pure sleeps))
    ]

  unfoldable pub thread_join : ℕ → Cmd (Kernel F) Waited
  unfolding join_round
  thread_join id = do p ← myproc_safe; lock wait_lock; join_round p id

  -- thread_join() from the switch in sleep on, when the process has been woken.
  unfoldable pub join_on : Bool → ℕ → Cmd (Kernel F) Waited
  unfolding join_round
  join_on intena id = do sleep_leave intena wait_lock; p ← myproc; join_round p id

module _ {F : Type 0} (fs : Files F) where
  -- thread_create() from the copy of the trapframe on.
  start_thread : ℕ → ℕ → ℕ → ℕ → ℕ → ℕ → Cmd (Kernel F) ℕ
  start_thread p np leader stack_va start_routine arg = do
    from ← load p (λ r. r.trapframe)
    with_trapframe np (λ tf. copy_trapframe tf from)
    with_trapframe np (λ tf. store (tf + tf_epc) start_routine)
    with_trapframe np (λ tf. store (tf + tf_sp) ((stack_va + pgsize + 2 ^ 64 - 8) % 2 ^ 64))
    with_trapframe np (λ tf. store (tf + tf_a0) arg)
    with_trapframe np (λ tf. store (tf + tf_ra) 0)
    dup_files fs nofile p np 0
    cwd ← load p (λ r. r.cwd)
    cwd' ← on_files (fs.idup cwd)
    edit np (λ r. record r {
      cwd = cwd';
      is_thread = true;
      name = b'k' ∷ b't' ∷ b'h' ∷ b'r' ∷ b'e' ∷ b'a' ∷ b'd' ∷ [];
      parent = p;
      state = runnable;
    })
    unlock p
    (if leader == p then pure tt else unlock leader)
    unlock np
    tid ← load np (λ r. r.tid)
    pure (extend_sign tid)

  unfoldable pub thread_create : ℕ → ℕ → Cmd (Kernel F) ℕ
  unfolding lock_group start_group count_thread link_thread abandon_thread map_stack start_thread
  thread_create start_routine arg = do
    p ← myproc
    np ← allocproc
    if np == 0 then pure minus_one64 else (do
      lock p
      leader ← leader_of p
      lock_group p leader
      start_group p
      count_thread leader
      link_thread np leader
      old ← load p (λ r. r.pagetable)
      new ← load np (λ r. r.pagetable)
      va ← load p (λ r. r.sz)
      on_memory (uvmshare old new va)
      page ← on_memory kalloc
      if page == 0 then abandon_thread p np leader else (do
        on_memory (λ m. ok tt (fill_page page 0 m))
        map_stack leader va page
        start_thread p np leader va start_routine arg))
