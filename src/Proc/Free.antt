-- ===== src/Proc/Free.antt =====
-- freeproc, by the place of the slot in its group.
use csse332_final_project.Base.{[], ℕ, ◌≡◌, refl, ◌≢◌, ◌∙◌, false, arith, update, ne→==}
use csse332_final_project.Run.{ok}
use csse332_final_project.Memory.{Memory, store, fill_page}
use csse332_final_project.Kalloc.{kfree, refuses}
use csse332_final_project.Kalloc.Laws.{IsPage}
use csse332_final_project.Kernel.{unused, Kernel}
use csse332_final_project.Proc.{freeproc, free_rest, reset_slot}

accepted : (m : Memory) (pa : ℕ) → IsPage m pa → refuses m pa ≡ false
accepted m pa h = ground (arith, h.aligned, h.above, h.below)

-- What freeproc leaves of slot p and of the rest, from k to t.
pub record IsFreed {F : Type 0} (p : ℕ) (k t : Kernel F) : Type 0 where
  pub head : t.memory.freelist ≡ (k.procs p).trapframe
  pub chain : t.memory.word (k.procs p).trapframe ≡ k.memory.freelist
  pub state : (t.procs p).state ≡ unused
  pub space : ((t.procs p).pagetable ≡ 0) × ((t.procs p).sz ≡ 0) × ((t.procs p).trapframe ≡ 0)
  pub ring :
      ((t.procs p).group_leader ≡ 0)
      × ((t.procs p).group_next ≡ 0)
      × ((t.procs p).group_prev ≡ 0)
      × ((t.procs p).is_thread ≡ false)
  pub threads : ((t.procs p).tid ≡ 0) × ((t.procs p).num_children ≡ 0) × ((t.procs p).ref_count ≡ 0)
  pub links : ((t.procs p).parent ≡ 0) × ((t.procs p).cwd ≡ 0) × ((t.procs p).name ≡ [])
  pub wakes : ((t.procs p).chan ≡ 0) × ((t.procs p).killed ≡ false)
  pub stays :
      ((t.procs p).pid ≡ (k.procs p).pid)
      × ((t.procs p).xstate ≡ (k.procs p).xstate)
      × ((t.procs p).kstack ≡ (k.procs p).kstack)
  pub others : (q : ℕ) → q ≢ p → t.procs q ≡ k.procs q
  pub machine : t.machine ≡ k.machine

module _ {F : Type 0} where
  abbrev emptied : ℕ → Kernel F → Kernel F
  emptied p k =
      let tf = (k.procs p).trapframe in
      let one = update k.procs p (record (k.procs p) { trapframe = 0 }) in
      record k {
        memory = record (store tf k.memory.freelist (fill_page tf 1 k.memory)) { freelist = tf };
        procs = update one p (reset_slot (one p));
      }

  free_rest-emptied :
      (p : ℕ) (k : Kernel F)
      → p ≢ 0
      → IsPage k.memory (k.procs p).trapframe
      → free_rest p k ≡ ok tt (emptied p k)
  unfolding free_rest kfree
  free_rest-emptied p k pz page =
      let tf = (k.procs p).trapframe in
      let here = ne→== p 0 pz in
      rw (here, ne→== tf 0 page.nonzero, accepted k.memory tf page, here, here) refl

  freeproc-free_rest :
      (p : ℕ) (k : Kernel F) → p ≢ 0 → (k.procs p).group_leader ≡ 0 → freeproc p k ≡ free_rest p k
  unfolding freeproc
  freeproc-free_rest p k pz group = rw (ne→== p 0 pz, group) refl

  emptied-IsFreed : (p : ℕ) (k : Kernel F) → IsFreed p k (emptied p k)
  emptied-IsFreed p k = record {
    head = refl;
    chain = ground arith;
    state = ground arith;
    space = (ground arith, ground arith, ground arith);
    ring = (ground arith, ground arith, ground arith, ground arith);
    threads = (ground arith, ground arith, ground arith);
    links = (ground arith, ground arith, ground arith);
    wakes = (ground arith, ground arith);
    stays = (ground arith, ground arith, ground arith);
    others = λ q ne. ground arith;
    machine = refl;
  }

  -- A process without threads gives its trapframe page back, to the head of the free list. Its slot
  -- is unused, with no page table, size, trapframe, thread group, directory, parent, name or channel
  -- left in it, and not killed. Its pid, exit status and kernel stack stay, and so does every other
  -- slot. The user pages are not given back here.
  pub freeproc-single :
      (p : ℕ) (k : Kernel F)
      → p ≢ 0
      → (k.procs p).group_leader ≡ 0
      → IsPage k.memory (k.procs p).trapframe
      → (t : Kernel F) × (freeproc p k ≡ ok tt t) × IsFreed p k t
  freeproc-single p k pz group page = (
    emptied p k,
    freeproc-free_rest p k pz group ∙ free_rest-emptied p k pz page,
    emptied-IsFreed p k,
  )
