-- ===== src/Group.antt =====
-- xv6-riscv/kernel/proc.c: growproc, which keeps the memory of all threads of a group alike, and the
-- walk round a group that it shares with thread_create.
use csse332_final_project.Base.{
  ℕ, zero, suc, ◌+◌, Bool, true, false, if◌then◌else◌, ltb, ◌==◌, pos32,
}
use csse332_final_project.Run.{Cmd, ok, fault, out_of_fuel, pure, ◌>>=◌, ◌>>◌}
use csse332_final_project.Memory.{pgsize, add64}
use csse332_final_project.Vm.{
  success, failure, pte_r, pte_w, pte_u, pte2pa, walk, mappages, uvmunmap, va_rounds,
}
use csse332_final_project.Uvm.{uvmalloc, uvmdealloc}
use csse332_final_project.Kernel.{
  ring_rounds, Kernel, myproc, load, edit, on_memory, extend_sign, minus_one32,
}

module _ {F : Type 0} where
  -- The rings of threads that growproc and thread_create go round: `visit` at each slot, from
  -- `q` on, until the leader comes again.
  pub around : ℕ → ℕ → (ℕ → Cmd (Kernel F) Bool) → ℕ → Cmd (Kernel F) Bool
  around zero leader visit q = λ _. out_of_fuel
  around (suc n) leader visit q = do
    stop ← visit q
    next ← load q (λ r. r.group_next)
    if stop
        then pure true
        else elim (next == leader) [ true ↦ pure false | false ↦ around n leader visit next ]

  -- The loops of growproc over the pages from `va` on; whether one of them failed.
  map_to_group : ℕ → ℕ → ℕ → ℕ → Cmd (Kernel F) Bool
  unfolding around
  map_to_group zero p va new_sz = λ _. out_of_fuel
  map_to_group (suc n) p va new_sz = elim (ltb va new_sz) [
    | false ↦ pure false
    | true ↦ (do
      pt ← load p (λ r. r.pagetable)
      leader ← load p (λ r. r.group_leader)
      pte ← on_memory (walk pt va false)
      entry ← λ k. if pte == 0 then fault else ok (k.memory.word pte) k
      failed ←
          around ring_rounds leader
            (λ q. if q == p then pure false else (do
              qpt ← load q (λ r. r.pagetable)
              r ← on_memory (mappages qpt va pgsize (pte2pa entry) (pte_w + pte_r + pte_u))
              pure (elim r [ success ↦ false | failure ↦ true ])))
            leader
      if failed then pure true else map_to_group n p (add64 va pgsize) new_sz)
  ]

  unmap_in_group : ℕ → ℕ → ℕ → ℕ → Cmd (Kernel F) (Unit {0})
  unfolding around
  unmap_in_group zero p va end = λ _. out_of_fuel
  unmap_in_group (suc n) p va end = elim (ltb va end) [
    | false ↦ pure tt
    | true ↦ (do
      leader ← load p (λ r. r.group_leader)
      around ring_rounds leader
          (λ q. if q == p then pure false else (do
            qpt ← load q (λ r. r.pagetable)
            on_memory (uvmunmap qpt va 1 true)
            pure false))
          leader
      unmap_in_group n p (add64 va pgsize) end)
  ]

  -- The size update that ends growproc.
  set_group_size : ℕ → ℕ → Cmd (Kernel F) (Unit {0})
  unfolding around
  set_group_size p new_sz = do
    leader ← load p (λ r. r.group_leader)
    if leader == 0 then edit p (λ r. record r { sz = new_sz }) else (do
      around ring_rounds leader (λ q. (do edit q (λ r. record r { sz = new_sz }); pure false))
          leader
      pure tt)

  -- `n` is an int, added to a uint64.
  unfoldable pub growproc : ℕ → Cmd (Kernel F) ℕ
  unfolding map_to_group unmap_in_group set_group_size
  growproc n = do
    p ← myproc
    sz ← load p (λ r. r.sz)
    pt ← load p (λ r. r.pagetable)
    leader ← load p (λ r. r.group_leader)
    if n == 0
        then pure 0
        else if pos32 n
        then (do
          new_sz ← on_memory (uvmalloc pt sz (add64 sz n) pte_w)
          if new_sz == 0 then pure minus_one32 else (do
            failed ← if leader == 0 then pure false else map_to_group va_rounds p sz new_sz
            if failed then pure minus_one32 else (do set_group_size p new_sz; pure 0)))
        else (do
          new_sz ← on_memory (uvmdealloc pt sz (add64 sz (extend_sign n)))
          (if leader == 0 then pure tt else unmap_in_group va_rounds p new_sz sz)
          set_group_size p new_sz
          pure 0)
