-- ===== src/Uvm.antt =====
-- xv6-riscv/kernel/vm.c, from uvmfirst to uvmclear: user memory as a whole.
pub mod Laws
use csse332_final_project.Base.{
  ℕ, zero, suc, ◌+◌, ◌-◌, ◌*◌, ◌/◌, ◌%◌, ◌^◌, Bool, true, false, not, ◌&&◌, List, length,
  if◌then◌else◌, ltb, leb, ◌==◌,
}
use csse332_final_project.Run.{Cmd, ok, panic, fault, out_of_fuel, pure, fails, ◌>>=◌, ◌>>◌}
use csse332_final_project.Memory.{
  Memory, pgsize, add64, pg_round_up, fill_page, copy_page, store, store_bytes,
}
use csse332_final_project.Kalloc.{kalloc, kfree, kref_inc, kref_dec}
use csse332_final_project.Vm.{
  Status, success, failure, pte_r, pte_u, is_valid, is_leaf, pte_flags, pte2pa, va_rounds, walk,
  mappages, uvmunmap,
}

unfoldable pub uvmdealloc : ℕ → ℕ → ℕ → Cmd Memory ℕ
uvmdealloc pt oldsz newsz =
    if leb oldsz newsz
    then pure oldsz
    else if ltb (pg_round_up newsz) (pg_round_up oldsz)
    then uvmunmap pt (pg_round_up newsz) ((pg_round_up oldsz - pg_round_up newsz) / pgsize) true
      >> pure newsz
    else pure newsz

-- The body of uvmalloc's loop: whether the page at `a` is there.
grow_page : ℕ → ℕ → ℕ → Cmd Memory Status
grow_page pt a xperm = kalloc >>= λ mem m. elim (mem == 0) [
  | true ↦ ok failure m
  | false ↦
      (mappages pt a pgsize mem (pte_r + pte_u + xperm) >>= λ r. elim r [
        | success ↦ pure success
        | failure ↦ kfree mem >> pure failure
      ])
        (fill_page mem 0 m)
]

grow_from : ℕ → ℕ → ℕ → ℕ → ℕ → ℕ → Cmd Memory ℕ
unfolding grow_page
grow_from zero pt a oldsz newsz xperm = λ _. out_of_fuel
grow_from (suc n) pt a oldsz newsz xperm = elim (ltb a newsz) [
  | false ↦ pure newsz
  | true ↦ grow_page pt a xperm >>= λ r. elim r [
    | success ↦ grow_from n pt (add64 a pgsize) oldsz newsz xperm
    | failure ↦ uvmdealloc pt a oldsz >> pure 0
  ]
]

-- `xperm` is without PTE_R and PTE_U.
unfoldable pub uvmalloc : ℕ → ℕ → ℕ → ℕ → Cmd Memory ℕ
unfolding grow_from
uvmalloc pt oldsz newsz xperm =
    if ltb newsz oldsz
    then pure oldsz
    else grow_from va_rounds pt (pg_round_up oldsz) (pg_round_up oldsz) newsz xperm

-- The loop of freewalk over the entries from `i` on; `free_table` is its recursive call.
free_entries : (ℕ → Cmd Memory (Unit {0})) → ℕ → ℕ → ℕ → Cmd Memory (Unit {0})
free_entries free_table zero pt i = pure tt
free_entries free_table (suc n) pt i = λ m.
    let pte = m.word (pt + 8 * i) in
    (if is_valid pte && not (is_leaf pte)
        then (free_table (pte2pa pte) >> λ m'.
            free_entries free_table n pt (i + 1) (store (pt + 8 * i) 0 m'))
        else if is_valid pte
        then fails
        else free_entries free_table n pt (i + 1))
      m

-- `depth` bounds the levels of tables, of which Sv39 has three.
freewalk_from : ℕ → ℕ → Cmd Memory (Unit {0})
freewalk_from zero pt = λ _. out_of_fuel
freewalk_from (suc depth) pt = free_entries (freewalk_from depth) 512 pt 0 >> kfree pt

unfoldable pub freewalk : ℕ → Cmd Memory (Unit {0})
unfolding free_entries freewalk_from
freewalk = freewalk_from 3

unfoldable pub uvmfree : ℕ → ℕ → Cmd Memory (Unit {0})
uvmfree pt sz =
    (if ltb 0 sz then uvmunmap pt 0 (pg_round_up sz / pgsize) true else pure tt) >> freewalk pt

unfoldable pub free_user_page : ℕ → ℕ → Cmd Memory (Unit {0})
free_user_page pt va = walk pt va false >>= λ p m.
    if p == 0
    then ok tt m
    else if not (is_valid (m.word p))
    then ok tt m
    else (kref_dec (pte2pa (m.word p)) >>= λ refs.
          (if refs == 0 then kfree (pte2pa (m.word p)) else pure tt) >> λ m'. ok tt (store p 0 m'))
        m

unfoldable pub free_user_page_thread : ℕ → ℕ → Cmd Memory (Unit {0})
free_user_page_thread pt va = walk pt va false >>= λ p m.
    if p == 0
    then ok tt m
    else if not (is_valid (m.word p))
    then ok tt m
    else (kref_dec (pte2pa (m.word p)) >>= λ refs m'. ok tt (store p 0 m')) m

free_shared_from : (ℕ → ℕ → Cmd Memory (Unit {0})) → ℕ → ℕ → ℕ → ℕ → Cmd Memory (Unit {0})
free_shared_from free_page zero pt a sz = λ _. out_of_fuel
free_shared_from free_page (suc n) pt a sz = elim (ltb a sz) [
  | false ↦ pure tt
  | true ↦ free_page pt a >> free_shared_from free_page n pt (add64 a pgsize) sz
]

unfoldable pub uvmfree_shared : ℕ → ℕ → Cmd Memory (Unit {0})
unfolding free_shared_from
uvmfree_shared pt sz =
    if sz == 0 then fails else free_shared_from free_user_page va_rounds pt 0 sz >> freewalk pt

unfoldable pub uvmfree_shared_thread : ℕ → ℕ → Cmd Memory (Unit {0})
unfolding free_shared_from
uvmfree_shared_thread pt sz =
    if sz == 0
    then fails
    else free_shared_from free_user_page_thread va_rounds pt 0 sz >> freewalk pt

-- `src` holds the `sz` bytes of the program.
unfoldable pub uvmfirst : ℕ → List ℕ → Cmd Memory (Unit {0})
uvmfirst pt src =
    if leb pgsize (length src)
    then fails
    else (kalloc >>= λ mem m. elim (mem == 0) [
      | true ↦ fault
      | false ↦
          (mappages pt 0 pgsize mem 30 >> λ m'. ok tt (store_bytes mem src m')) (fill_page mem 0 m)
    ])

-- The body of uvmcopy's loop.
copy_user_page : ℕ → ℕ → ℕ → Cmd Memory Status
copy_user_page old new i = walk old i false >>= λ p m.
    if p == 0
    then panic
    else if not (is_valid (m.word p))
    then panic
    else (kalloc >>= λ mem m'. elim (mem == 0) [
      | true ↦ ok failure m'
      | false ↦
          (mappages new i pgsize mem (pte_flags (m.word p)) >>= λ r. elim r [
            | success ↦ pure success
            | failure ↦ kfree mem >> pure failure
          ])
            (copy_page mem (pte2pa (m.word p)) m')
    ])
        m

copy_from : ℕ → ℕ → ℕ → ℕ → ℕ → Cmd Memory Status
unfolding copy_user_page
copy_from zero old new i sz = λ _. out_of_fuel
copy_from (suc n) old new i sz = elim (ltb i sz) [
  | false ↦ pure success
  | true ↦ copy_user_page old new i >>= λ r. elim r [
    | success ↦ copy_from n old new (add64 i pgsize) sz
    | failure ↦ uvmunmap new 0 (i / pgsize) true >> pure failure
  ]
]

unfoldable pub uvmcopy : ℕ → ℕ → ℕ → Cmd Memory Status
unfolding copy_from
uvmcopy old new sz = copy_from va_rounds old new 0 sz

-- The body of uvmshare's loop. The source ignores the count that kref_inc returns.
share_page : ℕ → ℕ → ℕ → Cmd Memory Status
share_page src dest i = walk src i false >>= λ p m.
    if p == 0
    then ok success m
    else if not (is_valid (m.word p))
    then ok success m
    else (mappages dest i pgsize (pte2pa (m.word p)) (pte_flags (m.word p)) >>= λ r. elim r [
      | success ↦ kref_inc (pte2pa (m.word p)) >> pure success
      | failure ↦ pure failure
    ])
        m

share_from : ℕ → ℕ → ℕ → ℕ → ℕ → Cmd Memory Status
unfolding share_page
share_from zero src dest i sz = λ _. out_of_fuel
share_from (suc n) src dest i sz = elim (ltb i sz) [
  | false ↦ pure success
  | true ↦ share_page src dest i >>= λ r. elim r [
    | success ↦ share_from n src dest (add64 i pgsize) sz
    | failure ↦ pure failure
  ]
]

unfoldable pub uvmshare : ℕ → ℕ → ℕ → Cmd Memory Status
unfolding share_from
uvmshare src dest sz = share_from va_rounds src dest 0 sz

unfoldable pub uvmclear : ℕ → ℕ → Cmd Memory (Unit {0})
uvmclear pt va = walk pt va false >>= λ p m.
    if p == 0
    then panic
    else ok tt (store p (if (m.word p / 16 % 2) == 1 then m.word p - 16 else m.word p) m)
