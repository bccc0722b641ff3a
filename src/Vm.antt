-- ===== src/Vm.antt =====
-- xv6-riscv/kernel/vm.c: Sv39 page tables, of which riscv.h fixes the layout. Page-table pages lie
-- in physical memory, and a pte_t is the word at its address.
pub mod Laws
pub mod Mapping
use csse332_final_project.Base.{
  ℕ, zero, suc, ◌+◌, ◌-◌, ◌*◌, ◌/◌, ◌%◌, ◌^◌, Bool, true, false, not, Option, none, some,
  if◌then◌else◌, ltb, leb, ◌==◌,
}
use csse332_final_project.Run.{Cmd, ok, panic, fault, out_of_fuel, pure, fails, ◌>>=◌, ◌>>◌}
use csse332_final_project.Memory.{Memory, pgsize, maxva, add64, pg_round_down, fill_page, store}
use csse332_final_project.Kalloc.{kalloc, kfree}

-- The int results 0 and -1.
pub data Status : Type 0 where
  success failure : Status

-- PTE_V, PTE_R, PTE_W, PTE_X and PTE_U, of which perm is a sum below 2^10.
abbrev pub pte_r : ℕ
pte_r = 2

abbrev pub pte_w : ℕ
pte_w = 4

abbrev pub pte_x : ℕ
pte_x = 8

abbrev pub pte_u : ℕ
pte_u = 16

abbrev pub is_valid : ℕ → Bool
is_valid pte = (pte % 2) == 1

abbrev pub is_user : ℕ → Bool
is_user pte = (pte / 16 % 2) == 1

-- pte & (PTE_R|PTE_W|PTE_X)
abbrev pub is_leaf : ℕ → Bool
is_leaf pte = not ((pte / 2 % 8) == 0)

abbrev pub pte_flags : ℕ → ℕ
pte_flags pte = pte % 1024

abbrev pub pa2pte : ℕ → ℕ
pa2pte pa = pa / 4096 * 1024

abbrev pub pte2pa : ℕ → ℕ
pte2pa pte = pte / 1024 * 4096 % 2 ^ 64

-- PA2PTE(pa) | perm | PTE_V: the bits of the address lie above those of perm.
abbrev pub make_pte : ℕ → ℕ → ℕ
make_pte pa perm = pa2pte pa + (perm / 2 * 2 + 1)

abbrev pub px : ℕ → ℕ → ℕ
px level va = va / 2 ^ (12 + 9 * level) % 512

-- &pagetable[PX(level, va)]
abbrev pub slot : ℕ → ℕ → ℕ → ℕ
slot pt level va = pt + 8 * px level va

-- The next lower table behind the entry at `p`, which `alloc` adds; `none` makes walk return 0.
next_table : Bool → ℕ → Cmd Memory (Option ℕ)
next_table alloc p m =
    if is_valid (m.word p)
    then ok (some (pte2pa (m.word p))) m
    else if alloc
    then (kalloc >>= λ pa m'.
          if pa == 0
          then ok none m'
          else ok (some pa) (store p (make_pte pa 0) (fill_page pa 0 m')))
        m
    else ok none m

walk_from : ℕ → ℕ → ℕ → Bool → Cmd Memory ℕ
unfolding next_table
walk_from zero pt va alloc = pure (slot pt 0 va)
walk_from (suc level) pt va alloc = next_table alloc (slot pt (suc level) va) >>= λ t. elim t [
  | none ↦ pure 0
  | some pt' ↦ walk_from level pt' va alloc
]

unfoldable pub walk : ℕ → ℕ → Bool → Cmd Memory ℕ
unfolding walk_from
walk pt va alloc = if leb maxva va then fails else walk_from 2 pt va alloc

unfoldable pub walkaddr : ℕ → ℕ → Cmd Memory ℕ
walkaddr pt va =
    if leb maxva va
    then pure 0
    else (walk pt va false >>= λ p m.
        if p == 0
        then ok 0 m
        else if not (is_valid (m.word p))
        then ok 0 m
        else if not (is_user (m.word p))
        then ok 0 m
        else ok (pte2pa (m.word p)) m)

-- Loops over virtual addresses end below MAXVA, where walk panics: so many rounds are enough.
unfoldable pub va_rounds : ℕ
va_rounds = maxva / pgsize + 1

-- Writes one entry; `true` where walk found no memory for a table.
map_page : ℕ → ℕ → ℕ → ℕ → Cmd Memory Bool
map_page pt a pa perm = walk pt a true >>= λ p m.
    if p == 0
    then ok true m
    else if is_valid (m.word p)
    then panic
    else ok false (store p (make_pte pa perm) m)

map_from : ℕ → ℕ → ℕ → ℕ → ℕ → ℕ → Cmd Memory Status
unfolding map_page
map_from zero pt a last pa perm = λ _. out_of_fuel
map_from (suc n) pt a last pa perm = map_page pt a pa perm >>= λ no_table. elim no_table [
  | true ↦ pure failure
  | false ↦ elim (a == last) [
    | true ↦ pure success
    | false ↦ map_from n pt (add64 a pgsize) last (add64 pa pgsize) perm
  ]
]

unfoldable pub mappages : ℕ → ℕ → ℕ → ℕ → ℕ → Cmd Memory Status
unfolding map_from
mappages pt va size pa perm =
    if size == 0
    then fails
    else map_from va_rounds pt (pg_round_down va)
        (pg_round_down ((va + size + 2 ^ 64 - 1) % 2 ^ 64)) pa perm

unfoldable pub kvmmap : ℕ → ℕ → ℕ → ℕ → ℕ → Cmd Memory (Unit {0})
kvmmap pt va pa size perm =
    mappages pt va size pa perm >>= λ r. elim r [ success ↦ pure tt | failure ↦ fails ]

-- The body of uvmunmap's loop.
unmap_page : ℕ → ℕ → Bool → Cmd Memory (Unit {0})
unmap_page pt a do_free = walk pt a false >>= λ p m.
    if p == 0
    then panic
    else if not (is_valid (m.word p))
    then panic
    else if pte_flags (m.word p) == 1
    then panic
    else ((if do_free then kfree (pte2pa (m.word p)) else pure tt) >> λ m'. ok tt (store p 0 m')) m

unmap_from : ℕ → ℕ → ℕ → ℕ → Bool → Cmd Memory (Unit {0})
unfolding unmap_page
unmap_from zero pt a end do_free = λ _. out_of_fuel
unmap_from (suc n) pt a end do_free = elim (ltb a end) [
  | false ↦ pure tt
  | true ↦ unmap_page pt a do_free >> unmap_from n pt (add64 a pgsize) end do_free
]

unfoldable pub uvmunmap : ℕ → ℕ → ℕ → Bool → Cmd Memory (Unit {0})
unfolding unmap_from
uvmunmap pt va npages do_free =
    if not ((va % pgsize) == 0)
    then fails
    else unmap_from va_rounds pt va (add64 va (npages * pgsize % 2 ^ 64)) do_free

unfoldable pub uvmcreate : Cmd Memory ℕ
uvmcreate = kalloc >>= λ pt m. if pt == 0 then ok 0 m else ok pt (fill_page pt 0 m)
