-- ===== src/Kalloc.antt =====
-- xv6-riscv/kernel/kalloc.c: the free list of physical pages, and the reference counts of pages
-- that threads share. Each function is one step: kmem.lock is held over straight-line code that
-- takes no other lock, except that kfree and kalloc fill a page which the list does not hold.
pub mod Laws
pub mod Range
use csse332_final_project.Base.{
  ℕ, zero, suc, ◌+◌, ◌/◌, ◌%◌, ◌^◌, Bool, not, ◌||◌, if◌then◌else◌, ltb, leb, ◌==◌, update, inc32,
  dec32,
}
use csse332_final_project.Run.{Cmd, ok, panic, fault, out_of_fuel, ◌>>◌}
use csse332_final_project.Memory.{Memory, pgsize, phystop, pg_round_up, fill_page, store}

-- The test under which kfree panics.
abbrev pub refuses : Memory → ℕ → Bool
refuses m pa = not ((pa % pgsize) == 0) || (ltb pa m.kernel_end || leb phystop pa)

-- The first word of a free page is `next` of its struct run.
unfoldable pub kfree : ℕ → Cmd Memory (Unit {0})
kfree pa m =
    if refuses m pa
    then panic
    else (let m' = store pa m.freelist (fill_page pa 1 m) in ok tt (record m' { freelist = pa }))

unfoldable pub kalloc : Cmd Memory ℕ
kalloc m =
    if m.freelist == 0
    then ok 0 m
    else ok m.freelist (fill_page m.freelist 5 (record m { freelist = m.word m.freelist }))

-- The loop of freerange: `n` bounds its rounds.
free_from : ℕ → ℕ → ℕ → Cmd Memory (Unit {0})
free_from zero p pa_end m = out_of_fuel
free_from (suc n) p pa_end m =
    let rest = (kfree p >> free_from n (p + pgsize) pa_end) m in
    if leb (p + pgsize) pa_end then rest else ok tt m

unfoldable pub freerange : ℕ → ℕ → Cmd Memory (Unit {0})
unfolding free_from
freerange pa_start pa_end = free_from (pa_end / pgsize + 1) (pg_round_up pa_start) pa_end

unfoldable pub kinit : Cmd Memory (Unit {0})
kinit m = freerange m.kernel_end phystop m

-- The index is an int: the low 32 bits count. One past the end of refcount[] is a fault.
kref_set : (ℕ → ℕ) → ℕ → Cmd Memory ℕ
kref_set f pa m =
    let idx = pa / pgsize % 2 ^ 32 in
    let n = f (m.refcount idx) in
    if ltb idx (phystop / pgsize)
    then ok n (record m { refcount = update m.refcount idx n })
    else fault

unfoldable pub kref_inc : ℕ → Cmd Memory ℕ
unfolding kref_set
kref_inc = kref_set inc32

unfoldable pub kref_dec : ℕ → Cmd Memory ℕ
unfolding kref_set
kref_dec = kref_set dec32
