-- ===== src/Memory.antt =====
-- Physical memory and the constants of xv6-riscv/kernel/riscv.h and memlayout.h.
-- Memory is the 8-byte words at the addresses that are multiples of 8: the kernel reads page-table
-- pages, free pages and trapframes by such words. The state of kalloc.c stands beside it.
use csse332_final_project.Base.{
  ℕ, ◌+◌, ◌-◌, ◌*◌, ◌/◌, ◌%◌, ◌^◌, Bool, List, [], ◌∷◌, ◌&&◌, if◌then◌else◌, ltb, leb, ◌==◌,
}

abbrev pub pgsize : ℕ
pgsize = 4096

abbrev pub kernbase : ℕ
kernbase = 0x8000_0000

abbrev pub phystop : ℕ
phystop = kernbase + 128 * 1024 * 1024

-- One beyond the highest virtual address.
abbrev pub maxva : ℕ
maxva = 2 ^ 38

abbrev pub trampoline : ℕ
trampoline = maxva - pgsize

abbrev pub trapframe_va : ℕ
trapframe_va = trampoline - pgsize

-- The virtual address of the kernel stack of slot `i`.
abbrev pub kstack_va : ℕ → ℕ
kstack_va i = trampoline - (i + 1) * 2 * pgsize

-- `+` of two uint64.
abbrev pub add64 : ℕ → ℕ → ℕ
add64 a b = (a + b) % 2 ^ 64

abbrev pub pg_round_up : ℕ → ℕ
pg_round_up sz = add64 sz (pgsize - 1) / pgsize * pgsize

abbrev pub pg_round_down : ℕ → ℕ
pg_round_down a = a / pgsize * pgsize

-- `kernel_end` is the linker's symbol `end`. A reference count is a C int as a 32-bit pattern.
pub record Memory : Type 0 where
  pub word : ℕ → ℕ
  pub freelist : ℕ
  pub refcount : ℕ → ℕ
  pub kernel_end : ℕ

abbrev pub in_page : ℕ → ℕ → Bool
in_page pa a = leb pa a && ltb a (pa + pgsize)

-- memset(pa, c, PGSIZE)
abbrev pub fill_page : ℕ → ℕ → Memory → Memory
fill_page pa c m = record m {
  word = λ a. if in_page pa a then c * 0x0101_0101_0101_0101 else m.word a;
}

-- memmove(dst, src, PGSIZE) between two pages
abbrev pub copy_page : ℕ → ℕ → Memory → Memory
copy_page dst src m = record m {
  word = λ a. if in_page dst a then m.word (src + (a - dst)) else m.word a;
}

abbrev pub store : ℕ → ℕ → Memory → Memory
store p v m = record m { word = λ a. if a == p then v else m.word a }

-- The byte at `p`, of the little-endian word that holds it.
abbrev pub load_byte : Memory → ℕ → ℕ
load_byte m p = m.word (p / 8 * 8) / 2 ^ (8 * (p % 8)) % 256

abbrev pub store_byte : ℕ → ℕ → Memory → Memory
store_byte p b m =
    let old = m.word (p / 8 * 8) in
    store (p / 8 * 8) (old - load_byte m p * 2 ^ (8 * (p % 8)) + b * 2 ^ (8 * (p % 8))) m

-- memmove of a kernel buffer to `p`
pub store_bytes : ℕ → List ℕ → Memory → Memory
store_bytes p [] m = m
store_bytes p (b ∷ bs) m = store_bytes (p + 1) bs (store_byte p b m)
