-- ===== src/Tests/Pages.antt =====
-- The theorems on the page allocator at memories with two free pages.
use csse332_final_project.Base.{ℕ, ◌≡◌, refl, [], ◌∷◌, arith}
use csse332_final_project.Run.{ok, ◌>>◌}
use csse332_final_project.Memory.{Memory}
use csse332_final_project.Kalloc.{kfree, kalloc, kinit}
use csse332_final_project.Kalloc.Laws.{IsPage, IsFree, SameOutside, kfree_lem, kalloc-kfree}
use csse332_final_project.Kalloc.Range.{kinit_lem}
use csse332_final_project.Tests.{empty_memory, two_pages}

free_22-IsPage : IsPage two_pages 0x8002_2000
free_22-IsPage = omega arith

free_23-IsPage : IsPage two_pages 0x8002_3000
free_23-IsPage = omega arith

free_24-IsPage : IsPage two_pages 0x8002_4000
free_24-IsPage = omega arith

two_pages-IsFree : IsFree two_pages (0x8002_2000 ∷ 0x8002_3000 ∷ [])
two_pages-IsFree = (refl, free_22-IsPage, (omega arith, tt), (refl, free_23-IsPage, tt, refl))

kfree_lem_example :
    (t : Memory) × (kfree 0x8002_4000 two_pages ≡ ok tt t)
    × IsFree t (0x8002_4000 ∷ 0x8002_2000 ∷ 0x8002_3000 ∷ [])
    × SameOutside 0x8002_4000 two_pages t
kfree_lem_example =
    kfree_lem two_pages 0x8002_4000 (0x8002_2000 ∷ 0x8002_3000 ∷ []) two_pages-IsFree free_24-IsPage
      (omega arith)

kalloc-kfree_example :
    (t : Memory) × ((kfree 0x8002_4000 >> kalloc) two_pages ≡ ok 0x8002_4000 t)
    × IsFree t (0x8002_2000 ∷ 0x8002_3000 ∷ [])
    × SameOutside 0x8002_4000 two_pages t
kalloc-kfree_example =
    kalloc-kfree two_pages 0x8002_4000 (0x8002_2000 ∷ 0x8002_3000 ∷ []) two_pages-IsFree
      free_24-IsPage (omega arith)

-- A kernel that leaves two whole pages and a part of one.
abbrev tight : Memory
tight = record empty_memory { kernel_end = 0x87ff_d010 }

kinit_lem_example :
    (t : Memory) × (kinit tight ≡ ok tt t)
    × IsFree t (0x87ff_f000 ∷ 0x87ff_e000 ∷ [])
    × ((i : ℕ) → t.refcount i ≡ 0)
kinit_lem_example = kinit_lem tight refl (omega arith) (omega arith)

-- Out of memory: the third allocation returns 0.
out_of_memory : (t : Memory) × ((kalloc >> (kalloc >> kalloc)) two_pages ≡ ok 0 t)
unfolding kalloc
out_of_memory = (_, refl)
