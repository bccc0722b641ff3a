-- ===== src/Tests/Tables.antt =====
-- The theorems on page tables and copying at a table with one mapped page.
use csse332_final_project.Base.{◌≤◌, ℕ, ◌≡◌, refl, ◌≢◌, false, [], ◌∷◌, length, arith}
use csse332_final_project.Run.{ok, ◌>>◌}
use csse332_final_project.Memory.{Memory, pgsize}
use csse332_final_project.Vm.{success, failure, walk, walkaddr, mappages, uvmunmap}
use csse332_final_project.Vm.Laws.{entry, walkaddr-user_page}
use csse332_final_project.Uvm.{free_user_page}
use csse332_final_project.Uvm.Laws.{IsMapped, IsUnmapped, free_user_page-count}
use csse332_final_project.Copy.{copyin, copyinstr}
use csse332_final_project.Vm.Mapping.{HasTables, walkaddr-mappages, uvmunmap-mappages}
use csse332_final_project.Copy.Fetch.{fetch, copyin-fetch}
use csse332_final_project.Copy.Text.{fetch_string, copyinstr-fetch_string}
use csse332_final_project.Tests.{mapped_memory}

walkaddr-user_page_example : walkaddr 0x8002_2000 0 mapped_memory ≡ ok 0x8002_5000 mapped_memory
unfolding entry
walkaddr-user_page_example = walkaddr-user_page 0x8002_2000 0 mapped_memory

mapped : IsMapped mapped_memory 0x8002_2000 0 0x8002_4000
unfolding entry
mapped = record {
  low = omega arith;
  found = refl;
  present = omega arith;
  valid = refl;
  page = omega arith;
}

-- A page that was never shared stays off the free list.
free_user_page-count_example :
    (t : Memory) × (free_user_page 0x8002_2000 0 mapped_memory ≡ ok tt t)
    × IsUnmapped mapped_memory t 0x8002_4000 0
free_user_page-count_example =
    free_user_page-count mapped_memory 0x8002_2000 0 0x8002_4000 mapped (omega arith)

-- Four bytes on the mapped page, and a string that a null ends at once.
copyin-fetch_example :
    copyin 0x8002_2000 8 4 mapped_memory ≡ ok (fetch 4 0x8002_2000 8 mapped_memory) mapped_memory
copyin-fetch_example = copyin-fetch 0x8002_2000 8 4 mapped_memory (omega arith)

copyinstr-fetch_string_example :
    (copyinstr 0x8002_2000 8 16 mapped_memory
      ≡ ok (fetch_string 16 0x8002_2000 8 mapped_memory) mapped_memory)
    × (length (fetch_string 16 0x8002_2000 8 mapped_memory).1 ≤ 16)
copyinstr-fetch_string_example = copyinstr-fetch_string 0x8002_2000 8 16 mapped_memory (omega arith)

-- A copy that runs past the mapped page fails, with the bytes before it.
copyin_fails : copyin 0x8002_2000 0xffe 4 mapped_memory ≡ ok (failure, 0 ∷ 0 ∷ []) mapped_memory
unfolding copyin walkaddr walk
copyin_fails = refl

tables : HasTables mapped_memory 0x8002_2000 0x1000 0x8002_3000 0x8002_4000
tables = record {
  below = omega arith;
  aligned = omega arith;
  root_valid = refl;
  root_leads = refl;
  mid_valid = refl;
  mid_leads = refl;
  nonnull = omega arith;
  not_root = omega arith;
  not_mid = omega arith;
}

-- A second page, at 0x1000, readable and writable by user code.
walkaddr-mappages_example :
    (t : Memory) × (mappages 0x8002_2000 0x1000 pgsize 0x8002_6000 22 mapped_memory ≡ ok success t)
    × (walkaddr 0x8002_2000 0x1000 t ≡ ok 0x8002_6000 t)
    × ((q : ℕ) → q ≢ 0x8002_4008 → t.word q ≡ mapped_memory.word q)
    × (t.freelist ≡ 0)
walkaddr-mappages_example =
    walkaddr-mappages 0x8002_2000 0x1000 0x8002_3000 0x8002_4000 0x8002_6000 22 mapped_memory tables
      refl (omega arith) (omega arith) (omega arith)

uvmunmap-mappages_example :
    (t : Memory) × ((mappages 0x8002_2000 0x1000 pgsize 0x8002_6000 22
          >> uvmunmap 0x8002_2000 0x1000 1 false)
        mapped_memory
      ≡ ok tt t)
    × (walkaddr 0x8002_2000 0x1000 t ≡ ok 0 t)
    × ((q : ℕ) → q ≢ 0x8002_4008 → t.word q ≡ mapped_memory.word q)
    × (t.freelist ≡ 0)
uvmunmap-mappages_example =
    uvmunmap-mappages 0x8002_2000 0x1000 0x8002_3000 0x8002_4000 0x8002_6000 22 mapped_memory tables
      refl (omega arith) (omega arith) (omega arith) (omega arith)
