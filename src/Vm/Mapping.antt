-- ===== src/Vm/Mapping.antt =====
-- Mapping and unmapping one page in tables that are there: mappages, uvmunmap and walkaddr of vm.c.
use csse332_final_project.Base.{
  ℕ, zero, suc, ◌+◌, ◌%◌, ◌^◌, ◌<◌, ◌≤◌, ◌≡◌, refl, ◌≢◌, Bool, true, false, if◌then◌else◌, arith,
  eq→==,
}
use csse332_final_project.Base.{◌∙◌, ◌&&◌, ap}
use csse332_final_project.Run.{ok, ◌>>◌}
use csse332_final_project.Memory.{Memory, pgsize, maxva, store}
use csse332_final_project.Vm.{
  success, is_valid, is_user, pte_flags, pte2pa, make_pte, slot, next_table, walk_from, walk,
  walkaddr, va_rounds, map_page, map_from, mappages, unmap_page, unmap_from, uvmunmap,
}

-- The two tables below the root `pt` that lead to the entry of the page `va`. The entry stands in
-- neither of the two words that lead to it.
pub record HasTables (m : Memory) (pt va mid low : ℕ) : Type 0 where
  pub below : va < maxva
  pub aligned : va % pgsize ≡ 0
  pub root_valid : is_valid (m.word (slot pt 2 va)) ≡ true
  pub root_leads : pte2pa (m.word (slot pt 2 va)) ≡ mid
  pub mid_valid : is_valid (m.word (slot mid 1 va)) ≡ true
  pub mid_leads : pte2pa (m.word (slot mid 1 va)) ≡ low
  pub nonnull : slot low 0 va ≢ 0
  pub not_root : slot low 0 va ≢ slot pt 2 va
  pub not_mid : slot low 0 va ≢ slot mid 1 va

-- With or without `alloc`, walk finds the entry and changes nothing.
walk-tables :
    (pt va mid low : ℕ) (b : Bool) (m : Memory)
    → HasTables m pt va mid low
    → walk pt va b m ≡ ok (slot low 0 va) m
unfolding walk walk_from next_table
walk-tables pt va mid low b m h =
    ground (arith, h.below, h.root_valid, h.root_leads, h.mid_valid, h.mid_leads)

-- The tables stay when the entry is written.
store-HasTables :
    (pt va mid low v : ℕ) (m : Memory)
    → HasTables m pt va mid low
    → HasTables (store (slot low 0 va) v m) pt va mid low
store-HasTables pt va mid low v m h = record {
  below = h.below;
  aligned = h.aligned;
  root_valid = ground (arith, h.not_root, h.root_valid);
  root_leads = ground (arith, h.not_root, h.root_leads);
  mid_valid = ground (arith, h.not_mid, h.mid_valid);
  mid_leads = ground (arith, h.not_mid, h.mid_leads);
  nonnull = h.nonnull;
  not_root = h.not_root;
  not_mid = h.not_mid;
}

rounds : 1 < va_rounds
unfolding va_rounds
rounds = omega arith

map_from-tables :
    (n pt a last va mid low pa perm : ℕ) (m : Memory)
    → HasTables m pt va mid low
    → is_valid (m.word (slot low 0 va)) ≡ false
    → 1 < n
    → a ≡ va
    → va ≡ last
    → map_from n pt a last pa perm m ≡ ok success (store (slot low 0 va) (make_pte pa perm) m)
unfolding map_from map_page
map_from-tables zero pt a last va mid low pa perm m h free more here once = absurd (omega arith)
map_from-tables (suc n) pt a last va mid low pa perm m h free more here once =
    rw here (rw (walk-tables pt va mid low true m h) (ground (arith, h.nonnull, free, once)))

mappages-tables :
    (pt va mid low pa perm : ℕ) (m : Memory)
    → HasTables m pt va mid low
    → is_valid (m.word (slot low 0 va)) ≡ false
    → mappages pt va pgsize pa perm m ≡ ok success (store (slot low 0 va) (make_pte pa perm) m)
unfolding mappages
mappages-tables pt va mid low pa perm m h free =
    map_from-tables _ pt _ _ va mid low pa perm m h free rounds (omega (arith, h.aligned))
      (omega (arith, h.aligned, h.below))

walkaddr-tables :
    (pt va mid low : ℕ) (m : Memory)
    → HasTables m pt va mid low
    → let pte = m.word (slot low 0 va) in
      walkaddr pt va m ≡ ok (if is_valid pte && is_user pte then pte2pa pte else 0) m
unfolding walkaddr
walkaddr-tables pt va mid low m h =
    ground (arith, walk-tables pt va mid low false m h, h.below, h.nonnull)

unmap_page-tables :
    (pt va mid low : ℕ) (m : Memory)
    → HasTables m pt va mid low
    → is_valid (m.word (slot low 0 va)) ≡ true
    → pte_flags (m.word (slot low 0 va)) ≢ 1
    → unmap_page pt va false m ≡ ok tt (store (slot low 0 va) 0 m)
unfolding unmap_page
unmap_page-tables pt va mid low m h valid leaf =
    rw (walk-tables pt va mid low false m h) (ground (arith, h.nonnull, valid, leaf))

unmap_from-tables :
    (n pt va end mid low : ℕ) (m : Memory)
    → HasTables m pt va mid low
    → is_valid (m.word (slot low 0 va)) ≡ true
    → pte_flags (m.word (slot low 0 va)) ≢ 1
    → 1 < n
    → va < end
    → end ≤ va + pgsize
    → unmap_from n pt va end false m ≡ ok tt (store (slot low 0 va) 0 m)
unfolding unmap_from
unmap_from-tables zero pt va end mid low m h valid leaf more first last = absurd (omega arith)
unmap_from-tables (suc zero) pt va end mid low m h valid leaf more first last = absurd (omega arith)
unmap_from-tables (suc (suc n)) pt va end mid low m h valid leaf more first last =
    ground (arith, unmap_page-tables pt va mid low m h valid leaf, h.below)

uvmunmap-tables :
    (pt va mid low : ℕ) (m : Memory)
    → HasTables m pt va mid low
    → is_valid (m.word (slot low 0 va)) ≡ true
    → pte_flags (m.word (slot low 0 va)) ≢ 1
    → uvmunmap pt va 1 false m ≡ ok tt (store (slot low 0 va) 0 m)
unfolding uvmunmap
uvmunmap-tables pt va mid low m h valid leaf = rw (eq→== (va % pgsize) 0 h.aligned) (
    unmap_from-tables _ pt va _ mid low m h valid leaf rounds (omega (arith, h.below))
      (omega (arith, h.below)))

-- walkaddr and uvmunmap, where the entry has just been written.
walkaddr-stored :
    (pt va mid low pte : ℕ) (m : Memory)
    → HasTables m pt va mid low
    → let t = store (slot low 0 va) pte m in
      walkaddr pt va t ≡ ok (if is_valid pte && is_user pte then pte2pa pte else 0) t
walkaddr-stored pt va mid low pte m h =
    rw (walkaddr-tables pt va mid low _ (store-HasTables pt va mid low pte m h)) (ground arith)

uvmunmap-stored :
    (pt va mid low pte : ℕ) (m : Memory)
    → HasTables m pt va mid low
    → is_valid pte ≡ true
    → pte_flags pte ≢ 1
    → let t = store (slot low 0 va) pte m in
      uvmunmap pt va 1 false t ≡ ok tt (store (slot low 0 va) 0 t)
uvmunmap-stored pt va mid low pte m h valid leaf =
    uvmunmap-tables pt va mid low _ (store-HasTables pt va mid low pte m h) (ground (arith, valid))
      (ground (arith, leaf))

-- What the entry of a page-aligned address holds.
make_pte-reads :
    (pa perm : ℕ)
    → pa % pgsize ≡ 0
    → pa < 2 ^ 56
    → perm < 1024
    → let pte = make_pte pa perm in
      (if is_valid pte && is_user pte then pte2pa pte else 0) ≡ (if is_user perm then pa else 0)
make_pte-reads pa perm aligned small flags = ground arith

-- Where the tables of a page are there and its entry is not valid, mappages of a physical page
-- succeeds, and walkaddr then finds that page, if the permissions let user code use it. It writes
-- no other word, and takes no page.
pub walkaddr-mappages :
    (pt va mid low pa perm : ℕ) (m : Memory)
    → HasTables m pt va mid low
    → is_valid (m.word (slot low 0 va)) ≡ false
    → pa % pgsize ≡ 0
    → pa < 2 ^ 56
    → perm < 1024
    → (t : Memory) × (mappages pt va pgsize pa perm m ≡ ok success t)
      × (walkaddr pt va t ≡ ok (if is_user perm then pa else 0) t)
      × ((q : ℕ) → q ≢ slot low 0 va → t.word q ≡ m.word q)
      × (t.freelist ≡ m.freelist)
walkaddr-mappages pt va mid low pa perm m h free aligned small flags =
    let t = store (slot low 0 va) (make_pte pa perm) m in
    (
      t,
      mappages-tables pt va mid low pa perm m h free,
      walkaddr-stored pt va mid low (make_pte pa perm) m h
          ∙ ap (λ a. ok a t) (make_pte-reads pa perm aligned small flags),
      λ q ne. ground arith,
      refl,
    )

-- Mapping such a page with some permission and unmapping it again succeeds: walkaddr finds no page,
-- every other word is as before, and no page has been taken or given back.
pub uvmunmap-mappages :
    (pt va mid low pa perm : ℕ) (m : Memory)
    → HasTables m pt va mid low
    → is_valid (m.word (slot low 0 va)) ≡ false
    → pa % pgsize ≡ 0
    → pa < 2 ^ 56
    → 1 < perm
    → perm < 1024
    → (t : Memory) × ((mappages pt va pgsize pa perm >> uvmunmap pt va 1 false) m ≡ ok tt t)
      × (walkaddr pt va t ≡ ok 0 t)
      × ((q : ℕ) → q ≢ slot low 0 va → t.word q ≡ m.word q)
      × (t.freelist ≡ m.freelist)
uvmunmap-mappages pt va mid low pa perm m h free aligned small some_flag flags =
    let p = slot low 0 va in
    let pte = make_pte pa perm in
    let after = store-HasTables pt va mid low pte m h in
    (
      store p 0 (store p pte m),
      rw (mappages-tables pt va mid low pa perm m h free)
          (uvmunmap-stored pt va mid low pte m h (ground arith) (omega arith)),
      walkaddr-stored pt va mid low 0 (store p pte m) after,
      λ q ne. ground arith,
      refl,
    )
