-- ===== src/Kalloc/Range.antt =====
-- freerange and kinit: the free list at boot; and the reference counts.
use csse332_final_project.Base.{
  ℕ, zero, suc, ◌+◌, ◌-◌, ◌*◌, ◌/◌, ◌%◌, ◌^◌, ◌≤◌, ◌<◌, ◌≡◌, refl, ◌≢◌, ◌∙◌, true, false, List, [],
  ◌∷◌, All, arith, leb, inc32, dec32, update,
}
use csse332_final_project.Run.{ok, ◌>>◌}
use csse332_final_project.Memory.{Memory, pgsize, phystop, pg_round_up}
use csse332_final_project.Kalloc.{kfree, free_from, freerange, kinit, kref_set, kref_inc, kref_dec}
use csse332_final_project.Kalloc.Laws.{IsPage, IsFree, kfree_lem}

-- The `n` pages from `p` on, the last one first, in front of `ps`.
abbrev pub pages_from : ℕ → ℕ → List ℕ → List ℕ
pages_from zero p ps = ps
pages_from (suc n) p ps = pages_from n (p + pgsize) (p ∷ ps)

-- The free pages below `p`.
abbrev Below : ℕ → List ℕ → Type 0
Below p ps = All (λ r. r < p) ps

Below-weaken : (p q : ℕ) (ps : List ℕ) → p ≤ q → Below p ps → Below q ps
Below-weaken p q [] le h = tt
Below-weaken p q (r ∷ ps) le h = (omega arith, Below-weaken p q ps le h.1)

Below-ne : (p : ℕ) (ps : List ℕ) → Below p ps → All (λ r. r ≢ p) ps
Below-ne p [] h = tt
Below-ne p (r ∷ ps) h = (omega arith, Below-ne p ps h.1)

free_from-stop :
    (n p e : ℕ) (m : Memory) → leb (p + pgsize) e ≡ false → free_from (suc n) p e m ≡ ok tt m
unfolding free_from
free_from-stop n p e m h = rw h

free_from-go :
    (n p e : ℕ) (m t : Memory)
    → leb (p + pgsize) e ≡ true
    → kfree p m ≡ ok tt t
    → free_from (suc n) p e m ≡ free_from n (p + pgsize) e t
unfolding free_from
free_from-go n p e m t h k = rw (h, k)

-- With `k` whole pages before the end, and more rounds than that, the loop frees all of them.
free_from_lem :
    (k n p e : ℕ) (m : Memory) (ps : List ℕ)
    → IsFree m ps
    → Below p ps
    → p % pgsize ≡ 0
    → p ≢ 0
    → m.kernel_end ≤ p
    → e ≤ phystop
    → p + k * pgsize ≤ e
    → e < p + k * pgsize + pgsize
    → k < n
    → (t : Memory) × (free_from n p e m ≡ ok tt t)
      × IsFree t (pages_from k p ps)
      × ((i : ℕ) → t.refcount i ≡ m.refcount i)
free_from_lem k zero p e m ps free low al nz ke pe lo hi fuel = absurd (omega arith)
free_from_lem zero (suc n) p e m ps free low al nz ke pe lo hi fuel =
    (m, free_from-stop n p e m (ground arith), free, λ i. refl)
free_from_lem (suc k) (suc n) p e m ps free low al nz ke pe lo hi fuel =
    let (u, e₁, free', same) = kfree_lem m p ps free page (Below-ne p ps low) in
    let (t, e₂, done, same') =
      free_from_lem k n (p + pgsize) e u (p ∷ ps) free'
        (omega arith, Below-weaken p (p + pgsize) ps (omega arith) low) (omega arith) (omega arith)
        (omega (arith, same.2)) pe (omega arith) (omega arith) (omega arith) in
    (t, free_from-go n p e m u (ground arith) e₁ ∙ e₂, done, λ i. same' i ∙ same.1 i)
  where
    page : IsPage m p
    page = record { aligned = al; above = ke; below = omega arith; nonzero = nz }

-- At boot, over an empty free list, kinit ends, never panics, and frees every whole page between
-- the kernel's end and PHYSTOP, once each; the last one is allocated first.
pub kinit_lem :
    (m : Memory)
    → m.freelist ≡ 0
    → 0 < m.kernel_end
    → m.kernel_end ≤ phystop
    → let p = pg_round_up m.kernel_end in
      (t : Memory) × (kinit m ≡ ok tt t)
      × IsFree t (pages_from ((phystop - p) / pgsize) p [])
      × ((i : ℕ) → t.refcount i ≡ m.refcount i)
unfolding kinit freerange
kinit_lem m none pos le =
    let p = pg_round_up m.kernel_end in
    free_from_lem ((phystop - p) / pgsize) (phystop / pgsize + 1) p phystop m [] none tt
      (omega arith) (omega arith) (omega arith) (omega arith) (omega arith) (omega arith)
      (omega arith)

-- A page's count that is raised and lowered again is as before, and so are all other counts and
-- every word of memory; the second call returns the count.
pub kref_dec-kref_inc :
    (m : Memory) (pa : ℕ)
    → pa < phystop
    → m.refcount (pa / pgsize) < 2 ^ 32
    → (t : Memory) × ((kref_inc pa >> kref_dec pa) m ≡ ok (m.refcount (pa / pgsize)) t)
      × ((i : ℕ) → t.refcount i ≡ m.refcount i)
      × (t.word ≡ m.word)
unfolding kref_inc kref_dec kref_set
kref_dec-kref_inc m pa le small =
    let i = pa / pgsize in
    let n = inc32 (m.refcount i) in
    (
      record m { refcount = update (update m.refcount i n) i (dec32 n) },
      ground arith,
      λ j. ground arith,
      refl,
    )
