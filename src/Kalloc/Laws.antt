-- ===== src/Kalloc/Laws.antt =====
-- The allocator against a list of free pages.
use csse332_final_project.Base.{
  ℕ, ◌%◌, ◌≤◌, ◌<◌, ◌≡◌, refl, ◌≢◌, ◌⊎◌, ◌↔◌, ◌∙◌, true, false, List, [], ◌∷◌, All, arith, sym,
  subst,
}
use csse332_final_project.Run.{ok, panic, ◌>>◌}
use csse332_final_project.Memory.{Memory, pgsize, phystop, in_page, fill_page, store}
use csse332_final_project.Kalloc.{kfree, kalloc}

-- A page that kfree accepts; the kernel image lies above page 0.
pub record IsPage (m : Memory) (pa : ℕ) : Type 0 where
  pub aligned : pa % pgsize ≡ 0
  pub above : m.kernel_end ≤ pa
  pub below : pa < phystop
  pub nonzero : pa ≢ 0

-- From `p` the next pointers lead through the distinct pages `ps` to null.
abbrev pub Chain : Memory → ℕ → List ℕ → Type 0
Chain m p [] = p ≡ 0
Chain m p (q ∷ qs) = (p ≡ q) × IsPage m q × All (λ r. r ≢ q) qs × Chain m (m.word q) qs

abbrev pub IsFree : Memory → List ℕ → Type 0
IsFree m ps = Chain m m.freelist ps

-- Nothing outside the page has changed.
abbrev pub SameOutside : ℕ → Memory → Memory → Type 0
SameOutside pa m t =
    ((a : ℕ) → in_page pa a ≡ false → t.word a ≡ m.word a)
    × ((i : ℕ) → t.refcount i ≡ m.refcount i)
    × (t.kernel_end ≡ m.kernel_end)

Chain-frame :
    (m t : Memory) (pa p : ℕ) (ps : List ℕ)
    → SameOutside pa m t
    → pa % pgsize ≡ 0
    → All (λ r. r ≢ pa) ps
    → Chain m p ps
    → Chain t p ps
Chain-frame m t pa p [] same al out c = c
Chain-frame m t pa p (q ∷ qs) same al out (e, page, fresh, c) = (
  e,
  record {
    aligned = page.aligned;
    above = omega (arith, same.2, page.above);
    below = page.below;
    nonzero = page.nonzero;
  },
  fresh,
  rw (same.0 q (ground (arith, page.aligned, out.0)))
      (Chain-frame m t pa (m.word q) qs same al out.1 c),
)

-- kfree of a page that is not free, between the kernel's end and PHYSTOP, succeeds, puts the page
-- in front of the free pages, and changes no other memory.
pub kfree_lem :
    (m : Memory) (pa : ℕ) (ps : List ℕ)
    → IsFree m ps
    → IsPage m pa
    → All (λ r. r ≢ pa) ps
    → (t : Memory) × (kfree pa m ≡ ok tt t) × IsFree t (pa ∷ ps) × SameOutside pa m t
unfolding kfree
kfree_lem m pa ps free page fresh =
    let t : Memory =
      (let m' = store pa m.freelist (fill_page pa 1 m) in record m' { freelist = pa }) in
    let head : t.word pa ≡ m.freelist = ground arith in
    let same : SameOutside pa m t = (λ a h. ground arith, λ i. refl, refl) in
    (
      t,
      ground arith,
      (
        refl,
        record {
          aligned = page.aligned;
          above = page.above;
          below = page.below;
          nonzero = page.nonzero;
        },
        fresh,
        subst (λ p. Chain t p ps) (sym head)
            (Chain-frame m t pa m.freelist ps same page.aligned fresh free),
      ),
      same,
    )

-- An address that is not page-aligned, or lies below the kernel's end or from PHYSTOP up, makes
-- kfree panic, and no other address does.
pub kfree_panics :
    (m : Memory) (pa : ℕ)
    → (kfree pa m ≡ panic) ↔ ((pa % pgsize ≢ 0) ⊎ ((pa < m.kernel_end) ⊎ (phystop ≤ pa)))
unfolding kfree
kfree_panics m pa = ground arith

-- What kalloc does when the free pages are `ps`.
abbrev pub Allocates : Memory → List ℕ → Type 0
Allocates m [] = kalloc m ≡ ok 0 m
Allocates m (q ∷ qs) =
    (t : Memory) × (kalloc m ≡ ok q t)
    × IsFree t qs
    × SameOutside q m t
    × ((a : ℕ) → in_page q a ≡ true → t.word a ≡ 0x0505_0505_0505_0505)

-- kalloc takes the first free page and fills it with junk, or returns 0 and changes nothing when
-- no page is free. No other memory changes.
pub kalloc_lem : (m : Memory) (ps : List ℕ) → IsFree m ps → Allocates m ps
unfolding kalloc
kalloc_lem m [] e = ground arith
kalloc_lem m (q ∷ qs) (e, page, fresh, c) =
    let t : Memory = fill_page q 5 (record m { freelist = m.word q }) in
    let same : SameOutside q m t = (λ a h. ground arith, λ i. refl, refl) in
    (
      t,
      rw e (ground (arith, page.nonzero)),
      Chain-frame m t q (m.word q) qs same page.aligned fresh c,
      same,
      λ a h. ground arith,
    )

-- A page that is freed and allocated at once is the same page, and the free list is as before.
pub kalloc-kfree :
    (m : Memory) (pa : ℕ) (ps : List ℕ)
    → IsFree m ps
    → IsPage m pa
    → All (λ r. r ≢ pa) ps
    → (t : Memory) × ((kfree pa >> kalloc) m ≡ ok pa t) × IsFree t ps × SameOutside pa m t
kalloc-kfree m pa ps free page fresh =
    let (u, e, free', same) = kfree_lem m pa ps free page fresh in
    let (t, e', rest, same', junk) = kalloc_lem u (pa ∷ ps) free' in
    (
      t,
      rw (e, ◌>>◌) e',
      rest,
      (λ a h. same'.0 a h ∙ same.0 a h, λ i. same'.1 i ∙ same.1 i, same'.2 ∙ same.2),
    )
