-- ===== src/Uvm/Laws.antt =====
-- The reference counts when user pages are unmapped, and the ends of the loops over user memory.
use csse332_final_project.Base.{
  ℕ, zero, suc, ◌/◌, ◌^◌, ◌≤◌, ◌<◌, ◌≡◌, refl, ◌≢◌, true, false, if◌then◌else◌, arith, Bool-cases,
  inl, inr, lt-or-le, ltb, ◌==◌, dec32, update,
}
use csse332_final_project.Run.{
  Cmd, ok, panic, out_of_fuel, pure, and_then, bind-ends, either-ends, ◌>>=◌,
}
use csse332_final_project.Memory.{Memory, pgsize, maxva, add64, store, copy_page, fill_page}
use csse332_final_project.Kalloc.{kalloc, kfree, kref_dec, kref_inc}
use csse332_final_project.Kalloc.Laws.{IsPage}
use csse332_final_project.Vm.{
  Status, success, failure, is_valid, pte2pa, walk, uvmunmap, va_rounds, pte_flags,
}
use csse332_final_project.Vm.Laws.{
  entry, walk-entry, walk-fuel, walk-above, mappages-fuel, uvmunmap-fuel, Reaches, Reaches-start,
  Reaches-next,
}
use csse332_final_project.Uvm.{
  free_user_page, free_user_page_thread, share_page, share_from, uvmshare, copy_user_page,
  copy_from, uvmcopy,
}

-- A mapped user page, by the words of memory alone.
pub record IsMapped (m : Memory) (pt va p : ℕ) : Type 0 where
  pub low : va < maxva
  pub found : entry m.word 2 pt va ≡ p
  pub present : p ≢ 0
  pub valid : is_valid (m.word p) ≡ true
  pub page : IsPage m (pte2pa (m.word p))

-- What unmapping the entry at `p` leaves: the entry is 0, the count of the page is one less modulo
-- 2^32, and the free list begins with `first`.
pub record IsUnmapped (m t : Memory) (p first : ℕ) : Type 0 where
  pub cleared : t.word p ≡ 0
  pub lowered :
      (i : ℕ)
      → t.refcount i
        ≡ (if (pte2pa (m.word p) / pgsize) == i then dec32 (m.refcount i) else m.refcount i)
  pub free : t.freelist ≡ first

-- free_user_page unmaps the page and lowers its count, and gives the page back exactly when the
-- count was 1. So a page that no thread ever shared, of count 0, is not given back.
pub free_user_page-count :
    (m : Memory) (pt va p : ℕ)
    → IsMapped m pt va p
    → m.refcount (pte2pa (m.word p) / pgsize) < 2 ^ 32
    → let pa = pte2pa (m.word p) in
      (t : Memory) × (free_user_page pt va m ≡ ok tt t)
      × IsUnmapped m t p (if m.refcount (pa / pgsize) == 1 then pa else m.freelist)
unfolding free_user_page kref_dec kfree
free_user_page-count m pt va p h small = elim (Bool-cases (m.refcount i == 1)) [
  | inl e ↦ (
    store p 0 (record (store pa m.freelist (fill_page pa 1 low)) { freelist = pa }),
    rw (walk-entry pt va m) (ground (arith, h.low, h.found, h.present, h.valid, h.page)),
    record { cleared = ground arith; lowered = λ j. ground arith; free = rw e },
  )
  | inr e ↦ (
    store p 0 low,
    rw (walk-entry pt va m) (ground (arith, h.low, h.found, h.present, h.valid, h.page)),
    record { cleared = ground arith; lowered = λ j. ground arith; free = rw e },
  )
]
  where
    pa : ℕ
    pa = pte2pa (m.word p)

    i : ℕ
    i = pa / pgsize

    low : Memory
    low = record m { refcount = update m.refcount i (dec32 (m.refcount i)) }

-- The version for threads lowers the count alike, and never gives the page back.
pub free_user_page_thread-count :
    (m : Memory) (pt va p : ℕ)
    → IsMapped m pt va p
    → (t : Memory) × (free_user_page_thread pt va m ≡ ok tt t) × IsUnmapped m t p m.freelist
unfolding free_user_page_thread kref_dec
free_user_page_thread-count m pt va p h = (
  store p 0 low,
  rw (walk-entry pt va m) (ground (arith, h.low, h.found, h.present, h.valid, h.page)),
  record { cleared = ground arith; lowered = λ j. ground arith; free = refl },
)
  where
    i : ℕ
    i = pte2pa (m.word p) / pgsize

    low : Memory
    low = record m { refcount = update m.refcount i (dec32 (m.refcount i)) }

share_page-fuel : (src dest i : ℕ) (m : Memory) → share_page src dest i m ≢ out_of_fuel
unfolding share_page kref_inc
share_page-fuel src dest i m = bind-ends (walk src i false m) _ (walk-fuel src i false m) λ p t e.
    ground (arith, mappages-fuel dest i pgsize (pte2pa (t.word p)) (pte_flags (t.word p)) t)

share_page-above : (src dest i : ℕ) (m : Memory) → maxva ≤ i → share_page src dest i m ≡ panic
unfolding share_page
share_page-above src dest i m h = rw (walk-above src i false m h)

copy_user_page-fuel : (old new i : ℕ) (m : Memory) → copy_user_page old new i m ≢ out_of_fuel
unfolding copy_user_page kalloc kfree
copy_user_page-fuel old new i m =
    bind-ends (walk old i false m) _ (walk-fuel old i false m) λ p t e. ground (
      arith,
      mappages-fuel new i pgsize t.freelist (pte_flags (t.word p)) (
          copy_page t.freelist (pte2pa (t.word p))
            (fill_page t.freelist 5 (record t { freelist = t.word t.freelist }))),
    )

copy_user_page-above : (old new i : ℕ) (m : Memory) → maxva ≤ i → copy_user_page old new i m ≡ panic
unfolding copy_user_page
copy_user_page-above old new i m h = rw (walk-above old i false m h)

-- How a loop goes on after a page, as uvmshare and uvmcopy do.
after_page :
    (r : Status) (k j : Cmd Memory Status) (t : Memory)
    → k t ≢ out_of_fuel
    → j t ≢ out_of_fuel
    → (elim r as (λ x. Cmd Memory Status) [ success ↦ k | failure ↦ j ]) t ≢ out_of_fuel
after_page success k j t h g = h
after_page failure k j t h g = g

module _ (page : ℕ → Cmd Memory Status) (fuel : (i : ℕ) (m : Memory) → page i m ≢ out_of_fuel)
    (above : (i : ℕ) (m : Memory) → maxva ≤ i → page i m ≡ panic) where
  -- One round of such a loop at `i`.
  round-ends :
      (n i sz : ℕ) (k j : Cmd Memory Status) (m : Memory)
      → Reaches (suc n) i
      → ((t : Memory) → Reaches n (add64 i pgsize) → k t ≢ out_of_fuel)
      → ((t : Memory) → j t ≢ out_of_fuel)
      → (elim (ltb i sz) as (λ x. Cmd Memory Status) [
        | false ↦ pure success
        | true ↦ page i >>= λ r. elim r [ success ↦ k | failure ↦ j ]
      ])
          m
        ≢ out_of_fuel
  round-ends n i sz k j m r next stop = either-ends (ltb i sz) _ _ m body (ground arith)
    where
      body :
          and_then
            (page i m)
            (λ s. elim s as (λ x. Cmd Memory Status) [ success ↦ k | failure ↦ j ])
          ≢ out_of_fuel
      body = elim (lt-or-le i maxva) [
        | inr high ↦ rw (above i m high) (ground arith)
        | inl low ↦
            bind-ends (page i m) _ (fuel i m)
              λ s t e. after_page s k j t (next t (Reaches-next n i low r)) (stop t)
      ]

share_from-fuel :
    (n src dest i sz : ℕ) (m : Memory) → Reaches n i → share_from n src dest i sz m ≢ out_of_fuel
unfolding share_from
share_from-fuel zero src dest i sz m r = absurd (omega arith)
share_from-fuel (suc n) src dest i sz m r =
    round-ends (share_page src dest) (share_page-fuel src dest) (share_page-above src dest) n i sz
      (share_from n src dest (add64 i pgsize) sz) (pure failure) m r
      (λ t r'. share_from-fuel n src dest (add64 i pgsize) sz t r') (λ t. ground arith)

-- The loop of uvmshare ends, whatever its arguments: its rounds are never used up.
pub uvmshare-fuel : (src dest sz : ℕ) (m : Memory) → uvmshare src dest sz m ≢ out_of_fuel
unfolding uvmshare
uvmshare-fuel src dest sz m = share_from-fuel va_rounds src dest 0 sz m (Reaches-start 0)

copy_from-fuel :
    (n old new i sz : ℕ) (m : Memory) → Reaches n i → copy_from n old new i sz m ≢ out_of_fuel
unfolding copy_from
copy_from-fuel zero old new i sz m r = absurd (omega arith)
copy_from-fuel (suc n) old new i sz m r =
    round-ends (copy_user_page old new) (copy_user_page-fuel old new) (copy_user_page-above old new)
      n i sz (copy_from n old new (add64 i pgsize) sz) _ m r
      (λ t r'. copy_from-fuel n old new (add64 i pgsize) sz t r')
      (λ t.
        bind-ends (uvmunmap new 0 (i / pgsize) true t) _ (uvmunmap-fuel new 0 (i / pgsize) true t)
          λ a u e. ground arith)

-- uvmcopy ends, whatever its arguments, with the unmapping that it does on failure.
pub uvmcopy-fuel : (old new sz : ℕ) (m : Memory) → uvmcopy old new sz m ≢ out_of_fuel
unfolding uvmcopy
uvmcopy-fuel old new sz m = copy_from-fuel va_rounds old new 0 sz m (Reaches-start 0)
