-- ===== src/Vm/Laws.antt =====
-- walk, walkaddr and the loops of vm.c: what they read, and that they end.
use csse332_final_project.Base.{
  ℕ, zero, suc, ◌+◌, ◌*◌, ◌%◌, ◌≤◌, ◌<◌, ◌≡◌, refl, ◌≢◌, Bool, true, false, if◌then◌else◌, Option,
  none, some, arith, Bool-cases, inl, inr, lt-or-le, ltb, leb, ◌==◌,
}
use csse332_final_project.Run.{Cmd, ok, panic, out_of_fuel, pure, and_then, bind-ends, either-ends}
use csse332_final_project.Memory.{Memory, pgsize, maxva, add64}
use csse332_final_project.Kalloc.{kalloc, kfree}
use csse332_final_project.Vm.{
  success, failure, is_valid, is_user, pte2pa, slot, next_table, walk_from, walk, walkaddr,
  va_rounds, map_page, map_from, mappages, unmap_page, unmap_from, uvmunmap,
}

-- The address of the entry for `va`, by the words of memory alone: 0 where a table is missing.
unfoldable pub entry : (ℕ → ℕ) → ℕ → ℕ → ℕ → ℕ
entry word zero pt va = slot pt 0 va
entry word (suc level) pt va =
    let below = entry word level (pte2pa (word (slot pt (suc level) va))) va in
    if is_valid (word (slot pt (suc level) va)) then below else 0

walk_from-entry :
    (level pt va : ℕ) (m : Memory) → walk_from level pt va false m ≡ ok (entry m.word level pt va) m
unfolding walk_from entry
walk_from-entry zero pt va m = refl
walk_from-entry (suc level) pt va m =
    ground (arith, walk_from-entry level (pte2pa (m.word (slot pt (suc level) va))) va m)

-- walk with alloc = 0 changes nothing: below MAXVA it returns the entry's address, else it panics.
pub walk-entry :
    (pt va : ℕ) (m : Memory)
    → walk pt va false m ≡ (if leb maxva va then panic else ok (entry m.word 2 pt va) m)
unfolding walk
walk-entry pt va m = ground (arith, walk_from-entry 2 pt va m)

-- The physical address of a user page by the words of memory alone, 0 where there is none.
abbrev pub user_page : (ℕ → ℕ) → ℕ → ℕ → ℕ
user_page word pt va =
    let p = entry word 2 pt va in
    if leb maxva va
    then 0
    else if p == 0
    then 0
    else if is_valid (word p)
    then if is_user (word p) then pte2pa (word p) else 0
    else 0

-- walkaddr changes nothing, never panics, and returns the page of a valid entry that user code may
-- access, and 0 for every other address.
pub walkaddr-user_page : (pt va : ℕ) (m : Memory) → walkaddr pt va m ≡ ok (user_page m.word pt va) m
unfolding walkaddr
walkaddr-user_page pt va m = ground (arith, walk-entry pt va m)

next_table-fuel : (b : Bool) (p : ℕ) (m : Memory) → next_table b p m ≢ out_of_fuel
unfolding next_table kalloc
next_table-fuel b p m = ground arith

walk_from-table :
    (level va : ℕ) (b : Bool)
    → ((pt : ℕ) (m : Memory) → walk_from level pt va b m ≢ out_of_fuel)
    → (t : Option ℕ) (m : Memory)
    → (elim t as (λ x. Cmd Memory ℕ) [ none ↦ pure 0 | some pt ↦ walk_from level pt va b ]) m
      ≢ out_of_fuel
walk_from-table level va b below none m = ground arith
walk_from-table level va b below (some pt) m = below pt m

walk_from-fuel : (level pt va : ℕ) (b : Bool) (m : Memory) → walk_from level pt va b m ≢ out_of_fuel
unfolding walk_from
walk_from-fuel zero pt va b m = ground arith
walk_from-fuel (suc level) pt va b m =
    bind-ends (next_table b (slot pt (suc level) va) m) _
      (next_table-fuel b (slot pt (suc level) va) m)
      λ t m' e. walk_from-table level va b (λ pt' n. walk_from-fuel level pt' va b n) t m'

pub walk-fuel : (pt va : ℕ) (b : Bool) (m : Memory) → walk pt va b m ≢ out_of_fuel
unfolding walk
walk-fuel pt va b m = ground (arith, walk_from-fuel 2 pt va b m)

pub walk-above : (pt va : ℕ) (b : Bool) (m : Memory) → maxva ≤ va → walk pt va b m ≡ panic
unfolding walk
walk-above pt va b m h = ground arith

-- The rounds left reach MAXVA from `a`.
abbrev pub Reaches : ℕ → ℕ → Type 0
Reaches n a = (0 < n) × (maxva + pgsize ≤ a + n * pgsize)

pub Reaches-start : (a : ℕ) → Reaches va_rounds a
unfolding va_rounds
Reaches-start a = omega arith

pub Reaches-next : (n a : ℕ) → a < maxva → Reaches (suc n) a → Reaches n (add64 a pgsize)
Reaches-next n a low r = omega arith

map_page-fuel : (pt a pa perm : ℕ) (m : Memory) → map_page pt a pa perm m ≢ out_of_fuel
unfolding map_page
map_page-fuel pt a pa perm m =
    bind-ends (walk pt a true m) _ (walk-fuel pt a true m) λ p m' e. ground arith

map_page-above : (pt a pa perm : ℕ) (m : Memory) → maxva ≤ a → map_page pt a pa perm m ≡ panic
unfolding map_page
map_page-above pt a pa perm m h = rw (walk-above pt a true m h)

map_from-fuel :
    (n pt a last pa perm : ℕ) (m : Memory)
    → Reaches n a
    → map_from n pt a last pa perm m ≢ out_of_fuel
unfolding map_from
map_from-fuel zero pt a last pa perm m r = absurd (omega arith)
map_from-fuel (suc n) pt a last pa perm m r = elim (lt-or-le a maxva) [
  | inr high ↦ rw (map_page-above pt a pa perm m high) (ground arith)
  | inl low ↦ bind-ends (map_page pt a pa perm m) _ (map_page-fuel pt a pa perm m) λ b t e.
      either-ends b (pure failure) _ t (ground arith) (
        either-ends (a == last) (pure success) _ t (ground arith) (
          map_from-fuel n pt (add64 a pgsize) last (add64 pa pgsize) perm t
            (Reaches-next n a low r)))
]

-- The loop of mappages, which C leaves only by its `break`, ends, whatever its arguments, also where
-- the end of the range wraps round.
pub mappages-fuel :
    (pt va size pa perm : ℕ) (m : Memory) → mappages pt va size pa perm m ≢ out_of_fuel
unfolding mappages
mappages-fuel pt va size pa perm m = elim (Bool-cases (size == 0)) [
  | inl e ↦ rw e (ground arith)
  | inr e ↦ rw e (map_from-fuel _ pt _ _ pa perm m (Reaches-start _))
]

unmap_page-fuel : (pt a : ℕ) (f : Bool) (m : Memory) → unmap_page pt a f m ≢ out_of_fuel
unfolding unmap_page kfree
unmap_page-fuel pt a f m =
    bind-ends (walk pt a false m) _ (walk-fuel pt a false m) λ p m' e. ground arith

unmap_page-above : (pt a : ℕ) (f : Bool) (m : Memory) → maxva ≤ a → unmap_page pt a f m ≡ panic
unfolding unmap_page
unmap_page-above pt a f m h = rw (walk-above pt a false m h)

unmap_from-fuel :
    (n pt a end : ℕ) (f : Bool) (m : Memory) → Reaches n a → unmap_from n pt a end f m ≢ out_of_fuel
unfolding unmap_from
unmap_from-fuel zero pt a end f m r = absurd (omega arith)
unmap_from-fuel (suc n) pt a end f m r =
    either-ends (ltb a end) _ _ m (more (λ t. unmap_from-fuel n pt (add64 a pgsize) end f t))
      (ground arith)
  where
    more :
        ((t : Memory)
          → Reaches n (add64 a pgsize)
          → unmap_from n pt (add64 a pgsize) end f t ≢ out_of_fuel)
        → and_then (unmap_page pt a f m) (λ _. unmap_from n pt (add64 a pgsize) end f) ≢ out_of_fuel
    more below = elim (lt-or-le a maxva) [
      | inr high ↦ rw (unmap_page-above pt a f m high) (ground arith)
      | inl low ↦
          bind-ends (unmap_page pt a f m) _ (unmap_page-fuel pt a f m)
            λ u t e'. below t (Reaches-next n a low r)
    ]

-- The loop of uvmunmap ends, whatever its arguments.
pub uvmunmap-fuel :
    (pt va npages : ℕ) (f : Bool) (m : Memory) → uvmunmap pt va npages f m ≢ out_of_fuel
unfolding uvmunmap
uvmunmap-fuel pt va npages f m = elim (Bool-cases ((va % pgsize) == 0)) [
  | inr e ↦ rw e (ground arith)
  | inl e ↦ rw e (unmap_from-fuel _ pt va _ f m (Reaches-start _))
]
