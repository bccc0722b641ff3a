-- ===== src/Copy/Fetch.antt =====
-- copyin against reading user memory byte by byte.
use mathlib.Core.List.{append_assoc, append-nil}
use csse332_final_project.Base.{
  ℕ, zero, suc, ◌+◌, ◌-◌, ◌%◌, ◌^◌, ◌≤◌, ◌<◌, ◌≡◌, refl, ◌∙◌, sym, ap, true, false, List, [], ◌∷◌,
  ◌++◌, arith, ◌==◌, ==→eq, ==-ne, Bool-cases, inl, inr, if◌then◌else◌,
}
use csse332_final_project.Run.{ok}
use csse332_final_project.Memory.{Memory, pgsize, add64, pg_round_down, load_byte}
use csse332_final_project.Vm.{Status, success, failure}
use csse332_final_project.Vm.Laws.{user_page, walkaddr-user_page}
use csse332_final_project.Copy.{chunk, copyin_from, copyin, load_bytes}

-- The physical page of a virtual address, or 0, and the byte there.
abbrev pub page_of : ℕ → ℕ → Memory → ℕ
page_of pt va m = user_page m.word pt (pg_round_down va)

abbrev pub user_byte : ℕ → ℕ → Memory → ℕ
user_byte pt va m = load_byte m (page_of pt va m + va % pgsize)

-- Bytes before what a fetch has got.
abbrev pub before : List ℕ → Status × List ℕ → Status × List ℕ
before bs r = (r.0, bs ++ r.1)

-- The `len` bytes of user memory from `va` on, up to the first that is not mapped.
pub fetch : ℕ → ℕ → ℕ → Memory → Status × List ℕ
fetch zero pt va m = (success, [])
fetch (suc n) pt va m =
    let rest = fetch n pt (add64 va 1) m in
    if page_of pt va m == 0 then (failure, []) else before (user_byte pt va m ∷ []) rest

pub before-before :
    (xs ys : List ℕ) (r : Status × List ℕ) → before xs (before ys r) ≡ before (xs ++ ys) r
before-before xs ys r = ap (λ l. (r.0, l)) (sym (append_assoc xs ys r.1))

same_page :
    (va : ℕ)
    → va % pgsize + 1 < pgsize
    → va < 2 ^ 64
    → pg_round_down (add64 va 1) ≡ pg_round_down va
same_page va lt small = omega arith

pub page_of-next :
    (pt va : ℕ) (m : Memory)
    → va % pgsize + 1 < pgsize
    → va < 2 ^ 64
    → page_of pt (add64 va 1) m ≡ page_of pt va m
page_of-next pt va m lt small = ap (user_page m.word pt) (same_page va lt small)

pub at-next :
    (pt va : ℕ) (m : Memory)
    → va % pgsize + 1 < pgsize
    → va < 2 ^ 64
    → page_of pt (add64 va 1) m + (add64 va 1) % pgsize ≡ page_of pt va m + va % pgsize + 1
at-next pt va m lt small =
    let page = page_of-next pt va m lt small in
    ap (λ p. p + (add64 va 1) % pgsize) page ∙ omega arith

-- A part of a page that is mapped, in one go.
fetch-chunk :
    (k n pt va : ℕ) (m : Memory)
    → va < 2 ^ 64
    → va % pgsize + k ≤ pgsize
    → (page_of pt va m == 0) ≡ false
    → fetch (k + n) pt va m
      ≡ before (load_bytes k (page_of pt va m + va % pgsize) m) (fetch n pt (add64 va k) m)
unfolding fetch load_bytes
fetch-chunk zero n pt va m lt le there =
    let none_first : 0 + n ≡ n = omega arith in
    let same : va ≡ add64 va 0 = omega arith in
    ap (λ j. fetch j pt va m) none_first ∙ ap (λ v. fetch n pt v m) same
fetch-chunk (suc zero) n pt va m lt le there =
    let one_first : 1 + n ≡ suc n = omega arith in
    ap (λ j. fetch j pt va m) one_first ∙ rw there refl
fetch-chunk (suc (suc k)) n pt va m lt le there =
    let one_first : suc (suc k) + n ≡ suc (suc k + n) = omega arith in
    let next = page_of-next pt va m (omega arith) lt in
    let at = at-next pt va m (omega arith) lt in
    let on : add64 (add64 va 1) (suc k) ≡ add64 va (suc (suc k)) = omega arith in
    let there' : (page_of pt (add64 va 1) m == 0) ≡ false = ap (λ p. p == 0) next ∙ there in
    ap (λ j. fetch j pt va m) one_first
    ∙ rw there (
        ap (before (user_byte pt va m ∷ [])) (
          fetch-chunk (suc k) n pt (add64 va 1) m (omega arith) (omega arith) there'
          ∙ ap (λ q. before (load_bytes (suc k) q m) (fetch n pt (add64 (add64 va 1) (suc k)) m)) at
          ∙ ap
              (λ v.
                before (load_bytes (suc k) (page_of pt va m + va % pgsize + 1) m) (fetch n pt v m))
              on))

fetch-absent :
    (len pt va : ℕ) (m : Memory)
    → 0 < len
    → (page_of pt va m == 0) ≡ true
    → fetch len pt va m ≡ (failure, [])
unfolding fetch
fetch-absent zero pt va m lt e = absurd (omega arith)
fetch-absent (suc n) pt va m lt e = rw e refl

-- What is left behind a chunk begins at the next page, if anything is left.
pub next_page :
    (f : ℕ → ℕ → Status × List ℕ) (va len : ℕ)
    → ((u v : ℕ) → f 0 u ≡ f 0 v)
    → va < 2 ^ 64
    → f (len - chunk va len) (add64 va (chunk va len))
      ≡ f (len - chunk va len) (add64 (pg_round_down va) pgsize)
next_page f va len same lt = elim (Bool-cases ((len - chunk va len) == 0)) [
  | inl e ↦
      let nothing = ==→eq (len - chunk va len) 0 e in
      ap (λ n. f n (add64 va (chunk va len))) nothing
      ∙ same (add64 va (chunk va len)) (add64 (pg_round_down va) pgsize)
      ∙ ap (λ n. f n (add64 (pg_round_down va) pgsize)) (sym nothing)
  | inr e ↦
      let some = ==-ne (len - chunk va len) 0 e in
      let at : add64 va (chunk va len) ≡ add64 (pg_round_down va) pgsize = omega arith in
      ap (f (len - chunk va len)) at
]

abbrev pub chunk_at : ℕ → ℕ → Memory → ℕ
chunk_at pt va m = page_of pt va m + (va - pg_round_down va)

fetch-first :
    (pt va len : ℕ) (m : Memory)
    → va < 2 ^ 64
    → (page_of pt va m == 0) ≡ false
    → fetch len pt va m
      ≡ before
          (load_bytes (chunk va len) (chunk_at pt va m) m)
          (fetch (len - chunk va len) pt (add64 (pg_round_down va) pgsize) m)
unfolding fetch
fetch-first pt va len m lt there =
    let k = chunk va len in
    let split : len ≡ k + (len - k) = omega arith in
    let at : page_of pt va m + va % pgsize ≡ chunk_at pt va m = omega arith in
    ap (λ n. fetch n pt va m) split
    ∙ fetch-chunk k (len - k) pt va m lt (omega arith) there
    ∙ ap (λ q. before (load_bytes k q m) (fetch (len - k) pt (add64 va k) m)) at
    ∙ ap (before (load_bytes k (chunk_at pt va m) m))
        (next_page (λ n v. fetch n pt v m) va len (λ u v. refl) lt)

copyin_from-step :
    (n pt va len : ℕ) (dst : List ℕ) (m : Memory)
    → copyin_from (suc n) pt va len dst m ≡ (
        if len == 0
        then ok (success, dst) m
        else if page_of pt va m == 0
        then ok (failure, dst) m
        else copyin_from n pt
            (add64 (pg_round_down va) pgsize)
            (len - chunk va len)
            (dst ++ load_bytes (chunk va len) (chunk_at pt va m) m)
            m)
unfolding copyin_from
copyin_from-step n pt va len dst m = ground (arith, walkaddr-user_page pt (pg_round_down va) m)

copyin_from-fetch :
    (n pt va len : ℕ) (dst : List ℕ) (m : Memory)
    → len ≤ n
    → va < 2 ^ 64
    → copyin_from n pt va len dst m ≡ ok (before dst (fetch len pt va m)) m
unfolding copyin_from fetch
copyin_from-fetch zero pt va len dst m le lt =
    let empty : len ≡ 0 = omega arith in rw (empty, append-nil dst) refl
copyin_from-fetch (suc n) pt va len dst m le lt =
    let step = copyin_from-step n pt va len dst m in
    elim (Bool-cases (len == 0)) [
      | inl e ↦ let empty = ==→eq len 0 e in step ∙ rw (e, empty, append-nil dst) refl
      | inr e ↦ elim (Bool-cases (page_of pt va m == 0)) [
        | inl absent ↦
            let some : 0 < len = ground arith in
            step ∙ rw (e, absent, fetch-absent len pt va m some absent, append-nil dst) refl
        | inr there ↦
            let bs = load_bytes (chunk va len) (chunk_at pt va m) m in
            step
            ∙ rw (e, there)
                (copyin_from-fetch n pt (add64 (pg_round_down va) pgsize) (len - chunk va len)
                  (dst ++ bs) m (ground arith) (omega arith))
            ∙ ap (λ r. ok r m)
                (sym (before-before dst bs _)
                  ∙ ap (before dst) (sym (fetch-first pt va len m lt there)))
      ]
    ]

-- From a 64-bit address on, copyin always returns and changes no memory. It has put the bytes of the user's memory from va on
-- into its buffer, `len` of them, or those before the first whose page is not mapped for user code, in
-- which case it answers -1.
pub copyin-fetch :
    (pt va len : ℕ) (m : Memory) → va < 2 ^ 64 → copyin pt va len m ≡ ok (fetch len pt va m) m
unfolding copyin
copyin-fetch pt va len m lt = copyin_from-fetch len pt va len [] m (omega arith) lt
