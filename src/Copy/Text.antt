-- ===== src/Copy/Text.antt =====
-- copyinstr against reading user memory byte by byte up to a null.
use mathlib.Core.List.{append-nil}
use csse332_final_project.Base.{
  ℕ, zero, suc, ◌+◌, ◌-◌, ◌%◌, ◌^◌, ◌≤◌, ◌<◌, ◌≡◌, refl, ◌∙◌, sym, ap, Bool, true, false, List, [],
  ◌∷◌, ◌++◌, length, arith, ◌==◌, ==→eq, Bool-cases, inl, inr, if◌then◌else◌,
}
use csse332_final_project.Run.{ok}
use csse332_final_project.Memory.{Memory, pgsize, add64, pg_round_down}
use csse332_final_project.Vm.{Status, success, failure}
use csse332_final_project.Vm.Laws.{walkaddr-user_page}
use csse332_final_project.Copy.{chunk, load_bytes, copyinstr_from, copyinstr, until_null}
use csse332_final_project.Copy.Fetch.{
  page_of, user_byte, before, before-before, page_of-next, at-next, next_page, chunk_at,
}

-- Those up to a null, which fails if none is among the first `max`.
pub fetch_string : ℕ → ℕ → ℕ → Memory → Status × List ℕ
fetch_string zero pt va m = (failure, [])
fetch_string (suc n) pt va m =
    let rest = fetch_string n pt (add64 va 1) m in
    let c = user_byte pt va m in
    if page_of pt va m == 0
    then (failure, [])
    else if c == 0
    then (success, 0 ∷ [])
    else before (c ∷ []) rest

-- The bytes of a part of a page up to a null, and what is fetched behind them.
until : List ℕ × Bool → Status × List ℕ → Status × List ℕ
until (out, true) r = (success, out)
until (out, false) r = before out r

-- One byte more in front.
until-cons :
    (c : ℕ) (found : List ℕ × Bool) (r : Status × List ℕ)
    → (if c == 0 then (success, 0 ∷ []) else before (c ∷ []) (until found r))
      ≡ until (if c == 0 then (0 ∷ [], true) else (c ∷ found.0, found.1)) r
unfolding until
until-cons c (out, true) r = elim (Bool-cases (c == 0)) [ inl e ↦ rw e refl | inr e ↦ rw e refl ]
until-cons c (out, false) r = elim (Bool-cases (c == 0)) [ inl e ↦ rw e refl | inr e ↦ rw e refl ]

fetch_string-chunk :
    (k n pt va : ℕ) (m : Memory)
    → va < 2 ^ 64
    → va % pgsize + k ≤ pgsize
    → (page_of pt va m == 0) ≡ false
    → fetch_string (k + n) pt va m
      ≡ until
          (until_null (load_bytes k (page_of pt va m + va % pgsize) m))
          (fetch_string n pt (add64 va k) m)
unfolding fetch_string load_bytes until_null until
fetch_string-chunk zero n pt va m lt le there =
    let none_first : 0 + n ≡ n = omega arith in
    let same : va ≡ add64 va 0 = omega arith in
    ap (λ j. fetch_string j pt va m) none_first ∙ ap (λ v. fetch_string n pt v m) same
fetch_string-chunk (suc zero) n pt va m lt le there =
    let one_first : 1 + n ≡ suc n = omega arith in
    ap (λ j. fetch_string j pt va m) one_first
    ∙ rw there (until-cons (user_byte pt va m) ([], false) (fetch_string n pt (add64 va 1) m))
fetch_string-chunk (suc (suc k)) n pt va m lt le there =
    let one_first : suc (suc k) + n ≡ suc (suc k + n) = omega arith in
    let next = page_of-next pt va m (omega arith) lt in
    let at = at-next pt va m (omega arith) lt in
    let on : add64 (add64 va 1) (suc k) ≡ add64 va (suc (suc k)) = omega arith in
    let there' : (page_of pt (add64 va 1) m == 0) ≡ false = ap (λ p. p == 0) next ∙ there in
    let rest : fetch_string (suc k + n) pt (add64 va 1) m
        ≡ until (until_null (load_bytes (suc k) (page_of pt va m + va % pgsize + 1) m))
            (fetch_string n pt (add64 va (suc (suc k))) m) =
      fetch_string-chunk (suc k) n pt (add64 va 1) m (omega arith) (omega arith) there'
      ∙ ap
          (λ q.
            until (until_null (load_bytes (suc k) q m))
              (fetch_string n pt (add64 (add64 va 1) (suc k)) m))
          at
      ∙ ap
          (λ v.
            until (until_null (load_bytes (suc k) (page_of pt va m + va % pgsize + 1) m))
              (fetch_string n pt v m))
          on in
    ap (λ j. fetch_string j pt va m) one_first
    ∙ rw there (
        ap
          (λ r.
            if user_byte pt va m == 0 then (success, 0 ∷ []) else before (user_byte pt va m ∷ []) r)
          rest
        ∙ until-cons (user_byte pt va m)
            (until_null (load_bytes (suc k) (page_of pt va m + va % pgsize + 1) m))
            (fetch_string n pt (add64 va (suc (suc k))) m))

fetch_string-absent :
    (max pt va : ℕ) (m : Memory)
    → (page_of pt va m == 0) ≡ true
    → fetch_string max pt va m ≡ (failure, [])
unfolding fetch_string
fetch_string-absent zero pt va m e = refl
fetch_string-absent (suc n) pt va m e = rw e refl

fetch_string-first :
    (pt va max : ℕ) (m : Memory)
    → va < 2 ^ 64
    → (page_of pt va m == 0) ≡ false
    → fetch_string max pt va m
      ≡ until
          (until_null (load_bytes (chunk va max) (chunk_at pt va m) m))
          (fetch_string (max - chunk va max) pt (add64 (pg_round_down va) pgsize) m)
unfolding fetch_string
fetch_string-first pt va max m lt there =
    let k = chunk va max in
    let split : max ≡ k + (max - k) = omega arith in
    let at : page_of pt va m + va % pgsize ≡ chunk_at pt va m = omega arith in
    ap (λ n. fetch_string n pt va m) split
    ∙ fetch_string-chunk k (max - k) pt va m lt (omega arith) there
    ∙ ap (λ q. until (until_null (load_bytes k q m)) (fetch_string (max - k) pt (add64 va k) m)) at
    ∙ ap (until (until_null (load_bytes k (chunk_at pt va m) m)))
        (next_page (λ n v. fetch_string n pt v m) va max (λ u v. refl) lt)

copyinstr_from-step :
    (n pt va max : ℕ) (dst : List ℕ) (m : Memory)
    → let found = until_null (load_bytes (chunk va max) (chunk_at pt va m) m) in
      copyinstr_from (suc n) pt va max dst m ≡ (
        if max == 0
        then ok (failure, dst) m
        else if page_of pt va m == 0
        then ok (failure, dst) m
        else if found.1
        then ok (success, dst ++ found.0) m
        else copyinstr_from n pt
            (add64 (pg_round_down va) pgsize)
            (max - chunk va max)
            (dst ++ found.0)
            m)
unfolding copyinstr_from
copyinstr_from-step n pt va max dst m = ground (arith, walkaddr-user_page pt (pg_round_down va) m)

until-split :
    (found : List ℕ × Bool) (r : Status × List ℕ)
    → until found r ≡ (if found.1 then (success, found.0) else before found.0 r)
unfolding until
until-split (out, true) r = refl
until-split (out, false) r = refl

copyinstr_from-fetch_string :
    (n pt va max : ℕ) (dst : List ℕ) (m : Memory)
    → max ≤ n
    → va < 2 ^ 64
    → copyinstr_from n pt va max dst m ≡ ok (before dst (fetch_string max pt va m)) m
unfolding copyinstr_from fetch_string
copyinstr_from-fetch_string zero pt va max dst m le lt =
    let empty : max ≡ 0 = omega arith in rw (empty, append-nil dst) refl
copyinstr_from-fetch_string (suc n) pt va max dst m le lt =
    let step = copyinstr_from-step n pt va max dst m in
    let found = until_null (load_bytes (chunk va max) (chunk_at pt va m) m) in
    elim (Bool-cases (max == 0)) [
      | inl e ↦ let empty = ==→eq max 0 e in step ∙ rw (e, empty, append-nil dst) refl
      | inr e ↦ elim (Bool-cases (page_of pt va m == 0)) [
        | inl absent ↦
            step ∙ rw (e, absent, fetch_string-absent max pt va m absent, append-nil dst) refl
        | inr there ↦
            let rest = fetch_string (max - chunk va max) pt (add64 (pg_round_down va) pgsize) m in
            let all = fetch_string-first pt va max m lt there ∙ until-split found rest in
            elim (Bool-cases found.1) [
              | inl got ↦
                  let all' : fetch_string max pt va m ≡ (success, found.0) = all ∙ rw got refl in
                  step ∙ rw (e, there, got, all') refl
              | inr more ↦
                  let all' : fetch_string max pt va m ≡ before found.0 rest = all ∙ rw more refl in
                  step
                  ∙ rw (e, there, more)
                      (copyinstr_from-fetch_string n pt (add64 (pg_round_down va) pgsize)
                        (max - chunk va max) (dst ++ found.0) m (ground arith) (omega arith))
                  ∙ ap (λ r. ok r m)
                      (sym (before-before dst found.0 rest) ∙ ap (before dst) (sym all'))
            ]
      ]
    ]

length-fetch_string : (max pt va : ℕ) (m : Memory) → length (fetch_string max pt va m).1 ≤ max
unfolding fetch_string
length-fetch_string zero pt va m = omega arith
length-fetch_string (suc n) pt va m = ground (arith, length-fetch_string n pt (add64 va 1) m)

-- From a 64-bit address on, copyinstr always returns and changes no memory. It has put the bytes of the user's memory from va on
-- into its buffer, up to a null and with it; without one it answers -1, with those of the first max
-- bytes that come before a page that is not mapped for user code. It never writes more than max bytes,
-- whatever it answers.
pub copyinstr-fetch_string :
    (pt va max : ℕ) (m : Memory)
    → va < 2 ^ 64
    → (copyinstr pt va max m ≡ ok (fetch_string max pt va m) m)
      × (length (fetch_string max pt va m).1 ≤ max)
unfolding copyinstr
copyinstr-fetch_string pt va max m lt = (
  copyinstr_from-fetch_string max pt va max [] m (omega arith) lt,
  length-fetch_string max pt va m,
)
