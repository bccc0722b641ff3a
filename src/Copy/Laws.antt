-- ===== src/Copy/Laws.antt =====
-- copyout, round by round.
use csse332_final_project.Base.{
  ℕ, zero, suc, ◌+◌, ◌-◌, ◌≤◌, ◌<◌, ◌≡◌, refl, ◌∙◌, List, [], ◌∷◌, take, drop, length, arith, ◌==◌,
  Bool-cases, inl, inr, if◌then◌else◌,
}
use csse332_final_project.Run.{ok}
use csse332_final_project.Memory.{Memory, pgsize, add64, pg_round_down, store_bytes}
use csse332_final_project.Vm.{Status, success, failure}
use csse332_final_project.Vm.Laws.{user_page, walkaddr-user_page}
use csse332_final_project.Copy.{chunk, copyout_from, copyout}

length-drop : (n : ℕ) (xs : List ℕ) → length (drop n xs) ≡ length xs - n
length-drop zero xs = omega arith
length-drop (suc n) [] = omega arith
length-drop (suc n) (x ∷ xs) = omega (arith, length-drop n xs)

chunk_bounds : (va len : ℕ) → 0 < len → (0 < chunk va len) × (chunk va len ≤ len)
chunk_bounds va len h = omega arith

copyout_from-step :
    (n pt va b : ℕ) (bs : List ℕ) (m : Memory)
    → let pa0 = user_page m.word pt (pg_round_down va) in
      let k = chunk va (length (b ∷ bs)) in
      copyout_from (suc n) pt va (b ∷ bs) m ≡ (
        if pa0 == 0
        then ok failure m
        else copyout_from n pt
            (add64 (pg_round_down va) pgsize)
            (drop k (b ∷ bs))
            (store_bytes (pa0 + (va - pg_round_down va)) (take k (b ∷ bs)) m))
unfolding copyout_from
copyout_from-step n pt va b bs m = rw (walkaddr-user_page pt (pg_round_down va) m) (ground arith)

copyout_from-returns :
    (n pt va : ℕ) (src : List ℕ) (m : Memory)
    → length src ≤ n
    → (r : Status) × (t : Memory) × (copyout_from n pt va src m ≡ ok r t)
unfolding copyout_from
copyout_from-returns n pt va [] m h = (success, m, ground arith)
copyout_from-returns zero pt va (b ∷ bs) m h = absurd (omega arith)
copyout_from-returns (suc n) pt va (b ∷ bs) m h =
    let pa0 = user_page m.word pt (pg_round_down va) in
    let k = chunk va (length (b ∷ bs)) in
    let t = store_bytes (pa0 + (va - pg_round_down va)) (take k (b ∷ bs)) m in
    let (r, u, e) =
      copyout_from-returns n pt (add64 (pg_round_down va) pgsize) (drop k (b ∷ bs)) t
        (omega (arith, length-drop k (b ∷ bs), chunk_bounds va (length (b ∷ bs)))) in
    elim (Bool-cases (pa0 == 0)) [
      | inl absent ↦ (failure, m, copyout_from-step n pt va b bs m ∙ rw absent refl)
      | inr there ↦ (r, u, copyout_from-step n pt va b bs m ∙ rw there e)
    ]

-- copyout neither panics nor runs on. Memory is total here.
pub copyout-returns :
    (pt va : ℕ) (src : List ℕ) (m : Memory)
    → (r : Status) × (t : Memory) × (copyout pt va src m ≡ ok r t)
unfolding copyout
copyout-returns pt va src m = copyout_from-returns (length src) pt va src m (omega arith)
