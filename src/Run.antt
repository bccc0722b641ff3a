-- ===== src/Run.antt =====
-- Commands over a state: what a C function does, with the ways in which the kernel stops.

use csse332_final_project.Base.{Bool, true, false, ◌≡◌, ◌≢◌, arith, refl}

-- `panic` is a call of panic(), `fault` a load or store that no object holds, as through a null
-- pointer, `spins` a spinlock that another hart holds, and `out_of_fuel` a loop that uses up its
-- rounds.
pub data Run (S A : Type 0) : Type 0 where
  ok : A → S → Run S A
  panic fault spins out_of_fuel : Run S A

abbrev pub Cmd : Type 0 → Type 0 → Type 0
Cmd S A = S → Run S A

abbrev pub pure : {S A : Type 0} → A → Cmd S A
pure = ok

abbrev pub fails : {S A : Type 0} → Cmd S A
fails s = panic

module _ {S A B : Type 0} where
  abbrev pub and_then : Run S A → (A → Cmd S B) → Run S B
  and_then (ok a s) k = k a s
  and_then panic k = panic
  and_then fault k = fault
  and_then spins k = spins
  and_then out_of_fuel k = out_of_fuel

  infixl 5 ◌>>=◌ ◌>>◌
  abbrev pub ◌>>=◌ : Cmd S A → (A → Cmd S B) → Cmd S B
  m >>= k = λ s. and_then (m s) k

  abbrev pub ◌>>◌ : Cmd S A → Cmd S B → Cmd S B
  m >> n = m >>= λ _. n

-- A command on a part of the state.
abbrev pub put_back : {S T A : Type 0} → (T → S) → Run T A → Run S A
put_back f (ok a t) = ok a (f t)
put_back f panic = panic
put_back f fault = fault
put_back f spins = spins
put_back f out_of_fuel = out_of_fuel

-- A sequence ends if its parts do; the second part may use how the first one ended.
pub bind-ends :
    {S A B : Type 0} (r : Run S A) (k : A → Cmd S B)
    → r ≢ out_of_fuel
    → ((a : A) (t : S) → r ≡ ok a t → k a t ≢ out_of_fuel)
    → and_then r k ≢ out_of_fuel
bind-ends (ok a t) k h g = g a t refl
bind-ends panic k h g = ground arith
bind-ends fault k h g = ground arith
bind-ends spins k h g = ground arith
bind-ends out_of_fuel k h g = absurd (h refl)

pub either-ends :
    {S A : Type 0} (b : Bool) (k j : Cmd S A) (s : S)
    → k s ≢ out_of_fuel
    → j s ≢ out_of_fuel
    → (elim b as (λ x. Cmd S A) [ true ↦ k | false ↦ j ]) s ≢ out_of_fuel
either-ends true k j s h g = h
either-ends false k j s h g = g
