-- ===== src/Printf/Numbers.antt =====
-- printint: the digits of an int.
use mathlib.Core.List.{append_assoc, append-nil}
use csse332_final_project.Base.{
  ℕ, zero, suc, ◌+◌, ◌-◌, ◌*◌, ◌/◌, ◌%◌, ◌^◌, ◌<◌, ◌≤◌, ◌≡◌, ◌⊎◌, refl, ◌∙◌, ap, sym, inl, inr,
  Bool, true, ◌&&◌, List, [], ◌∷◌, ◌++◌, length, All, if◌then◌else◌, ltb, leb, get_or, subst, ◌==◌,
  ==→eq, eq→==, arith, Bool-cases,
}
use csse332_final_project.Run.{ok}
use csse332_final_project.Terminal.{Terminal}
use csse332_final_project.Console.Echo.{IsHeld, IsHeld-sent, consputc-sent}
use csse332_final_project.Printf.{digits, digit, digits_from, printed, consputs, printint}

-- The number that a digit stands for, and the one that a row of them does, behind the number n.
pub digit_value : ℕ → ℕ
digit_value c = if ltb c b'a' then c - b'0' else c + 10 - b'a'

pub value : ℕ → ℕ → List ℕ → ℕ
unfolding digit_value
value base n [] = n
value base n (c ∷ cs) = value base (n * base + digit_value c) cs

abbrev pub IsDigits : List ℕ → Type 0
IsDigits l = All (λ c. (b'0' ≤ c) × (c < 256)) l

abbrev IsBytes : List ℕ → Type 0
IsBytes l = All (λ c. c < 256) l

-- Whether the digits from the number d on stand in the list.
are_digits : ℕ → List ℕ → Bool
unfolding digit_value
are_digits d [] = true
are_digits d (c ∷ cs) =
    let rest = are_digits (suc d) cs in (digit_value c == d) && (leb b'0' c && (ltb c 256 && rest))

get_or-digits :
    (d : ℕ) (cs : List ℕ) (j : ℕ)
    → are_digits d cs ≡ true
    → j < length cs
    → (digit_value (get_or cs j 0) ≡ d + j) × (b'0' ≤ get_or cs j 0) × (get_or cs j 0 < 256)
unfolding are_digits
get_or-digits d [] j all lt = absurd (omega arith)
get_or-digits d (c ∷ cs) zero all lt = ground arith
get_or-digits d (c ∷ cs) (suc j) all lt = ground (arith, get_or-digits (suc d) cs j)

digits-are : are_digits 0 digits ≡ true
unfolding are_digits digit_value
digits-are = refl

digit_value-digit :
    (d : ℕ) → d < 16 → (digit_value (digit d) ≡ d) × (b'0' ≤ digit d) × (digit d < 256)
digit_value-digit d lt =
    let (same, low, high) = get_or-digits 0 digits d digits-are lt in (omega arith, low, high)

abbrev tens : ℕ → ℕ
tens zero = 1
tens (suc m) = tens m * 10

abbrev pub IsBase : ℕ → Type 0
IsBase base = (base ≡ 10) ⊎ (base ≡ 16)

div-tens : (base m x : ℕ) → IsBase base → x < tens (suc m) → x / base < tens m
div-tens base m x (inl e) lt = subst (λ b. x / b < tens m) (sym e) (omega arith)
div-tens base m x (inr e) lt = subst (λ b. x / b < tens m) (sym e) (omega arith)

div-mod : (base x : ℕ) → IsBase base → ((x / base) * base + x % base ≡ x) × (x % base < 16)
div-mod base x (inl e) =
    subst (λ b. ((x / b) * b + x % b ≡ x) × (x % b < 16)) (sym e) (omega arith, omega arith)
div-mod base x (inr e) =
    subst (λ b. ((x / b) * b + x % b ≡ x) × (x % b < 16)) (sym e) (omega arith, omega arith)

-- What the rows of digits stand for, that they are digits, and how many they are.
abbrev Shows : ℕ → ℕ → ℕ → List ℕ → List ℕ → Type 0
Shows m base x rest l =
    (value base 0 l ≡ value base x rest) × IsDigits l × (length l ≤ suc m + length rest)

last_digit : (base x : ℕ) → IsBase base → (x / base) * base + digit_value (digit (x % base)) ≡ x
last_digit base x ten =
    let (whole, small) = div-mod base x ten in
    ap (λ n. (x / base) * base + n) (digit_value-digit (x % base) small).0 ∙ whole

Shows-last :
    (m base x : ℕ) (rest : List ℕ)
    → IsBase base
    → x / base ≡ 0
    → IsDigits rest
    → Shows m base x rest (digit (x % base) ∷ rest)
unfolding value
Shows-last m base x rest ten e digits =
    let (same, low, high) = digit_value-digit (x % base) (div-mod base x ten).1 in
    let one = ap (λ q. q * base + digit_value (digit (x % base))) (sym e) ∙ last_digit base x ten in
    (ap (λ n. value base n rest) one, ((low, high), digits), omega arith)

Shows-more :
    (m base x : ℕ) (rest l : List ℕ)
    → IsBase base
    → Shows m base (x / base) (digit (x % base) ∷ rest) l
    → Shows (suc m) base x rest l
unfolding value
Shows-more m base x rest l ten (same, digits, few) =
    (same ∙ ap (λ n. value base n rest) (last_digit base x ten), digits, omega arith)

Shows-digits_from :
    (k m base x : ℕ) (rest : List ℕ)
    → IsBase base
    → m ≤ k
    → x < tens (suc m)
    → IsDigits rest
    → Shows m base x rest (digits_from (suc k) base x rest)
unfolding digits_from
Shows-digits_from k zero base x rest ten le lt digits =
    let left = div-tens base 0 x ten lt in
    let none_left : x / base ≡ 0 = omega arith in
    rw (eq→== (x / base) 0 none_left) (Shows-last 0 base x rest ten none_left digits)
Shows-digits_from zero (suc m) base x rest ten le lt digits = absurd (omega arith)
Shows-digits_from (suc k) (suc m) base x rest ten le lt digits =
    elim (Bool-cases ((x / base) == 0)) [
      | inl e ↦ rw e (Shows-last (suc m) base x rest ten (==→eq (x / base) 0 e) digits)
      | inr more ↦
          let (same, low, high) = digit_value-digit (x % base) (div-mod base x ten).1 in
          rw more (
            Shows-more m base x rest _ ten (
              Shows-digits_from k m base (x / base) (digit (x % base) ∷ rest) ten (omega arith)
                (div-tens base (suc m) x ten lt) ((low, high), digits)))
    ]

module _ {F : Type 0} where
  consputs-sent :
      (l : List ℕ) (s : Terminal F)
      → IsHeld s
      → IsBytes l
      → consputs l s ≡ ok tt (record s { sent = s.sent ++ l })
  unfolding consputs
  consputs-sent [] s held small =
      ap (λ cs. ok tt (record s { sent = cs })) (sym (append-nil s.sent))
  consputs-sent (c ∷ l) s held (lt, small) =
      rw
        (consputc-sent c s held lt, consputs-sent l _ (IsHeld-sent (s.sent ++ c ∷ []) s held) small)
        (ap (λ cs. ok tt (record s { sent = cs })) (append_assoc s.sent (c ∷ []) l))

-- The absolute value of an int, and its sign.
abbrev pub magnitude : ℕ → ℕ
magnitude xx = if ltb xx (2 ^ 31) then xx else 2 ^ 32 - xx

abbrev pub sign_of : ℕ → List ℕ → List ℕ
sign_of xx l = if ltb xx (2 ^ 31) then l else b'-' ∷ l

IsDigits-IsBytes : (l : List ℕ) → IsDigits l → IsBytes l
IsDigits-IsBytes [] d = tt
IsDigits-IsBytes (c ∷ l) ((low, high), d) = (high, IsDigits-IsBytes l d)

module _ {F : Type 0} where
  -- While a lock is held, printint of an int in base 10 or 16 sends its digits, with a sign in front
  -- if it is negative. They are read back as the int's absolute value, and buf has room for them.
  pub printint-value :
      (base xx : ℕ) (s : Terminal F)
      → IsHeld s
      → IsBase base
      → xx < 2 ^ 32
      → (l : List ℕ) × (printint xx base true s
          ≡ ok tt (record s { sent = s.sent ++ sign_of xx l }))
        × (value base 0 l ≡ magnitude xx)
        × IsDigits l
        × (length (sign_of xx l) ≤ 16)
  unfolding printint printed value
  printint-value base xx s held ten lt = elim (Bool-cases (ltb xx (2 ^ 31))) [
    | inl positive ↦
        let (same, digits, few) =
          Shows-digits_from 31 9 base xx [] ten (omega arith) (omega arith) tt in
        rw positive (
          digits_from 32 base xx [],
          consputs-sent (digits_from 32 base xx []) s held (IsDigits-IsBytes _ digits),
          same,
          digits,
          omega arith,
        )
    | inr negative ↦
        let x = 2 ^ 32 - xx in
        let l = digits_from 32 base x [] in
        let (same, digits, few) =
          Shows-digits_from 31 9 base x [] ten (omega arith) (ground arith) tt in
        rw negative (
          l,
          consputs-sent (b'-' ∷ l) s held (omega arith, IsDigits-IsBytes l digits),
          same,
          digits,
          omega arith,
        )
  ]
