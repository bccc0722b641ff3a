-- ===== src/Printf.antt =====
-- xv6-riscv/kernel/printf.c. A string is the list of its bytes without the null.
pub mod Numbers
use csse332_final_project.Base.{
  ℕ, zero, suc, ◌+◌, ◌-◌, ◌*◌, ◌/◌, ◌%◌, ◌^◌, Bool, true, false, not, ◌&&◌, Option, none, some,
  List, [], ◌∷◌, ◌++◌, if◌then◌else◌, ltb, ◌==◌, get_or,
}
use csse332_final_project.Run.{Cmd, ok, fault, pure, fails, ◌>>=◌, ◌>>◌}
use csse332_final_project.Spinlock.{initlock}
use csse332_final_project.Kernel.{on_machine, lock, unlock}
use csse332_final_project.Terminal.{Terminal, pr_lock, on_kernel, consputc}

abbrev pub digits : List ℕ
digits =
    b'0' ∷ b'1' ∷ b'2' ∷ b'3' ∷ b'4' ∷ b'5' ∷ b'6' ∷ b'7' ∷ b'8' ∷ b'9' ∷ b'a' ∷ b'b' ∷ b'c' ∷ b'd'
    ∷ b'e' ∷ b'f' ∷ []

abbrev pub digit : ℕ → ℕ
digit d = get_or digits d 0

-- The loop of printint with `k` rounds left, for the number x: what it puts into buf, the last digit
-- first, each before `rest`.
pub digits_from : ℕ → ℕ → ℕ → List ℕ → List ℕ
digits_from zero base x rest = rest
digits_from (suc k) base x rest =
    let more = digits_from k base (x / base) (digit (x % base) ∷ rest) in
    if (x / base) == 0 then digit (x % base) ∷ rest else more

-- The bytes that printint puts out, which it takes from the end of buf. A uint has 32 bits.
unfoldable pub printed : ℕ → ℕ → Bool → List ℕ
unfolding digits_from
printed xx base sign =
    if sign && not (ltb xx (2 ^ 31))
    then b'-' ∷ digits_from 32 base (2 ^ 32 - xx) []
    else digits_from 32 base xx []

-- The digits of printptr, with `k` left.
pub ptr_digits : ℕ → ℕ → List ℕ
ptr_digits zero x = []
ptr_digits (suc k) x = digit (x / 2 ^ 60) ∷ ptr_digits k (x * 2 ^ 4 % 2 ^ 64)

pub data Arg : Type 0 where
  number : ℕ → Arg
  text : Option (List ℕ) → Arg

abbrev pub null_text : List ℕ
null_text = b'(' ∷ b'n' ∷ b'u' ∷ b'l' ∷ b'l' ∷ b')' ∷ []

module _ {F : Type 0} where
  pub consputs : List ℕ → Cmd (Terminal F) (Unit {0})
  consputs [] = pure tt
  consputs (c ∷ cs) = consputc c >> consputs cs

  unfoldable pub printint : ℕ → ℕ → Bool → Cmd (Terminal F) (Unit {0})
  unfolding printed consputs
  printint xx base sign = consputs (printed xx base sign)

  unfoldable pub printptr : ℕ → Cmd (Terminal F) (Unit {0})
  unfolding ptr_digits consputs
  printptr x = do consputc b'0'; consputc b'x'; consputs (ptr_digits 16 x)

  abbrev take_number : List Arg → (ℕ → Cmd (Terminal F) (Unit {0})) → Cmd (Terminal F) (List Arg)
  take_number (number n ∷ args) out = do out n; pure args
  take_number args out = λ _. fault

  abbrev take_text : List Arg → Cmd (Terminal F) (List Arg)
  take_text (text (some s) ∷ args) = do consputs s; pure args
  take_text (text none ∷ args) = do consputs null_text; pure args
  take_text args = λ _. fault

  -- The switch of printf for the letter c behind a %: what is left of the arguments.
  pub convert : ℕ → List Arg → Cmd (Terminal F) (List Arg)
  unfolding consputs
  convert c args =
      if c == b'd'
      then take_number args (λ n. printint (n % 2 ^ 32) 10 true)
      else if c == b'x'
      then take_number args (λ n. printint (n % 2 ^ 32) 16 true)
      else if c == b'p'
      then take_number args printptr
      else if c == b's'
      then take_text args
      else if c == b'%'
      then (do consputc b'%'; pure args)
      else (do consputc b'%'; consputc c; pure args)

  -- The loop of printf from the rest `fmt` of the format on.
  pub format_from : List ℕ → List Arg → Cmd (Terminal F) (Unit {0})
  unfolding convert
  format_from [] args = pure tt
  format_from (c ∷ []) args = if not (c == b'%') then consputc c else pure tt
  format_from (c ∷ d ∷ fmt) args = elim (c == b'%') [
    | false ↦ consputc c >> format_from (d ∷ fmt) args
    | true ↦ (convert d args >>= λ left. format_from fmt left)
  ]

  abbrev format_all : Option (List ℕ) → List Arg → Cmd (Terminal F) (Unit {0})
  format_all none args = fails
  format_all (some fmt) args = format_from fmt args

  -- No arguments, or another kind than the format names, is undefined in C: a fault.
  unfoldable pub printf : Option (List ℕ) → List Arg → Cmd (Terminal F) (Unit {0})
  unfolding format_from
  printf fmt args = do
    locks ← (λ s. ok s.locking s)
    (if locks then on_kernel (lock pr_lock) else pure tt)
    format_all fmt args
    if locks then on_kernel (unlock pr_lock) else pure tt

  -- panic() up to the loop in which it stays.
  unfoldable pub panic_prints : List ℕ → Cmd (Terminal F) (Unit {0})
  unfolding printf
  panic_prints s = do
    (λ t. ok tt (record t { locking = false }))
    printf (some (b'p' ∷ b'a' ∷ b'n' ∷ b'i' ∷ b'c' ∷ b':' ∷ b' ' ∷ [])) []
    printf (some s) []
    printf (some (b'\n' ∷ [])) []
    (λ t. ok tt (record t { panicked = true }))

  unfoldable pub printfinit : Cmd (Terminal F) (Unit {0})
  printfinit = do
    on_kernel (on_machine (initlock pr_lock))
    (λ t. ok tt (record t { locking = true }))
