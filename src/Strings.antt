-- ===== src/Strings.antt =====
-- xv6-riscv/kernel/string.c on lists of bytes. A string ends at its first null, or at the end of the
-- list: a load behind that is a null.
pub mod Compare
use csse332_final_project.Base.{
  ℕ, zero, suc, ◌+◌, ◌-◌, ◌%◌, ◌^◌, not, ◌&&◌, List, [], ◌∷◌, if◌then◌else◌, ◌==◌,
}

abbrev pub char_at : List ℕ → ℕ
char_at [] = 0
char_at (c ∷ cs) = c

abbrev pub next_char : List ℕ → List ℕ
next_char [] = []
next_char (c ∷ cs) = cs

-- The int a - b of two bytes.
abbrev pub difference : ℕ → ℕ → ℕ
difference a b = (a + 2 ^ 32 - b) % 2 ^ 32

unfoldable pub memcmp : ℕ → List ℕ → List ℕ → ℕ
memcmp zero v1 v2 = 0
memcmp (suc n) v1 v2 =
    let rest = memcmp n (next_char v1) (next_char v2) in
    if char_at v1 == char_at v2 then rest else difference (char_at v1) (char_at v2)

unfoldable pub strncmp : ℕ → List ℕ → List ℕ → ℕ
strncmp zero p q = 0
strncmp (suc n) p q =
    let rest = strncmp n (next_char p) (next_char q) in
    if not (char_at p == 0) && (char_at p == char_at q)
    then rest
    else difference (char_at p) (char_at q)

-- The n bytes that strncpy writes.
unfoldable pub strncpy : ℕ → List ℕ → List ℕ
strncpy zero t = []
strncpy (suc n) t = char_at t ∷ strncpy n (if char_at t == 0 then [] else next_char t)

-- The bytes that safestrcpy writes to a buffer of n bytes, without the null at their end.
unfoldable pub safestrcpy : ℕ → List ℕ → List ℕ
safestrcpy zero t = []
safestrcpy (suc zero) t = []
safestrcpy (suc (suc n)) t =
    let rest = safestrcpy (suc n) (next_char t) in if char_at t == 0 then [] else char_at t ∷ rest

unfoldable pub strlen : List ℕ → ℕ
strlen [] = 0
strlen (c ∷ cs) = let rest = strlen cs in if c == 0 then 0 else rest + 1
