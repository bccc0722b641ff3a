-- ===== src/Strings/Compare.antt =====
-- strncmp on strings, and strncpy, which pads a name to the bytes of a directory entry.
use csse332_final_project.Base.{
  ℕ, zero, suc, ◌<◌, ◌≡◌, ◌≢◌, ◌↔◌, refl, ◌∙◌, ap, sym, inl, inr, Bool-cases, Bool, false, not,
  ◌&&◌, List, [], ◌∷◌, All, ◌==◌, arith, ==→eq, ==-ne, eq→==, ne→==,
}
use csse332_final_project.Strings.{char_at, next_char, difference, strncmp, strncpy}

abbrev pub IsBytes : List ℕ → Type 0
IsBytes xs = All (λ c. c < 256) xs

char_at-byte : (p : List ℕ) → IsBytes p → char_at p < 256
char_at-byte [] b = omega arith
char_at-byte (c ∷ cs) b = b.0

next-IsBytes : (p : List ℕ) → IsBytes p → IsBytes (next_char p)
next-IsBytes [] b = tt
next-IsBytes (c ∷ cs) b = b.1

difference-zero : (a b : ℕ) → a < 256 → b < 256 → difference a b ≡ 0 → a ≡ b
difference-zero a b la lb e = omega arith

difference-same : (a : ℕ) → a < 256 → difference a a ≡ 0
difference-same a la = omega arith

-- The step of both at a byte that is no null, and at unequal or null bytes.
strncmp-on :
    (n : ℕ) (p q : List ℕ)
    → char_at p ≢ 0
    → char_at p ≡ char_at q
    → strncmp (suc n) p q ≡ strncmp n (next_char p) (next_char q)
unfolding strncmp
strncmp-on n p q nz e = rw (ne→== (char_at p) 0 nz, eq→== (char_at p) (char_at q) e) refl

strncmp-end :
    (n : ℕ) (p q : List ℕ)
    → (not (char_at p == 0) && (char_at p == char_at q)) ≡ false
    → strncmp (suc n) p q ≡ difference (char_at p) (char_at q)
unfolding strncmp
strncmp-end n p q e = rw e refl

strncpy-null : (n : ℕ) (t : List ℕ) → char_at t ≡ 0 → strncpy (suc n) t ≡ 0 ∷ strncpy n []
unfolding strncpy
strncpy-null n t e = rw e refl

strncpy-on :
    (n : ℕ) (t : List ℕ) → char_at t ≢ 0 → strncpy (suc n) t ≡ char_at t ∷ strncpy n (next_char t)
unfolding strncpy
strncpy-on n t nz = rw (ne→== (char_at t) 0 nz) refl

char_at-strncpy : (n : ℕ) (t : List ℕ) → char_at (strncpy (suc n) t) ≡ char_at t
unfolding strncpy
char_at-strncpy n t = refl

cons-eq : (x y : ℕ) (xs ys : List ℕ) → x ≡ y → xs ≡ ys → x ∷ xs ≡ y ∷ ys
cons-eq x y xs ys e h = ap (λ c. c ∷ xs) e ∙ ap (λ l. y ∷ l) h

not-and : (a b : Bool) → b ≡ false → (not a && b) ≡ false
not-and a b e = ground arith

both-empty : (p q : List ℕ) → (strncmp 0 p q ≡ 0) ↔ (strncpy 0 p ≡ strncpy 0 q)
unfolding strncmp strncpy
both-empty p q = ((λ e. refl), (λ e. refl))

-- On strings of bytes, strncmp of n bytes answers 0 exactly if strncpy of n bytes would write the
-- same bytes for both.
pub strncmp-strncpy :
    (n : ℕ) (p q : List ℕ)
    → IsBytes p
    → IsBytes q
    → (strncmp n p q ≡ 0) ↔ (strncpy n p ≡ strncpy n q)
strncmp-strncpy zero p q bp bq = both-empty p q
strncmp-strncpy (suc n) p q bp bq =
    let lp = char_at-byte p bp in
    let lq = char_at-byte q bq in
    let next =
      strncmp-strncpy n (next_char p) (next_char q) (next-IsBytes p bp) (next-IsBytes q bq) in
    elim (Bool-cases (char_at p == char_at q)) [
      | inl e ↦
          let same = ==→eq (char_at p) (char_at q) e in
          elim (Bool-cases (char_at p == 0)) [
            | inl z ↦
                let null = ==→eq (char_at p) 0 z in
                (
                  (λ h. strncpy-null n p null ∙ sym (strncpy-null n q (sym same ∙ null))),
                  (λ h. strncmp-end n p q (rw z refl) ∙ ground arith),
                )
            | inr some ↦
                let nz = ==-ne (char_at p) 0 some in
                let on_p = strncpy-on n p nz in
                let on_q = strncpy-on n q (λ z. nz (same ∙ z)) in
                (
                  (λ h.
                      on_p
                      ∙ cons-eq (char_at p) (char_at q) _ _ same
                          (next.0 (sym (strncmp-on n p q nz same) ∙ h))
                      ∙ sym on_q),
                  (λ h. strncmp-on n p q nz same ∙ next.1 (ap next_char (sym on_p ∙ h ∙ on_q))),
                )
          ]
      | inr ne ↦
          let apart = ==-ne (char_at p) (char_at q) ne in
          let ends = strncmp-end n p q (not-and (char_at p == 0) _ ne) in
          (
            (λ h. absurd (apart (difference-zero (char_at p) (char_at q) lp lq (sym ends ∙ h)))),
            (λ h. absurd (apart (sym (char_at-strncpy n p) ∙ ap char_at h ∙ char_at-strncpy n q))),
          )
    ]
