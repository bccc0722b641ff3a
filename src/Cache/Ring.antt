-- ===== src/Cache/Ring.antt =====
-- The ring of buffers, in the order of their use, and what the scans of bget find on it.
use csse332_final_project.Base.{
  ◌⊎◌, ◌-◌, ℕ, zero, suc, ◌+◌, ◌<◌, ◌≤◌, ◌≡◌, ◌≢◌, refl, ◌∙◌, ap, sym, inl, inr, Bool-cases, Bool,
  true, false, not, ◌&&◌, List, [], ◌∷◌, All, length, if◌then◌else◌, ◌==◌, arith, ne→==, ==→eq,
  ==-ne, subst,
}
use csse332_final_project.Cache.{nbuf, Buf, Bcache, find_block, find_unused}

-- From `a` the links lead through `bs` to `z`, forwards and backwards.
unfoldable pub Linked : (ℕ → Buf) → ℕ → List ℕ → ℕ → Type 0
Linked buf a [] z = ((buf a).next ≡ z) × ((buf z).prev ≡ a)
Linked buf a (b ∷ bs) z = ((buf a).next ≡ b) × ((buf b).prev ≡ a) × (b ≢ 0) × Linked buf b bs z

pub Linked-same :
    (buf buf' : ℕ → Buf) (a z : ℕ) (bs : List ℕ)
    → ((q : ℕ) → ((buf' q).next ≡ (buf q).next) × ((buf' q).prev ≡ (buf q).prev))
    → Linked buf a bs z
    → Linked buf' a bs z
unfolding Linked
Linked-same buf buf' a z [] same (e, p) = ((same a).0 ∙ e, (same z).1 ∙ p)
Linked-same buf buf' a z (x ∷ xs) same (e, p, nz, l) =
    ((same a).0 ∙ e, (same x).1 ∙ p, nz, Linked-same buf buf' x z xs same l)

abbrev pub is_for : ℕ → ℕ → Buf → Bool
is_for dev blockno r = (r.dev == dev) && (r.blockno == blockno)

-- The first of `bs` that passes a test, and the last, or 0.
pub first_such : (ℕ → Bool) → List ℕ → ℕ
first_such test [] = 0
first_such test (b ∷ bs) = let rest = first_such test bs in if test b then b else rest

pub last_such : (ℕ → Bool) → List ℕ → ℕ
last_such test [] = 0
last_such test (b ∷ bs) =
    let rest = last_such test bs in if not (rest == 0) then rest else if test b then b else 0

find_block-first :
    (n dev blockno a : ℕ) (bs : List ℕ) (buf : ℕ → Buf)
    → Linked buf a bs 0
    → length bs < n
    → find_block n (buf a).next dev blockno buf ≡ first_such (λ b. is_for dev blockno (buf b)) bs
unfolding find_block first_such Linked
find_block-first zero dev blockno a bs buf l lt = absurd (omega arith)
find_block-first (suc n) dev blockno a [] buf (e, _) lt = rw e refl
find_block-first (suc n) dev blockno a (b ∷ bs) buf (e, p, nz, l) lt =
    rw (e, ne→== b 0 nz, find_block-first n dev blockno b bs buf l (omega arith)) refl

last-step :
    (b rest more : ℕ) (unused : Bool)
    → b ≢ 0
    → (if not (rest == 0) then rest else if unused then b else more) ≡ (
        if not ((if not (rest == 0) then rest else if unused then b else 0) == 0)
        then (if not (rest == 0) then rest else if unused then b else 0)
        else more)
last-step b rest more unused nz = ground arith

-- From the end of `bs` the scan goes on at `a`, with the rounds that are left.
find_unused-last :
    (f m a z : ℕ) (bs : List ℕ) (buf : ℕ → Buf)
    → f ≡ length bs + m
    → Linked buf a bs z
    → find_unused f (buf z).prev buf ≡ (
        if not (last_such (λ b. (buf b).refcnt == 0) bs == 0)
        then last_such (λ b. (buf b).refcnt == 0) bs
        else find_unused m a buf)
unfolding find_unused last_such Linked
find_unused-last f m a z [] buf rounds (e, p) = let same : f ≡ m = omega arith in rw (p, same) refl
find_unused-last f m a z (b ∷ bs) buf rounds (e, p, nz, l) =
    rw (find_unused-last f (suc m) b z bs buf (omega arith) l, find_unused, ne→== b 0 nz, p)
      (last-step b (last_such (λ b. (buf b).refcnt == 0) bs) (find_unused m a buf)
        ((buf b).refcnt == 0) nz)

abbrev pub In : ℕ → List ℕ → Type 0
In p [] = ⊥
In p (b ∷ bs) = (p ≡ b) ⊎ In p bs

first_such-here :
    (test : ℕ → Bool) (b : ℕ) (bs : List ℕ) → test b ≡ true → first_such test (b ∷ bs) ≡ b
unfolding first_such
first_such-here test b bs e = rw e refl

first_such-past :
    (test : ℕ → Bool) (b : ℕ) (bs : List ℕ)
    → test b ≡ false
    → first_such test (b ∷ bs) ≡ first_such test bs
unfolding first_such
first_such-past test b bs e = rw e refl

pub first_such-In :
    (test : ℕ → Bool) (bs : List ℕ)
    → first_such test bs ≢ 0
    → In (first_such test bs) bs × (test (first_such test bs) ≡ true)
unfolding first_such
first_such-In test [] ne = absurd (ne refl)
first_such-In test (b ∷ bs) ne = elim (Bool-cases (test b)) [
  | inl e ↦
      subst (λ x. In x (b ∷ bs) × (test x ≡ true)) (sym (first_such-here test b bs e)) (inl refl, e)
  | inr e ↦
      let (there, passes) = first_such-In test bs (λ z. ne (first_such-past test b bs e ∙ z)) in
      subst (λ x. In x (b ∷ bs) × (test x ≡ true)) (sym (first_such-past test b bs e))
        (inr there, passes)
]

pub first_such-none :
    (test : ℕ → Bool) (bs : List ℕ)
    → All (λ b. b ≢ 0) bs
    → first_such test bs ≡ 0
    → (p : ℕ) → In p bs
    → test p ≡ false
unfolding first_such
first_such-none test [] nz e p i = elim i [ ]
first_such-none test (b ∷ bs) nz e p i = elim (Bool-cases (test b)) [
  | inl t ↦ absurd (nz.0 (subst (λ x. (if x then b else first_such test bs) ≡ 0) t e))
  | inr f ↦ elim i [
    | inl q ↦ ap test q ∙ f
    | inr j ↦
        first_such-none test bs nz.1 (subst (λ x. (if x then b else first_such test bs) ≡ 0) f e) p
          j
  ]
]

last_such-past :
    (test : ℕ → Bool) (b : ℕ) (bs : List ℕ)
    → last_such test bs ≢ 0
    → last_such test (b ∷ bs) ≡ last_such test bs
unfolding last_such
last_such-past test b bs ne = rw (ne→== (last_such test bs) 0 ne) refl

last_such-here :
    (test : ℕ → Bool) (b : ℕ) (bs : List ℕ)
    → last_such test bs ≡ 0
    → last_such test (b ∷ bs) ≡ (if test b then b else 0)
unfolding last_such
last_such-here test b bs e = rw e refl

pub last_such-In :
    (test : ℕ → Bool) (bs : List ℕ) → last_such test bs ≢ 0 → In (last_such test bs) bs
unfolding last_such
last_such-In test [] ne = absurd (ne refl)
last_such-In test (b ∷ bs) ne = elim (Bool-cases (last_such test bs == 0)) [
  | inl z ↦
      let here = last_such-here test b bs (==→eq _ 0 z) in
      elim (Bool-cases (test b)) [
        | inl t ↦ inl (here ∙ rw t refl)
        | inr f ↦ absurd (ne (here ∙ rw f refl))
      ]
  | inr some ↦
      let more = ==-ne (last_such test bs) 0 some in
      subst (λ x. In x (b ∷ bs)) (sym (last_such-past test b bs more))
        (inr (last_such-In test bs more))
]

pub Linked-nonzero :
    (buf : ℕ → Buf) (a z : ℕ) (bs : List ℕ) → Linked buf a bs z → All (λ b. b ≢ 0) bs
unfolding Linked
Linked-nonzero buf a z [] l = tt
Linked-nonzero buf a z (b ∷ bs) (e, p, nz, l) = (nz, Linked-nonzero buf b z bs l)

pub last_such-none :
    (test : ℕ → Bool) (bs : List ℕ)
    → All (λ b. b ≢ 0) bs
    → last_such test bs ≡ 0
    → All (λ b. test b ≡ false) bs
last_such-none test [] nz e = tt
last_such-none test (b ∷ bs) (bz, nz) e = elim (Bool-cases (last_such test bs == 0)) [
  | inl z ↦
      let here = sym (last_such-here test b bs (==→eq _ 0 z)) ∙ e in
      elim (Bool-cases (test b)) [
        | inl t ↦ absurd (bz (subst (λ x. (if x then b else 0) ≡ 0) t here))
        | inr f ↦ (f, last_such-none test bs nz (==→eq _ 0 z))
      ]
  | inr some ↦
      let more = ==-ne (last_such test bs) 0 some in
      absurd (more (sym (last_such-past test b bs more) ∙ e))
]

pub All-at : (P : ℕ → Type 0) (bs : List ℕ) (p : ℕ) → All P bs → In p bs → P p
All-at P [] p all i = elim i [ ]
All-at P (b ∷ bs) p (here, all) i = elim i [
  | inl e ↦ subst P (sym e) here
  | inr j ↦ All-at P bs p all j
]

pub In-All : (P : ℕ → Type 0) (bs : List ℕ) → ((p : ℕ) → In p bs → P p) → All P bs
In-All P [] h = tt
In-All P (b ∷ bs) h = (h b (inl refl), In-All P bs (λ p i. h p (inr i)))

if-nonzero : (v : ℕ) → (if not (v == 0) then v else 0) ≡ v
if-nonzero v = ground arith

-- What the scans of bget find.
abbrev pub hit_of : ℕ → ℕ → List ℕ → Bcache → ℕ
hit_of dev blockno bs c = first_such (λ b. is_for dev blockno (c.buf b)) bs

abbrev pub victim_of : List ℕ → Bcache → ℕ
victim_of bs c = last_such (λ b. (c.buf b).refcnt == 0) bs

module _ (dev blockno : ℕ) (bs : List ℕ) (c : Bcache) (ring : Linked c.buf 0 bs 0)
    (few : length bs ≤ nbuf) where
  pub scan_hit : find_block (nbuf + 1) (c.buf 0).next dev blockno c.buf ≡ hit_of dev blockno bs c
  scan_hit = find_block-first (nbuf + 1) dev blockno 0 bs c.buf ring (omega arith)

  pub scan_victim : find_unused (nbuf + 1) (c.buf 0).prev c.buf ≡ victim_of bs c
  unfolding last_such find_unused
  scan_victim =
      find_unused-last (nbuf + 1) (suc (nbuf - length bs)) 0 0 bs c.buf (omega arith) ring
      ∙ if-nonzero (victim_of bs c)
