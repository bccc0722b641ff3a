-- ===== src/Cache/Moves.antt =====
-- The two moves of brelse on the ring of buffers: a buffer is taken out, and put first.
use csse332_final_project.Base.{
  ℕ, ◌≡◌, ◌≢◌, refl, ◌∙◌, ap, sym, inl, inr, Bool-cases, List, [], ◌∷◌, ◌++◌, All, if◌then◌else◌,
  ◌==◌, update, arith, ==→eq,
}
use csse332_final_project.Cache.{Buf}
use csse332_final_project.Cache.Ring.{Linked}

unfoldable pub unlinked : ℕ → (ℕ → Buf) → ℕ → Buf
unlinked b buf =
    let n = (buf b).next in
    let p = (buf b).prev in
    let one = update buf n (record (buf n) { prev = p }) in
    update one p (record (one p) { next = n })

unfoldable pub pushed : ℕ → (ℕ → Buf) → ℕ → Buf
pushed b buf =
    let first = (buf 0).next in
    let one = update buf b (record (buf b) { next = first; prev = 0 }) in
    let two = update one first (record (one first) { prev = b }) in
    update two 0 (record (two 0) { next = b })

next-unlinked :
    (b q : ℕ) (buf : ℕ → Buf)
    → (unlinked b buf q).next ≡ (if q == (buf b).prev then (buf b).next else (buf q).next)
unfolding unlinked
next-unlinked b q buf = ground arith

prev-unlinked :
    (b q : ℕ) (buf : ℕ → Buf)
    → (unlinked b buf q).prev ≡ (if q == (buf b).next then (buf b).prev else (buf q).prev)
unfolding unlinked
prev-unlinked b q buf = ground arith

-- The neighbours of a buffer on the ring point to it.
pub neighbours :
    (a b z : ℕ) (xs ys : List ℕ) (buf : ℕ → Buf)
    → Linked buf a (xs ++ b ∷ ys) z
    → ((buf (buf b).prev).next ≡ b) × ((buf (buf b).next).prev ≡ b)
unfolding Linked
neighbours a b z [] [] buf (e, p, nz, (e', p')) = (rw p e, rw e' p')
neighbours a b z [] (y ∷ ys) buf (e, p, nz, (e', p', ny, l)) = (rw p e, rw e' p')
neighbours a b z (x ∷ xs) ys buf (e, p, nz, l) = neighbours x b z xs ys buf l

pub next-apart :
    (a b z : ℕ) (xs ys : List ℕ) (buf : ℕ → Buf)
    → z ≢ b
    → All (λ q. q ≢ b) ys
    → Linked buf a (xs ++ b ∷ ys) z
    → (buf b).next ≢ b
unfolding Linked
next-apart a b z [] [] buf zn others (e, p, nz, (e', p')) = λ q. zn (sym e' ∙ q)
next-apart a b z [] (y ∷ ys) buf zn (yn, others) (e, p, nz, (e', p', ny, l)) = λ q. yn (sym e' ∙ q)
next-apart a b z (x ∷ xs) ys buf zn others (e, p, nz, l) = next-apart x b z xs ys buf zn others l

module _ (b : ℕ) (buf : ℕ → Buf) (back : (buf (buf b).prev).next ≡ b)
    (forth : (buf (buf b).next).prev ≡ b) where
  next-kept : (q r : ℕ) → (buf q).next ≡ r → r ≢ b → (unlinked b buf q).next ≡ r
  next-kept q r e ne = ground (arith, next-unlinked b q buf, back)

  prev-kept : (q r : ℕ) → (buf q).prev ≡ r → r ≢ b → (unlinked b buf q).prev ≡ r
  prev-kept q r e ne = ground (arith, prev-unlinked b q buf, forth)

  Linked-kept :
      (a z : ℕ) (bs : List ℕ)
      → a ≢ b
      → z ≢ b
      → All (λ q. q ≢ b) bs
      → Linked buf a bs z
      → Linked (unlinked b buf) a bs z
  unfolding Linked
  Linked-kept a z [] an zn away (e, p) = (next-kept a z e zn, prev-kept z a p an)
  Linked-kept a z (x ∷ xs) an zn (xn, away) (e, p, nz, l) =
      (next-kept a x e xn, prev-kept x a p an, nz, Linked-kept x z xs xn zn away l)

  pub Linked-dropped :
      (a z : ℕ) (xs ys : List ℕ)
      → a ≢ b
      → z ≢ b
      → All (λ q. q ≢ b) xs
      → All (λ q. q ≢ b) ys
      → Linked buf a (xs ++ b ∷ ys) z
      → Linked (unlinked b buf) a (xs ++ ys) z
  unfolding Linked
  Linked-dropped a z [] [] an zn none away (e, p, nz, (e', p')) =
      (ground (arith, next-unlinked b a buf), ground (arith, prev-unlinked b z buf))
  Linked-dropped a z [] (y ∷ ys) an zn none (yn, away) (e, p, nz, (e', p', ny, l)) = (
    ground (arith, next-unlinked b a buf),
    ground (arith, prev-unlinked b y buf),
    ny,
    Linked-kept y z ys yn zn away l,
  )
  Linked-dropped a z (x ∷ xs) ys an zn (xn, before) away (e, p, nz, l) =
      (next-kept a x e xn, prev-kept x a p an, nz, Linked-dropped x z xs ys xn zn before away l)

next-pushed :
    (b q : ℕ) (buf : ℕ → Buf)
    → b ≢ 0
    → (buf 0).next ≢ b
    → (pushed b buf q).next ≡ (if q == 0 then b else if q == b then (buf 0).next else (buf q).next)
unfolding pushed
next-pushed b q buf nz away = ground arith

prev-pushed :
    (b q : ℕ) (buf : ℕ → Buf)
    → b ≢ 0
    → (buf 0).next ≢ b
    → (pushed b buf q).prev ≡ (if q == (buf 0).next then b else if q == b then 0 else (buf q).prev)
unfolding pushed
prev-pushed b q buf nz away = ground arith

module _ (b : ℕ) (buf : ℕ → Buf) (nz : b ≢ 0) (away : (buf 0).next ≢ b)
    (back : (buf (buf 0).next).prev ≡ 0) where
  Linked-behind :
      (a : ℕ) (bs : List ℕ)
      → a ≢ 0
      → a ≢ b
      → All (λ q. q ≢ b) bs
      → Linked buf a bs 0
      → Linked (pushed b buf) a bs 0
  unfolding Linked
  Linked-behind a [] az ab others (e, p) = (
    ground (arith, next-pushed b a buf nz away),
    ground (arith, prev-pushed b 0 buf nz away, back),
  )
  Linked-behind a (x ∷ xs) az ab (xb, others) (e, p, xz, l) = (
    ground (arith, next-pushed b a buf nz away),
    ground (arith, prev-pushed b x buf nz away, back),
    xz,
    Linked-behind x xs xz xb others l,
  )

pub Linked-pushed :
    (b : ℕ) (bs : List ℕ) (buf : ℕ → Buf)
    → b ≢ 0
    → All (λ q. q ≢ b) bs
    → Linked buf 0 bs 0
    → Linked (pushed b buf) 0 (b ∷ bs) 0
unfolding Linked
Linked-pushed b [] buf nz others (e, p) =
    let away : (buf 0).next ≢ b = λ q. nz (sym q ∙ e) in
    (
      ground (arith, next-pushed b 0 buf nz away),
      ground (arith, prev-pushed b b buf nz away),
      nz,
      (ground (arith, next-pushed b b buf nz away), ground (arith, prev-pushed b 0 buf nz away)),
    )
Linked-pushed b (x ∷ xs) buf nz (xb, others) (e, p, xz, l) =
    let away : (buf 0).next ≢ b = λ q. xb (sym e ∙ q) in
    let back : (buf (buf 0).next).prev ≡ 0 = ap (λ q. (buf q).prev) e ∙ p in
    (
      ground (arith, next-pushed b 0 buf nz away),
      ground (arith, prev-pushed b b buf nz away),
      nz,
      (
        ground (arith, next-pushed b b buf nz away),
        ground (arith, prev-pushed b x buf nz away),
        xz,
        Linked-behind b buf nz away back x xs xz xb others l,
      ),
    )

pub All-append : (P : ℕ → Type 0) (xs ys : List ℕ) → All P xs → All P ys → All P (xs ++ ys)
All-append P [] ys a b = b
All-append P (x ∷ xs) ys (p, a) b = (p, All-append P xs ys a b)

pub field-update :
    {A : Type 0} (g : Buf → A) (f : ℕ → Buf) (p q : ℕ) (v : Buf)
    → g v ≡ g (f p)
    → g (update f p v q) ≡ g (f q)
field-update g f p q v same = elim (Bool-cases (p == q)) [
  | inl e ↦ rw e (same ∙ ap (λ r. g (f r)) (==→eq p q e))
  | inr e ↦ rw e refl
]

-- A field that is no link is not changed by the moves on the ring.
module _ {A : Type 0} (g : Buf → A)
    (links : (r : Buf) (n p : ℕ) → g (record r { next = n; prev = p }) ≡ g r) where
  field-relinked :
      (f : ℕ → Buf) (b q n p : ℕ) → g (update f b (record (f b) { next = n; prev = p }) q) ≡ g (f q)
  field-relinked f b q n p =
      field-update g f b q (record (f b) { next = n; prev = p }) (links (f b) n p)

  pub field-unlinked : (b q : ℕ) (buf : ℕ → Buf) → g (unlinked b buf q) ≡ g (buf q)
  unfolding unlinked
  field-unlinked b q buf =
      let n = (buf b).next in
      let p = (buf b).prev in
      let one = update buf n (record (buf n) { prev = p }) in
      field-relinked one p q n (one p).prev ∙ field-relinked buf n q (buf n).next p

  pub field-pushed : (b q : ℕ) (buf : ℕ → Buf) → g (pushed b buf q) ≡ g (buf q)
  unfolding pushed
  field-pushed b q buf =
      let first = (buf 0).next in
      let one = update buf b (record (buf b) { next = first; prev = 0 }) in
      let two = update one first (record (one first) { prev = b }) in
      field-relinked two 0 q b (two 0).prev
      ∙ field-relinked one first q (one first).next b
      ∙ field-relinked buf b q first 0
