-- ===== src/Cache/Release.antt =====
-- What brelse makes of the ring of buffers.
use csse332_final_project.Base.{
  ℕ, ◌+◌, ◌^◌, ◌<◌, ◌≡◌, ◌≢◌, refl, ◌∙◌, ap, sym, inl, inr, Bool-cases, true, false, List, ◌∷◌,
  ◌++◌, All, if◌then◌else◌, ◌==◌, update, dec32, arith, ==→eq, ne→==,
}
use csse332_final_project.Run.{ok, and_then}
use csse332_final_project.Sleeplock.{releasesleep, holdingsleep}
use csse332_final_project.Cache.{Buf, Bcache, brelse, unlink, push_front}
use csse332_final_project.Cache.Ring.{Linked, Linked-same}
use csse332_final_project.Cache.Moves.{
  unlinked, pushed, neighbours, next-apart, Linked-dropped, Linked-pushed, All-append,
  field-unlinked, field-pushed,
}

abbrev pub with_buf : (ℕ → Buf) → Bcache → Bcache
with_buf buf c = record c { buf = buf }

unlink-ok :
    (b : ℕ) (c : Bcache) → (c.buf b).next ≢ b → unlink b c ≡ ok tt (with_buf (unlinked b c.buf) c)
unfolding unlink unlinked
unlink-ok b c ne = rw (ne→== (c.buf b).next b ne) refl

pub push_front-ok :
    (b : ℕ) (c : Bcache) → b ≢ 0 → push_front b c ≡ ok tt (with_buf (pushed b c.buf) c)
unfolding push_front pushed
push_front-ok b c nz = rw (ne→== b 0 nz) refl

-- The buffers with b let go by its user.
abbrev let_go : ℕ → (ℕ → Buf) → ℕ → Buf
let_go b buf =
    let one = update buf b (record (buf b) { lock = releasesleep (buf b).lock }) in
    update one b (record (one b) { refcnt = dec32 (one b).refcnt })

-- What a buffer holds.
abbrev pub SameBlock : Buf → Buf → Type 0
SameBlock r r' =
    (r'.dev ≡ r.dev)
    × (r'.blockno ≡ r.blockno)
    × (r'.valid ≡ r.valid)
    × ((j : ℕ) → r'.contents j ≡ r.contents j)

module _ (b : ℕ) (xs ys : List ℕ) (c : Bcache) (ring : Linked c.buf 0 (xs ++ b ∷ ys) 0) (nz : b ≢ 0)
    (before : All (λ q. q ≢ b) xs) (after : All (λ q. q ≢ b) ys) where
  let_go-Linked : Linked (let_go b c.buf) 0 (xs ++ b ∷ ys) 0
  let_go-Linked =
      Linked-same c.buf (let_go b c.buf) 0 0 (xs ++ b ∷ ys) (λ q. (ground arith, ground arith)) ring

  gone : Linked (unlinked b (let_go b c.buf)) 0 (xs ++ ys) 0
  gone =
      let (back, forth) = neighbours 0 b 0 xs ys (let_go b c.buf) let_go-Linked in
      Linked-dropped b (let_go b c.buf) back forth 0 0 xs ys (λ e. nz (sym e)) (λ e. nz (sym e))
        before after let_go-Linked

  brelse-last :
      holdingsleep c.me (c.buf b).lock ≡ true
      → (c.buf b).refcnt ≡ 1
      → brelse b c ≡ ok tt (with_buf (pushed b (unlinked b (let_go b c.buf))) c)
  unfolding brelse
  brelse-last held once =
      let s = with_buf (let_go b c.buf) c in
      let zero_left : ((let_go b c.buf b).refcnt == 0) ≡ true = ground arith in
      let apart : (let_go b c.buf b).next ≢ b =
        next-apart 0 b 0 xs ys (let_go b c.buf) (λ e. nz (sym e)) after let_go-Linked in
      rw (held, zero_left)
        (ap (λ r. and_then r (λ _. push_front b)) (unlink-ok b s apart)
          ∙ push_front-ok b (with_buf (unlinked b (let_go b c.buf)) s) nz)

  brelse-used :
      holdingsleep c.me (c.buf b).lock ≡ true
      → 1 < (c.buf b).refcnt
      → (c.buf b).refcnt < 2 ^ 32
      → brelse b c ≡ ok tt (with_buf (let_go b c.buf) c)
  unfolding brelse
  brelse-used held more few =
      let some_left : ((let_go b c.buf b).refcnt == 0) ≡ false = ground arith in
      rw (held, some_left) refl

module _ (b : ℕ) (xs ys : List ℕ) (c : Bcache) (ring : Linked c.buf 0 (xs ++ b ∷ ys) 0) (nz : b ≢ 0)
    (before : All (λ q. q ≢ b) xs) (after : All (λ q. q ≢ b) ys) where
  moved :
      {A : Type 0} (g : Buf → A)
      → ((r : Buf) (n p : ℕ) → g (record r { next = n; prev = p }) ≡ g r)
      → (q : ℕ) → g (pushed b (unlinked b (let_go b c.buf)) q) ≡ g (let_go b c.buf q)
  moved g links q =
      field-pushed g links b q (unlinked b (let_go b c.buf))
      ∙ field-unlinked g links b q (let_go b c.buf)

  -- The last user of a buffer moves it to the front of the ring, and every other user leaves the
  -- ring as it is: where the caller holds the buffer's lock, brelse succeeds, gives the lock back and
  -- lowers the count, and the other buffers keep their order. No buffer's data changes.
  pub brelse-Linked :
      holdingsleep c.me (c.buf b).lock ≡ true
      → 0 < (c.buf b).refcnt
      → (c.buf b).refcnt < 2 ^ 32
      → (t : Bcache) × (brelse b c ≡ ok tt t)
        × Linked t.buf 0 (if (c.buf b).refcnt == 1 then b ∷ xs ++ ys else xs ++ b ∷ ys) 0
        × ((t.buf b).lock.locked ≡ false)
        × ((t.buf b).refcnt + 1 ≡ (c.buf b).refcnt)
        × ((q : ℕ) → SameBlock (c.buf q) (t.buf q))
  brelse-Linked held some few = elim (Bool-cases ((c.buf b).refcnt == 1)) [
    | inl once ↦ (
      _,
      brelse-last b xs ys c ring nz before after held (==→eq _ _ once),
      rw once (
          Linked-pushed b (xs ++ ys) (unlinked b (let_go b c.buf)) nz
            (All-append (λ q. q ≢ b) xs ys before after) (gone b xs ys c ring nz before after)),
      moved (λ r. r.lock.locked) (λ r n p. refl) b ∙ ground arith,
      ap (λ n. n + 1) (moved (λ r. r.refcnt) (λ r n p. refl) b) ∙ ground arith,
      λ q. (
        moved (λ r. r.dev) (λ r n p. refl) q ∙ ground arith,
        moved (λ r. r.blockno) (λ r n p. refl) q ∙ ground arith,
        moved (λ r. r.valid) (λ r n p. refl) q ∙ ground arith,
        λ j. moved (λ r. r.contents j) (λ r n p. refl) q ∙ ground arith,
      ),
    )
    | inr more ↦ (
      _,
      brelse-used b xs ys c ring nz before after held (ground arith) few,
      rw more (let_go-Linked b xs ys c ring nz before after),
      ground arith,
      ground arith,
      λ q. (ground arith, ground arith, ground arith, λ j. ground arith),
    )
  ]
