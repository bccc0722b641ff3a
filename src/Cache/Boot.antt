-- ===== src/Cache/Boot.antt =====
-- The ring of buffers that binit makes.
use csse332_final_project.Base.{
  ℕ, zero, suc, ◌+◌, ◌<◌, ◌≡◌, ◌≢◌, refl, ◌∙◌, ap, inl, inr, Bool-cases, false, List, [], ◌∷◌, All,
  ◌==◌, update, upto, arith, eq→==,
}
use csse332_final_project.Run.{ok, and_then, ◌>>◌}
use csse332_final_project.Sleeplock.{initsleeplock}
use csse332_final_project.Cache.{nbuf, Buf, Bcache, binit, init_from, edit_buf}
use csse332_final_project.Cache.Ring.{Linked, Linked-same}
use csse332_final_project.Cache.Moves.{pushed, Linked-pushed, field-update, field-pushed}
use csse332_final_project.Cache.Release.{with_buf, push_front-ok}
use csse332_final_project.Cache.Unique.{OnePer}

-- What n rounds of binit, from buffer b on, put before `bs`.
abbrev grown : ℕ → ℕ → List ℕ → List ℕ
grown zero b bs = bs
grown (suc n) b bs = grown n (b + 1) (b ∷ bs)

-- The buffers after one round.
begun : ℕ → (ℕ → Buf) → ℕ → Buf
begun b buf = let one = pushed b buf in update one b (record (one b) { lock = initsleeplock })

field-begun :
    {A : Type 0} (g : Buf → A) (b q : ℕ) (buf : ℕ → Buf)
    → g (record (pushed b buf b) { lock = initsleeplock }) ≡ g (pushed b buf b)
    → g (begun b buf q) ≡ g (pushed b buf q)
unfolding begun
field-begun g b q buf same =
    field-update g (pushed b buf) b q (record (pushed b buf b) { lock = initsleeplock }) same

open_begun :
    (b q : ℕ) (buf : ℕ → Buf) → (buf q).lock.locked ≡ false → (begun b buf q).lock.locked ≡ false
unfolding begun
open_begun b q buf free = elim (Bool-cases (b == q)) [
  | inl e ↦ rw e refl
  | inr e ↦ rw e (field-pushed (λ r. r.lock.locked) (λ r n p. refl) b q buf ∙ free)
]

open_here : (b : ℕ) (buf : ℕ → Buf) → (begun b buf b).lock.locked ≡ false
unfolding begun
open_here b buf = rw (eq→== b b refl) refl

abbrev AllOpen : (ℕ → Buf) → List ℕ → Type 0
AllOpen buf bs = All (λ q. (buf q).lock.locked ≡ false) bs

AllOpen-begun : (b : ℕ) (buf : ℕ → Buf) (bs : List ℕ) → AllOpen buf bs → AllOpen (begun b buf) bs
AllOpen-begun b buf [] free = tt
AllOpen-begun b buf (q ∷ bs) (free, rest) = (open_begun b q buf free, AllOpen-begun b buf bs rest)

below-next : (b : ℕ) (bs : List ℕ) → All (λ q. q < b) bs → All (λ q. q < b + 1) bs
below-next b [] lt = tt
below-next b (q ∷ bs) (lt, rest) = (omega arith, below-next b bs rest)

below-other : (b : ℕ) (bs : List ℕ) → All (λ q. q < b) bs → All (λ q. q ≢ b) bs
below-other b [] lt = tt
below-other b (q ∷ bs) (lt, rest) = (omega arith, below-other b bs rest)

init_from-round :
    (n b : ℕ) (c : Bcache)
    → b ≢ 0
    → init_from (suc n) b c ≡ init_from n (b + 1) (with_buf (begun b c.buf) c)
unfolding init_from begun
init_from-round n b c nz =
    ap
      (λ r.
        and_then r
          (λ _. edit_buf b (λ r. record r { lock = initsleeplock }) >> init_from n (b + 1)))
      (push_front-ok b c nz)

init_from-Linked :
    (n b : ℕ) (bs : List ℕ) (c : Bcache)
    → 0 < b
    → All (λ q. q < b) bs
    → Linked c.buf 0 bs 0
    → AllOpen c.buf bs
    → ((q : ℕ) → (c.buf q).dev ≡ 0)
    → (t : Bcache) × (init_from n b c ≡ ok tt t)
      × Linked t.buf 0 (grown n b bs) 0
      × AllOpen t.buf (grown n b bs)
      × ((q : ℕ) → (t.buf q).dev ≡ 0)
unfolding init_from
init_from-Linked zero b bs c lb below ring free devs = (c, refl, ring, free, devs)
init_from-Linked (suc n) b bs c lb below ring free devs =
    let s = with_buf (begun b c.buf) c in
    let pushed_ring = Linked-pushed b bs c.buf (omega arith) (below-other b bs below) ring in
    let (t, e, ring', free', devs') =
      init_from-Linked n (b + 1) (b ∷ bs) s (omega arith) (omega arith, below-next b bs below)
        (Linked-same (pushed b c.buf) (begun b c.buf) 0 0 (b ∷ bs)
          (λ q.
            (field-begun (λ r. r.next) b q c.buf refl, field-begun (λ r. r.prev) b q c.buf refl))
          pushed_ring)
        (open_here b c.buf, AllOpen-begun b c.buf bs free)
        (λ q.
          field-begun (λ r. r.dev) b q c.buf refl
          ∙ field-pushed (λ r. r.dev) (λ r n p. refl) b q c.buf
          ∙ devs q) in
    (t, init_from-round n b c (omega arith) ∙ e, ring', free', devs')

no_device : (bs : List ℕ) (buf : ℕ → Buf) → ((q : ℕ) → (buf q).dev ≡ 0) → OnePer bs buf
unfolding OnePer
no_device bs buf zeros p q ip iq dz d n = absurd (dz (zeros p))

Linked-none : (buf : ℕ → Buf) → Linked (update buf 0 (record (buf 0) { prev = 0; next = 0 })) 0 [] 0
unfolding Linked
Linked-none buf = (refl, refl)

-- On the zeros of a boot, where every buffer is for device 0, binit makes a ring of all the buffers,
-- with the last one first, in which no buffer is locked and no block of a device but 0 has two.
pub binit-OnePer :
    (c : Bcache)
    → ((q : ℕ) → (c.buf q).dev ≡ 0)
    → (t : Bcache) × (binit c ≡ ok tt t)
      × Linked t.buf 0 (upto nbuf) 0
      × OnePer (upto nbuf) t.buf
      × All (λ b. (t.buf b).lock.locked ≡ false) (upto nbuf)
unfolding binit
binit-OnePer c devs =
    let s = with_buf (update c.buf 0 (record (c.buf 0) { prev = 0; next = 0 })) c in
    let (t, e, ring, free, zeros) =
      init_from-Linked nbuf 1 [] s (omega arith) tt (Linked-none c.buf) tt (λ q.
        field-update (λ r. r.dev) c.buf 0 q (record (c.buf 0) { prev = 0; next = 0 }) refl
        ∙ devs q) in
    (t, e, ring, no_device (upto nbuf) t.buf zeros, free)
