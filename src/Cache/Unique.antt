-- ===== src/Cache/Unique.antt =====
-- The buffers that are for a block, before and after bget.
use csse332_final_project.Base.{
  ℕ, ◌≤◌, ◌≡◌, ◌≢◌, refl, ◌∙◌, sym, inl, inr, Bool-cases, Bool, true, false, List, All, length,
  if◌then◌else◌, ◌==◌, inc32, arith, ◌⊎◌, ==→eq, ==-ne, eq→==, ne→==,
}
use csse332_final_project.Run.{ok, panic}
use csse332_final_project.Sleeplock.{holdingsleep}
use csse332_final_project.Cache.Taken.{
  taken, take-ok, field-taken, field-kept, held-taken, Linked-taken,
}
use csse332_final_project.Cache.{nbuf, Buf, Bcache, bget}
use csse332_final_project.Cache.Ring.{
  Linked, is_for, In, hit_of, victim_of, first_such-In, first_such-none, last_such-In,
  last_such-none, All-at, In-All, Linked-nonzero, scan_hit, scan_victim,
}

-- Two buffers of the list are not for the same block. At boot all are for device 0, of which no
-- block is read.
unfoldable pub OnePer : List ℕ → (ℕ → Buf) → Type 0
OnePer bs buf =
    (p q : ℕ)
    → In p bs
    → In q bs
    → (buf p).dev ≢ 0
    → (buf p).dev ≡ (buf q).dev
    → (buf p).blockno ≡ (buf q).blockno
    → p ≡ q

-- The state of the cache that bget leaves.
abbrev pub Got : ℕ → ℕ → List ℕ → ℕ → Bcache → Type 0
Got dev blockno bs b t =
    In b bs
    × ((t.buf b).dev ≡ dev)
    × ((t.buf b).blockno ≡ blockno)
    × (holdingsleep t.me (t.buf b).lock ≡ true)
    × OnePer bs t.buf
    × Linked t.buf 0 bs 0

OnePer-same :
    (bs : List ℕ) (buf buf' : ℕ → Buf)
    → ((q : ℕ) → ((buf' q).dev ≡ (buf q).dev) × ((buf' q).blockno ≡ (buf q).blockno))
    → OnePer bs buf
    → OnePer bs buf'
unfolding OnePer
OnePer-same bs buf buf' same one p q ip iq dz d n =
    one p q ip iq (λ z. dz ((same p).0 ∙ z)) (sym (same p).0 ∙ d ∙ (same q).0)
      (sym (same p).1 ∙ n ∙ (same q).1)

is_for-true :
    (dev blockno : ℕ) (r : Buf)
    → is_for dev blockno r ≡ true
    → (r.dev ≡ dev) × (r.blockno ≡ blockno)
is_for-true dev blockno r e = (ground arith, ground arith)

is_for-false :
    (dev blockno : ℕ) (r : Buf) → is_for dev blockno r ≡ false → r.dev ≡ dev → r.blockno ≢ blockno
is_for-false dev blockno r e d = ground arith

branches :
    (a b a' b' : Bool) (x y x' y' : ℕ)
    → (if a then x else y) ≡ (if b then x' else y')
    → a ≡ a'
    → b ≡ b'
    → (if a' then x else y) ≡ (if b' then x' else y')
branches a b a' b' x y x' y' e ae be = rw (sym ae, sym be) e

-- A block that no buffer holds may be given to one.
OnePer-recycled :
    (dev blockno v : ℕ) (bs : List ℕ) (buf buf' : ℕ → Buf)
    → ((q : ℕ)
        → ((buf' q).dev ≡ (if v == q then dev else (buf q).dev))
          × ((buf' q).blockno ≡ (if v == q then blockno else (buf q).blockno)))
    → ((q : ℕ) → In q bs → is_for dev blockno (buf q) ≡ false)
    → OnePer bs buf
    → OnePer bs buf'
unfolding OnePer
OnePer-recycled dev blockno v bs buf buf' now none one p q ip iq dz d n =
    let none_p = is_for-false dev blockno (buf p) (none p ip) in
    let none_q = is_for-false dev blockno (buf q) (none q iq) in
    let d' = sym (now p).0 ∙ d ∙ (now q).0 in
    let n' = sym (now p).1 ∙ n ∙ (now q).1 in
    elim (Bool-cases (v == p)) [
      | inl vp ↦ elim (Bool-cases (v == q)) [
        | inl vq ↦ sym (==→eq v p vp) ∙ ==→eq v q vq
        | inr vq ↦ absurd (
            none_q (sym (branches _ _ true false _ _ _ _ d' vp vq))
              (sym (branches _ _ true false _ _ _ _ n' vp vq)))
      ]
      | inr vp ↦ elim (Bool-cases (v == q)) [
        | inl vq ↦ absurd (
            none_p (branches _ _ false true _ _ _ _ d' vp vq)
              (branches _ _ false true _ _ _ _ n' vp vq))
        | inr vq ↦
            one p q ip iq (λ z. dz ((now p).0 ∙ rw vp z))
              (branches _ _ false false _ _ _ _ d' vp vq)
              (branches _ _ false false _ _ _ _ n' vp vq)
      ]
    ]

module _ (dev blockno : ℕ) (bs : List ℕ) (c : Bcache) (ring : Linked c.buf 0 bs 0)
    (few : length bs ≤ nbuf) where
  bget-panics : hit_of dev blockno bs c ≡ 0 → victim_of bs c ≡ 0 → bget dev blockno c ≡ panic
  unfolding bget
  bget-panics miss full =
      rw (scan_hit dev blockno bs c ring few, miss, scan_victim dev blockno bs c ring few, full)
        refl

  bget-hit :
      hit_of dev blockno bs c ≢ 0
      → OnePer bs c.buf
      → (c.buf (hit_of dev blockno bs c)).lock.locked ≡ false
      → (t : Bcache) × (bget dev blockno c ≡ ok (hit_of dev blockno bs c) t)
        × Got dev blockno bs (hit_of dev blockno bs c) t
  unfolding bget
  bget-hit some one open_lock =
      let b = hit_of dev blockno bs c in
      let f : Buf → Buf = λ r. record r { refcnt = inc32 r.refcnt } in
      let (i, passes) = first_such-In (λ b. is_for dev blockno (c.buf b)) bs some in
      let (d, n) = is_for-true dev blockno (c.buf b) passes in
      (
        taken b f c,
        rw (scan_hit dev blockno bs c ring few, ne→== b 0 some) (take-ok b f c open_lock),
        (
          i,
          field-kept (λ r. r.dev) (λ r lk. refl) b b f c refl ∙ d,
          field-kept (λ r. r.blockno) (λ r lk. refl) b b f c refl ∙ n,
          held-taken b f c,
          OnePer-same bs c.buf (taken b f c).buf
              (λ q. (
                field-kept (λ r. r.dev) (λ r lk. refl) b q f c refl,
                field-kept (λ r. r.blockno) (λ r lk. refl) b q f c refl,
              ))
              one,
          Linked-taken b f c bs (λ r. refl) (λ r. refl) ring,
        ),
      )

  bget-miss :
      hit_of dev blockno bs c ≡ 0
      → victim_of bs c ≢ 0
      → OnePer bs c.buf
      → (c.buf (victim_of bs c)).lock.locked ≡ false
      → (t : Bcache) × (bget dev blockno c ≡ ok (victim_of bs c) t)
        × Got dev blockno bs (victim_of bs c) t
  unfolding bget
  bget-miss miss some one open_lock =
      let b = victim_of bs c in
      let f : Buf → Buf =
        λ r. record r { dev = dev; blockno = blockno; valid = false; refcnt = 1 } in
      (
        taken b f c,
        rw
            (
              scan_hit dev blockno bs c ring few,
              miss,
              scan_victim dev blockno bs c ring few,
              ne→== b 0 some,
            )
            (take-ok b f c open_lock),
        (
          last_such-In (λ b. (c.buf b).refcnt == 0) bs some,
          field-taken (λ r. r.dev) (λ r lk. refl) b b f c ∙ rw (eq→== b b refl) refl,
          field-taken (λ r. r.blockno) (λ r lk. refl) b b f c ∙ rw (eq→== b b refl) refl,
          held-taken b f c,
          OnePer-recycled dev blockno b bs c.buf (taken b f c).buf
              (λ q. (
                field-taken (λ r. r.dev) (λ r lk. refl) b q f c ∙ ground arith,
                field-taken (λ r. r.blockno) (λ r lk. refl) b q f c ∙ ground arith,
              ))
              (first_such-none (λ b. is_for dev blockno (c.buf b)) bs
                (Linked-nonzero c.buf 0 0 bs ring) miss)
              one,
          Linked-taken b f c bs (λ r. refl) (λ r. refl) ring,
        ),
      )

-- On a cache in which no block of a device but 0 has two buffers and no buffer is locked, bget either
-- panics, and then the block has no buffer and every buffer is in use, or it returns a buffer of the
-- ring that is for the block asked for and locked by the caller. Then, too, no block of a device but
-- 0 has two buffers, and the ring of buffers is as it was.
pub bget-OnePer :
    (dev blockno : ℕ) (bs : List ℕ) (c : Bcache)
    → Linked c.buf 0 bs 0
    → length bs ≤ nbuf
    → OnePer bs c.buf
    → All (λ b. (c.buf b).lock.locked ≡ false) bs
    → ((bget dev blockno c ≡ panic)
        × All (λ b. is_for dev blockno (c.buf b) ≡ false) bs
        × All (λ b. ((c.buf b).refcnt == 0) ≡ false) bs)
      ⊎ ((b : ℕ) × (t : Bcache) × (bget dev blockno c ≡ ok b t) × Got dev blockno bs b t)
bget-OnePer dev blockno bs c ring few one free =
    let hit = hit_of dev blockno bs c in
    let victim = victim_of bs c in
    let nz = Linked-nonzero c.buf 0 0 bs ring in
    let passes : ℕ → Bool = λ b. is_for dev blockno (c.buf b) in
    let unused : ℕ → Bool = λ b. (c.buf b).refcnt == 0 in
    let open_at = All-at (λ b. (c.buf b).lock.locked ≡ false) bs in
    elim (Bool-cases (hit == 0)) [
      | inl miss ↦
          let none = ==→eq hit 0 miss in
          elim (Bool-cases (victim == 0)) [
            | inl full ↦
                let used = ==→eq victim 0 full in
                inl (
                  bget-panics dev blockno bs c ring few none used,
                  In-All _ bs (first_such-none passes bs nz none),
                  last_such-none unused bs nz used,
                )
            | inr some ↦
                let v = ==-ne victim 0 some in
                let (t, e, g) =
                  bget-miss dev blockno bs c ring few none v one
                    (open_at victim free (last_such-In unused bs v)) in
                inr (victim, t, e, g)
          ]
      | inr some ↦
          let h = ==-ne hit 0 some in
          let (t, e, g) =
            bget-hit dev blockno bs c ring few h one
              (open_at hit free (first_such-In passes bs h).0) in
          inr (hit, t, e, g)
    ]
