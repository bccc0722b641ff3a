-- ===== src/Tests/Buffers.antt =====
-- A cache of two buffers: the first is for block 7 of device 1, the second for block 9.
use csse332_final_project.Base.{
  upto, ℕ, ◌≡◌, ◌+◌, ◌⊎◌, refl, ◌∙◌, sym, ap, inl, inr, true, false, [], ◌∷◌, All, ◌==◌, update,
  arith,
}
use csse332_final_project.Run.{ok, panic}
use csse332_final_project.Sleeplock.{initsleeplock}
use csse332_final_project.Cache.{nbuf, Buf, Bcache, binit, bget, brelse}
use csse332_final_project.Cache.Boot.{binit-OnePer}
use csse332_final_project.Cache.Ring.{Linked, is_for}
use csse332_final_project.Cache.Release.{SameBlock, brelse-Linked}
use csse332_final_project.Cache.Unique.{OnePer, Got, bget-OnePer}

abbrev head : Buf
head = record {
  valid = false;
  dev = 0;
  blockno = 0;
  lock = initsleeplock;
  refcnt = 0;
  prev = 2;
  next = 1;
  contents = λ _. 0;
}

abbrev two_buffers : Bcache
two_buffers = record {
  buf =
      update
        (update (λ _. head) 1
          (record head { valid = true; dev = 1; blockno = 7; prev = 0; next = 2 }))
        2 (record head { valid = true; dev = 1; blockno = 9; prev = 1; next = 0 });
  disk = λ _ _ _. 0;
  me = 4;
}

two_buffers-Linked : Linked two_buffers.buf 0 (1 ∷ 2 ∷ []) 0
unfolding Linked
two_buffers-Linked = (refl, refl, omega arith, (refl, refl, omega arith, (refl, refl)))

block_at : {p q : ℕ} → p ≡ q → (two_buffers.buf p).blockno ≡ (two_buffers.buf q).blockno
block_at e = ap (λ p. (two_buffers.buf p).blockno) e

two_buffers-OnePer : OnePer (1 ∷ 2 ∷ []) two_buffers.buf
unfolding OnePer
two_buffers-OnePer p q ip iq dz d n = elim ip [
  | inl p1 ↦ elim iq [
    | inl q1 ↦ p1 ∙ sym q1
    | inr i ↦ elim i [
      | inl q2 ↦
          let e : (two_buffers.buf 1).blockno ≡ (two_buffers.buf 2).blockno =
            sym (block_at p1) ∙ n ∙ block_at q2 in
          absurd (omega arith)
      | inr j ↦ elim j [ ]
    ]
  ]
  | inr i ↦ elim i [
    | inl p2 ↦ elim iq [
      | inl q1 ↦
          let e : (two_buffers.buf 2).blockno ≡ (two_buffers.buf 1).blockno =
            sym (block_at p2) ∙ n ∙ block_at q1 in
          absurd (omega arith)
      | inr k ↦ elim k [ inl q2 ↦ p2 ∙ sym q2 | inr j ↦ elim j [ ] ]
    ]
    | inr j ↦ elim j [ ]
  ]
]

bget-OnePer_example :
    ((bget 1 8 two_buffers ≡ panic)
      × All (λ b. is_for 1 8 (two_buffers.buf b) ≡ false) (1 ∷ 2 ∷ [])
      × All (λ b. ((two_buffers.buf b).refcnt == 0) ≡ false) (1 ∷ 2 ∷ []))
    ⊎ ((b : ℕ) × (t : Bcache) × (bget 1 8 two_buffers ≡ ok b t) × Got 1 8 (1 ∷ 2 ∷ []) b t)
bget-OnePer_example =
    bget-OnePer 1 8 (1 ∷ 2 ∷ []) two_buffers two_buffers-Linked (omega arith) two_buffers-OnePer
      (refl, (refl, tt))

-- Process 4 holds the second buffer.
abbrev one_used : Bcache
one_used = record two_buffers {
  buf =
      update two_buffers.buf 2
        (record (two_buffers.buf 2) { lock = record { locked = true; pid = 4 }; refcnt = 1 });
}

one_used-Linked : Linked one_used.buf 0 (1 ∷ 2 ∷ []) 0
unfolding Linked
one_used-Linked = (refl, refl, omega arith, (refl, refl, omega arith, (refl, refl)))

brelse-Linked_example :
    (t : Bcache) × (brelse 2 one_used ≡ ok tt t)
    × Linked t.buf 0 (2 ∷ 1 ∷ []) 0
    × ((t.buf 2).lock.locked ≡ false)
    × ((t.buf 2).refcnt + 1 ≡ 1)
    × ((q : ℕ) → SameBlock (one_used.buf q) (t.buf q))
brelse-Linked_example =
    brelse-Linked 2 (1 ∷ []) [] one_used one_used-Linked (omega arith) (omega arith, tt) tt refl
      (omega arith) (omega arith)

-- The cache at boot.
abbrev zeros : Bcache
zeros = record { buf = λ _. record head { prev = 0; next = 0 }; disk = λ _ _ _. 0; me = 0 }

binit-OnePer_example :
    (t : Bcache) × (binit zeros ≡ ok tt t)
    × Linked t.buf 0 (upto nbuf) 0
    × OnePer (upto nbuf) t.buf
    × All (λ b. (t.buf b).lock.locked ≡ false) (upto nbuf)
binit-OnePer_example = binit-OnePer zeros (λ q. refl)
