-- ===== src/Log/Rounds.antt =====
-- One round of the loops of log.c that copy blocks, as one change of the cache and the disk.
use csse332_final_project.Base.{
  ℕ, ◌+◌, ◌≡◌, ◌≢◌, refl, sym, ap, fun_ext, Bool, true, false, ◌∷◌, if◌then◌else◌, update, arith,
  eq→==, ne→==, dec32,
}
use csse332_final_project.Run.{ok}
use csse332_final_project.Buffers.{Buffers}
use csse332_final_project.Log.{Log, write_round, install_round}

-- Nobody uses a buffer.
abbrev pub Idle : Buffers → Type 0
Idle b = (q : ℕ) → b.held q ≡ false

-- What the cache holds of block `q` is safe from being forgotten.
abbrev pub Kept : Buffers → ℕ → Type 0
Kept b q = b.pins q ≡ 0 → b.disk q ≡ b.contents q

-- Block `from` has been copied to block `to`, in the cache and on disk.
abbrev pub written : ℕ → ℕ → Buffers → Buffers
written to from b = record b {
  disk = update b.disk to (b.contents from);
  contents = update b.contents to (b.contents from);
  past = b.disk ∷ b.past;
}

-- Two records of buffers that agree in what is compared point by point.
pub same_buffers :
    (b c : Buffers)
    → b.disk ≡ c.disk
    → ((q : ℕ) → b.contents q ≡ c.contents q)
    → ((q : ℕ) → b.held q ≡ c.held q)
    → b.pins ≡ c.pins
    → b.past ≡ c.past
    → b ≡ c
same_buffers b c e f g h i =
    λ j. record { disk = e j; contents = fun_ext f j; held = fun_ext g j; pins = h j; past = i j }

pub write_round-written :
    (tail : ℕ) (l : Log)
    → Idle l.buffers
    → l.start + tail + 1 ≢ l.block tail
    → Kept l.buffers (l.block tail)
    → write_round tail l
      ≡ ok tt (record l { buffers = written (l.start + tail + 1) (l.block tail) l.buffers })
unfolding write_round
write_round-written tail l idle apart kept =
    let to = l.start + tail + 1 in
    let from = l.block tail in
    let b = l.buffers in
    let away : from ≢ to = λ e. apart (sym e) in
    rw
      (
        idle to,
        ne→== to from apart,
        idle from,
        eq→== to to refl,
        ne→== from to away,
        eq→== from from refl,
        eq→== to to refl,
        ne→== from to away,
      )
      (ap (λ c. ok tt (record l { buffers = c }))
        (same_buffers _ _ refl (λ q. ground (arith, kept)) (λ q. ground (arith, idle to, idle from))
          refl refl))

abbrev pub unpinned : Bool → ℕ → (ℕ → ℕ) → ℕ → ℕ
unpinned recovering q pins = if recovering then pins else update pins q (dec32 (pins q))

pub install_round-written :
    (recovering : Bool) (tail : ℕ) (l : Log)
    → Idle l.buffers
    → l.start + tail + 1 ≢ l.block tail
    → Kept l.buffers (l.start + tail + 1)
    → let b = written (l.block tail) (l.start + tail + 1) l.buffers in
      install_round recovering tail l
      ≡ ok tt (record l { buffers = record b { pins = unpinned recovering (l.block tail) b.pins } })
unfolding install_round
install_round-written true tail l idle apart kept =
    let from = l.start + tail + 1 in
    let to = l.block tail in
    let b = l.buffers in
    let away : to ≢ from = λ e. apart (sym e) in
    rw
      (
        idle from,
        ne→== from to apart,
        idle to,
        eq→== to to refl,
        ne→== to from away,
        eq→== from from refl,
        ne→== from to apart,
        eq→== to to refl,
      )
      (ap (λ c. ok tt (record l { buffers = c }))
        (same_buffers _ _ refl (λ q. ground (arith, kept)) (λ q. ground (arith, idle to, idle from))
          refl refl))
install_round-written false tail l idle apart kept =
    let from = l.start + tail + 1 in
    let to = l.block tail in
    let b = l.buffers in
    let away : to ≢ from = λ e. apart (sym e) in
    rw
      (
        idle from,
        ne→== from to apart,
        idle to,
        eq→== to to refl,
        ne→== to from away,
        eq→== from from refl,
        ne→== from to apart,
        eq→== to to refl,
      )
      (ap (λ c. ok tt (record l { buffers = c }))
        (same_buffers _ _ refl (λ q. ground (arith, kept)) (λ q. ground (arith, idle to, idle from))
          refl refl))
