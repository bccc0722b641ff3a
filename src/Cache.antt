-- ===== src/Cache.antt =====
-- xv6-riscv/kernel/bio.c: the buffer cache, a ring of NBUF buffers through the head, the most
-- recently used first. bcache.lock is held over straight-line code, so each function is one step
-- between the steps of the sleep locks. The disk driver is a transfer between a buffer and the disk.
pub mod Ring
pub mod Moves
pub mod Release
pub mod Taken
pub mod Unique
pub mod Boot
use csse332_final_project.Base.{
  ℕ, zero, suc, ◌+◌, ◌%◌, ◌^◌, Bool, true, false, not, ◌&&◌, if◌then◌else◌, ◌==◌, update, inc32,
  dec32,
}
use csse332_final_project.Run.{Cmd, ok, panic, out_of_fuel, pure, fails, put_back, ◌>>=◌, ◌>>◌}
use csse332_final_project.Buffers.{Block}
use csse332_final_project.Sleeplock.{
  Sleeplock, initsleeplock, acquiresleep, releasesleep, holdingsleep,
}

abbrev pub nbuf : ℕ
nbuf = 30

-- A struct buf; a pointer to one is its number from 1 to NBUF, and 0 is the head.
pub record Buf : Type 0 where
  pub valid : Bool
  pub dev : ℕ
  pub blockno : ℕ
  pub lock : Sleeplock
  pub refcnt : ℕ
  pub prev : ℕ
  pub next : ℕ
  pub contents : Block

-- `me` is the pid of the calling process.
pub record Bcache : Type 0 where
  pub buf : ℕ → Buf
  pub disk : ℕ → ℕ → Block
  pub me : ℕ

abbrev pub edit_buf : ℕ → (Buf → Buf) → Cmd Bcache (Unit {0})
edit_buf b f c = ok tt (record c { buf = update c.buf b (f (c.buf b)) })

abbrev pub load_buf : {A : Type 0} → ℕ → (Buf → A) → Cmd Bcache A
load_buf b field c = ok (field (c.buf b)) c

-- A buffer goes behind the head of the ring.
pub push_front : ℕ → Cmd Bcache (Unit {0})
push_front b = do
  first ← load_buf 0 (λ r. r.next)
  edit_buf b (λ r. record r { next = first; prev = 0 })
  first' ← load_buf 0 (λ r. r.next)
  edit_buf first' (λ r. record r { prev = b })
  edit_buf 0 (λ r. record r { next = b })

pub unlink : ℕ → Cmd Bcache (Unit {0})
unlink b = do
  next ← load_buf b (λ r. r.next)
  prev ← load_buf b (λ r. r.prev)
  edit_buf next (λ r. record r { prev = prev })
  prev' ← load_buf b (λ r. r.prev)
  next' ← load_buf b (λ r. r.next)
  edit_buf prev' (λ r. record r { next = next' })

pub init_from : ℕ → ℕ → Cmd Bcache (Unit {0})
unfolding push_front
init_from zero b = pure tt
init_from (suc n) b = do
  push_front b
  edit_buf b (λ r. record r { lock = initsleeplock })
  init_from n (b + 1)

unfoldable pub binit : Cmd Bcache (Unit {0})
unfolding init_from
binit = do edit_buf 0 (λ r. record r { prev = 0; next = 0 }); init_from nbuf 1

-- The first scan of bget, with `n` rounds left: the buffer of the block, or 0.
pub find_block : ℕ → ℕ → ℕ → ℕ → (ℕ → Buf) → ℕ
find_block zero b dev blockno buf = 0
find_block (suc n) b dev blockno buf =
    let rest = find_block n (buf b).next dev blockno buf in
    if b == 0 then 0 else if ((buf b).dev == dev) && ((buf b).blockno == blockno) then b else rest

-- The second scan: the least recently used buffer that nobody uses, or 0.
pub find_unused : ℕ → ℕ → (ℕ → Buf) → ℕ
find_unused zero b buf = 0
find_unused (suc n) b buf =
    let rest = find_unused n (buf b).prev buf in
    if b == 0 then 0 else if (buf b).refcnt == 0 then b else rest

abbrev pub acquire_buf : ℕ → Cmd Bcache (Unit {0})
acquire_buf b c =
    put_back (λ lk. record c { buf = update c.buf b (record (c.buf b) { lock = lk }) })
      (acquiresleep c.me (c.buf b).lock)

unfoldable pub bget : ℕ → ℕ → Cmd Bcache ℕ
unfolding find_block find_unused
bget dev blockno c =
    let hit = find_block (nbuf + 1) (c.buf 0).next dev blockno c.buf in
    let victim = find_unused (nbuf + 1) (c.buf 0).prev c.buf in
    if not (hit == 0)
    then (do edit_buf hit (λ r. record r { refcnt = inc32 r.refcnt }); acquire_buf hit; pure hit) c
    else if not (victim == 0)
    then (do
      edit_buf victim (λ r. record r { dev = dev; blockno = blockno; valid = false; refcnt = 1 })
      acquire_buf victim
      pure victim)
        c
    else panic

-- virtio_disk_rw
abbrev pub read_disk : ℕ → Cmd Bcache (Unit {0})
read_disk b c = edit_buf b (λ r. record r { contents = c.disk r.dev r.blockno }) c

abbrev pub write_disk : ℕ → Cmd Bcache (Unit {0})
write_disk b c =
    let r = c.buf b in
    ok tt (record c { disk = update c.disk r.dev (update (c.disk r.dev) r.blockno r.contents) })

unfoldable pub bread : ℕ → ℕ → Cmd Bcache ℕ
unfolding bget
bread dev blockno = do
  b ← bget dev blockno
  valid ← load_buf b (λ r. r.valid)
  (if valid then pure tt else (do read_disk b; edit_buf b (λ r. record r { valid = true })))
  pure b

unfoldable pub bwrite : ℕ → Cmd Bcache (Unit {0})
bwrite b c = if holdingsleep c.me (c.buf b).lock then write_disk b c else panic

unfoldable pub brelse : ℕ → Cmd Bcache (Unit {0})
unfolding unlink push_front
brelse b c =
    if not (holdingsleep c.me (c.buf b).lock)
    then panic
    else (do
      edit_buf b (λ r. record r { lock = releasesleep r.lock })
      edit_buf b (λ r. record r { refcnt = dec32 r.refcnt })
      refs ← load_buf b (λ r. r.refcnt)
      if refs == 0 then (do unlink b; push_front b) else pure tt)
        c

unfoldable pub bpin : ℕ → Cmd Bcache (Unit {0})
bpin b = edit_buf b (λ r. record r { refcnt = inc32 r.refcnt })

unfoldable pub bunpin : ℕ → Cmd Bcache (Unit {0})
bunpin b = edit_buf b (λ r. record r { refcnt = dec32 r.refcnt })
