-- ===== src/Log/Track.antt =====
-- log_write: the blocks that the cache has changed, and those that the log lists.
use csse332_final_project.Base.{
  ℕ, ◌+◌, ◌<◌, ◌≤◌, ◌≡◌, ◌≢◌, refl, ◌⊎◌, inl, inr, true, false, leb, ◌==◌, update, arith,
  Bool-cases, ==→eq, ne→==, pos32, inc32,
}
use csse332_final_project.Run.{ok}
use csse332_final_project.Log.{Log, logsize, find_entry, log_write}
use csse332_final_project.Log.Head.{rounds-small}
use csse332_final_project.Log.Install.{IsHome}

-- The entries of the log are pinned blocks outside it, and every block outside the log but
-- `written` has an entry or is on disk as the cache has it.
pub record TracksBut (l : Log) (written : ℕ → Type 0) : Type 0 where
  pub few : l.n ≤ logsize
  pub away : (i : ℕ) → i < l.n → IsHome l.start (l.block i)
  pub pinned : (i : ℕ) → i < l.n → l.buffers.pins (l.block i) ≢ 0
  pub tracked :
      (x : ℕ)
      → IsHome l.start x
      → (written x → ⊥)
      → (l.buffers.disk x ≡ l.buffers.contents x) ⊎ ((i : ℕ) × (i < l.n) × (l.block i ≡ x))

add_entry : ℕ → Log → Log
add_entry b l = record l {
  block = update l.block l.n b;
  n = inc32 l.n;
  buffers = record l.buffers { pins = update l.buffers.pins b (inc32 (l.buffers.pins b)) };
}

log_write-new :
    (b : ℕ) (l : Log)
    → l.n < logsize
    → l.n + 1 < l.size
    → pos32 l.outstanding ≡ true
    → find_entry l.n 0 b l.block ≡ l.n
    → log_write b l ≡ ok tt (add_entry b l)
unfolding log_write add_entry
log_write-new b l few fits active new =
    let full : leb logsize l.n ≡ false = ground arith in
    let over : leb l.size (l.n + 1) ≡ false = ground arith in
    rw (rounds-small l.n (omega arith), full, over, active, new) (ground arith)

log_write-old :
    (b : ℕ) (l : Log)
    → l.n < logsize
    → l.n + 1 < l.size
    → pos32 l.outstanding ≡ true
    → find_entry l.n 0 b l.block ≢ l.n
    → log_write b l ≡ ok tt (record l { block = update l.block (find_entry l.n 0 b l.block) b })
unfolding log_write
log_write-old b l few fits active old =
    let full : leb logsize l.n ≡ false = ground arith in
    let over : leb l.size (l.n + 1) ≡ false = ground arith in
    rw (rounds-small l.n (omega arith), full, over, active, ne→== _ _ old) refl

-- What log_write does to the counts, whatever the block.
pub log_write-grows :
    (b : ℕ) (l : Log)
    → l.n < logsize
    → l.n + 1 < l.size
    → pos32 l.outstanding ≡ true
    → (t : Log) × (log_write b l ≡ ok tt t)
      × (t.n ≤ l.n + 1)
      × (t.outstanding ≡ l.outstanding)
      × (t.size ≡ l.size)
unfolding add_entry
log_write-grows b l few fits active = elim (Bool-cases (find_entry l.n 0 b l.block == l.n)) [
  | inl new ↦
      (add_entry b l, log_write-new b l few fits active (==→eq _ _ new), omega arith, refl, refl)
  | inr old ↦ (_, log_write-old b l few fits active (λ e. ground arith), omega arith, refl, refl)
]
