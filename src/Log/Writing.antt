-- ===== src/Log/Writing.antt =====
-- write_log: copying the cached blocks into the log, while the home blocks stay as they are.
use csse332_final_project.Base.{ℕ, zero, suc, ◌+◌, ◌<◌, ◌≤◌, ◌≡◌, ◌≢◌, refl, ap, subst, All, arith}
use csse332_final_project.Run.{ok}
use csse332_final_project.Buffers.{Disk, Buffers}
use csse332_final_project.Log.{Log, logsize, write_from}
use csse332_final_project.Log.Rounds.{Idle, written, write_round-written}
use csse332_final_project.Log.Install.{IsHome}

-- A cache and disk in the middle of write_log: the entries below `tail` are in the log, the cache
-- holds `new` at home, and the disk `old`.
pub record Logging (P : Disk → Type 0) (start n : ℕ) (block : ℕ → ℕ) (new old : Disk) (tail : ℕ)
    (b : Buffers) : Type 0 where
  pub idle : Idle b
  pub pinned : (i : ℕ) → i < n → b.pins (block i) ≢ 0
  pub cached : (x : ℕ) → IsHome start x → b.contents x ≡ new x
  pub same : (i : ℕ) → i < tail → b.contents (start + i + 1) ≡ b.disk (start + i + 1)
  pub logged : (i : ℕ) → i < tail → b.disk (start + i + 1) ≡ new (block i)
  pub header : b.disk start ≡ old start
  pub homes : (x : ℕ) → IsHome start x → b.disk x ≡ old x
  pub before : All P b.past

pub write_from-Logging :
    (P : Disk → Type 0) (new old : Disk) (k tail : ℕ) (l : Log)
    → l.n ≤ logsize
    → tail + k ≡ l.n
    → ((i : ℕ) → i < l.n → IsHome l.start (l.block i))
    → ((d : Disk) → d l.start ≡ old l.start → ((x : ℕ) → IsHome l.start x → d x ≡ old x) → P d)
    → Logging P l.start l.n l.block new old tail l.buffers
    → (u : Buffers) × (write_from k tail l ≡ ok tt (record l { buffers = u }))
      × Logging P l.start l.n l.block new old l.n u
unfolding write_from
write_from-Logging P new old zero tail l few all away safe h =
    let e : tail ≡ l.n = omega arith in
    (l.buffers, refl, subst (λ t. Logging P l.start l.n l.block new old t l.buffers) e h)
write_from-Logging P new old (suc k) tail l few all away safe h =
    let more : tail < l.n = omega arith in
    let to = l.start + tail + 1 in
    let b = l.buffers in
    let c = written to (l.block tail) b in
    let apart : to ≢ l.block tail = λ e. ground (arith, away tail more) in
    let h' : Logging P l.start l.n l.block new old (tail + 1) c = record {
      idle = h.idle;
      pinned = h.pinned;
      cached = λ x home. ground (arith, h.cached x home);
      same = λ i lt. ground (arith, h.same i);
      logged = λ i lt. ground (arith, h.logged i, h.cached (l.block tail) (away tail more), ap new);
      header = ground (arith, h.header);
      homes = λ x home. ground (arith, h.homes x home);
      before = (safe b.disk h.header h.homes, h.before);
    } in
    rw (write_round-written tail l h.idle apart (λ e. absurd (h.pinned tail more e))) (
      write_from-Logging P new old k (tail + 1) (record l { buffers = c }) few (omega arith) away
        safe h')
