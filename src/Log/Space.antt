-- ===== src/Log/Space.antt =====
-- begin_op, log_write and end_op: the room in the log for the operations that have begun.
use csse332_final_project.Base.{ℕ, suc, ◌+◌, ◌≤◌, ◌≡◌, List, [], ◌∷◌, ◌++◌, All, length, Bool}
use csse332_final_project.Run.{ok}
use csse332_final_project.Log.{Log, begun, logsize, maxopblocks, begin_op, end_first, log_write}

abbrev pub total : List ℕ → ℕ
total [] = 0
total (r ∷ rs) = r + total rs

-- `rs` holds, for each operation that has begun, how many blocks more it may log.
pub record HasRoom (rs : List ℕ) (l : Log) : Type 0 where
  pub room : l.n + total rs ≤ logsize
  pub counted : l.outstanding ≡ length rs
  pub few : length rs ≤ 3
  pub each : All (λ r. r ≤ maxopblocks) rs

-- The states that operations reach which log no more than MAXOPBLOCKS blocks each, in any order and
-- at the same time. The log is empty again when all have ended and the transaction is committed.
pub data Active : List ℕ → Log → Type 0 where
  starts : {l : Log} → l.n ≡ 0 → l.outstanding ≡ 0 → Active [] l
  begins :
      {rs : List ℕ} {l t : Log}
      → Active rs l
      → begin_op l ≡ ok begun t
      → Active (maxopblocks ∷ rs) t
  writes :
      {rs rs' : List ℕ} {l t : Log} (before after : List ℕ) (r b : ℕ)
      → Active rs l
      → rs ≡ before ++ suc r ∷ after
      → log_write b l ≡ ok tt t
      → rs' ≡ before ++ r ∷ after
      → Active rs' t
  ends :
      {rs rs' : List ℕ} {l t : Log} {last : Bool} (before after : List ℕ) (r : ℕ)
      → Active rs l
      → rs ≡ before ++ r ∷ after
      → end_first l ≡ ok last t
      → rs' ≡ before ++ after
      → Active rs' t
