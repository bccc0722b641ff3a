-- ===== src/Log.antt =====
-- xv6-riscv/kernel/log.c: the write-ahead log. log.lock is held over straight-line code, so each of
-- begin_op, log_write and the two halves of end_op is one step; the wakeups of processes that wait
-- for log space are left out, since begin_op tells its caller that it has to wait.
pub mod Rounds
pub mod Install
pub mod Head
pub mod Recover
pub mod Writing
pub mod Commit
pub mod Space
pub mod Track
use csse332_final_project.Base.{
  ℕ, zero, suc, ◌+◌, ◌*◌, ◌%◌, ◌^◌, Bool, true, false, not, ◌&&◌, ◌||◌, if◌then◌else◌, ltb, leb,
  ◌==◌, update, inc32, dec32, pos32,
}
use csse332_final_project.Run.{Cmd, ok, panic, fault, pure, fails, put_back, ◌>>=◌, ◌>>◌}
use csse332_final_project.Spinlock.{Machine}
use csse332_final_project.Buffers.{
  Block, Disk, Buffers, bread, bwrite, brelse, bpin, bunpin, modify, fresh,
}

abbrev pub maxopblocks : ℕ
maxopblocks = 10

abbrev pub logsize : ℕ
logsize = maxopblocks * 3

-- struct log with its in-memory header; an int is a 32-bit pattern. `buffers` is the cache below.
pub record Log : Type 0 where
  pub buffers : Buffers
  pub start : ℕ
  pub size : ℕ
  pub outstanding : ℕ
  pub committing : Bool
  pub n : ℕ
  pub block : ℕ → ℕ

abbrev pub on_buffers : {A : Type 0} → Cmd Buffers A → Cmd Log A
on_buffers c l = put_back (λ b. record l { buffers = b }) (c l.buffers)

-- The rounds of `for (i = 0; i < n; i++)` with a signed n.
abbrev pub rounds : ℕ → ℕ
rounds n = if ltb n (2 ^ 31) then n else 0

-- Of the log blocks, the one for entry `tail`, and the home of that entry.
abbrev pub log_block : ℕ → Cmd Log ℕ
log_block tail l = ok (l.start + tail + 1) l

abbrev pub home_block : ℕ → Cmd Log ℕ
home_block tail l = ok (l.block tail) l

-- memmove(to->data, from->data, BSIZE)
abbrev pub copy_block : ℕ → ℕ → Cmd Log (Unit {0})
copy_block to from l = on_buffers (modify to (λ _. l.buffers.contents from)) l

pub install_round : Bool → ℕ → Cmd Log (Unit {0})
install_round recovering tail = do
  lbuf ← log_block tail
  on_buffers (bread lbuf)
  dbuf ← home_block tail
  on_buffers (bread dbuf)
  copy_block dbuf lbuf
  on_buffers (bwrite dbuf)
  (if recovering then pure tt else on_buffers (bunpin dbuf))
  on_buffers (brelse lbuf)
  on_buffers (brelse dbuf)

-- `k` rounds are left.
pub install_from : ℕ → Bool → ℕ → Cmd Log (Unit {0})
unfolding install_round
install_from zero recovering tail = pure tt
install_from (suc k) recovering tail =
    install_round recovering tail >> install_from k recovering (tail + 1)

unfoldable pub install_trans : Bool → Cmd Log (Unit {0})
unfolding install_from
install_trans recovering l = install_from (rounds l.n) recovering 0 l

-- Word 0 of a header block is n, and word i + 1 is block[i]. log.lh.block ends at LOGSIZE.
pub load_blocks : ℕ → ℕ → Cmd Log (Unit {0})
load_blocks zero i = pure tt
load_blocks (suc k) i =
    (λ l.
      if ltb i logsize
      then ok tt (record l { block = update l.block i (l.buffers.contents l.start (i + 1)) })
      else fault)
    >> load_blocks k (i + 1)

unfoldable pub read_head : Cmd Log (Unit {0})
unfolding load_blocks
read_head = do
  start ← λ l. ok l.start l
  on_buffers (bread start)
  λ l. ok tt (record l { n = l.buffers.contents start 0 })
  λ l. load_blocks (rounds l.n) 0 l
  on_buffers (brelse start)

pub store_blocks : ℕ → ℕ → Cmd Log (Unit {0})
store_blocks zero i = pure tt
store_blocks (suc k) i =
    (λ l. on_buffers (modify l.start (λ hb. update hb (i + 1) (l.block i))) l)
    >> store_blocks k (i + 1)

unfoldable pub write_head : Cmd Log (Unit {0})
unfolding store_blocks
write_head = do
  start ← λ l. ok l.start l
  on_buffers (bread start)
  λ l. on_buffers (modify start (λ hb. update hb 0 l.n)) l
  λ l. store_blocks (rounds l.n) 0 l
  on_buffers (bwrite start)
  on_buffers (brelse start)

abbrev pub clear : Cmd Log (Unit {0})
clear l = ok tt (record l { n = 0 })

unfoldable pub recover_from_log : Cmd Log (Unit {0})
recover_from_log = do read_head; install_trans true; clear; write_head

-- initlog() on a cache that has just been made: the log struct starts as zeros.
unfoldable pub initlog : ℕ → ℕ → Cmd Buffers Log
initlog start size b =
    put_back (λ l. l.buffers)
      ((recover_from_log >> λ l. ok l l) (record {
        buffers = b;
        start = start;
        size = size;
        outstanding = 0;
        committing = false;
        n = 0;
        block = λ _. 0;
      }))

pub write_round : ℕ → Cmd Log (Unit {0})
write_round tail = do
  to ← log_block tail
  on_buffers (bread to)
  from ← home_block tail
  on_buffers (bread from)
  copy_block to from
  on_buffers (bwrite to)
  on_buffers (brelse from)
  on_buffers (brelse to)

pub write_from : ℕ → ℕ → Cmd Log (Unit {0})
unfolding write_round
write_from zero tail = pure tt
write_from (suc k) tail = write_round tail >> write_from k (tail + 1)

unfoldable pub write_log : Cmd Log (Unit {0})
unfolding write_from
write_log l = write_from (rounds l.n) 0 l

unfoldable pub commit : Cmd Log (Unit {0})
commit l =
    if pos32 l.n
    then (do write_log; write_head; install_trans false; clear; write_head) l
    else ok tt l

-- Whether the operation has begun, or its caller has to sleep and try again.
pub data Begun : Type 0 where
  begun waits : Begun

unfoldable pub begin_op : Cmd Log Begun
begin_op l =
    let need = (l.n + inc32 l.outstanding * maxopblocks) % 2 ^ 32 in
    if l.committing
    then ok waits l
    else if ltb logsize need && ltb need (2 ^ 31)
    then ok waits l
    else ok begun (record l { outstanding = inc32 l.outstanding })

-- end_op() up to its commit: whether it has to commit.
pub end_first : Cmd Log Bool
end_first l =
    let left = dec32 l.outstanding in
    if l.committing
    then panic
    else if left == 0
    then ok true (record l { outstanding = left; committing = true })
    else ok false (record l { outstanding = left })

unfoldable pub end_op : Cmd Log (Unit {0})
unfolding end_first
end_op = do
  do_commit ← end_first
  if do_commit then (do commit; λ l. ok tt (record l { committing = false })) else pure tt

-- The first entry from `i` on that logs block `b`, of `k` that are left, or the end.
pub find_entry : ℕ → ℕ → ℕ → (ℕ → ℕ) → ℕ
find_entry zero i b block = i
find_entry (suc k) i b block =
    let rest = find_entry k (i + 1) b block in if block i == b then i else rest

unfoldable pub log_write : ℕ → Cmd Log (Unit {0})
unfolding find_entry
log_write b l =
    let i = find_entry (rounds l.n) 0 b l.block in
    if leb logsize l.n || leb l.size (l.n + 1)
    then panic
    else if not (pos32 l.outstanding)
    then panic
    else if i == l.n
    then (do
      λ l'. ok tt (record l' { block = update l'.block i b })
      on_buffers (bpin b)
      λ l'. ok tt (record l' { n = inc32 l'.n }))
        l
    else ok tt (record l { block = update l.block i b })
