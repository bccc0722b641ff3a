-- ===== src/Blocks.antt =====
-- xv6-riscv/kernel/fs.c, the layer of disk blocks: the super block, and the bitmap of free blocks.
use csse332_final_project.Base.{
  ℕ, zero, suc, ◌+◌, ◌-◌, ◌*◌, ◌/◌, ◌%◌, ◌^◌, Bool, true, false, not, if◌then◌else◌, ltb, ◌==◌,
  update,
}
use csse332_final_project.Run.{Cmd, ok, pure, fails, put_back, ◌>>=◌, ◌>>◌}
use csse332_final_project.Memory.{Memory}
use csse332_final_project.Sleeplock.{Sleeplock}
use csse332_final_project.Buffers.{Block, Buffers, bread, brelse, modify}
use csse332_final_project.Log.{Log, log_write}

abbrev pub bsize : ℕ
bsize = 1024

-- Bitmap bits per block.
abbrev pub bpb : ℕ
bpb = bsize * 8

-- The fields of the super block that fs.c uses.
pub record Superblock : Type 0 where
  pub size : ℕ
  pub ninodes : ℕ
  pub inodestart : ℕ
  pub bmapstart : ℕ

-- struct inode, of the one device.
pub record Inode : Type 0 where
  pub inum : ℕ
  pub ref : ℕ
  pub lock : Sleeplock
  pub valid : Bool
  pub type : ℕ
  pub major : ℕ
  pub minor : ℕ
  pub nlink : ℕ
  pub size : ℕ
  pub addrs : ℕ → ℕ

-- `inode` is the table itable, whose entries go by the numbers from 1 to NINODE: 0 is null. `pid`
-- is the pid of the calling process, and `memory` holds its pages.
pub record Fs : Type 0 where
  pub log : Log
  pub sb : Superblock
  pub inode : ℕ → Inode
  pub memory : Memory
  pub pid : ℕ

abbrev pub on_log : {A : Type 0} → Cmd Log A → Cmd Fs A
on_log c s = put_back (λ l. record s { log = l }) (c s.log)

abbrev pub on_buffers : {A : Type 0} → Cmd Buffers A → Cmd Fs A
on_buffers c s = put_back (λ b. record s { log = record s.log { buffers = b } }) (c s.log.buffers)

abbrev pub contents : ℕ → Cmd Fs Block
contents n s = ok (s.log.buffers.contents n) s

unfoldable pub bzero : ℕ → Cmd Fs (Unit {0})
bzero bno = do
  on_buffers (bread bno)
  on_buffers (modify bno (λ _ _. 0))
  on_log (log_write bno)
  on_buffers (brelse bno)

-- BBLOCK(b, sb)
abbrev pub bblock : Superblock → ℕ → ℕ
bblock sb b = b / bpb + sb.bmapstart

-- Bit bi % 8 of byte bi / 8 is bit bi % 32 of word bi / 32.
abbrev pub bit : Block → ℕ → Bool
bit block bi = (block (bi / 32) / 2 ^ (bi % 32) % 2) == 1

abbrev pub set_bit : ℕ → Block → Block
set_bit bi block = update block (bi / 32) (block (bi / 32) + 2 ^ (bi % 32))

abbrev pub clear_bit : ℕ → Block → Block
clear_bit bi block = update block (bi / 32) (block (bi / 32) - 2 ^ (bi % 32))

-- The inner loop of balloc over the `k` bits from `bi` on: the first free bit, if there is one
-- below the file system's size, as bi + 1, else 0.
pub free_bit : ℕ → ℕ → ℕ → ℕ → Block → ℕ
free_bit zero bi b size block = 0
free_bit (suc k) bi b size block =
    let rest = free_bit k (bi + 1) b size block in
    if not (ltb (b + bi) size) then 0 else if bit block bi then rest else bi + 1

-- The outer loop, with `n` bitmap blocks left.
pub balloc_from : ℕ → ℕ → Cmd Fs ℕ
unfolding free_bit bzero
balloc_from zero b = pure 0
balloc_from (suc n) b = do
  sb ← λ s. ok s.sb s
  elim (ltb b sb.size) [
    | false ↦ pure 0
    | true ↦ (do
      let bp = bblock sb b
      on_buffers (bread bp)
      bits ← contents bp
      let found = free_bit bpb 0 b sb.size bits
      elim (found == 0) [
        | true ↦ (do on_buffers (brelse bp); balloc_from n (b + bpb))
        | false ↦ (do
          on_buffers (modify bp (set_bit (found - 1)))
          on_log (log_write bp)
          on_buffers (brelse bp)
          bzero (b + (found - 1))
          pure (b + (found - 1)))
      ])
  ]

unfoldable pub balloc : Cmd Fs ℕ
unfolding balloc_from
balloc s = balloc_from (s.sb.size / bpb + 1) 0 s

unfoldable pub bfree : ℕ → Cmd Fs (Unit {0})
bfree b = do
  sb ← λ s. ok s.sb s
  let bp = bblock sb b
  on_buffers (bread bp)
  bits ← contents bp
  if not (bit bits (b % bpb)) then fails else (do
    on_buffers (modify bp (clear_bit (b % bpb)))
    on_log (log_write bp)
    on_buffers (brelse bp))
