-- ===== src/Buffers.antt =====
-- The buffer cache as the log and the file system see it: the contract of xv6-riscv/kernel/bio.c on
-- one device. A block has one buffer, which is named by the block's number. What the cache may
-- forget, it forgets: a buffer that nobody holds or pins holds what the disk does.
use csse332_final_project.Base.{
  ℕ, Bool, true, false, List, ◌∷◌, if◌then◌else◌, ◌==◌, update, inc32, dec32,
}
use csse332_final_project.Run.{Cmd, ok, panic, spins}

-- The BSIZE / 4 words of a block, and the blocks of a disk.
abbrev pub Block : Type 0
Block = ℕ → ℕ

abbrev pub Disk : Type 0
Disk = ℕ → Block

-- `past` holds the disk before each write, the last one first: the disks that a crash can leave,
-- beside `disk` itself.
pub record Buffers : Type 0 where
  pub disk : Disk
  pub contents : Disk
  pub held : ℕ → Bool
  pub pins : ℕ → ℕ
  pub past : List Disk

-- The cache after a boot from a disk.
abbrev pub fresh : Disk → Buffers
fresh d = record { disk = d; contents = d; held = λ _. false; pins = λ _. 0; past = List.[] }

abbrev pub forget : ℕ → Buffers → Buffers
forget n b = record b {
  contents =
      update b.contents n
        (if b.held n then b.contents n else if b.pins n == 0 then b.disk n else b.contents n);
}

-- `spins`: the buffer is in use by somebody else, or by the caller.
abbrev pub bread : ℕ → Cmd Buffers (Unit {0})
bread n b = if b.held n then spins else ok tt (record b { held = update b.held n true })

abbrev pub bwrite : ℕ → Cmd Buffers (Unit {0})
bwrite n b =
    if b.held n
    then ok tt (record b { disk = update b.disk n (b.contents n); past = b.disk ∷ b.past })
    else panic

abbrev pub brelse : ℕ → Cmd Buffers (Unit {0})
brelse n b =
    if b.held n then ok tt (forget n (record b { held = update b.held n false })) else panic

abbrev pub bpin : ℕ → Cmd Buffers (Unit {0})
bpin n b = ok tt (record b { pins = update b.pins n (inc32 (b.pins n)) })

abbrev pub bunpin : ℕ → Cmd Buffers (Unit {0})
bunpin n b = ok tt (forget n (record b { pins = update b.pins n (dec32 (b.pins n)) }))

-- A store to b->data.
abbrev pub modify : ℕ → (Block → Block) → Cmd Buffers (Unit {0})
modify n f b = ok tt (record b { contents = update b.contents n (f (b.contents n)) })
