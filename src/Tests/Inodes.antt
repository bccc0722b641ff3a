-- ===== src/Tests/Inodes.antt =====
-- A table of inodes in which the first entry is in use for inode 1; names of directory entries.
use csse332_final_project.Base.{
  upto, ℕ, ◌≡◌, ◌≢◌, ◌⊎◌, ◌↔◌, ◌∙◌, sym, false, [], ◌∷◌, All, update, arith,
}
use csse332_final_project.Run.{ok, panic}
use csse332_final_project.Sleeplock.{initsleeplock}
use csse332_final_project.Buffers.{fresh}
use csse332_final_project.Blocks.{Inode, Fs}
use csse332_final_project.Inodes.{ninode, iget}
use csse332_final_project.Inodes.Table.{IsTable, Got, is_active, iget-IsTable}
use csse332_final_project.Strings.{strncmp, strncpy}
use csse332_final_project.Strings.Compare.{strncmp-strncpy}
use csse332_final_project.Tests.{empty_memory}

abbrev blank_inode : Inode
blank_inode = record {
  inum = 0;
  ref = 0;
  lock = initsleeplock;
  valid = false;
  type = 0;
  major = 0;
  minor = 0;
  nlink = 0;
  size = 0;
  addrs = λ _. 0;
}

abbrev pub root_open : Fs
root_open = record {
  log = record {
    buffers = fresh (λ _ _. 0);
    start = 2;
    size = 31;
    outstanding = 0;
    committing = false;
    n = 0;
    block = λ _. 0;
  };
  sb = record { size = 1000; ninodes = 200; inodestart = 33; bmapstart = 46 };
  inode = update (λ _. blank_inode) 1 (record blank_inode { inum = 1; ref = 1 });
  memory = empty_memory;
  pid = 1;
}

root_open-IsTable : IsTable root_open.inode
root_open-IsTable = record {
  once = λ p q lp mp lq mq up uq e.
      let p1 : p ≡ 1 = ground arith in let q1 : q ≡ 1 = ground arith in p1 ∙ sym q1;
}

iget-IsTable_example :
    ((iget 5 root_open ≡ panic)
      × All (λ q. is_active 5 (root_open.inode q) ≡ false) (upto ninode)
      × All (λ q. (root_open.inode q).ref ≢ 0) (upto ninode))
    ⊎ ((p : ℕ) × (t : Fs) × (iget 5 root_open ≡ ok p t) × Got 5 p t)
iget-IsTable_example = iget-IsTable 5 root_open root_open-IsTable (λ p. ground arith)

strncmp-strncpy_example :
    (strncmp 3 (97 ∷ 98 ∷ 99 ∷ 100 ∷ []) (97 ∷ 98 ∷ 99 ∷ 0 ∷ []) ≡ 0)
    ↔ (strncpy 3 (97 ∷ 98 ∷ 99 ∷ 100 ∷ []) ≡ strncpy 3 (97 ∷ 98 ∷ 99 ∷ 0 ∷ []))
strncmp-strncpy_example =
    strncmp-strncpy 3 (97 ∷ 98 ∷ 99 ∷ 100 ∷ []) (97 ∷ 98 ∷ 99 ∷ 0 ∷ [])
      (omega arith, (omega arith, (omega arith, (omega arith, tt))))
      (omega arith, (omega arith, (omega arith, (omega arith, tt))))
