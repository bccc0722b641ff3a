-- ===== src/Files.antt =====
-- What proc.c uses of the file system (file.c, fs.c and log.c), behind an interface over a state of
-- its own. A struct file or struct inode is named by its address, and 0 is null.
use csse332_final_project.Base.{ℕ}
use csse332_final_project.Run.{Cmd}

pub record Files (F : Type 0) : Type 0 where
  pub filedup : ℕ → Cmd F ℕ
  pub fileclose : ℕ → Cmd F (Unit {0})
  pub idup : ℕ → Cmd F ℕ
  pub iput : ℕ → Cmd F (Unit {0})
  pub namei_root : Cmd F ℕ
  pub begin_op : Cmd F (Unit {0})
  pub end_op : Cmd F (Unit {0})
