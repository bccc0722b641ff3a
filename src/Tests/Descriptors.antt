-- ===== src/Tests/Descriptors.antt =====
-- A process whose descriptor 3 is for the file 1, and a call with the argument 3.
use csse332_final_project.Base.{
  ℕ, ◌≡◌, ◌⊎◌, refl, Bool-cases, inl, inr, false, true, ◌==◌, if◌then◌else◌, update, arith,
}
use csse332_final_project.Run.{ok}
use csse332_final_project.Kernel.{minus_one64, running}
use csse332_final_project.Os.{Os, File, fd_none, fd_inode}
use csse332_final_project.Sysfile.{sys_dup}
use csse332_final_project.Sysfile.Counts.{Runs, Counted, uses-one}
use csse332_final_project.Sysfile.Dup.{Dup, sys_dup-Counted}
use csse332_final_project.Tests.{empty_memory, blank, with_table}
use csse332_final_project.Tests.Inodes.{root_open}
use csse332_final_project.Tests.Consoles.{prompt}

abbrev no_file : File
no_file = record {
  type = fd_none;
  ref = 0;
  readable = false;
  writable = false;
  pipe = 0;
  ip = 0;
  off = 0;
  major = 0;
}

abbrev one_open : Os
one_open = record {
  kernel =
      record (with_table (λ _. record blank {
        state = running;
        trapframe = 0x8003_0000;
        ofile = update (λ _. 0) 3 1;
      })) { memory = record empty_memory { word = λ _. 3 } };
  fs = root_open;
  pipe = λ _. record { bytes = λ _. 0; nread = 0; nwrite = 0; readopen = false; writeopen = false };
  file =
      update (λ _. no_file) 1
        (record no_file { ref = 1; type = fd_inode; readable = true; ip = 1 });
  terminal = prompt;
  ticks = 0;
}

one_open-Runs : Runs one_open
one_open-Runs = record { proc = ground arith; frame = ground arith }

one_open-ref : (f : ℕ) → (one_open.file f).ref ≡ (if 1 == f then 1 else 0)
one_open-ref f = elim (Bool-cases (1 == f)) [ inl e ↦ rw e refl | inr e ↦ rw e refl ]

one_open-Counted : Counted (λ _. 0) one_open
one_open-Counted = record {
  counts = λ f nz. let a = one_open-ref f in let b = uses-one 3 f 1 (omega arith) nz in omega arith;
  small = λ f. omega arith;
}

sys_dup-Counted_example :
    (r : ℕ) × (t : Os) × (sys_dup one_open ≡ ok r t)
    × Counted (λ _. 0) t
    × (((r ≡ minus_one64) × (t ≡ one_open)) ⊎ Dup one_open r t)
sys_dup-Counted_example = sys_dup-Counted (λ _. 0) one_open one_open-Runs one_open-Counted
