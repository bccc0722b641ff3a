-- ===== src/Os.antt =====
-- The kernel as a system call sees it, and xv6-riscv/kernel/syscall.c up to argstr: how a call
-- fetches its arguments from the trapframe and from user memory.
use csse332_final_project.Base.{
  ℕ, ◌+◌, ◌*◌, ◌%◌, ◌^◌, Bool, ◌||◌, Option, none, some, List, [], ◌∷◌, if◌then◌else◌, ltb, leb,
  ◌==◌,
}
use csse332_final_project.Run.{Cmd, ok, panic, fault, spins, pure, put_back, ◌>>=◌}
use csse332_final_project.Memory.{add64, store}
use csse332_final_project.Vm.{success, failure}
use csse332_final_project.Copy.{copyin, copyinstr}
use csse332_final_project.Kernel.{Kernel, Proc, myproc, load, edit, on_memory}
use csse332_final_project.Log.{begun, waits, begin_op, end_op}
use csse332_final_project.Blocks.{Fs, on_log}
use csse332_final_project.Pipe.{Pipe, Pipes}
use csse332_final_project.Terminal.{Terminal}

-- enum FD_NONE, ... of struct file
pub data FileType : Type 0 where
  fd_none fd_pipe fd_inode fd_device : FileType

-- struct file
pub record File : Type 0 where
  pub type : FileType
  pub ref : ℕ
  pub readable : Bool
  pub writable : Bool
  pub pipe : ℕ
  pub ip : ℕ
  pub off : ℕ
  pub major : ℕ

-- `file` is ftable, whose entries go by the numbers from 1 to NFILE: 0 is null.
pub record Os : Type 0 where
  pub kernel : Kernel (Unit {0})
  pub fs : Fs
  pub pipe : ℕ → Pipe
  pub file : ℕ → File
  pub terminal : Terminal (Unit {0})
  pub ticks : ℕ

abbrev pub on_kernel : {A : Type 0} → Cmd (Kernel (Unit {0})) A → Cmd Os A
on_kernel c s = put_back (λ k. record s { kernel = k }) (c s.kernel)

-- The file system works on the memory of the kernel, for the process that runs.
abbrev pub on_fs : {A : Type 0} → Cmd Fs A → Cmd Os A
on_fs c s =
    put_back (λ f. record s { fs = f; kernel = record s.kernel { memory = f.memory } })
      (c (record s.fs {
        memory = s.kernel.memory;
        pid = (s.kernel.procs s.kernel.machine.proc).pid;
      }))

abbrev pub on_pipes : {A : Type 0} → Cmd (Pipes (Unit {0})) A → Cmd Os A
on_pipes c s =
    put_back (λ p. record s { kernel = p.kernel; pipe = p.pipe })
      (c (record { kernel = s.kernel; pipe = s.pipe }))

abbrev pub on_terminal : {A : Type 0} → Cmd (Terminal (Unit {0})) A → Cmd Os A
on_terminal c s =
    put_back (λ t. record s { kernel = t.kernel; terminal = t })
      (c (record s.terminal { kernel = s.kernel }))

-- begin_op() of log.c. A call that has to wait for the log ends as `spins`.
abbrev pub begin_fs : Cmd Os (Unit {0})
begin_fs = on_fs (on_log begin_op) >>= λ b. elim b [ begun ↦ pure tt | waits ↦ λ _. spins ]

abbrev pub end_fs : Cmd Os (Unit {0})
end_fs = on_fs (on_log end_op)

-- myproc()->field
abbrev pub of_proc : {A : Type 0} → (Proc → A) → Cmd Os A
of_proc field = on_kernel (do p ← myproc; load p field)

abbrev pub edit_proc : (Proc → Proc) → Cmd Os (Unit {0})
edit_proc f = on_kernel (do p ← myproc; edit p f)

abbrev pub pagetable : Cmd Os ℕ
pagetable = of_proc (λ r. r.pagetable)

-- A load of the word `w` of the trapframe, and a store there.
abbrev pub load_frame : ℕ → Cmd Os ℕ
load_frame w = do
  tf ← of_proc (λ r. r.trapframe)
  if tf == 0 then (λ _. fault) else (λ s. ok (s.kernel.memory.word (tf + w)) s)

abbrev pub store_frame : ℕ → ℕ → Cmd Os (Unit {0})
store_frame w v = do
  tf ← of_proc (λ r. r.trapframe)
  if tf == 0 then (λ _. fault) else on_kernel (on_memory (λ m. ok tt (store (tf + w) v m)))

-- The number in bytes of a little-endian word.
pub from_bytes : List ℕ → ℕ
from_bytes [] = 0
from_bytes (b ∷ bs) = b + from_bytes bs * 256

-- The bytes of a string before its null.
pub before_null : List ℕ → List ℕ
before_null [] = []
before_null (c ∷ cs) = let rest = before_null cs in if c == 0 then [] else c ∷ rest

unfoldable pub fetchaddr : ℕ → Cmd Os (Option ℕ)
unfolding from_bytes
fetchaddr addr = do
  sz ← of_proc (λ r. r.sz)
  if leb sz addr || ltb sz (add64 addr 8) then pure none else (do
    pt ← pagetable
    (r, bytes) ← on_kernel (on_memory (copyin pt addr 8))
    pure (elim r [ failure ↦ none | success ↦ some (from_bytes bytes) ]))

-- The string that reaches `buf`, without its null.
unfoldable pub fetchstr : ℕ → ℕ → Cmd Os (Option (List ℕ))
unfolding before_null
fetchstr addr max = do
  pt ← pagetable
  (r, bytes) ← on_kernel (on_memory (copyinstr pt addr max))
  pure (elim r [ failure ↦ none | success ↦ some (before_null bytes) ])

-- a0 to a5 stand from byte 112 of the trapframe on.
unfoldable pub argraw : ℕ → Cmd Os ℕ
argraw n = if ltb n 6 then load_frame (112 + n * 8) else (λ _. panic)

unfoldable pub argint : ℕ → Cmd Os ℕ
unfolding argraw
argint n = do v ← argraw n; pure (v % 2 ^ 32)

unfoldable pub argaddr : ℕ → Cmd Os ℕ
unfolding argraw
argaddr n = argraw n

unfoldable pub argstr : ℕ → ℕ → Cmd Os (Option (List ℕ))
unfolding argaddr fetchstr
argstr n max = do addr ← argaddr n; fetchstr addr max
