-- ===== src/Sysfile/Opens.antt =====
-- sysfile.c: the calls that make descriptors, open and pipe; and pipealloc of pipe.c.
use csse332_final_project.Base.{
  ℕ, ◌/◌, ◌%◌, Bool, true, false, not, ◌&&◌, ◌||◌, Option, none, some, List, if◌then◌else◌, ltb,
  ◌==◌, update,
}
use csse332_final_project.Run.{Cmd, pure, ◌>>=◌, ◌>>◌}
use csse332_final_project.Memory.{add64}
use csse332_final_project.Kalloc.{kalloc}
use csse332_final_project.Vm.{success, failure}
use csse332_final_project.Copy.{copyout}
use csse332_final_project.Life.{int_bytes}
use csse332_final_project.Kernel.{on_memory, minus_one64}
use csse332_final_project.Inodes.{load_inode, ilock, iunlock, iunlockput, itrunc}
use csse332_final_project.Dirs.{t_dir, namei}
use csse332_final_project.Pipe.{init_pipe}
use csse332_final_project.Os.{
  fd_pipe, fd_inode, fd_device, File, Os, on_kernel, on_fs, on_pipes, begin_fs, of_proc, edit_proc,
  pagetable, argint, argaddr, argstr,
}
use csse332_final_project.Ftable.{ndev, edit_file, filealloc, fileclose}
use csse332_final_project.Sysfile.{maxpath, t_file, t_device, fdalloc, ends}
use csse332_final_project.Sysfile.Names.{create}

-- The bits of omode.
abbrev pub has_bit : ℕ → ℕ → Bool
has_bit omode bit = (omode / bit % 2) == 1

abbrev pub o_wronly : ℕ
o_wronly = 0x001

abbrev pub o_rdwr : ℕ
o_rdwr = 0x002

abbrev pub o_create : ℕ
o_create = 0x200

abbrev pub o_trunc : ℕ
o_trunc = 0x400

-- The inode that sys_open opens, locked, or 0.
pub open_inode : List ℕ → ℕ → Cmd Os ℕ
open_inode path omode = do
  cwd ← of_proc (λ r. r.cwd)
  if has_bit omode o_create then on_fs (create cwd path t_file 0 0) else (do
    ip ← on_fs (namei cwd path)
    if ip == 0 then pure 0 else (do
      on_fs (ilock ip)
      type ← on_fs (load_inode ip (λ r. r.type))
      if (type == t_dir) && not (omode == 0) then (do on_fs (iunlockput ip); pure 0) else pure ip))

-- The struct file of an open inode.
abbrev pub opened : ℕ → ℕ → ℕ → ℕ → File → File
opened ip type major omode r =
    let named = record r {
      ip = ip;
      readable = not (has_bit omode o_wronly);
      writable = has_bit omode o_wronly || has_bit omode o_rdwr;
    } in
    if type == t_device
    then record named { type = fd_device; major = major }
    else record named { type = fd_inode; off = 0 }

abbrev pub open_fails : ℕ → Cmd Os ℕ
open_fails ip = do on_fs (iunlockput ip); ends minus_one64

-- sys_open with the locked inode.
pub open_file : ℕ → ℕ → Cmd Os ℕ
open_file ip omode = do
  type ← on_fs (load_inode ip (λ r. r.type))
  major ← on_fs (load_inode ip (λ r. r.major))
  if (type == t_device) && not (ltb major ndev) then open_fails ip else (do
    f ← filealloc
    if f == 0 then open_fails ip else (do
      got ← fdalloc f
      elim got [
        | none ↦ (do fileclose f; open_fails ip)
        | some fd ↦ (do
          edit_file f (opened ip type major omode)
          (if has_bit omode o_trunc && (type == t_file) then on_fs (itrunc ip) else pure tt)
          on_fs (iunlock ip)
          ends fd)
      ]))

unfoldable pub sys_open : Cmd Os ℕ
unfolding open_inode open_file
sys_open = do
  omode ← argint 1
  arg ← argstr 0 maxpath
  elim arg [
    | none ↦ pure minus_one64
    | some path ↦ (do
      begin_fs
      ip ← open_inode path omode
      if ip == 0 then ends minus_one64 else open_file ip omode)
  ]

abbrev pub pipe_end : ℕ → Bool → File → File
pipe_end pi writes r = record r {
  type = fd_pipe;
  readable = not writes;
  writable = writes;
  pipe = pi;
}

-- The files of the two ends of a new pipe.
unfoldable pub pipealloc : Cmd Os (Option (ℕ × ℕ))
pipealloc = do
  f0 ← filealloc
  if f0 == 0 then pure none else (do
    f1 ← filealloc
    if f1 == 0 then (do fileclose f0; pure none) else (do
      pi ← on_kernel (on_memory kalloc)
      if pi == 0 then (do fileclose f0; fileclose f1; pure none) else (do
        on_pipes (init_pipe pi)
        edit_file f0 (pipe_end pi false)
        edit_file f1 (pipe_end pi true)
        pure (some (f0, f1)))))

-- A descriptor is given up again.
abbrev pub clear_fd : ℕ → Cmd Os (Unit {0})
clear_fd fd = edit_proc (λ r. record r { ofile = update r.ofile fd 0 })

abbrev pub close_both : ℕ → ℕ → Cmd Os ℕ
close_both rf wf = do fileclose rf; fileclose wf; pure minus_one64

-- sys_pipe with its two descriptors: they are copied to the caller.
pub tell_fds : ℕ → ℕ → ℕ → Cmd Os Bool
tell_fds fdarray fd0 fd1 = do
  pt ← pagetable
  first ← on_kernel (on_memory (copyout pt fdarray (int_bytes fd0)))
  elim first [
    | failure ↦ pure false
    | success ↦ (do
      second ← on_kernel (on_memory (copyout pt (add64 fdarray 4) (int_bytes fd1)))
      pure (elim second [ success ↦ true | failure ↦ false ]))
  ]

unfoldable pub sys_pipe : Cmd Os ℕ
unfolding tell_fds
sys_pipe = do
  fdarray ← argaddr 0
  ends2 ← pipealloc
  elim ends2 [
    | none ↦ pure minus_one64
    | some (rf, wf) ↦ (do
      got0 ← fdalloc rf
      elim got0 [
        | none ↦ close_both rf wf
        | some fd0 ↦ (do
          got1 ← fdalloc wf
          elim got1 [
            | none ↦ (do clear_fd fd0; close_both rf wf)
            | some fd1 ↦ (do
              told ← tell_fds fdarray fd0 fd1
              if told then pure 0 else (do clear_fd fd0; clear_fd fd1; close_both rf wf))
          ])
      ])
  ]
