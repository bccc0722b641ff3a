-- ===== src/Sysfile.antt =====
-- xv6-riscv/kernel/sysfile.c: the system calls on files, but for exec and pipe. `r ← ...; if r < 0`
-- of C is a case split on an Option or a Bool here, and goto bad a call of what stands there.
pub mod Names
pub mod Opens
pub mod Counts
pub mod Dup
pub mod Close
use csse332_final_project.Base.{
  ℕ, zero, suc, ◌+◌, ◌-◌, ◌*◌, ◌/◌, ◌%◌, ◌^◌, Bool, true, false, not, ◌&&◌, ◌||◌, Option, none,
  some, List, [], ◌∷◌, if◌then◌else◌, ltb, ◌==◌, update, inc32, dec32, pos32,
}
use csse332_final_project.Run.{Cmd, ok, panic, fault, out_of_fuel, pure, fails, ◌>>=◌, ◌>>◌}
use csse332_final_project.Vm.{Status, success, failure}
use csse332_final_project.Kernel.{nofile, extend_sign, minus_one32, minus_one64}
use csse332_final_project.Blocks.{Inode, Fs}
use csse332_final_project.Inodes.{
  load_inode, edit_inode, ialloc, iupdate, ilock, iunlock, iput, iunlockput, itrunc,
}
use csse332_final_project.Content.{Source, writei}
use csse332_final_project.Dirs.{
  t_dir, dirent_size, dirent_inum, namecmp, read_dirent, dirlookup, dirlink, namei, nameiparent,
}
use csse332_final_project.Pipe.{Moved, answers, sleeps}
use csse332_final_project.Os.{
  fd_inode, fd_device, Os, on_fs, begin_fs, end_fs, of_proc, edit_proc, argint, argaddr, argstr,
}
use csse332_final_project.Ftable.{
  Device, ndev, load_file, edit_file, filealloc, filedup, fileclose, filestat, fileread, filewrite,
}

abbrev pub maxpath : ℕ
maxpath = 128

abbrev pub t_file : ℕ
t_file = 2

abbrev pub t_device : ℕ
t_device = 3

-- The descriptor in argument n, and its file; none for -1.
unfoldable pub argfd : ℕ → Cmd Os (Option (ℕ × ℕ))
argfd n = do
  fd ← argint n
  if not (ltb fd nofile)
      then pure none
      else (do f ← of_proc (λ r. r.ofile fd); pure (if f == 0 then none else some (fd, f)))

-- The first free descriptor of `k`, from `fd` on.
pub free_fd : ℕ → ℕ → (ℕ → ℕ) → Option ℕ
free_fd zero fd ofile = none
free_fd (suc k) fd ofile =
    let rest = free_fd k (fd + 1) ofile in if ofile fd == 0 then some fd else rest

abbrev pub put_fd : ℕ → Option ℕ → Cmd Os (Option ℕ)
put_fd f none = pure none
put_fd f (some fd) = do edit_proc (λ r. record r { ofile = update r.ofile fd f }); pure (some fd)

unfoldable pub fdalloc : ℕ → Cmd Os (Option ℕ)
fdalloc f = do ofile ← of_proc (λ r. r.ofile); put_fd f (free_fd nofile 0 ofile)

abbrev pub dup_fd : ℕ → Option ℕ → Cmd Os ℕ
dup_fd f none = pure minus_one64
dup_fd f (some fd) = do filedup f; pure fd

abbrev pub dup_arg : Option (ℕ × ℕ) → Cmd Os ℕ
dup_arg none = pure minus_one64
dup_arg (some (_, f)) = do got ← fdalloc f; dup_fd f got

unfoldable pub sys_dup : Cmd Os ℕ
sys_dup = do arg ← argfd 0; dup_arg arg

abbrev pub close_arg : Option (ℕ × ℕ) → Cmd Os ℕ
close_arg none = pure minus_one64
close_arg (some (fd, f)) = do
  edit_proc (λ r. record r { ofile = update r.ofile fd 0 })
  fileclose f
  pure 0

unfoldable pub sys_close : Cmd Os ℕ
sys_close = do arg ← argfd 0; close_arg arg

unfoldable pub sys_fstat : List ℕ → Cmd Os ℕ
sys_fstat pad = do
  st ← argaddr 1
  arg ← argfd 0
  elim arg [
    | none ↦ pure minus_one64
    | some (_, f) ↦ (do r ← filestat pad f st; pure (extend_sign r))
  ]

-- (uint64) of the int that a read or a write answers.
abbrev pub widen : Moved → Moved
widen (answers r) = answers (extend_sign r)
widen (sleeps i) = sleeps i

module _ (devsw : ℕ → Device) where
  unfoldable pub sys_read : Cmd Os Moved
  sys_read = do
    p ← argaddr 1
    n ← argint 2
    arg ← argfd 0
    elim arg [
      | none ↦ pure (answers minus_one64)
      | some (_, f) ↦ (do r ← fileread devsw f p n; pure (widen r))
    ]

  unfoldable pub sys_write : Cmd Os Moved
  sys_write = do
    p ← argaddr 1
    n ← argint 2
    arg ← argfd 0
    elim arg [
      | none ↦ pure (answers minus_one64)
      | some (_, f) ↦ (do r ← filewrite devsw f p n; pure (widen r))
    ]

abbrev pub with_nlink : (ℕ → ℕ) → Inode → Inode
with_nlink f r = record r { nlink = f r.nlink }

-- The ends of the calls below: end_op(), and a value to return.
abbrev pub ends : {A : Type 0} → A → Cmd Os A
ends r = do end_fs; pure r

-- A change of the short nlink of an inode, which is written to disk.
abbrev pub count_links : ℕ → (ℕ → ℕ) → Cmd Os (Unit {0})
count_links ip f = on_fs (do edit_inode ip (with_nlink f); iupdate ip)

abbrev pub inc16 : ℕ → ℕ
inc16 n = (n + 1) % 2 ^ 16

abbrev pub dec16 : ℕ → ℕ
dec16 n = (n + 2 ^ 16 - 1) % 2 ^ 16

-- What stands at the label bad of sys_link.
pub link_bad : ℕ → Cmd Os ℕ
link_bad ip = do on_fs (ilock ip); count_links ip dec16; on_fs (iunlockput ip); ends minus_one64

-- sys_link with the two paths; there is one device.
pub link_paths : List ℕ → List ℕ → Cmd Os ℕ
unfolding link_bad
link_paths old new = do
  begin_fs
  cwd ← of_proc (λ r. r.cwd)
  ip ← on_fs (namei cwd old)
  if ip == 0 then ends minus_one64 else (do
    on_fs (ilock ip)
    type ← on_fs (load_inode ip (λ r. r.type))
    if type == t_dir then (do on_fs (iunlockput ip); ends minus_one64) else (do
      count_links ip inc16
      on_fs (iunlock ip)
      (dp, name) ← on_fs (nameiparent cwd new)
      if dp == 0 then link_bad ip else (do
        on_fs (ilock dp)
        inum ← on_fs (load_inode ip (λ r. r.inum))
        linked ← on_fs (dirlink dp name inum)
        on_fs (iunlockput dp)
        elim linked [ failure ↦ link_bad ip | success ↦ (do on_fs (iput ip); ends 0) ])))

unfoldable pub sys_link : Cmd Os ℕ
unfolding link_paths
sys_link = do
  old ← argstr 0 maxpath
  elim old [
    | none ↦ pure minus_one64
    | some old_path ↦ (do
      new ← argstr 1 maxpath
      elim new [ none ↦ pure minus_one64 | some new_path ↦ link_paths old_path new_path ])
  ]
