-- ===== src/Sysfile/Names.antt =====
-- sysfile.c: the calls that make and remove names.
use csse332_final_project.Base.{
  ℕ, zero, suc, ◌+◌, ◌*◌, ◌/◌, ◌%◌, ◌^◌, Bool, true, false, not, ◌&&◌, ◌||◌, Option, none, some,
  List, [], ◌∷◌, if◌then◌else◌, ltb, ◌==◌,
}
use csse332_final_project.Run.{Cmd, out_of_fuel, pure, fails, ◌>>=◌, ◌>>◌}
use csse332_final_project.Vm.{success, failure}
use csse332_final_project.Kernel.{minus_one64}
use csse332_final_project.Blocks.{Fs}
use csse332_final_project.Inodes.{
  load_inode, edit_inode, ialloc, iupdate, ilock, iunlock, iput, iunlockput,
}
use csse332_final_project.Content.{Source, writei}
use csse332_final_project.Dirs.{
  t_dir, dirent_size, dirent_inum, namecmp, read_dirent, dirlookup, dirlink, namei, nameiparent,
}
use csse332_final_project.Os.{Os, on_fs, begin_fs, end_fs, of_proc, edit_proc, argint, argstr}
use csse332_final_project.Sysfile.{
  maxpath, t_file, t_device, ends, count_links, inc16, dec16, with_nlink,
}

abbrev pub dot : List ℕ
dot = b'.' ∷ []

abbrev pub dot_dot : List ℕ
dot_dot = b'.' ∷ b'.' ∷ []

abbrev pub zero_dirent : List ℕ
zero_dirent = 0 ∷ 0 ∷ 0 ∷ 0 ∷ 0 ∷ 0 ∷ 0 ∷ 0 ∷ 0 ∷ 0 ∷ 0 ∷ 0 ∷ 0 ∷ 0 ∷ 0 ∷ 0 ∷ []

-- The loop of isdirempty with `f` rounds left.
pub no_entry_from : ℕ → ℕ → ℕ → Cmd Fs Bool
no_entry_from zero dp off = λ _. out_of_fuel
no_entry_from (suc f) dp off = do
  size ← load_inode dp (λ r. r.size)
  elim (ltb off size) [
    | false ↦ pure true
    | true ↦ (do
      de ← read_dirent dp off
      elim (dirent_inum de == 0) [
        | false ↦ pure false
        | true ↦ no_entry_from f dp (off + dirent_size)
      ])
  ]

unfoldable pub isdirempty : ℕ → Cmd Fs Bool
unfolding no_entry_from
isdirempty dp = do
  size ← load_inode dp (λ r. r.size)
  no_entry_from (size / dirent_size + 2) dp (2 * dirent_size)

-- The label bad of sys_unlink.
abbrev pub unlink_bad : ℕ → Cmd Os ℕ
unlink_bad dp = do on_fs (iunlockput dp); ends minus_one64

-- sys_unlink from the test of the name's last element on, with `dp` locked.
pub unlink_name : ℕ → List ℕ → Cmd Os ℕ
unfolding isdirempty
unlink_name dp name =
    if (namecmp name dot == 0) || (namecmp name dot_dot == 0) then unlink_bad dp else (do
      (ip, off) ← on_fs (dirlookup dp name)
      if ip == 0 then unlink_bad dp else (do
        on_fs (ilock ip)
        nlink ← on_fs (load_inode ip (λ r. r.nlink))
        type ← on_fs (load_inode ip (λ r. r.type))
        if (nlink == 0) || not (ltb nlink (2 ^ 15)) then fails else (do
          blocked ←
              if type == t_dir then (do e ← on_fs (isdirempty ip); pure (not e)) else pure false
          if blocked then (do on_fs (iunlockput ip); unlink_bad dp) else (do
            n ← on_fs (writei dp (Source.kernel zero_dirent) off dirent_size)
            if not (n == dirent_size) then fails else (do
              (if type == t_dir then count_links dp dec16 else pure tt)
              on_fs (iunlockput dp)
              count_links ip dec16
              on_fs (iunlockput ip)
              ends 0)))))

unfoldable pub sys_unlink : Cmd Os ℕ
unfolding unlink_name
sys_unlink = do
  arg ← argstr 0 maxpath
  elim arg [
    | none ↦ pure minus_one64
    | some path ↦ (do
      begin_fs
      cwd ← of_proc (λ r. r.cwd)
      (dp, name) ← on_fs (nameiparent cwd path)
      if dp == 0 then ends minus_one64 else (do on_fs (ilock dp); unlink_name dp name))
  ]

-- What create does when its name is there already: `ip` is the inode, or 0 is returned.
abbrev pub create_found : ℕ → ℕ → ℕ → Cmd Fs ℕ
create_found dp ip type = do
  iunlockput dp
  ilock ip
  found ← load_inode ip (λ r. r.type)
  if (type == t_file) && ((found == t_file) || (found == t_device))
      then pure ip
      else (do iunlockput ip; pure 0)

-- Whether dirlink has succeeded.
abbrev pub links : ℕ → List ℕ → ℕ → Cmd Fs Bool
links dp name inum = do r ← dirlink dp name inum; pure (elim r [ success ↦ true | failure ↦ false ])

-- The entries of a new inode: . and .. in it if it is a directory, and its own name in `dp`.
pub create_entries : ℕ → ℕ → List ℕ → ℕ → Cmd Fs Bool
create_entries dp ip name type = do
  inum ← load_inode ip (λ r. r.inum)
  parent ← load_inode dp (λ r. r.inum)
  inner ←
      if type == t_dir
      then (do here ← links ip dot inum; if here then links ip dot_dot parent else pure false)
      else pure true
  if inner then links dp name inum else pure false

-- create with a new inode `ip`.
pub create_new : ℕ → ℕ → List ℕ → ℕ → ℕ → ℕ → Cmd Fs ℕ
unfolding create_entries
create_new dp ip name type major minor = do
  ilock ip
  edit_inode ip (λ r. record r { major = major; minor = minor; nlink = 1 })
  iupdate ip
  linked ← create_entries dp ip name type
  if linked
      then (do
        (if type == t_dir then (do edit_inode dp (with_nlink inc16); iupdate dp) else pure tt)
        iunlockput dp
        pure ip)
      else (do
        edit_inode ip (with_nlink (λ _. 0))
        iupdate ip
        iunlockput ip
        iunlockput dp
        pure 0)

-- A locked inode for the path, or 0. `cwd` is the process's working directory.
unfoldable pub create : ℕ → List ℕ → ℕ → ℕ → ℕ → Cmd Fs ℕ
unfolding create_new
create cwd path type major minor = do
  (dp, name) ← nameiparent cwd path
  if dp == 0 then pure 0 else (do
    ilock dp
    (ip, _) ← dirlookup dp name
    if not (ip == 0) then create_found dp ip type else (do
      new ← ialloc type
      if new == 0 then (do iunlockput dp; pure 0) else create_new dp new name type major minor))

-- What mkdir and mknod do with the inode that create has returned.
abbrev pub finish_create : ℕ → Cmd Os ℕ
finish_create ip = if ip == 0 then ends minus_one64 else (do on_fs (iunlockput ip); ends 0)

abbrev pub create_path : Option (List ℕ) → ℕ → ℕ → ℕ → Cmd Os ℕ
create_path none type major minor = pure 0
create_path (some path) type major minor = do
  cwd ← of_proc (λ r. r.cwd)
  on_fs (create cwd path type major minor)

unfoldable pub sys_mkdir : Cmd Os ℕ
unfolding create
sys_mkdir = do begin_fs; path ← argstr 0 maxpath; ip ← create_path path t_dir 0 0; finish_create ip

-- The ints major and minor are passed as shorts.
unfoldable pub sys_mknod : Cmd Os ℕ
unfolding create
sys_mknod = do
  begin_fs
  major ← argint 1
  minor ← argint 2
  path ← argstr 0 maxpath
  ip ← create_path path t_device (major % 2 ^ 16) (minor % 2 ^ 16)
  finish_create ip

unfoldable pub sys_chdir : Cmd Os ℕ
sys_chdir = do
  begin_fs
  path ← argstr 0 maxpath
  cwd ← of_proc (λ r. r.cwd)
  ip ← elim path [ none ↦ pure 0 | some p ↦ on_fs (namei cwd p) ]
  if ip == 0 then ends minus_one64 else (do
    on_fs (ilock ip)
    type ← on_fs (load_inode ip (λ r. r.type))
    if not (type == t_dir) then (do on_fs (iunlockput ip); ends minus_one64) else (do
      on_fs (iunlock ip)
      old ← of_proc (λ r. r.cwd)
      on_fs (iput old)
      end_fs
      edit_proc (λ r. record r { cwd = ip })
      pure 0))
