-- ===== src/Dirs.antt =====
-- xv6-riscv/kernel/fs.c, directories and paths. A directory is a file of 16-byte entries: an inode
-- number of two bytes, and a name of DIRSIZ bytes. A path is its bytes before the null.
pub mod Paths
use csse332_final_project.Base.{
  ℕ, zero, suc, ◌+◌, ◌*◌, ◌/◌, ◌%◌, ◌^◌, Bool, true, false, not, ◌&&◌, ◌||◌, Option, none, some,
  List, [], ◌∷◌, ◌++◌, length, take, drop, get_or, if◌then◌else◌, ltb, ◌==◌,
}
use csse332_final_project.Run.{Cmd, ok, panic, out_of_fuel, pure, fails, ◌>>=◌, ◌>>◌}
use csse332_final_project.Vm.{Status, success, failure}
use csse332_final_project.Strings.{strncmp, strncpy}
use csse332_final_project.Blocks.{Fs}
use csse332_final_project.Inodes.{load_inode, iget, idup, iput, ilock, iunlock, iunlockput}
use csse332_final_project.Content.{Target, Source, readi, writei}

abbrev pub dirsiz : ℕ
dirsiz = 14

abbrev pub dirent_size : ℕ
dirent_size = 16

abbrev pub t_dir : ℕ
t_dir = 1

abbrev pub rootino : ℕ
rootino = 1

-- The fields of a struct dirent.
abbrev pub dirent_inum : List ℕ → ℕ
dirent_inum de = get_or de 0 0 + get_or de 1 0 * 256

abbrev pub dirent_name : List ℕ → List ℕ
dirent_name de = drop 2 de

unfoldable pub namecmp : List ℕ → List ℕ → ℕ
namecmp s t = strncmp dirsiz s t

-- One entry of a directory, for dirlookup and dirlink.
pub read_dirent : ℕ → ℕ → Cmd Fs (List ℕ)
read_dirent dp off = do
  (n, de) ← readi dp Target.kernel off dirent_size
  if n == dirent_size then pure de else fails

-- The loop of dirlookup with `f` rounds left: the inode and the offset of its entry, or 0.
pub lookup_from : ℕ → ℕ → List ℕ → ℕ → Cmd Fs (ℕ × ℕ)
unfolding read_dirent
lookup_from zero dp name off = λ _. out_of_fuel
lookup_from (suc f) dp name off = do
  size ← load_inode dp (λ r. r.size)
  elim (ltb off size) [
    | false ↦ pure (0, 0)
    | true ↦ (do
      de ← read_dirent dp off
      elim (not (dirent_inum de == 0) && (namecmp name (dirent_name de) == 0)) [
        | true ↦ (do ip ← iget (dirent_inum de); pure (ip, off))
        | false ↦ lookup_from f dp name (off + dirent_size)
      ])
  ]

-- The entries of a directory of any size below 2^32 are fewer than its bytes.
unfoldable pub dirlookup : ℕ → List ℕ → Cmd Fs (ℕ × ℕ)
unfolding lookup_from
dirlookup dp name = do
  type ← load_inode dp (λ r. r.type)
  size ← load_inode dp (λ r. r.size)
  if not (type == t_dir) then fails else lookup_from (size / dirent_size + 2) dp name 0

-- The loop of dirlink: the offset of the first empty entry, or the size.
pub empty_from : ℕ → ℕ → ℕ → Cmd Fs ℕ
unfolding read_dirent
empty_from zero dp off = λ _. out_of_fuel
empty_from (suc f) dp off = do
  size ← load_inode dp (λ r. r.size)
  elim (ltb off size) [
    | false ↦ pure off
    | true ↦ (do
      de ← read_dirent dp off
      elim (dirent_inum de == 0) [ true ↦ pure off | false ↦ empty_from f dp (off + dirent_size) ])
  ]

unfoldable pub dirlink : ℕ → List ℕ → ℕ → Cmd Fs Status
unfolding dirlookup empty_from
dirlink dp name inum = do
  (ip, _) ← dirlookup dp name
  if not (ip == 0) then (do iput ip; pure failure) else (do
    size ← load_inode dp (λ r. r.size)
    off ← empty_from (size / dirent_size + 2) dp 0
    let de = inum % 256 ∷ inum / 256 % 256 ∷ strncpy dirsiz name
    n ← writei dp (Source.kernel de) off dirent_size
    pure (if n == dirent_size then success else failure))

abbrev pub slash : ℕ
slash = b'/'

pub skip_slashes : List ℕ → List ℕ
skip_slashes [] = []
skip_slashes (c ∷ cs) = let rest = skip_slashes cs in if c == slash then rest else c ∷ cs

-- The bytes before the next slash, and what follows them.
pub element : List ℕ → List ℕ
element [] = []
element (c ∷ cs) = let rest = element cs in if c == slash then [] else c ∷ rest

pub after_element : List ℕ → List ℕ
after_element [] = []
after_element (c ∷ cs) = let rest = after_element cs in if c == slash then c ∷ cs else rest

-- The next element, cut to DIRSIZ bytes, and the path behind it.
unfoldable pub skipelem : List ℕ → Option (List ℕ × List ℕ)
unfolding skip_slashes element after_element
skipelem path = elim (skip_slashes path) [
  | [] ↦ none
  | c ∷ cs ↦ some (take dirsiz (element (c ∷ cs)), skip_slashes (after_element (c ∷ cs)))
]

abbrev pub is_end : List ℕ → Bool
is_end [] = true
is_end (c ∷ cs) = false

-- The loop of namex with `f` rounds left: the inode, or 0, and the last element looked at.
pub namex_from : ℕ → ℕ → Bool → List ℕ → List ℕ → Cmd Fs (ℕ × List ℕ)
unfolding skipelem
namex_from zero ip parent path name = λ _. out_of_fuel
namex_from (suc f) ip parent path name = elim (skipelem path) [
  | none ↦ if parent then (do iput ip; pure (0, name)) else pure (ip, name)
  | some (elem, rest) ↦ (do
    ilock ip
    type ← load_inode ip (λ r. r.type)
    elim (type == t_dir) [
      | false ↦ (do iunlockput ip; pure (0, elem))
      | true ↦ elim (parent && is_end rest) [
        | true ↦ (do iunlock ip; pure (ip, elem))
        | false ↦ (do
          (next, _) ← dirlookup ip elem
          iunlockput ip
          elim (next == 0) [ true ↦ pure (0, elem) | false ↦ namex_from f next parent rest elem ])
      ]
    ])
]

-- `cwd` is the inode of the process's working directory.
unfoldable pub namex : ℕ → List ℕ → Bool → Cmd Fs (ℕ × List ℕ)
unfolding namex_from
namex cwd path parent = do
  ip ← if (not (is_end path)) && (get_or path 0 0 == slash) then iget rootino else idup cwd
  namex_from (length path + 1) ip parent path []

unfoldable pub namei : ℕ → List ℕ → Cmd Fs ℕ
namei cwd path = do (ip, _) ← namex cwd path false; pure ip

unfoldable pub nameiparent : ℕ → List ℕ → Cmd Fs (ℕ × List ℕ)
nameiparent cwd path = namex cwd path true
