-- ===== src/Ftable.antt =====
-- xv6-riscv/kernel/file.c: open files. ftable.lock is held over straight-line code, so what it
-- guards is one step. `devsw` is the table of the drivers' read and write functions.
use csse332_final_project.Base.{
  ℕ, zero, suc, ◌+◌, ◌-◌, ◌*◌, ◌/◌, ◌%◌, ◌^◌, Bool, true, false, not, Option, none, some, List, [],
  ◌∷◌, ◌++◌, if◌then◌else◌, ltb, ◌==◌, update, min, inc32, dec32, pos32,
}
use csse332_final_project.Run.{Cmd, ok, fault, out_of_fuel, pure, fails, ◌>>=◌, ◌>>◌}
use csse332_final_project.Memory.{add64}
use csse332_final_project.Vm.{success, failure}
use csse332_final_project.Copy.{copyout}
use csse332_final_project.Kernel.{on_memory, minus_one32}
use csse332_final_project.Life.{int_bytes}
use csse332_final_project.Log.{maxopblocks}
use csse332_final_project.Blocks.{bsize}
use csse332_final_project.Inodes.{ilock, iunlock, iput}
use csse332_final_project.Content.{Target, Source, Stat, readi, writei, stati}
use csse332_final_project.Pipe.{Moved, answers, int_rounds, pipeclose, pipewrite, piperead}
use csse332_final_project.Os.{
  FileType, fd_none, fd_pipe, fd_inode, fd_device, File, Os, on_kernel, on_fs, on_pipes, begin_fs,
  end_fs, pagetable,
}

abbrev pub nfile : ℕ
nfile = 100

abbrev pub ndev : ℕ
ndev = 10

pub record Device : Type 0 where
  pub read : Option (ℕ → ℕ → Cmd Os Moved)
  pub write : Option (ℕ → ℕ → Cmd Os Moved)

abbrev pub load_file : {A : Type 0} → ℕ → (File → A) → Cmd Os A
load_file f field s = if f == 0 then fault else ok (field (s.file f)) s

abbrev pub edit_file : ℕ → (File → File) → Cmd Os (Unit {0})
edit_file f g s =
    if f == 0 then fault else ok tt (record s { file = update s.file f (g (s.file f)) })

-- The scan of filealloc over the `n` entries from `f` on: the first free one, or 0.
pub free_file : ℕ → ℕ → (ℕ → File) → ℕ
free_file zero f table = 0
free_file (suc n) f table =
    let rest = free_file n (f + 1) table in if (table f).ref == 0 then f else rest

unfoldable pub filealloc : Cmd Os ℕ
unfolding free_file
filealloc s =
    let f = free_file nfile 1 s.file in
    if f == 0 then ok 0 s else (do edit_file f (λ r. record r { ref = 1 }); pure f) s

unfoldable pub filedup : ℕ → Cmd Os ℕ
filedup f = do
  ref ← load_file f (λ r. r.ref)
  if not (pos32 ref) then fails else (do edit_file f (λ r. record r { ref = inc32 r.ref }); pure f)

-- What is left to do for a file that nobody uses any more.
pub close_last : File → Cmd Os (Unit {0})
close_last ff = elim ff.type [
  | fd_pipe ↦ on_pipes (pipeclose ff.pipe ff.writable)
  | fd_inode ↦ (do begin_fs; on_fs (iput ff.ip); end_fs)
  | fd_device ↦ (do begin_fs; on_fs (iput ff.ip); end_fs)
  | fd_none ↦ pure tt
]

unfoldable pub fileclose : ℕ → Cmd Os (Unit {0})
unfolding close_last
fileclose f = do
  ref ← load_file f (λ r. r.ref)
  if not (pos32 ref) then fails else (do
    edit_file f (λ r. record r { ref = dec32 r.ref })
    ff ← load_file f (λ r. r)
    if pos32 ff.ref
        then pure tt
        else (do edit_file f (λ r. record r { ref = 0; type = fd_none }); close_last ff))

abbrev pub is_stored : FileType → Bool
is_stored fd_inode = true
is_stored fd_device = true
is_stored _ = false

-- The bytes of a struct stat, for the device 1. `pad` is what stands in the four bytes before the
-- size, which the code does not set.
abbrev pub stat_bytes : List ℕ → Stat → List ℕ
stat_bytes pad st =
    int_bytes 1
    ++ int_bytes st.ino
    ++ (st.type % 256 ∷ st.type / 256 % 256 ∷ st.nlink % 256 ∷ st.nlink / 256 % 256 ∷ [])
    ++ pad
    ++ int_bytes st.size
    ++ int_bytes (st.size / 2 ^ 32)

unfoldable pub filestat : List ℕ → ℕ → ℕ → Cmd Os ℕ
filestat pad f addr = do
  r ← load_file f (λ r. r)
  if is_stored r.type
      then (do
        on_fs (ilock r.ip)
        st ← on_fs (stati r.ip)
        on_fs (iunlock r.ip)
        pt ← pagetable
        copied ← on_kernel (on_memory (copyout pt addr (stat_bytes pad st)))
        pure (elim copied [ success ↦ 0 | failure ↦ minus_one32 ]))
      else pure minus_one32

-- The most bytes that filewrite writes in one transaction.
abbrev pub write_max : ℕ
write_max = (maxopblocks - 1 - 1 - 2) / 2 * bsize

module _ (devsw : ℕ → Device) where
  -- The read or write function of a device file's driver; a negative major is at least 2^15.
  abbrev pub driver : (Device → Option (ℕ → ℕ → Cmd Os Moved)) → ℕ → Option (ℕ → ℕ → Cmd Os Moved)
  driver op major = if ltb major ndev then op (devsw major) else none

  abbrev pub call_driver : Option (ℕ → ℕ → Cmd Os Moved) → ℕ → ℕ → Cmd Os Moved
  call_driver none addr n = pure (answers minus_one32)
  call_driver (some op) addr n = op addr n

  unfoldable pub fileread : ℕ → ℕ → ℕ → Cmd Os Moved
  fileread f addr n = do
    r ← load_file f (λ r. r)
    if not r.readable then pure (answers minus_one32) else elim r.type [
      | fd_pipe ↦ on_pipes (piperead r.pipe addr n)
      | fd_device ↦ call_driver (driver (λ d. d.read) r.major) addr n
      | fd_inode ↦ (do
        on_fs (ilock r.ip)
        pt ← pagetable
        (got, _) ← on_fs (readi r.ip (Target.user pt addr) r.off n)
        (if pos32 got
            then edit_file f (λ r. record r { off = (r.off + got) % 2 ^ 32 })
            else pure tt)
        on_fs (iunlock r.ip)
        pure (answers got))
      | fd_none ↦ fails
    ]

  -- One transaction of filewrite: how many bytes writei has written, or -1.
  pub write_chunk : ℕ → ℕ → ℕ → Cmd Os ℕ
  write_chunk f addr n1 = do
    begin_fs
    ip ← load_file f (λ r. r.ip)
    on_fs (ilock ip)
    pt ← pagetable
    off ← load_file f (λ r. r.off)
    r ← on_fs (writei ip (Source.user pt addr) off n1)
    (if pos32 r then edit_file f (λ x. record x { off = (x.off + r) % 2 ^ 32 }) else pure tt)
    on_fs (iunlock ip)
    end_fs
    pure r

  -- The loop of filewrite with `k` rounds left, of which each writes a byte at least: how many of
  -- the n bytes have been written.
  pub chunks_from : ℕ → ℕ → ℕ → ℕ → ℕ → Cmd Os ℕ
  unfolding write_chunk
  chunks_from zero f addr n i = if ltb i n then (λ _. out_of_fuel) else pure i
  chunks_from (suc k) f addr n i = elim (ltb i n) [
    | false ↦ pure i
    | true ↦ (do
      let n1 = min (n - i) write_max
      r ← write_chunk f (add64 addr i) n1
      elim (r == n1) [ false ↦ pure i | true ↦ chunks_from k f addr n (i + r) ])
  ]

  -- A negative n runs no round, and i == n then fails.
  unfoldable pub filewrite : ℕ → ℕ → ℕ → Cmd Os Moved
  unfolding chunks_from
  filewrite f addr n = do
    r ← load_file f (λ r. r)
    if not r.writable then pure (answers minus_one32) else elim r.type [
      | fd_pipe ↦ on_pipes (pipewrite r.pipe addr n)
      | fd_device ↦ call_driver (driver (λ d. d.write) r.major) addr n
      | fd_inode ↦ (do
        i ← chunks_from (int_rounds n) f addr (int_rounds n) 0
        pure (answers (if i == n then n else minus_one32)))
      | fd_none ↦ fails
    ]
