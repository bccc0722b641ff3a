-- ===== src/Content.antt =====
-- xv6-riscv/kernel/fs.c, the content of inodes: stati, readi and writei, with either_copyout and
-- either_copyin of proc.c. A kernel buffer is the list of its bytes.
use csse332_final_project.Base.{
  ℕ, zero, suc, ◌+◌, ◌-◌, ◌*◌, ◌/◌, ◌%◌, ◌^◌, true, false, ◌||◌, List, [], ◌∷◌, ◌++◌, take, drop,
  if◌then◌else◌, ltb, ◌==◌, update, min,
}
use csse332_final_project.Run.{Cmd, out_of_fuel, pure, put_back, ◌>>=◌, ◌>>◌}
use csse332_final_project.Memory.{Memory, add64}
use csse332_final_project.Vm.{Status, success, failure}
use csse332_final_project.Copy.{copyout, copyin}
use csse332_final_project.Kernel.{minus_one32}
use csse332_final_project.Buffers.{Block, bread, brelse, modify}
use csse332_final_project.Log.{log_write}
use csse332_final_project.Blocks.{bsize, Fs, on_log, on_buffers, contents}
use csse332_final_project.Inodes.{load_inode, edit_inode, bmap, iupdate}

abbrev pub maxfile : ℕ
maxfile = 12 + 256

abbrev pub on_memory : {A : Type 0} → Cmd Memory A → Cmd Fs A
on_memory c s = put_back (λ m. record s { memory = m }) (c s.memory)

-- Byte `i` of a block, of the little-endian word that holds it.
abbrev pub byte_of : Block → ℕ → ℕ
byte_of b i = b (i / 4) / 2 ^ (8 * (i % 4)) % 256

abbrev pub put_byte : ℕ → ℕ → Block → Block
put_byte i v b =
    update b (i / 4) (b (i / 4) - byte_of b i * 2 ^ (8 * (i % 4)) + v % 256 * 2 ^ (8 * (i % 4)))

-- `k` bytes of a block, from byte `i` on, and a store of bytes there.
pub get_bytes : ℕ → ℕ → Block → List ℕ
get_bytes zero i b = []
get_bytes (suc k) i b = byte_of b i ∷ get_bytes k (i + 1) b

pub put_bytes : List ℕ → ℕ → Block → Block
put_bytes [] i b = b
put_bytes (v ∷ vs) i b = put_bytes vs (i + 1) (put_byte i v b)

-- Where readi puts its bytes: a user address, in the page table of the process, or a buffer of the
-- kernel.
pub data Target : Type 0 where
  user : (pagetable va : ℕ) → Target
  kernel : Target

-- either_copyout of the bytes at `tot` of the transfer
abbrev pub either_copyout : Target → ℕ → List ℕ → Cmd Fs Status
either_copyout (user pt va) tot bytes = on_memory (copyout pt (add64 va tot) bytes)
either_copyout kernel tot bytes = pure success

-- The loop of readi with `f` rounds left: the count, or -1, and the bytes that were read.
pub read_from : ℕ → ℕ → Target → ℕ → ℕ → ℕ → List ℕ → Cmd Fs (ℕ × List ℕ)
unfolding get_bytes
read_from zero p to tot off n got = λ _. out_of_fuel
read_from (suc f) p to tot off n got = elim (ltb tot n) [
  | false ↦ pure (tot, got)
  | true ↦ (do
    addr ← bmap p (off / bsize)
    elim (addr == 0) [
      | true ↦ pure (tot, got)
      | false ↦ (do
        on_buffers (bread addr)
        block ← contents addr
        let m = min (n - tot) (bsize - off % bsize)
        let bytes = get_bytes m (off % bsize) block
        r ← either_copyout to tot bytes
        on_buffers (brelse addr)
        elim r [
          | failure ↦ pure (minus_one32, got)
          | success ↦ read_from f p to (tot + m) (off + m) n (got ++ bytes)
        ])
    ])
]

unfoldable pub readi : ℕ → Target → ℕ → ℕ → Cmd Fs (ℕ × List ℕ)
unfolding read_from
readi p to off n = do
  size ← load_inode p (λ r. r.size)
  let end = (off + n) % 2 ^ 32
  if ltb size off || ltb end off
      then pure (0, [])
      else (do let n' = if ltb size end then size - off else n; read_from (n' + 1) p to 0 off n' [])

-- Where writei takes its bytes.
pub data Source : Type 0 where
  user : (pagetable va : ℕ) → Source
  kernel : List ℕ → Source

-- either_copyin of `m` bytes at `tot` of the transfer: whether all could be read, and the bytes that
-- reach the buffer.
abbrev pub either_copyin : Source → ℕ → ℕ → Cmd Fs (Status × List ℕ)
either_copyin (kernel bytes) tot m = pure (success, take m (drop tot bytes))
either_copyin (user pt va) tot m = on_memory (copyin pt (add64 va tot) m)

-- The loop of writei with `f` rounds left: the count of bytes written, and where it ended.
pub write_from : ℕ → ℕ → Source → ℕ → ℕ → ℕ → Cmd Fs (ℕ × ℕ)
unfolding put_bytes
write_from zero p from tot off n = λ _. out_of_fuel
write_from (suc f) p from tot off n = elim (ltb tot n) [
  | false ↦ pure (tot, off)
  | true ↦ (do
    addr ← bmap p (off / bsize)
    elim (addr == 0) [
      | true ↦ pure (tot, off)
      | false ↦ (do
        on_buffers (bread addr)
        let m = min (n - tot) (bsize - off % bsize)
        (r, bytes) ← either_copyin from tot m
        on_buffers (modify addr (put_bytes bytes (off % bsize)))
        elim r [
          | failure ↦ (do on_buffers (brelse addr); pure (tot, off))
          | success ↦ (do
            on_log (log_write addr)
            on_buffers (brelse addr)
            write_from f p from (tot + m) (off + m) n)
        ])
    ])
]

unfoldable pub writei : ℕ → Source → ℕ → ℕ → Cmd Fs ℕ
unfolding write_from
writei p from off n = do
  size ← load_inode p (λ r. r.size)
  let end = (off + n) % 2 ^ 32
  if ltb size off || ltb end off
      then pure minus_one32
      else if ltb (maxfile * bsize) end
      then pure minus_one32
      else (do
        (tot, off') ← write_from (n + 1) p from 0 off n
        (if ltb size off' then edit_inode p (λ r. record r { size = off' }) else pure tt)
        iupdate p
        pure tot)

-- struct stat
pub record Stat : Type 0 where
  pub ino : ℕ
  pub type : ℕ
  pub nlink : ℕ
  pub size : ℕ

unfoldable pub stati : ℕ → Cmd Fs Stat
stati p = load_inode p (λ r. record { ino = r.inum; type = r.type; nlink = r.nlink; size = r.size })
