-- ===== src/Exec.antt =====
-- xv6-riscv/kernel/exec.c up to the program in memory. A string is the list of its bytes without the
-- null, and `argv` the strings before its null pointer.
pub mod Image
use csse332_final_project.Base.{
  ℕ, zero, suc, ◌+◌, ◌-◌, ◌*◌, ◌/◌, ◌%◌, ◌^◌, Bool, true, false, not, ◌&&◌, ◌||◌, Option, none,
  some, List, [], ◌∷◌, ◌++◌, length, take, drop, if◌then◌else◌, ltb, leb, ◌==◌, min,
}
use csse332_final_project.Run.{Cmd, ok, panic, fault, out_of_fuel, pure, fails, ◌>>=◌, ◌>>◌}
use csse332_final_project.Memory.{pgsize, add64, pg_round_up, store_bytes, fill_page}
use csse332_final_project.Kalloc.{kalloc, kfree}
use csse332_final_project.Vm.{Status, success, failure, pte_w, pte_x, walkaddr}
use csse332_final_project.Uvm.{uvmalloc, uvmclear}
use csse332_final_project.Copy.{copyout}
use csse332_final_project.Strings.{safestrcpy, strlen}
use csse332_final_project.Kernel.{on_memory, myproc, minus_one32, minus_one64, extend_sign}
use csse332_final_project.Proc.{proc_pagetable, proc_freepagetable}
use csse332_final_project.Fork.{tf_epc, tf_sp}
use csse332_final_project.Life.{int_bytes}
use csse332_final_project.Inodes.{ilock, iunlockput}
use csse332_final_project.Content.{Target, readi}
use csse332_final_project.Dirs.{namei}
use csse332_final_project.Os.{
  Os, on_kernel, on_fs, begin_fs, end_fs, of_proc, edit_proc, store_frame, from_bytes, fetchaddr,
  fetchstr, argaddr, argstr,
}
use csse332_final_project.Sysfile.{maxpath, ends}

abbrev pub maxarg : ℕ
maxarg = 32

abbrev pub elf_magic : ℕ
elf_magic = 0x464C_457F

abbrev pub elf_prog_load : ℕ
elf_prog_load = 1

-- sizeof(struct elfhdr) and sizeof(struct proghdr)
abbrev pub elfhdr_size : ℕ
elfhdr_size = 64

abbrev pub proghdr_size : ℕ
proghdr_size = 56

-- The little-endian number of `w` bytes at a byte of a header.
abbrev pub field_at : ℕ → ℕ → List ℕ → ℕ
field_at at w bytes = from_bytes (take w (drop at bytes))

-- struct elfhdr and struct proghdr, as far as exec reads them
pub record ElfHdr : Type 0 where
  pub magic : ℕ
  pub entry : ℕ
  pub phoff : ℕ
  pub phnum : ℕ

pub record ProgHdr : Type 0 where
  pub type : ℕ
  pub flags : ℕ
  pub off : ℕ
  pub vaddr : ℕ
  pub filesz : ℕ
  pub memsz : ℕ

pub to_elfhdr : List ℕ → ElfHdr
to_elfhdr bytes = record {
  magic = field_at 0 4 bytes;
  entry = field_at 24 8 bytes;
  phoff = field_at 32 8 bytes;
  phnum = field_at 56 2 bytes;
}

pub to_proghdr : List ℕ → ProgHdr
to_proghdr bytes = record {
  type = field_at 0 4 bytes;
  flags = field_at 4 4 bytes;
  off = field_at 8 8 bytes;
  vaddr = field_at 16 8 bytes;
  filesz = field_at 32 8 bytes;
  memsz = field_at 40 8 bytes;
}

pub flags2perm : ℕ → ℕ
flags2perm flags =
    (if (flags % 2) == 1 then pte_x else 0) + (if (flags / 2 % 2) == 1 then pte_w else 0)

-- The loop of loadseg with `k` rounds left. The uint i wraps around.
pub loadseg_from : ℕ → ℕ → ℕ → ℕ → ℕ → ℕ → ℕ → Cmd Os Status
loadseg_from zero pt va ip offset sz i = λ _. out_of_fuel
loadseg_from (suc k) pt va ip offset sz i = elim (ltb i sz) [
  | false ↦ pure success
  | true ↦ (do
    pa ← on_kernel (on_memory (walkaddr pt (add64 va i)))
    elim (pa == 0) [
      | true ↦ fails
      | false ↦ (do
        let n = min (sz - i) pgsize
        (got, bytes) ← on_fs (readi ip Target.kernel ((offset + i) % 2 ^ 32) n)
        on_kernel (on_memory (λ m. ok tt (store_bytes pa bytes m)))
        elim (got == n) [
          | false ↦ pure failure
          | true ↦ loadseg_from k pt va ip offset sz ((i + pgsize) % 2 ^ 32)
        ])
    ])
]

-- The offset and size are passed as uints.
unfoldable pub loadseg : ℕ → ℕ → ℕ → ℕ → ℕ → Cmd Os Status
unfolding loadseg_from
loadseg pt va ip offset sz =
    loadseg_from (sz % 2 ^ 32 / pgsize + 2) pt va ip (offset % 2 ^ 32) (sz % 2 ^ 32) 0

-- Whether a segment's sizes and address are refused.
abbrev pub bad_segment : ProgHdr → Bool
bad_segment ph =
    ltb ph.memsz ph.filesz
    || (ltb (add64 ph.vaddr ph.memsz) ph.vaddr || not ((ph.vaddr % pgsize) == 0))

-- Loading of one segment: whether it went well, and the size of the image then.
pub load_segment : ℕ → ℕ → ProgHdr → ℕ → Cmd Os (Bool × ℕ)
unfolding flags2perm loadseg
load_segment pt ip ph sz = if bad_segment ph then pure (false, sz) else (do
  sz1 ← on_kernel (on_memory (uvmalloc pt sz (add64 ph.vaddr ph.memsz) (flags2perm ph.flags)))
  if sz1 == 0 then pure (false, sz) else (do
    loaded ← loadseg pt ph.vaddr ip ph.off ph.filesz
    pure (elim loaded [ success ↦ (true, sz1) | failure ↦ (false, sz1) ])))

-- The loop over the `k` program headers from the offset on.
pub load_from : ℕ → ℕ → ℕ → ℕ → ℕ → Cmd Os (Bool × ℕ)
unfolding to_proghdr load_segment
load_from zero pt ip off sz = pure (true, sz)
load_from (suc k) pt ip off sz = do
  (got, bytes) ← on_fs (readi ip Target.kernel off proghdr_size)
  let ph = to_proghdr bytes
  elim (got == proghdr_size) [
    | false ↦ pure (false, sz)
    | true ↦ elim (ph.type == elf_prog_load) [
      | false ↦ load_from k pt ip ((off + proghdr_size) % 2 ^ 32) sz
      | true ↦ (do
        (loaded, sz1) ← load_segment pt ip ph sz
        elim loaded [
          | false ↦ pure (false, sz1)
          | true ↦ load_from k pt ip ((off + proghdr_size) % 2 ^ 32) sz1
        ])
    ]
  ]
