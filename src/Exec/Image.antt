-- ===== src/Exec/Image.antt =====
-- exec.c: the stack of the new program, and exec; with sys_exec of sysfile.c.
pub mod Stack
use csse332_final_project.Base.{
  ℕ, zero, suc, ◌+◌, ◌-◌, ◌*◌, ◌/◌, ◌%◌, ◌^◌, Bool, true, false, not, ◌||◌, Option, none, some,
  List, [], ◌∷◌, ◌++◌, length, take, if◌then◌else◌, ltb, leb, ◌==◌,
}
use csse332_final_project.Run.{Cmd, ok, pure, ◌>>=◌, ◌>>◌}
use csse332_final_project.Memory.{pgsize, add64, pg_round_up, store_bytes}
use csse332_final_project.Kalloc.{kalloc, kfree}
use csse332_final_project.Vm.{success, failure, pte_w}
use csse332_final_project.Uvm.{uvmalloc, uvmclear}
use csse332_final_project.Copy.{copyout}
use csse332_final_project.Strings.{safestrcpy, strlen}
use csse332_final_project.Kernel.{on_memory, myproc, minus_one32, minus_one64, extend_sign}
use csse332_final_project.Proc.{proc_pagetable, proc_freepagetable}
use csse332_final_project.Fork.{tf_epc, tf_sp}
use csse332_final_project.Life.{int_bytes}
use csse332_final_project.Inodes.{ilock, iunlockput}
use csse332_final_project.Content.{Target, readi}
use csse332_final_project.Dirs.{namei}
use csse332_final_project.Os.{
  Os, on_kernel, on_fs, begin_fs, end_fs, of_proc, edit_proc, store_frame, fetchaddr, fetchstr,
  argaddr, argstr,
}
use csse332_final_project.Sysfile.{maxpath, ends}
use csse332_final_project.Exec.{maxarg, elf_magic, elfhdr_size, to_elfhdr, load_from}

-- The bytes of a uint64.
abbrev pub word_bytes : ℕ → List ℕ
word_bytes w = int_bytes w ++ int_bytes (w / 2 ^ 32)

abbrev pub words_bytes : List ℕ → List ℕ
words_bytes [] = []
words_bytes (w ∷ ws) = word_bytes w ++ words_bytes ws

-- The stack pointer when `n` bytes have been pushed below it, and aligned.
pub push_down : ℕ → ℕ → ℕ
push_down sp n = let low = (sp + 2 ^ 64 - n) % 2 ^ 64 in low - low % 16

-- The loop that pushes the argument strings: the stack pointer and the array ustack, without its
-- null, or none at the label bad.
pub push_args : List (List ℕ) → ℕ → ℕ → ℕ → ℕ → List ℕ → Cmd Os (Option (ℕ × List ℕ))
unfolding push_down
push_args [] pt stackbase argc sp ustack = pure (some (sp, ustack))
push_args (s ∷ argv) pt stackbase argc sp ustack =
    let sp1 = push_down sp (strlen s + 1) in
    if leb maxarg argc || ltb sp1 stackbase then pure none else (do
      copied ← on_kernel (on_memory (copyout pt sp1 (take (strlen s) s ++ 0 ∷ [])))
      elim copied [
        | failure ↦ pure none
        | success ↦ push_args argv pt stackbase (argc + 1) sp1 (ustack ++ sp1 ∷ [])
      ])

-- The array of the pointers, below the strings.
pub push_argv : ℕ → ℕ → ℕ → List ℕ → Cmd Os (Option ℕ)
unfolding push_down
push_argv pt stackbase sp ustack =
    let sp1 = push_down sp ((length ustack + 1) * 8) in
    if ltb sp1 stackbase then pure none else (do
      copied ← on_kernel (on_memory (copyout pt sp1 (words_bytes (ustack ++ 0 ∷ []))))
      pure (elim copied [ failure ↦ none | success ↦ some sp1 ]))

-- What follows the last slash of the path.
pub last_name : List ℕ → List ℕ → List ℕ
last_name last [] = last
last_name last (c ∷ s) = if c == b'/' then last_name s s else last_name last s

abbrev pub free_image : ℕ → ℕ → Cmd Os ℕ
free_image pt sz = do on_kernel (proc_freepagetable pt sz); pure minus_one32

-- exec from the commitment on: the count of the arguments is the answer.
pub commit_image : List ℕ → ℕ → ℕ → ℕ → ℕ → ℕ → ℕ → Cmd Os ℕ
unfolding last_name
commit_image path pt sz entry sp oldsz argc = do
  store_frame 120 sp
  old ← of_proc (λ r. r.pagetable)
  edit_proc (λ r. record r { name = safestrcpy 16 (last_name path path); pagetable = pt; sz = sz })
  store_frame tf_epc entry
  store_frame tf_sp sp
  on_kernel (proc_freepagetable old oldsz)
  pure argc

-- exec with the program in memory.
pub build_stack : List ℕ → List (List ℕ) → ℕ → ℕ → ℕ → Cmd Os ℕ
unfolding push_args push_argv commit_image
build_stack path argv pt entry sz0 = do
  oldsz ← of_proc (λ r. r.sz)
  let sz = pg_round_up sz0
  sz1 ← on_kernel (on_memory (uvmalloc pt sz (add64 sz (2 * pgsize)) pte_w))
  if sz1 == 0 then free_image pt sz else (do
    on_kernel (on_memory (uvmclear pt (sz1 - 2 * pgsize)))
    pushed ← push_args argv pt (sz1 - pgsize) 0 sz1 []
    elim pushed [
      | none ↦ free_image pt sz1
      | some (sp, ustack) ↦ (do
        done ← push_argv pt (sz1 - pgsize) sp ustack
        elim done [
          | none ↦ free_image pt sz1
          | some sp1 ↦ commit_image path pt sz1 entry sp1 oldsz (length ustack)
        ])
    ])

-- The label bad while the inode is locked.
abbrev pub exec_bad : ℕ → Cmd Os ℕ
exec_bad ip = do on_fs (iunlockput ip); ends minus_one32

unfoldable pub exec : List ℕ → List (List ℕ) → Cmd Os ℕ
unfolding to_elfhdr load_from build_stack
exec path argv = do
  begin_fs
  cwd ← of_proc (λ r. r.cwd)
  ip ← on_fs (namei cwd path)
  if ip == 0 then ends minus_one32 else (do
    on_fs (ilock ip)
    (got, bytes) ← on_fs (readi ip Target.kernel 0 elfhdr_size)
    let elf = to_elfhdr bytes
    if not (got == elfhdr_size) || not (elf.magic == elf_magic) then exec_bad ip else (do
      p ← on_kernel myproc
      pt ← on_kernel (proc_pagetable p)
      if pt == 0 then exec_bad ip else (do
        (loaded, sz) ← load_from elf.phnum pt ip (elf.phoff % 2 ^ 32) 0
        if not loaded
            then (do on_kernel (proc_freepagetable pt sz); exec_bad ip)
            else (do on_fs (iunlockput ip); end_fs; build_stack path argv pt elf.entry sz))))

-- The loop of sys_exec with `k` entries of argv left: whether the null was reached, and the pages with
-- the strings that were fetched.
pub fetch_args : ℕ → ℕ → List (ℕ × List ℕ) → Cmd Os (Bool × List (ℕ × List ℕ))
fetch_args zero uargv args = pure (false, args)
fetch_args (suc k) uargv args = do
  got ← fetchaddr uargv
  elim got [
    | none ↦ pure (false, args)
    | some uarg ↦ elim (uarg == 0) [
      | true ↦ pure (true, args)
      | false ↦ (do
        page ← on_kernel (on_memory kalloc)
        elim (page == 0) [
          | true ↦ pure (false, args)
          | false ↦ (do
            fetched ← fetchstr uarg pgsize
            elim fetched [
              | none ↦ pure (false, args ++ (page, []) ∷ [])
              | some arg ↦ (do
                on_kernel (on_memory (λ m. ok tt (store_bytes page (arg ++ 0 ∷ []) m)))
                fetch_args k (add64 uargv 8) (args ++ (page, arg) ∷ []))
            ])
        ])
    ]
  ]

pub free_args : List (ℕ × List ℕ) → Cmd Os (Unit {0})
free_args [] = pure tt
free_args ((page, _) ∷ args) = do on_kernel (on_memory (kfree page)); free_args args

abbrev pub strings : List (ℕ × List ℕ) → List (List ℕ)
strings [] = []
strings ((_, arg) ∷ args) = arg ∷ strings args

pub exec_args : List ℕ → ℕ → Cmd Os ℕ
unfolding fetch_args free_args
exec_args path uargv = do
  (whole, args) ← fetch_args maxarg uargv []
  if whole
      then (do ret ← exec path (strings args); free_args args; pure (extend_sign ret))
      else (do free_args args; pure minus_one64)

unfoldable pub sys_exec : Cmd Os ℕ
unfolding exec_args
sys_exec = do
  uargv ← argaddr 1
  path ← argstr 0 maxpath
  elim path [ none ↦ pure minus_one64 | some p ↦ exec_args p uargv ]
