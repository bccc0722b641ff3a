-- ===== src/Sysfile/Counts.antt =====
-- The reference counts of open files, and the descriptors of a process.
use csse332_final_project.Base.{
  ℕ, zero, suc, ◌+◌, ◌*◌, ◌%◌, ◌^◌, ◌<◌, ◌≤◌, ◌≡◌, ◌≢◌, ◌⊎◌, refl, ap, subst, inl, inr, Bool-cases,
  true, not, Option, none, some, if◌then◌else◌, ltb, ◌==◌, arith, ==→eq, ==-ne, eq→==, ne→==,
  update,
}
use csse332_final_project.Run.{ok}
use csse332_final_project.Kernel.{nofile, Proc, with_procs}
use csse332_final_project.Os.{Os, argint, argraw}
use csse332_final_project.Sysfile.{argfd}

-- The descriptors of the running process.
abbrev pub descriptors : Os → ℕ → ℕ
descriptors s = (s.kernel.procs s.kernel.machine.proc).ofile

-- How many of the k descriptors from 0 on are f.
pub uses : ℕ → ℕ → (ℕ → ℕ) → ℕ
uses zero f ofile = 0
uses (suc k) f ofile = let rest = uses k f ofile in if ofile k == f then suc rest else rest

-- A process runs, with a trapframe.
pub record Runs (s : Os) : Type 0 where
  pub proc : s.kernel.machine.proc ≢ 0
  pub frame : (s.kernel.procs s.kernel.machine.proc).trapframe ≢ 0

-- The count of each file is that of the running process's descriptors for it and of the `others`.
pub record Counted (others : ℕ → ℕ) (s : Os) : Type 0 where
  pub counts : (f : ℕ) → f ≢ 0 → (s.file f).ref ≡ others f + uses nofile f (descriptors s)
  pub small : (f : ℕ) → others f + nofile + 1 < 2 ^ 31

-- Argument n of the call, as an int.
abbrev pub arg_int : ℕ → Os → ℕ
arg_int n s =
    s.kernel.memory.word ((s.kernel.procs s.kernel.machine.proc).trapframe + (112 + n * 8)) % 2 ^ 32

abbrev pub arg_file : ℕ → Os → Option (ℕ × ℕ)
arg_file n s =
    if not (ltb (arg_int n s) nofile)
    then none
    else if descriptors s (arg_int n s) == 0
    then none
    else some (arg_int n s, descriptors s (arg_int n s))

pub arg_file-cases :
    (n : ℕ) (s : Os)
    → (arg_file n s ≡ none)
      ⊎ ((arg_file n s ≡ some (arg_int n s, descriptors s (arg_int n s)))
          × (arg_int n s < nofile)
          × (descriptors s (arg_int n s) ≢ 0))
arg_file-cases n s = elim (Bool-cases (ltb (arg_int n s) nofile)) [
  | inr e ↦ inl (rw e refl)
  | inl e ↦ elim (Bool-cases (descriptors s (arg_int n s) == 0)) [
    | inl z ↦ inl (rw (e, z) refl)
    | inr nz ↦ inr (rw (e, nz) refl, ground arith, ==-ne _ 0 nz)
  ]
]

uses-above : (k fd f g : ℕ) (ofile : ℕ → ℕ) → k ≤ fd → uses k f (update ofile fd g) ≡ uses k f ofile
unfolding uses
uses-above zero fd f g ofile le = refl
uses-above (suc k) fd f g ofile le = ground (arith, uses-above k fd f g ofile)

pub uses-update :
    (k fd f g : ℕ) (ofile : ℕ → ℕ)
    → fd < k
    → uses k f (update ofile fd g) + (if ofile fd == f then 1 else 0)
      ≡ uses k f ofile + (if g == f then 1 else 0)
unfolding uses
uses-update zero fd f g ofile lt = absurd (omega arith)
uses-update (suc k) fd f g ofile lt = elim (Bool-cases (fd == k)) [
  | inl e ↦ ground (arith, uses-above k fd f g ofile)
  | inr ne ↦ ground (arith, uses-update k fd f g ofile)
]

uses-le : (k f : ℕ) (ofile : ℕ → ℕ) → uses k f ofile ≤ k
unfolding uses
uses-le zero f ofile = omega arith
uses-le (suc k) f ofile = ground (arith, uses-le k f ofile)

uses-some : (k fd : ℕ) (ofile : ℕ → ℕ) → fd < k → 0 < uses k (ofile fd) ofile
unfolding uses
uses-some zero fd ofile lt = absurd (omega arith)
uses-some (suc k) fd ofile lt = elim (Bool-cases (k == fd)) [
  | inl e ↦ ground (arith, ==→eq k fd e)
  | inr ne ↦ ground (arith, uses-some k fd ofile)
]

uses-none : (k f : ℕ) → f ≢ 0 → uses k f (λ _. 0) ≡ 0
unfolding uses
uses-none zero f nz = refl
uses-none (suc k) f nz = ground (arith, uses-none k f nz)

-- A process with one open descriptor.
pub uses-one :
    (fd f g : ℕ)
    → fd < nofile
    → f ≢ 0
    → uses nofile f (update (λ _. 0) fd g) ≡ (if g == f then 1 else 0)
uses-one fd f g lt nz =
    let one = uses-update nofile fd f g (λ _. 0) lt in
    let all = uses-none nofile f nz in ground arith

module _ (s : Os) (runs : Runs s) where
  pub argfd-ok : (n : ℕ) → n < 6 → argfd n s ≡ ok (arg_file n s) s
  unfolding argfd argint argraw
  argfd-ok n lt =
      let few : ltb n 6 ≡ true = ground arith in
      let p = s.kernel.machine.proc in
      let here = ne→== p 0 runs.proc in
      let there = ne→== (s.kernel.procs p).trapframe 0 runs.frame in
      rw (few, here, there)
        (elim (Bool-cases (ltb (arg_int n s) nofile)) [
          | inl e ↦ rw (e, here) refl
          | inr e ↦ rw e refl
        ])

-- The process's descriptor fd is f.
abbrev pub with_fd : ℕ → ℕ → Os → Os
with_fd fd f s =
    let p = s.kernel.machine.proc in
    record s {
      kernel =
          with_procs
            (update s.kernel.procs p
              (record (s.kernel.procs p) { ofile = update (s.kernel.procs p).ofile fd f }))
            s.kernel;
    }

abbrev pub with_ref : ℕ → (ℕ → ℕ) → Os → Os
with_ref f g s = record s { file = update s.file f (record (s.file f) { ref = g (s.file f).ref }) }

update-at : (procs : ℕ → Proc) (p : ℕ) (r : Proc) → update procs p r p ≡ r
update-at procs p r = rw (eq→== p p refl) refl

pub descriptors-with_fd :
    (fd f : ℕ) (s : Os) → descriptors (with_fd fd f s) ≡ update (descriptors s) fd f
descriptors-with_fd fd f s = ap (λ r. r.ofile) (update-at s.kernel.procs s.kernel.machine.proc _)

module _ (others : ℕ → ℕ) (s : Os) (runs : Runs s) (counted : Counted others s) where
  pub used-positive :
      (fd f : ℕ)
      → fd < nofile
      → descriptors s fd ≡ f
      → f ≢ 0
      → (0 < (s.file f).ref) × ((s.file f).ref + 1 < 2 ^ 31)
  used-positive fd f lt e nz =
      let count = counted.counts f nz in
      let here =
        subst (λ g. 0 < uses nofile g (descriptors s)) e (uses-some nofile fd (descriptors s) lt) in
      let most = uses-le nofile f (descriptors s) in
      let few = counted.small f in (omega arith, omega arith)
