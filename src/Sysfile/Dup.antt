-- ===== src/Sysfile/Dup.antt =====
-- sys_dup: the new descriptor, and the count of its file.
use csse332_final_project.Base.{
  ℕ, zero, suc, ◌+◌, ◌^◌, ◌<◌, ◌≡◌, ◌≢◌, ◌⊎◌, refl, ◌∙◌, ap, sym, inl, inr, Bool-cases, true, none,
  some, if◌then◌else◌, ◌==◌, arith, ==→eq, ne→==, inc32, pos32, update,
}
use csse332_final_project.Run.{ok, and_then}
use csse332_final_project.Kernel.{nofile, minus_one64}
use csse332_final_project.Os.{Os}
use csse332_final_project.Ftable.{filedup}
use csse332_final_project.Sysfile.{fdalloc, free_fd, put_fd, dup_fd, dup_arg, sys_dup}
use csse332_final_project.Sysfile.Counts.{
  descriptors, uses, Runs, Counted, arg_int, arg_file-cases, uses-update, argfd-ok, with_fd,
  with_ref, descriptors-with_fd, used-positive,
}

-- What free_fd finds of the k descriptors from fd on.
free_fd-free :
    (k fd : ℕ) (ofile : ℕ → ℕ)
    → (free_fd k fd ofile ≡ none)
      ⊎ ((r : ℕ) × (free_fd k fd ofile ≡ some r) × (r < fd + k) × (ofile r ≡ 0))
unfolding free_fd
free_fd-free zero fd ofile = inl refl
free_fd-free (suc k) fd ofile = elim (Bool-cases (ofile fd == 0)) [
  | inl e ↦ inr (fd, rw e refl, omega arith, ==→eq (ofile fd) 0 e)
  | inr ne ↦ elim (free_fd-free k (fd + 1) ofile) [
    | inl none_left ↦ inl (rw ne none_left)
    | inr (r, e, lt, free) ↦ inr (r, rw ne e, omega arith, free)
  ]
]

module _ (others : ℕ → ℕ) (s : Os) (runs : Runs s) (counted : Counted others s) where
  -- The count of g, when descriptor fd becomes f.
  ref-counts :
      {fd : ℕ} (f g : ℕ)
      → g ≢ 0
      → (s.file f).ref + 1 < 2 ^ 31
      → (s.file g).ref ≡ others g + uses nofile g (descriptors s)
      → uses nofile g (update (descriptors s) fd f) + (if descriptors s fd == g then 1 else 0)
        ≡ uses nofile g (descriptors s) + (if f == g then 1 else 0)
      → descriptors s fd ≡ 0
      → ((with_ref f inc32 s).file g).ref ≡ others g + uses nofile g (update (descriptors s) fd f)
  ref-counts f g gz small count more free = elim (Bool-cases (f == g)) [
    | inl e ↦ ground (arith, ==→eq f g e)
    | inr ne ↦ ground arith
  ]

  dup-Counted :
      (fd f : ℕ)
      → fd < nofile
      → descriptors s fd ≡ 0
      → f ≢ 0
      → (s.file f).ref + 1 < 2 ^ 31
      → Counted others (with_ref f inc32 (with_fd fd f s))
  dup-Counted fd f lt free nz small = record {
    counts = λ g gz.
        let count = counted.counts g gz in
        let more = uses-update nofile fd g f (descriptors s) lt in
        ref-counts f g gz small count more free
        ∙ ap (λ d. others g + uses nofile g d) (sym (descriptors-with_fd fd f s));
    small = counted.small;
  }

  fdalloc-result : (f : ℕ) → fdalloc f s ≡ put_fd f (free_fd nofile 0 (descriptors s)) s
  unfolding fdalloc
  fdalloc-result f = rw (ne→== s.kernel.machine.proc 0 runs.proc) refl

  dup-result :
      (fd f : ℕ)
      → f ≢ 0
      → pos32 (s.file f).ref ≡ true
      → and_then (put_fd f (some fd) s) (dup_fd f) ≡ ok fd (with_ref f inc32 (with_fd fd f s))
  unfolding filedup
  dup-result fd f nz pos =
      rw (ne→== s.kernel.machine.proc 0 runs.proc, ne→== f 0 nz, pos, ne→== f 0 nz) refl

-- The descriptor that dup has made, if it has.
abbrev pub Dup : Os → ℕ → Os → Type 0
Dup s r t =
    (r < nofile)
    × (descriptors s r ≡ 0)
    × ((fd : ℕ) → descriptors t fd ≡ update (descriptors s) r (descriptors s (arg_int 0 s)) fd)

module _ (others : ℕ → ℕ) (s : Os) (runs : Runs s) (counted : Counted others s) where
  dup_arg-Counted :
      arg_int 0 s < nofile
      → descriptors s (arg_int 0 s) ≢ 0
      → (r : ℕ) × (t : Os) × (dup_arg (some (arg_int 0 s, descriptors s (arg_int 0 s))) s ≡ ok r t)
        × Counted others t
        × (((r ≡ minus_one64) × (t ≡ s)) ⊎ Dup s r t)
  dup_arg-Counted lt nz =
      let f = descriptors s (arg_int 0 s) in
      let (positive, small) = used-positive others s runs counted (arg_int 0 s) f lt refl nz in
      let run = ap (λ r. and_then r (dup_fd f)) (fdalloc-result others s runs counted f) in
      elim (free_fd-free nofile 0 (descriptors s)) [
        | inl none_left ↦ (
          minus_one64,
          s,
          run ∙ ap (λ o. and_then (put_fd f o s) (dup_fd f)) none_left,
          counted,
          inl (refl, refl),
        )
        | inr (fd, found, room, free) ↦ (
          fd,
          with_ref f inc32 (with_fd fd f s),
          run
              ∙ ap (λ o. and_then (put_fd f o s) (dup_fd f)) found
              ∙ dup-result others s runs counted fd f nz (ground arith),
          dup-Counted others s runs counted fd f room free nz small,
          inr (room, free, λ q. ap (λ d. d q) (descriptors-with_fd fd f s)),
        )
      ]

-- With a trapframe, and where each file's count is that of its descriptors, dup returns. Either it
-- answers -1 and changes nothing, or its answer is a descriptor that was free and is now for the
-- file of the argument, while the others stay. Each file's count is again that of its descriptors.
pub sys_dup-Counted :
    (others : ℕ → ℕ) (s : Os)
    → Runs s
    → Counted others s
    → (r : ℕ) × (t : Os) × (sys_dup s ≡ ok r t)
      × Counted others t
      × (((r ≡ minus_one64) × (t ≡ s)) ⊎ Dup s r t)
unfolding sys_dup
sys_dup-Counted others s runs counted =
    let arg = ap (λ r. and_then r dup_arg) (argfd-ok s runs 0 (omega arith)) in
    elim (arg_file-cases 0 s) [
      | inl e ↦ (minus_one64, s, arg ∙ ap (λ o. dup_arg o s) e, counted, inl (refl, refl))
      | inr (e, lt, nz) ↦
          let (r, t, run, counted', what) = dup_arg-Counted others s runs counted lt nz in
          (r, t, arg ∙ ap (λ o. dup_arg o s) e ∙ run, counted', what)
    ]
