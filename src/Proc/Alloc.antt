-- ===== src/Proc/Alloc.antt =====
-- allocpid and allocproc: process ids, and what happens when slots or memory run out.
use csse332_final_project.Base.{
  ℕ, zero, suc, ◌+◌, ◌≡◌, refl, ◌≢◌, ◌∙◌, true, false, if◌then◌else◌, arith, inc32, Bool-cases, inl,
  inr,
}
use csse332_final_project.Run.{ok}
use csse332_final_project.Spinlock.Laws.{IsSane, acquired}
use csse332_final_project.Kernel.{unused, is_state, nproc, Proc, Kernel, pid_lock}
use csse332_final_project.Kernel.Frame.{
  Restored, Restored-IsSane, IsFreeLock, lock-ok, unlock-ok, released-Restored, SameRest,
  SameRest-refl, SameRest-trans, after_section, after_section-SameRest,
}
use csse332_final_project.Sched.Kill.{AllFree}
use csse332_final_project.Proc.{allocpid, find_unused, allocproc}

-- The first unused slot of the `n` from `p` on, and 0 if none is.
abbrev pub first_unused : ℕ → ℕ → (ℕ → Proc) → ℕ
first_unused zero p ps = 0
first_unused (suc n) p ps = if is_state (ps p).state unused then p else first_unused n (p + 1) ps

module _ {F : Type 0} where
  find_unused-hit :
      (n p : ℕ) (k : Kernel F)
      → p ≢ 0
      → IsFreeLock p k.machine
      → is_state (k.procs p).state unused ≡ true
      → find_unused (suc n) p k ≡ ok p (record k { machine = acquired p k.machine })
  unfolding find_unused
  find_unused-hit n p k nz free hit = ground (arith, lock-ok p k free)

  find_unused-miss :
      (n p : ℕ) (k : Kernel F)
      → p ≢ 0
      → IsFreeLock p k.machine
      → is_state (k.procs p).state unused ≡ false
      → find_unused (suc n) p k ≡ find_unused n (p + 1) (after_section p k.procs k)
  unfolding find_unused
  find_unused-miss n p k nz free miss =
      let k₁ = record k { machine = acquired p k.machine } in
      ground (arith, lock-ok p k free, unlock-ok p k.machine k₁ refl)

  -- The scan ends with the lock of the slot that it found held, if it found one.
  pub data Found (k t : Kernel F) : ℕ → Type 0 where
    nothing : {q : ℕ} → q ≡ 0 → SameRest k t → t.procs ≡ k.procs → Found k t q
    found :
        {q : ℕ}
        → (u : Kernel F) → q ≢ 0
        → SameRest k u
        → u.procs ≡ k.procs
        → t ≡ record u { machine = acquired q u.machine }
        → Found k t q

  Found-after :
      {k s t : Kernel F} {q : ℕ} → SameRest k s → s.procs ≡ k.procs → Found s t q → Found k t q
  Found-after r e (nothing z r' e') = nothing z (SameRest-trans r r') (e' ∙ e)
  Found-after r e (found u nz r' e' m) = found u nz (SameRest-trans r r') (e' ∙ e) m

  find_unused-Found :
      (n p : ℕ) (k : Kernel F)
      → p ≢ 0
      → p + n ≡ suc nproc
      → IsSane k.machine
      → AllFree k.machine
      → (t : Kernel F) × (find_unused n p k ≡ ok (first_unused n p k.procs) t)
        × Found k t (first_unused n p k.procs)
  unfolding find_unused
  find_unused-Found zero p k nz e sane free = (k, refl, nothing refl (SameRest-refl k) refl)
  find_unused-Found (suc n) p k nz e sane free =
      let free' : IsFreeLock p k.machine = free p (omega arith) (omega arith) in
      elim (Bool-cases (is_state (k.procs p).state unused)) [
        | inl hit ↦ rw hit (
          record k { machine = acquired p k.machine },
          find_unused-hit n p k nz free' hit,
          found k nz (SameRest-refl k) refl refl,
        )
        | inr miss ↦
            let same = after_section-SameRest p k.procs k sane free' in
            let (t, done, rest) =
              find_unused-Found n (p + 1) (after_section p k.procs k) (omega arith) (omega arith)
                (Restored-IsSane same.machine sane)
                (λ q lo hi. ground (arith, same.machine.locks q, free q lo hi)) in
            rw miss (t, find_unused-miss n p k nz free' miss ∙ done, Found-after same refl rest)
      ]

  -- allocpid returns the next id and moves on to the one after it, with every lock as it was.
  pub allocpid-nextpid :
      (k : Kernel F)
      → IsSane k.machine
      → IsFreeLock pid_lock k.machine
      → (t : Kernel F) × (allocpid k ≡ ok k.nextpid t)
        × (t.nextpid ≡ inc32 k.nextpid)
        × Restored k.machine t.machine
        × (t.procs ≡ k.procs)
        × (t.memory ≡ k.memory)
  unfolding allocpid
  allocpid-nextpid k sane free =
      let t = record (after_section pid_lock k.procs k) { nextpid = inc32 k.nextpid } in
      let k₁ = record k { machine = acquired pid_lock k.machine; nextpid = inc32 k.nextpid } in
      (
        t,
        rw (lock-ok pid_lock k free, unlock-ok pid_lock k.machine k₁ refl) refl,
        refl,
        released-Restored pid_lock k.machine sane free,
        refl,
        refl,
      )

  -- With every slot taken and every lock of the table free, allocproc returns 0 and changes no slot,
  -- and leaves the locks, memory and files as they were.
  pub allocproc-full :
      (k : Kernel F)
      → IsSane k.machine
      → AllFree k.machine
      → first_unused nproc 1 k.procs ≡ 0
      → (t : Kernel F) × (allocproc k ≡ ok 0 t) × SameRest k t × (t.procs ≡ k.procs)
  unfolding allocproc
  allocproc-full k sane free full =
      let (t, done, rest) = find_unused-Found nproc 1 k (omega arith) refl sane free in
      let (same, table) = nothing-found rest full in (t, rw (done, full) refl, same, table)
    where
      nothing-found :
          {t : Kernel F} {q : ℕ} → Found k t q → q ≡ 0 → SameRest k t × (t.procs ≡ k.procs)
      nothing-found (nothing z same e) h = (same, e)
      nothing-found (found u nz same e m) h = absurd (nz h)
