-- ===== src/Sched/Kill.antt =====
-- kill, setkilled and killed.
use csse332_final_project.Base.{
  ℕ, zero, suc, ◌+◌, ◌≤◌, ◌<◌, ◌≡◌, refl, ◌∙◌, ◌≢◌, true, false, not, ◌&&◌, if◌then◌else◌, ◌==◌,
  update, arith, Bool-cases, inl, inr,
}
use csse332_final_project.Run.{ok, ◌>>◌}
use csse332_final_project.Spinlock.{Machine}
use csse332_final_project.Spinlock.Laws.{IsSane, acquired}
use csse332_final_project.Kernel.{sleeping, runnable, is_state, nproc, Proc, Kernel, minus_one32}
use csse332_final_project.Kernel.Frame.{
  Restored-IsSane, IsFreeLock, lock-ok, unlock-ok, SameRest, SameRest-refl, SameRest-trans,
  after_section, after_section-SameRest,
}
use csse332_final_project.Sched.{kill_from, kill, setkilled, killed}

-- A process that is told to die.
abbrev pub slain : Proc → Proc
slain r = record r {
  killed = true;
  state = if is_state r.state sleeping then runnable else r.state;
}

-- The first of the `n` slots from `p` on that holds the pid, and 0 if none does.
abbrev pub find_pid : ℕ → ℕ → ℕ → (ℕ → Proc) → ℕ
find_pid zero pid p ps = 0
find_pid (suc n) pid p ps = if (ps p).pid == pid then p else find_pid n pid (p + 1) ps

-- Every lock of the table is free.
abbrev pub AllFree : Machine → Type 0
AllFree m = (p : ℕ) → 0 < p → p ≤ nproc → IsFreeLock p m

abbrev kill_table : ℕ → (ℕ → Proc) → ℕ → Proc
kill_table p ps =
    if is_state (ps p).state sleeping
    then update (update ps p (record (ps p) { killed = true })) p
        (record (ps p) { killed = true; state = runnable })
    else update ps p (record (ps p) { killed = true })

module _ {F : Type 0} where
  kill_from-hit :
      (n pid p : ℕ) (k : Kernel F)
      → p ≢ 0
      → IsFreeLock p k.machine
      → ((k.procs p).pid == pid) ≡ true
      → kill_from (suc n) pid p k ≡ ok 0 (after_section p (kill_table p k.procs) k)
  unfolding kill_from
  kill_from-hit n pid p k nz free hit =
      let k₁ = record k { machine = acquired p k.machine; procs = kill_table p k.procs } in
      rw (lock-ok p k free) (ground (arith, lock-ok p k free, unlock-ok p k.machine k₁ refl))

  kill_from-miss :
      (n pid p : ℕ) (k : Kernel F)
      → p ≢ 0
      → IsFreeLock p k.machine
      → ((k.procs p).pid == pid) ≡ false
      → kill_from (suc n) pid p k ≡ kill_from n pid (p + 1) (after_section p k.procs k)
  unfolding kill_from
  kill_from-miss n pid p k nz free miss =
      let k₁ = record k { machine = acquired p k.machine } in
      ground (arith, lock-ok p k free, unlock-ok p k.machine k₁ refl)

  abbrev Kills : ℕ → ℕ → (Kernel F) → ℕ → Type 0
  Kills n pid k p =
      let found = find_pid n pid p k.procs in
      (t : Kernel F) × (kill_from n pid p k ≡ ok (if found == 0 then minus_one32 else 0) t)
      × SameRest k t
      × ((q : ℕ)
          → t.procs q ≡ (if not (found == 0) && (q == found) then slain (k.procs q) else k.procs q))

  kill_from-Kills :
      (n pid p : ℕ) (k : Kernel F)
      → p ≢ 0
      → p + n ≡ suc nproc
      → IsSane k.machine
      → AllFree k.machine
      → Kills n pid k p
  unfolding kill_from
  kill_from-Kills zero pid p k nz e sane free = (k, refl, SameRest-refl k, λ q. ground arith)
  kill_from-Kills (suc n) pid p k nz e sane free =
      let free' : IsFreeLock p k.machine = free p (omega arith) (omega arith) in
      elim (Bool-cases ((k.procs p).pid == pid)) [
        | inl hit ↦ (
          after_section p (kill_table p k.procs) k,
          kill_from-hit n pid p k nz free' hit ∙ ground arith,
          after_section-SameRest p (kill_table p k.procs) k sane free',
          λ q. ground arith,
        )
        | inr miss ↦
            let same = after_section-SameRest p k.procs k sane free' in
            let (t, done, same', table) =
              kill_from-Kills n pid (p + 1) (after_section p k.procs k) (omega arith) (omega arith)
                (Restored-IsSane same.machine sane)
                (λ q lo hi. ground (arith, same.machine.locks q, free q lo hi)) in
            (
              t,
              kill_from-miss n pid p k nz free' miss ∙ rw miss done,
              SameRest-trans same same',
              λ q. rw miss (table q),
            )
      ]

  -- kill(pid), with the locks of the table free, returns 0 exactly when a slot holds the pid. Then
  -- the first such slot is marked killed, and made runnable if it slept. Nothing else changes.
  pub kill-slain :
      (pid : ℕ) (k : Kernel F)
      → IsSane k.machine
      → AllFree k.machine
      → let found = find_pid nproc pid 1 k.procs in
        (t : Kernel F) × (kill pid k ≡ ok (if found == 0 then minus_one32 else 0) t)
        × SameRest k t
        × ((q : ℕ)
            → t.procs q
              ≡ (if not (found == 0) && (q == found) then slain (k.procs q) else k.procs q))
  unfolding kill
  kill-slain pid k sane free = kill_from-Kills nproc pid 1 k (omega arith) refl sane free

  -- What setkilled marks, killed sees, and both leave the locks as they were.
  pub killed-setkilled :
      (p : ℕ) (k : Kernel F)
      → p ≢ 0
      → IsSane k.machine
      → IsFreeLock p k.machine
      → (t : Kernel F) × ((setkilled p >> killed p) k ≡ ok true t)
        × SameRest k t
        × ((q : ℕ)
            → t.procs q ≡ (if q == p then record (k.procs q) { killed = true } else k.procs q))
  unfolding setkilled killed
  killed-setkilled p k nz sane free =
      let ps = update k.procs p (record (k.procs p) { killed = true }) in
      let k₁ = record k { machine = acquired p k.machine; procs = ps } in
      let u = after_section p ps k in
      let k₂ = record u { machine = acquired p u.machine } in
      let same = after_section-SameRest p ps k sane free in
      let free' : IsFreeLock p u.machine = ground (arith, same.machine.locks p) in
      (
        after_section p ps u,
        ground (
          arith,
          lock-ok p k free,
          unlock-ok p k.machine k₁ refl,
          lock-ok p u free',
          unlock-ok p u.machine k₂ refl,
        ),
        SameRest-trans same
            (after_section-SameRest p ps u (Restored-IsSane same.machine sane) free'),
        λ q. ground arith,
      )
