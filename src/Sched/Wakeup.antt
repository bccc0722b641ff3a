-- ===== src/Sched/Wakeup.antt =====
-- wakeup: exactly the processes that sleep on the channel become runnable.
use csse332_final_project.Base.{
  ℕ, zero, suc, ◌+◌, ◌≤◌, ◌<◌, ◌≡◌, refl, ◌≢◌, not, ◌&&◌, if◌then◌else◌, leb, ◌==◌, update, arith,
  Bool-cases, inl, inr,
}
use csse332_final_project.Run.{ok, ◌>>◌}
use csse332_final_project.Spinlock.{Machine}
use csse332_final_project.Spinlock.Laws.{IsSane, acquired}
use csse332_final_project.Kernel.{sleeping, runnable, is_state, nproc, Proc, Kernel}
use csse332_final_project.Kernel.Frame.{
  Restored-IsSane, IsFreeLock, lock-ok, unlock-ok, SameRest, SameRest-refl, SameRest-trans,
  after_section, after_section-SameRest,
}
use csse332_final_project.Sched.{wake_one, wake_from, wakeup}

abbrev pub woken : ℕ → Proc → Proc
woken chan r =
    if is_state r.state sleeping && (r.chan == chan) then record r { state = runnable } else r

-- Every lock of the table but that of slot `me` is free.
abbrev pub OthersFree : ℕ → Machine → Type 0
OthersFree me m = (p : ℕ) → 0 < p → p ≤ nproc → p ≢ me → IsFreeLock p m

abbrev wake_table : ℕ → ℕ → (ℕ → Proc) → ℕ → Proc
wake_table chan p ps =
    if is_state (ps p).state sleeping && ((ps p).chan == chan)
    then update ps p (record (ps p) { state = runnable })
    else ps

module _ {F : Type 0} where
  wake_one-other :
      (chan p : ℕ) (k : Kernel F)
      → p ≢ 0
      → p ≢ k.machine.proc
      → IsFreeLock p k.machine
      → wake_one chan p k ≡ ok tt (after_section p (wake_table chan p k.procs) k)
  unfolding wake_one
  wake_one-other chan p k nz ne free =
      let k₁ = record k { machine = acquired p k.machine } in
      let k₂ = record k₁ { procs = update k.procs p (record (k.procs p) { state = runnable }) } in
      ground (arith, lock-ok p k free, unlock-ok p k.machine k₁ refl, unlock-ok p k.machine k₂ refl)

  -- A round leaves all but slot `p` alone, and wakes that as it should.
  wake_one-woken :
      (chan p : ℕ) (k : Kernel F)
      → p ≢ 0
      → IsSane k.machine
      → (p ≢ k.machine.proc → IsFreeLock p k.machine)
      → (t : Kernel F) × (wake_one chan p k ≡ ok tt t)
        × SameRest k t
        × ((q : ℕ)
            → t.procs q ≡ (
                if (q == p) && not (q == k.machine.proc)
                then woken chan (k.procs q)
                else k.procs q))
  unfolding wake_one
  wake_one-woken chan p k nz sane free = elim (Bool-cases (p == k.machine.proc)) [
    | inl me ↦ (k, rw me refl, SameRest-refl k, λ q. ground arith)
    | inr other ↦
        let free' : IsFreeLock p k.machine = free (ground arith) in
        (
          after_section p (wake_table chan p k.procs) k,
          wake_one-other chan p k nz (ground arith) free',
          after_section-SameRest p (wake_table chan p k.procs) k sane free',
          λ q. ground arith,
        )
  ]

  wake_from-woken :
      (n chan p : ℕ) (k : Kernel F)
      → p ≢ 0
      → p + n ≡ suc nproc
      → IsSane k.machine
      → OthersFree k.machine.proc k.machine
      → (t : Kernel F) × (wake_from n chan p k ≡ ok tt t)
        × SameRest k t
        × ((q : ℕ)
            → t.procs q ≡ (
                if leb p q && (leb q nproc && not (q == k.machine.proc))
                then woken chan (k.procs q)
                else k.procs q))
  unfolding wake_from
  wake_from-woken zero chan p k nz e sane free = (k, refl, SameRest-refl k, λ q. ground arith)
  wake_from-woken (suc n) chan p k nz e sane free =
      let (t, done, same, table) =
        wake_one-woken chan p k nz sane (λ ne. free p (omega arith) (omega arith) ne) in
      let (u, done', same', table') =
        wake_from-woken n chan (p + 1) t (omega arith) (omega arith)
          (Restored-IsSane same.machine sane)
          (λ q lo hi ne. ground (arith, same.machine.proc, same.machine.locks q, free q)) in
      (
        u,
        rw (done, ◌>>◌) done',
        SameRest-trans same same',
        λ q. ground (arith, table q, table' q, same.machine.proc),
      )

  -- wakeup(chan), with the locks of the other slots free, returns. Exactly the other processes that
  -- sleep on `chan` become runnable; every other field of the table stays, and so do the locks, the
  -- nesting depth, the interrupt enable, memory and files.
  pub wakeup-woken :
      (chan : ℕ) (k : Kernel F)
      → IsSane k.machine
      → OthersFree k.machine.proc k.machine
      → (t : Kernel F) × (wakeup chan k ≡ ok tt t)
        × SameRest k t
        × ((q : ℕ)
            → t.procs q ≡ (
                if leb 1 q && (leb q nproc && not (q == k.machine.proc))
                then woken chan (k.procs q)
                else k.procs q))
  unfolding wakeup
  wakeup-woken chan k sane free = wake_from-woken nproc chan 1 k (omega arith) refl sane free
