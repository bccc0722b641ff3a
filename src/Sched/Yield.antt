-- ===== src/Sched/Yield.antt =====
-- yield, with the scheduler's part between its two halves.
use csse332_final_project.Base.{ℕ, ◌≡◌, refl, ◌≢◌, true, if◌then◌else◌, ◌==◌, update, arith}
use csse332_final_project.Run.{ok, ◌>>◌}
use csse332_final_project.Spinlock.{holding}
use csse332_final_project.Spinlock.Laws.{IsSane, acquired, released, release-ok}
use csse332_final_project.Kernel.{runnable, running, Kernel}
use csse332_final_project.Kernel.Frame.{IsFreeLock, lock-ok, SameRest}
use csse332_final_project.Sched.{
  begin_pass, dispatch, retire, sched, yield_enter, yield_leave, sched_leave,
}

-- The running process holds no lock, and its slot's lock is free.
pub record MayYield {F : Type 0} (k : Kernel F) : Type 0 where
  pub here : k.machine.proc ≢ 0
  pub none_held : k.machine.noff ≡ 0
  pub mine : IsFreeLock k.machine.proc k.machine
  pub sane : IsSane k.machine

module _ {F : Type 0} where
  abbrev yielded : Kernel F → Kernel F
  yielded k =
      let p = k.machine.proc in
      record k {
        machine = acquired p k.machine;
        procs = update k.procs p (record (k.procs p) { state = runnable });
      }

  abbrev rested : Kernel F → Kernel F
  rested k =
      let p = k.machine.proc in
      record (yielded k) { machine = released p (record (yielded k).machine { proc = 0 }) }

  abbrev open_to_devices : Kernel F → Kernel F
  open_to_devices k = record (rested k) { machine = record (rested k).machine { intr = true } }

  abbrev resumed : Kernel F → Kernel F
  resumed k =
      let p = k.machine.proc in
      record (open_to_devices k) {
        machine = record (acquired p (open_to_devices k).machine) { proc = p };
        procs = update (rested k).procs p (record ((rested k).procs p) { state = running });
      }

  abbrev left : Kernel F → Kernel F
  left k = record (resumed k) {
    machine =
        released k.machine.proc
          (record (resumed k).machine { intena = (yielded k).machine.intena });
  }

  yield_enter-yielded : (k : Kernel F) → MayYield k → yield_enter k ≡ ok tt (yielded k)
  unfolding yield_enter sched holding
  yield_enter-yielded k h = ground (arith, lock-ok k.machine.proc k h.mine, h.here, h.none_held)

  retire-rested : (k : Kernel F) → MayYield k → retire k.machine.proc (yielded k) ≡ ok tt (rested k)
  unfolding retire holding
  retire-rested k h =
      let m = record (yielded k).machine { proc = 0 } in
      let held : holding k.machine.proc m ≡ true = ground arith in
      rw (release-ok k.machine.proc m held refl (omega arith)) refl

  dispatch-resumed :
      (k : Kernel F)
      → MayYield k
      → (begin_pass >> dispatch k.machine.proc) (rested k) ≡ ok true (resumed k)
  unfolding begin_pass dispatch
  dispatch-resumed k h =
      let free : IsFreeLock k.machine.proc (open_to_devices k).machine = ground arith in
      ground (arith, lock-ok k.machine.proc (open_to_devices k) free, h.here)

  yield_leave-left :
      (k : Kernel F)
      → MayYield k
      → yield_leave (yielded k).machine.intena (resumed k) ≡ ok tt (left k)
  unfolding yield_leave sched_leave holding
  yield_leave-left k h =
      let m = record (resumed k).machine { intena = (yielded k).machine.intena } in
      let held : holding k.machine.proc m ≡ true = ground arith in
      rw (release-ok k.machine.proc m held refl (omega arith)) refl

  left-SameRest : (k : Kernel F) → MayYield k → SameRest k (left k)
  left-SameRest k h = record {
    machine = record {
      locks = λ l. ground (arith, h.sane.ownerless l, h.mine);
      self = refl;
      noff = omega arith;
      intr = ground (arith, h.none_held);
      proc = refl;
    };
    memory = refl;
    files = refl;
    nextpid = refl;
    initproc = refl;
  }

  -- A process that holds no lock and yields goes on as it was when the next pass of the scheduler of
  -- its hart, which begins with interrupts on, chooses it: it is running again, no other slot has
  -- changed, and the locks, the interrupt enable, memory and files are as before, also where it has
  -- yielded with interrupts off.
  pub yield_leave-dispatch :
      (k : Kernel F)
      → MayYield k
      → let p = k.machine.proc in
        (s : Kernel F) × (yield_enter k ≡ ok tt s)
        × (u : Kernel F) × ((retire p >> (begin_pass >> dispatch p)) s ≡ ok true u)
        × (t : Kernel F) × (yield_leave s.machine.intena u ≡ ok tt t)
        × SameRest k t
        × ((q : ℕ)
            → t.procs q ≡ (if p == q then record (k.procs q) { state = running } else k.procs q))
  yield_leave-dispatch k h = (
    yielded k,
    yield_enter-yielded k h,
    resumed k,
    rw (retire-rested k h) (dispatch-resumed k h),
    left k,
    yield_leave-left k h,
    left-SameRest k h,
    λ q. ground arith,
  )
