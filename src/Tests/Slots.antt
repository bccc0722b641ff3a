-- ===== src/Tests/Slots.antt =====
-- The theorems on scheduling and on slots at a process with two sleeping children.
use csse332_final_project.Base.{
  ℕ, ◌≡◌, refl, true, false, not, ◌&&◌, if◌then◌else◌, leb, ◌==◌, update, arith,
}
use csse332_final_project.Run.{ok, ◌>>◌}
use csse332_final_project.Kernel.{running, sleeping, nproc, Kernel}
use csse332_final_project.Kernel.Frame.{SameRest}
use csse332_final_project.Sched.{
  wakeup, kill, retire, yield_enter, yield_leave, begin_pass, dispatch,
}
use csse332_final_project.Sched.Yield.{MayYield, yield_leave-dispatch}
use csse332_final_project.Sched.Wakeup.{woken, wakeup-woken}
use csse332_final_project.Sched.Kill.{slain, kill-slain}
use csse332_final_project.Proc.{freeproc}
use csse332_final_project.Proc.Free.{IsFreed, freeproc-single}
use csse332_final_project.Life.{reparent}
use csse332_final_project.Life.Reparent.{adopted, reparent-adopted}
use csse332_final_project.Tests.{idle_machine, idle_machine-IsSane, blank, with_table, family}

abbrev home : Kernel (Unit {0})
home = with_table family

wakeup-woken_example :
    (t : Kernel (Unit {0})) × (wakeup 7 home ≡ ok tt t)
    × SameRest home t
    × ((q : ℕ)
        → t.procs q
          ≡ (if leb 1 q && (leb q nproc && not (q == 1)) then woken 7 (family q) else family q))
wakeup-woken_example = wakeup-woken 7 home idle_machine-IsSane (λ p lo hi ne. refl)

kill-slain_example :
    (t : Kernel (Unit {0})) × (kill 3 home ≡ ok 0 t)
    × SameRest home t
    × ((q : ℕ) → t.procs q ≡ (if q == 3 then slain (family q) else family q))
kill-slain_example = kill-slain 3 home idle_machine-IsSane (λ p lo hi. refl)

abbrev with_page : Kernel (Unit {0})
with_page = with_table (update family 2 (record (family 2) { trapframe = 0x8002_6000 }))

freeproc-single_example :
    (t : Kernel (Unit {0})) × (freeproc 2 with_page ≡ ok tt t) × IsFreed 2 with_page t
freeproc-single_example = freeproc-single 2 with_page (λ e. omega arith) refl (omega arith)

-- Every slot sleeps.
abbrev crowded : Kernel (Unit {0})
crowded = with_table (λ q. record blank { state = sleeping; pid = q })

reparent-adopted_example :
    (t : Kernel (Unit {0})) × (reparent 1 home ≡ ok tt t)
    × SameRest home t
    × ((q : ℕ)
        → (t.procs q).parent
          ≡ (if leb 1 q && leb q nproc then adopted 1 1 (family q) else (family q).parent))
reparent-adopted_example = reparent-adopted 1 home idle_machine-IsSane (λ p lo hi ne. refl)

-- Process 1 is interrupted in the kernel, with interrupts off.
abbrev trapped : Kernel (Unit {0})
trapped = record home { machine = record idle_machine { intr = false } }

may_yield : MayYield trapped
may_yield = record {
  here = omega arith;
  none_held = refl;
  mine = refl;
  sane = record { quiet = λ h. refl; ownerless = λ l h. refl };
}

yield_leave-dispatch_example :
    (s : Kernel (Unit {0})) × (yield_enter trapped ≡ ok tt s)
    × (u : Kernel (Unit {0})) × ((retire 1 >> (begin_pass >> dispatch 1)) s ≡ ok true u)
    × (t : Kernel (Unit {0})) × (yield_leave s.machine.intena u ≡ ok tt t)
    × SameRest trapped t
    × ((q : ℕ) → t.procs q ≡ (if 1 == q then record (family q) { state = running } else family q))
yield_leave-dispatch_example = yield_leave-dispatch trapped may_yield
