-- ===== src/Console/Interrupt.antt =====
-- consoleintr: a byte that is typed, from the interrupt to the readers that are woken.
use csse332_final_project.Base.{
  ℕ, ◌<◌, ◌+◌, ◌≡◌, ◌≢◌, refl, ap, sym, subst, true, false, not, ◌&&◌, if◌then◌else◌, leb, ◌==◌,
  ne→==, ◌++◌, arith, Bool,
}
use csse332_final_project.Run.{ok, pure}
use csse332_final_project.Spinlock.{Machine, holding}
use csse332_final_project.Spinlock.Laws.{IsSane, acquired, released, release-ok}
use csse332_final_project.Kernel.{Proc, Kernel, nproc, unlock}
use csse332_final_project.Kernel.Frame.{
  Restored, Restored-refl, IsFreeLock, lock-ok, holding-acquired,
}
use csse332_final_project.Sched.Wakeup.{woken, OthersFree, wakeup-woken}
use csse332_final_project.Terminal.{Terminal, cons_lock}
use csse332_final_project.Console.{ctrl_p, wake_readers, consoleintr}
use csse332_final_project.Console.Ring.{IsInput, ready, editing}
use csse332_final_project.Console.Echo.{IsHeld, edited}
use csse332_final_project.Console.Typing.{Effect, IsLine, effect_at, typed-Follows}

acquired-IsSane : (l : ℕ) (m : Machine) → IsSane m → IsSane (acquired l m)
acquired-IsSane l m sane = record {
  quiet = λ n. refl;
  ownerless = λ q free. ground (arith, sane.ownerless q);
}

-- The locks and the nesting depth of `t` are those of `m`.
abbrev pub Balanced : Machine → Machine → Type 0
Balanced m t = ((l : ℕ) → t.locks l ≡ m.locks l) × (t.noff ≡ m.noff)

module _ {F : Type 0} where
  unlock-Balanced :
      (l : ℕ) (m : Machine) (k : Kernel F)
      → IsSane m
      → IsFreeLock l m
      → Restored (acquired l m) k.machine
      → (unlock l k ≡ ok tt (record k { machine = released l k.machine }))
        × Balanced m (released l k.machine)
  unfolding holding
  unlock-Balanced l m k sane free same =
      let here = same.locks l in
      let me = same.self in
      let n = same.noff in
      let held : holding l k.machine ≡ true = rw (here, me) (holding-acquired l m) in
      let run = release-ok l k.machine held same.intr (omega arith) in
      (rw run refl, (λ q. ground (arith, same.locks q, sane.ownerless l), omega arith))

  -- The table with the readers woken, or as it was.
  abbrev pub table_after : Bool → ℕ → Kernel F → ℕ → Proc
  table_after arrives chan k q =
      if arrives && (leb 1 q && (leb q nproc && not (q == k.machine.proc)))
      then woken chan (k.procs q)
      else k.procs q

  -- What wakes the readers, or does not.
  wakes-table :
      (arrives : Bool) (m : Machine) (s : Terminal F)
      → IsSane m
      → (s.kernel.machine ≡ acquired cons_lock m)
      → OthersFree m.proc m
      → (t : Terminal F) × ((if arrives then wake_readers else pure tt) s ≡ ok tt t)
        × (t ≡ record s { kernel = t.kernel })
        × Restored s.kernel.machine t.kernel.machine
        × ((q : ℕ) → t.kernel.procs q ≡ table_after arrives (s.cons + 152) s.kernel q)
  wakes-table true m s sane here free =
      let sane' = subst IsSane (sym here) (acquired-IsSane cons_lock m sane) in
      let free' : OthersFree s.kernel.machine.proc s.kernel.machine =
        subst (λ n. OthersFree n.proc n) (sym here)
          (λ p lo hi ne. ground (arith, free p lo hi ne)) in
      let (k, run, same, table) = wakeup-woken (s.cons + 152) s.kernel sane' free' in
      (record s { kernel = k }, rw run refl, refl, same.machine, table)
  wakes-table false m s sane here free = (s, refl, refl, Restored-refl s.kernel.machine, λ q. refl)

module _ {F : Type 0} where
  -- The lock of the console and those of the other slots are free, and the input ring is in order.
  pub record TakesInput (s : Terminal F) : Type 0 where
    pub sane : IsSane s.kernel.machine
    pub free : IsFreeLock cons_lock s.kernel.machine
    pub others : OthersFree s.kernel.machine.proc s.kernel.machine
    pub live : s.panicked ≡ false
    pub input : IsInput s.input
    pub line : IsLine (editing s.input)

  -- `t` is what the line editor makes of `s`.
  abbrev pub Edits : Effect → Terminal F → Terminal F → Type 0
  Edits eff s t =
      IsInput t.input
      × (ready t.input ≡ eff.ready)
      × (editing t.input ≡ eff.editing)
      × IsLine (editing t.input)
      × (t.sent ≡ s.sent ++ eff.echo)
      × Balanced s.kernel.machine t.kernel.machine
      × ((q : ℕ) → t.kernel.procs q ≡ table_after eff.arrives (s.cons + 152) s.kernel q)

  -- While the console's lock and those of the other slots are free, consoleintr returns for every byte
  -- but control-p. The complete bytes and the line in edit are then those of a line editor, and what
  -- it echoes has been sent. Exactly if the editor says so, the readers that sleep are runnable. The
  -- locks and the nesting depth are as before.
  pub consoleintr-Edits :
      (c : ℕ) (s : Terminal F)
      → TakesInput s
      → c < 256
      → c ≢ ctrl_p
      → (t : Terminal F) × (consoleintr c s ≡ ok tt t) × Edits (effect_at c s) s t
  unfolding consoleintr
  consoleintr-Edits c s takes small ne =
      let m = s.kernel.machine in
      let s₁ = record s { kernel = record s.kernel { machine = acquired cons_lock m } } in
      let held : IsHeld s₁ = record { noff = omega arith; intr = refl; live = takes.live } in
      let (i, run, input, done, left, line) =
        typed-Follows c s₁ held takes.input takes.line small (ne→== c ctrl_p ne) in
      let eff = effect_at c s in
      let s₂ = edited i eff.echo s₁ in
      let (t, wakes, same, restored, table) =
        wakes-table eff.arrives m s₂ takes.sane refl takes.others in
      let (unlocks, balanced) =
        unlock-Balanced cons_lock m t.kernel takes.sane takes.free restored in
      (
        record s₂ { kernel = record t.kernel { machine = released cons_lock t.kernel.machine } },
        rw (lock-ok cons_lock s.kernel takes.free, run, wakes, unlocks)
            (ap
              (λ (u : Terminal F). ok tt (record u {
                kernel = record t.kernel { machine = released cons_lock t.kernel.machine };
              }))
              same),
        (input, done, left, subst IsLine (sym left) line, refl, balanced, table),
      )
