-- ===== src/Life/Reparent.antt =====
-- reparent: the children of an exiting process are left to the first process.
use csse332_final_project.Base.{
  ℕ, zero, suc, ◌+◌, ◌≡◌, refl, ◌∙◌, ◌≢◌, true, false, ◌&&◌, if◌then◌else◌, leb, ◌==◌, update,
  arith, Bool-cases, inl, inr, ne→==,
}
use csse332_final_project.Run.{ok}
use csse332_final_project.Spinlock.Laws.{IsSane}
use csse332_final_project.Kernel.{nproc, Proc, Kernel, with_procs}
use csse332_final_project.Kernel.Frame.{Restored-IsSane, SameRest, SameRest-refl, SameRest-trans}
use csse332_final_project.Sched.{wakeup}
use csse332_final_project.Sched.Wakeup.{OthersFree, wakeup-woken}
use csse332_final_project.Life.{reparent_from, reparent}

-- The parent that a slot is left with.
abbrev pub adopted : ℕ → ℕ → Proc → ℕ
adopted p initproc r = if r.parent == p then initproc else r.parent

module _ {F : Type 0} where
  abbrev adopt : ℕ → Kernel F → Kernel F
  adopt pp k = with_procs (update k.procs pp (record (k.procs pp) { parent = k.initproc })) k

  reparent_from-child :
      (n p pp : ℕ) (k t : Kernel F)
      → pp ≢ 0
      → ((k.procs pp).parent == p) ≡ true
      → wakeup k.initproc (adopt pp k) ≡ ok tt t
      → reparent_from (suc n) p pp k ≡ reparent_from n p (pp + 1) t
  unfolding reparent_from
  reparent_from-child n p pp k t nz child woke = rw (ne→== pp 0 nz, child, woke) refl

  reparent_from-other :
      (n p pp : ℕ) (k : Kernel F)
      → pp ≢ 0
      → ((k.procs pp).parent == p) ≡ false
      → reparent_from (suc n) p pp k ≡ reparent_from n p (pp + 1) k
  unfolding reparent_from
  reparent_from-other n p pp k nz other = rw (ne→== pp 0 nz, other) refl

  abbrev Adopts : ℕ → ℕ → ℕ → Kernel F → Kernel F → Type 0
  Adopts n p pp k t =
      SameRest k t
      × ((q : ℕ)
          → (t.procs q).parent ≡ (
              if leb pp q && leb q nproc
              then adopted p k.initproc (k.procs q)
              else (k.procs q).parent))

  reparent_from-Adopts :
      (n p pp : ℕ) (k : Kernel F)
      → pp ≢ 0
      → pp + n ≡ suc nproc
      → IsSane k.machine
      → OthersFree k.machine.proc k.machine
      → (t : Kernel F) × (reparent_from n p pp k ≡ ok tt t) × Adopts n p pp k t
  unfolding reparent_from
  reparent_from-Adopts zero p pp k nz e sane free = (k, refl, (SameRest-refl k, λ q. ground arith))
  reparent_from-Adopts (suc n) p pp k nz e sane free =
      elim (Bool-cases ((k.procs pp).parent == p)) [
        | inr other ↦
            let (t, done, rest) =
              reparent_from-Adopts n p (pp + 1) k (omega arith) (omega arith) sane free in
            (
              t,
              reparent_from-other n p pp k nz other ∙ done,
              (rest.0, λ q. ground (arith, rest.1 q)),
            )
        | inl child ↦
            let (s, woke, same, table) = wakeup-woken k.initproc (adopt pp k) sane free in
            let (t, done, rest) =
              reparent_from-Adopts n p (pp + 1) s (omega arith) (omega arith)
                (Restored-IsSane same.machine sane)
                (λ q lo hi ne.
                  ground (arith, same.machine.proc, same.machine.locks q, free q lo hi)) in
            (
              t,
              reparent_from-child n p pp k s nz child woke ∙ done,
              (
                record {
                  machine = (SameRest-trans same rest.0).machine;
                  memory = rest.0.memory ∙ same.memory;
                  files = rest.0.files ∙ same.files;
                  nextpid = rest.0.nextpid ∙ same.nextpid;
                  initproc = rest.0.initproc ∙ same.initproc;
                },
                λ q. ground (arith, table q, rest.1 q, same.initproc),
              ),
            )
      ]

  -- reparent(p), with the locks of the other slots free, returns, and makes the first process the
  -- parent of every child of p and of no other process. Locks, memory and files stay.
  pub reparent-adopted :
      (p : ℕ) (k : Kernel F)
      → IsSane k.machine
      → OthersFree k.machine.proc k.machine
      → (t : Kernel F) × (reparent p k ≡ ok tt t)
        × SameRest k t
        × ((q : ℕ)
            → (t.procs q).parent ≡ (
                if leb 1 q && leb q nproc
                then adopted p k.initproc (k.procs q)
                else (k.procs q).parent))
  unfolding reparent
  reparent-adopted p k sane free =
      let (t, done, rest) = reparent_from-Adopts nproc p 1 k (omega arith) refl sane free in
      (t, done, rest.0, rest.1)
