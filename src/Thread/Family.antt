-- ===== src/Thread/Family.antt =====
-- The ring of a thread group, and what getstatus and getfamily see of it.
use csse332_final_project.Base.{
  ℕ, zero, suc, ◌<◌, ◌≡◌, ◌∙◌, ◌≢◌, List, [], ◌∷◌, length, if◌then◌else◌, ◌==◌, arith, ne→==,
}
use csse332_final_project.Run.{ok, fault}
use csse332_final_project.Kernel.{state_code, nproc, ring_rounds, Proc, Kernel, minus_one64}
use csse332_final_project.Thread.{status_from, getstatus}

-- From `p` the group_next pointers lead through the slots `qs` to the leader.
abbrev pub Links : (ℕ → Proc) → ℕ → ℕ → List ℕ → Type 0
Links ps leader p [] = p ≡ leader
Links ps leader p (q ∷ qs) = (p ≡ q) × (q ≢ 0) × (q ≢ leader) × Links ps leader (ps q).group_next qs

-- The group of `leader` has the other threads `rest`, the newest first.
pub record IsRing (ps : ℕ → Proc) (leader : ℕ) (rest : List ℕ) : Type 0 where
  pub present : leader ≢ 0
  pub few : length rest < nproc
  pub links : Links ps leader (ps leader).group_next rest

-- The state of the first thread with the id, as getstatus returns it.
abbrev pub status_of : (ℕ → Proc) → ℕ → List ℕ → ℕ
status_of ps tid [] = minus_one64
status_of ps tid (q ∷ qs) =
    if (ps q).tid == tid then state_code (ps q).state else status_of ps tid qs

enough : (qs : List ℕ) → length qs < nproc → length qs < ring_rounds
unfolding ring_rounds
enough qs h = omega arith

module _ {F : Type 0} where
  status_from-step :
      (n tid leader p : ℕ) (k : Kernel F)
      → p ≢ 0
      → status_from (suc n) tid leader p k ≡ (
          if (k.procs p).tid == tid
          then ok (state_code (k.procs p).state) k
          else if (k.procs p).group_next == leader
          then ok minus_one64 k
          else status_from n tid leader (k.procs p).group_next k)
  unfolding status_from
  status_from-step n tid leader p k nz = ground arith

  status_from-status :
      (n tid leader p : ℕ) (qs : List ℕ) (k : Kernel F)
      → p ≢ 0
      → length qs < n
      → Links k.procs leader (k.procs p).group_next qs
      → status_from n tid leader p k ≡ ok (status_of k.procs tid (p ∷ qs)) k
  status_from-status zero tid leader p qs k nz fuel l = absurd (omega arith)
  status_from-status (suc n) tid leader p [] k nz fuel l =
      status_from-step n tid leader p k nz ∙ ground arith
  status_from-status (suc n) tid leader p (q ∷ qs) k nz fuel (e, nz', ne, l) =
      status_from-step n tid leader p k nz
      ∙ rw e (ground (arith, status_from-status n tid leader q qs k nz' (omega arith) l))

  -- getstatus of a thread group returns the state of the first thread with the id, from the leader
  -- on, and -1 if there is none, and changes nothing.
  pub getstatus-status_of :
      (tid leader : ℕ) (rest : List ℕ) (k : Kernel F)
      → k.machine.proc ≢ 0
      → (k.procs k.machine.proc).group_leader ≡ leader
      → IsRing k.procs leader rest
      → getstatus tid k ≡ ok (status_of k.procs tid (leader ∷ rest)) k
  unfolding getstatus
  getstatus-status_of tid leader rest k here group ring =
      rw (ne→== k.machine.proc 0 here, group, ne→== leader 0 ring.present)
        (status_from-status ring_rounds tid leader leader rest k ring.present (enough rest ring.few)
          ring.links)

  -- A process that has never made a thread is in no ring: getstatus returns its own state for its
  -- own id, and for any other id follows a null pointer.
  pub getstatus-alone :
      (tid : ℕ) (k : Kernel F)
      → k.machine.proc ≢ 0
      → (k.procs k.machine.proc).group_leader ≡ 0
      → (k.procs k.machine.proc).group_next ≡ 0
      → getstatus tid k ≡ (
          if (k.procs k.machine.proc).tid == tid
          then ok (state_code (k.procs k.machine.proc).state) k
          else fault)
  unfolding getstatus ring_rounds
  getstatus-alone tid k here group alone = ground arith
