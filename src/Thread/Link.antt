-- ===== src/Thread/Link.antt =====
-- How thread_create puts a slot into the ring of its group, and takes it out when it fails.
use csse332_final_project.Base.{
  ℕ, suc, ◌<◌, ◌≡◌, refl, ◌∙◌, ◌≢◌, false, List, [], ◌∷◌, All, length, ◌==◌, arith, subst, sym,
  dec32, ne→==,
}
use csse332_final_project.Run.{ok}
use csse332_final_project.Kernel.{nproc, Proc, Kernel, with_procs}
use csse332_final_project.Thread.{link_thread, unlink_thread}
use csse332_final_project.Thread.Family.{Links, IsRing}
use csse332_final_project.Thread.Tables.{
  IsLoop, linked, unlinked, next-linked, next-unlinked, next-nonnull, Links-linked, Links-unlinked,
  prev-linked, loop-linked, loop-unlinked,
}

-- The slots that link_thread may put behind `leader`.
pub record MayLink (leader np : ℕ) (rest : List ℕ) : Type 0 where
  pub nonnull : np ≢ 0
  pub other : np ≢ leader
  pub fresh : All (λ q. q ≢ np) rest
  pub room : suc (length rest) < nproc

-- The successor in a ring is not a slot outside of it.
next-apart :
    (ps : ℕ → Proc) (leader np p : ℕ) (rest : List ℕ)
    → np ≢ leader
    → All (λ q. q ≢ np) rest
    → Links ps leader p rest
    → np ≢ p
next-apart ps leader np p [] ne fresh e = λ same. ne (same ∙ e)
next-apart ps leader np p (q ∷ rest) ne fresh (e, _, _, _) = λ same. fresh.0 (sym (same ∙ e))

linked-IsRing :
    {F : Type 0} (np leader : ℕ) (rest : List ℕ) (k : Kernel F)
    → IsRing k.procs leader rest
    → MayLink leader np rest
    → IsRing (linked np leader k.procs) leader (np ∷ rest)
linked-IsRing np leader rest k ring may = record {
  present = ring.present;
  few = may.room;
  links = (
    ground (arith, next-linked np leader leader k.procs may.other),
    may.nonnull,
    may.other,
    subst (λ n. Links (linked np leader k.procs) leader n rest)
        (ground (arith, next-linked np leader np k.procs may.other))
        (Links-linked np leader (k.procs leader).group_next rest k.procs may.other may.fresh
          ring.links),
  );
}

module _ {F : Type 0} where
  link_thread-ok :
      (np leader : ℕ) (k : Kernel F)
      → np ≢ 0
      → np ≢ leader
      → leader ≢ 0
      → (k.procs leader).group_next ≢ 0
      → link_thread np leader k ≡ ok tt (with_procs (linked np leader k.procs) k)
  unfolding link_thread
  link_thread-ok np leader k nz ne lz next =
      let here = ne→== leader 0 lz in
      rw (here, here, ne→== np 0 nz, ne→== (k.procs leader).group_next 0 next, here) refl

  unlink_thread-ok :
      (np leader : ℕ) (k : Kernel F)
      → np ≢ 0
      → np ≢ leader
      → leader ≢ 0
      → (k.procs np).group_next ≢ 0
      → (k.procs np).group_prev ≡ leader
      → unlink_thread np leader k ≡ ok tt (with_procs (unlinked np leader k.procs) k)
  unfolding unlink_thread
  unlink_thread-ok np leader k nz ne lz next prev =
      let here = ne→== leader 0 lz in
      let there = ne→== np 0 nz in
      let apart : (leader == np) ≡ false = ground arith in
      rw (there, there, prev, here, there, there, apart, prev, ne→== (k.procs np).group_next 0 next)
        (rw here refl)

  -- Where the group is a ring in both directions, what thread_create does to it succeeds, and the
  -- group is such a ring again, with the new slot np as the first thread behind the leader and the
  -- other threads in their order. The slot's thread id is the leader's child count. No state
  -- changes, and no other id.
  pub link_thread-IsLoop :
      (np leader : ℕ) (rest : List ℕ) (k : Kernel F)
      → IsLoop k.procs leader rest
      → MayLink leader np rest
      → (t : Kernel F) × (link_thread np leader k ≡ ok tt t)
        × IsLoop t.procs leader (np ∷ rest)
        × ((t.procs np).tid ≡ (k.procs leader).num_children)
        × ((t.procs np).group_leader ≡ leader)
        × ((q : ℕ) → (t.procs q).state ≡ (k.procs q).state)
        × ((q : ℕ) → q ≢ np → (t.procs q).tid ≡ (k.procs q).tid)
  link_thread-IsLoop np leader rest k loop may =
      let ring = loop.ring in
      (
        with_procs (linked np leader k.procs) k,
        link_thread-ok np leader k may.nonnull may.other ring.present
            (next-nonnull k.procs leader _ rest ring.present ring.links),
        record {
          ring = linked-IsRing np leader rest k ring may;
          backs =
              (apart, loop-linked np leader rest k.procs may.other may.fresh ring.links loop.backs);
        },
        ground arith,
        ground arith,
        λ q. ground arith,
        λ q ne. ground arith,
      )
    where
      apart : (linked np leader k.procs np).group_prev ≡ leader
      apart = ground (
        arith,
        prev-linked np leader np k.procs,
        next-apart k.procs leader np _ rest may.other may.fresh loop.ring.links,
      )

  -- The cleanup of a failed thread_create takes the slot that stands behind the leader out of the
  -- ring again, in both directions and with the other threads in their order. It takes one from the
  -- leader's counts of active threads and of children, and no state or thread id changes.
  pub unlink_thread-IsLoop :
      (np leader : ℕ) (rest : List ℕ) (k : Kernel F)
      → IsLoop k.procs leader (np ∷ rest)
      → MayLink leader np rest
      → (t : Kernel F) × (unlink_thread np leader k ≡ ok tt t)
        × IsLoop t.procs leader rest
        × ((t.procs leader).ref_count ≡ dec32 (k.procs leader).ref_count)
        × ((t.procs leader).num_children ≡ dec32 (k.procs leader).num_children)
        × ((q : ℕ) → (t.procs q).state ≡ (k.procs q).state)
        × ((q : ℕ) → (t.procs q).tid ≡ (k.procs q).tid)
  unlink_thread-IsLoop np leader rest k loop may =
      let ring = loop.ring in
      let (prev, backs) = loop.backs in
      let (e, nz, ne, links) = ring.links in
      let next = next-nonnull k.procs leader _ rest ring.present links in
      (
        with_procs (unlinked np leader k.procs) k,
        unlink_thread-ok np leader k may.nonnull may.other ring.present next prev,
        record {
          ring = record {
            present = ring.present;
            few = omega (arith, may.room);
            links =
                subst (λ n. Links (unlinked np leader k.procs) leader n rest)
                  (ground (arith, next-unlinked np leader leader k.procs))
                  (Links-unlinked np leader (k.procs np).group_next rest k.procs links);
          };
          backs = loop-unlinked np leader rest k.procs may.fresh links backs;
        },
        ground arith,
        ground arith,
        λ q. ground arith,
        λ q. ground arith,
      )
