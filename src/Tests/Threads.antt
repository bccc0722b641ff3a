-- ===== src/Tests/Threads.antt =====
-- The theorems on thread groups at a leader with two threads.
use csse332_final_project.Base.{ℕ, ◌≡◌, refl, ◌≢◌, [], ◌∷◌, arith}
use csse332_final_project.Run.{ok, fault}
use csse332_final_project.Kernel.{Kernel}
use csse332_final_project.Thread.{getstatus, link_thread, unlink_thread}
use csse332_final_project.Thread.Family.{IsRing, getstatus-status_of, getstatus-alone}
use csse332_final_project.Thread.Tables.{IsLoop}
use csse332_final_project.Thread.Link.{MayLink, link_thread-IsLoop, unlink_thread-IsLoop}
use csse332_final_project.Tests.{with_table, family, group}

abbrev team : Kernel (Unit {0})
team = with_table group

ring : IsRing group 1 (3 ∷ 2 ∷ [])
ring = record {
  present = omega arith;
  few = omega arith;
  links = (
    refl,
    (λ e. omega arith),
    (λ e. omega arith),
    (refl, (λ e. omega arith), (λ e. omega arith), refl),
  );
}

loop : IsLoop group 1 (3 ∷ 2 ∷ [])
loop = record { ring = ring; backs = (refl, (refl, refl)) }

-- The thread of id 2 sleeps.
getstatus-status_of_example : getstatus 2 team ≡ ok 2 team
getstatus-status_of_example = getstatus-status_of 2 1 (3 ∷ 2 ∷ []) team (λ e. omega arith) refl ring

-- The first call of getstatus for another thread, in a process that has made none.
getstatus-alone_example : getstatus 1 (with_table family) ≡ fault
getstatus-alone_example = getstatus-alone 1 (with_table family) (λ e. omega arith) refl refl

may_link : MayLink 1 4 (3 ∷ 2 ∷ [])
may_link = record {
  nonnull = omega arith;
  other = omega arith;
  fresh = ((λ e. omega arith), ((λ e. omega arith), tt));
  room = omega arith;
}

link_thread-IsLoop_example :
    (t : Kernel (Unit {0})) × (link_thread 4 1 team ≡ ok tt t)
    × IsLoop t.procs 1 (4 ∷ 3 ∷ 2 ∷ [])
    × ((t.procs 4).tid ≡ 2)
    × ((t.procs 4).group_leader ≡ 1)
    × ((q : ℕ) → (t.procs q).state ≡ (group q).state)
    × ((q : ℕ) → q ≢ 4 → (t.procs q).tid ≡ (group q).tid)
link_thread-IsLoop_example = link_thread-IsLoop 4 1 (3 ∷ 2 ∷ []) team loop may_link

may_unlink : MayLink 1 3 (2 ∷ [])
may_unlink = record {
  nonnull = omega arith;
  other = omega arith;
  fresh = ((λ e. omega arith), tt);
  room = omega arith;
}

unlink_thread-IsLoop_example :
    (t : Kernel (Unit {0})) × (unlink_thread 3 1 team ≡ ok tt t)
    × IsLoop t.procs 1 (2 ∷ [])
    × ((t.procs 1).ref_count ≡ 2)
    × ((t.procs 1).num_children ≡ 1)
    × ((q : ℕ) → (t.procs q).state ≡ (group q).state)
    × ((q : ℕ) → (t.procs q).tid ≡ (group q).tid)
unlink_thread-IsLoop_example = unlink_thread-IsLoop 3 1 (2 ∷ []) team loop may_unlink
