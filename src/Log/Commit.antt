-- ===== src/Log/Commit.antt =====
-- commit: what is on the disk wherever the power fails.
use csse332_final_project.Base.{
  ℕ, ◌+◌, ◌<◌, ◌≤◌, ◌≡◌, ◌≢◌, refl, sym, ◌∙◌, ap, ◌⊎◌, inl, inr, true, false, List, [], pos32, ◌∷◌,
  All, arith,
}
use csse332_final_project.Run.{ok}
use csse332_final_project.Buffers.{Block, Disk, Buffers, fresh}
use csse332_final_project.Log.{Log, logsize, write_log, install_trans, commit, initlog, write_head}
use csse332_final_project.Log.Rounds.{Idle}
use csse332_final_project.Log.Writing.{Logging, write_from-Logging}
use csse332_final_project.Log.Head.{rounds-small, write_head-HeadWritten, HeadWritten}
use csse332_final_project.Log.Install.{IsHome, Installing, Steady, install_from-Installing}
use csse332_final_project.Log.Recover.{
  Leads, Leads-empty, Leads-Installing, Installing-done, Recovered, initlog-Recovered,
}

-- A log whose last operation has ended: its entries are pinned blocks outside the log, every other
-- block is on disk as the cache has it, and the log on disk is empty.
pub record IsCommittable (l : Log) : Type 0 where
  pub some_entry : 0 < l.n
  pub few : l.n ≤ logsize
  pub away : (i : ℕ) → i < l.n → IsHome l.start (l.block i)
  pub pinned : (i : ℕ) → i < l.n → l.buffers.pins (l.block i) ≢ 0
  pub idle : Idle l.buffers
  pub tracked :
      (x : ℕ)
      → IsHome l.start x
      → (l.buffers.disk x ≡ l.buffers.contents x) ⊎ ((i : ℕ) × (i < l.n) × (l.block i ≡ x))
  pub empty : l.buffers.disk l.start 0 ≡ 0
  pub no_past : l.buffers.past ≡ []

-- What a boot makes of a disk `d` that a crash has left: all blocks as they were on disk before the
-- commit, or all as the cache had them.
abbrev pub Survives : Log → Disk → Type 0
Survives l d =
    (t : Log) × (initlog l.start l.size (fresh d) ≡ ok t t.buffers)
    × ((Recovered l.start l.buffers.disk t) ⊎ (Recovered l.start l.buffers.contents t))

abbrev Decided : Log → Disk → Type 0
Decided l d = Leads l.start l.buffers.disk d ⊎ Leads l.start l.buffers.contents d

Survives-Decided : (l : Log) (d : Disk) → Decided l d → Survives l d
Survives-Decided l d (inl h) =
    let (t, run, r) = initlog-Recovered l.start l.size l.buffers.disk d h in (t, run, inl r)
Survives-Decided l d (inr h) =
    let (t, run, r) = initlog-Recovered l.start l.size l.buffers.contents d h in (t, run, inr r)

All-Survives : (l : Log) (ds : List Disk) → All (Decided l) ds → All (Survives l) ds
All-Survives l [] h = tt
All-Survives l (d ∷ ds) (h, hs) = (Survives-Decided l d h, All-Survives l ds hs)

-- The state after commit: every block is on disk as the cache had it, the log is empty in memory
-- and on disk, and no buffer is in use.
pub record Committed (l : Log) (t : Buffers) : Type 0 where
  pub homes : (x : ℕ) → IsHome l.start x → t.disk x ≡ l.buffers.contents x
  pub empty : t.disk l.start 0 ≡ 0
  pub idle : Idle t

-- After the header has been written.
record Sealed (l : Log) (v : Buffers) : Type 0 where
  count : v.disk l.start 0 ≡ l.n
  entries : (i : ℕ) → i < l.n → v.disk l.start (i + 1) ≡ l.block i
  installing : Installing l.start l.n l.block l.buffers.contents (v.disk l.start) 0 v.disk
  steady : Steady (Decided l) l.start l.n v

module _ (l : Log) (h : IsCommittable l) where
  untouched :
      (d : Disk)
      → d l.start ≡ l.buffers.disk l.start
      → ((x : ℕ) → IsHome l.start x → d x ≡ l.buffers.disk x)
      → Decided l d
  untouched d head homes =
      inl (Leads-empty l.start l.buffers.disk d (ap (λ (f : Block). f 0) head ∙ h.empty) homes)

  abbrev Logged : Buffers → Type 0
  Logged = Logging (Decided l) l.start l.n l.block l.buffers.contents l.buffers.disk l.n

  write_log-Logged : (u : Buffers) × (write_log l ≡ ok tt (record l { buffers = u })) × Logged u
  unfolding write_log
  write_log-Logged = rw (rounds-small l.n h.few) (
      write_from-Logging (Decided l) l.buffers.contents l.buffers.disk l.n 0 l h.few (omega arith)
        h.away untouched
        (record {
          idle = h.idle;
          pinned = h.pinned;
          cached = λ x home. refl;
          same = λ i lt. absurd (omega arith);
          logged = λ i lt. absurd (omega arith);
          header = refl;
          homes = λ x home. refl;
          before = rw h.no_past tt;
        }))

  Installing-Decided :
      (hd : Block) (d : Disk)
      → hd 0 ≡ l.n
      → ((i : ℕ) → i < l.n → hd (i + 1) ≡ l.block i)
      → Installing l.start l.n l.block l.buffers.contents hd 0 d
      → Decided l d
  Installing-Decided hd d count entries at =
      inr
        (Leads-Installing l.start l.n l.block l.buffers.contents d hd h.few count entries h.away at)

  Sealed-HeadWritten :
      (u v : Buffers) → Logged u → HeadWritten (record l { buffers = u }) v → Sealed l v
  Sealed-HeadWritten u v w hw =
      let at : Installing l.start l.n l.block l.buffers.contents (v.disk l.start) 0 v.disk =
        record {
          header = refl;
          logged = λ i lt. hw.others (l.start + i + 1) (λ e. omega arith) ∙ w.logged i lt;
          homes = λ x home. elim (h.tracked x home) [
            | inl same ↦ inl (hw.others x (λ e. ground arith) ∙ w.homes x home ∙ same)
            | inr (i, lt, e) ↦ inr (i, omega arith, lt, e)
          ];
        } in
      record {
        count = hw.count;
        entries = hw.entries;
        installing = at;
        steady = record {
          idle = hw.idle;
          same = λ i lt.
              hw.cached (l.start + i + 1) (λ e. omega arith)
              ∙ w.same i lt
              ∙ sym (hw.others (l.start + i + 1) (λ e. omega arith));
          now = Installing-Decided (v.disk l.start) v.disk hw.count hw.entries at;
          before = rw hw.past (untouched u.disk w.header w.homes, w.before);
        };
      }

  install_trans-Sealed :
      (v : Buffers)
      → Sealed l v
      → (z : Buffers) × (install_trans false (record l { buffers = v })
          ≡ ok tt (record l { buffers = z }))
        × ((x : ℕ) → IsHome l.start x → z.disk x ≡ l.buffers.contents x)
        × Steady (Decided l) l.start l.n z
  unfolding install_trans
  install_trans-Sealed v q =
      let hd = v.disk l.start in
      let (z, run, done, s) =
        install_from-Installing (Decided l) l.buffers.contents hd false l.n 0
          (record l { buffers = v }) h.few (omega arith) h.away
          (λ d at. Installing-Decided hd d q.count q.entries at) q.installing q.steady in
      (z, rw (rounds-small l.n h.few) run, λ x home. Installing-done done x home, s)

  write_head-Committed :
      (z t : Buffers)
      → ((x : ℕ) → IsHome l.start x → z.disk x ≡ l.buffers.contents x)
      → Steady (Decided l) l.start l.n z
      → HeadWritten (record l { buffers = z; n = 0 }) t
      → Committed l t × All (Decided l) (t.disk ∷ t.past)
  write_head-Committed z t homes s w =
      let homes' : (x : ℕ) → IsHome l.start x → t.disk x ≡ l.buffers.contents x =
        λ x home. w.others x (λ e. ground arith) ∙ homes x home in
      (
        record { homes = homes'; empty = w.count; idle = w.idle },
        (
          inr (Leads-empty l.start l.buffers.contents t.disk w.count homes'),
          rw w.past (s.now, s.before),
        ),
      )

  commit-runs :
      (u v z t : Buffers)
      → write_log l ≡ ok tt (record l { buffers = u })
      → write_head (record l { buffers = u }) ≡ ok tt (record l { buffers = v })
      → install_trans false (record l { buffers = v }) ≡ ok tt (record l { buffers = z })
      → write_head (record l { buffers = z; n = 0 }) ≡ ok tt (record l { buffers = t; n = 0 })
      → commit l ≡ ok tt (record l { buffers = t; n = 0 })
  unfolding commit
  commit-runs u v z t log head install clear =
      let some : pos32 l.n ≡ true = ground (arith, h.some_entry, h.few) in
      rw (some, log, head, install, clear) refl

  -- commit returns with the whole transaction on disk. And wherever it is cut short, the next boot
  -- finds the blocks from before the transaction, or those from after it, and never a mixture.
  pub commit-Survives :
      (t : Buffers) × (commit l ≡ ok tt (record l { buffers = t; n = 0 }))
      × Committed l t
      × All (Survives l) (t.disk ∷ t.past)
  commit-Survives =
      let (u, log, w) = write_log-Logged in
      let (v, head, hw) = write_head-HeadWritten (record l { buffers = u }) w.idle h.few in
      let (z, install, homes, s) = install_trans-Sealed v (Sealed-HeadWritten u v w hw) in
      let (t, clear, tw) =
        write_head-HeadWritten (record l { buffers = z; n = 0 }) s.idle (omega arith) in
      let (done, crashes) = write_head-Committed z t homes s tw in
      (
        t,
        commit-runs u v z t log head install clear,
        done,
        All-Survives l (t.disk ∷ t.past) crashes,
      )
