-- ===== src/Tests/Logs.antt =====
-- The theorems on the log at a small disk: the log starts at block 2, and block 50 is logged.
use csse332_final_project.Base.{
  ◌≡◌, refl, inl, inr, true, false, ◌∷◌, All, update, arith, if◌then◌else◌, ◌==◌, Bool-cases, ==→eq,
}
use csse332_final_project.Run.{ok}
use csse332_final_project.Buffers.{Disk, Buffers, fresh}
use csse332_final_project.Log.{Log, commit, initlog}
use csse332_final_project.Log.Recover.{Leads, Recovered, initlog-Recovered}
use csse332_final_project.Log.Commit.{IsCommittable, Committed, Survives, commit-Survives}

abbrev blank_disk : Disk
blank_disk = λ _ _. 0

-- Block 50 has been changed in the cache, from zeros to sevens, and logged.
abbrev one_change : Log
one_change = record {
  buffers = record (fresh blank_disk) {
    contents = update blank_disk 50 (λ _. 7);
    pins = update (λ _. 0) 50 1;
  };
  start = 2;
  size = 30;
  outstanding = 0;
  committing = true;
  n = 1;
  block = λ _. 50;
}

committable : IsCommittable one_change
committable = record {
  some_entry = omega arith;
  few = omega arith;
  away = λ i lt. inr (omega arith);
  pinned = λ i lt. omega arith;
  idle = λ q. refl;
  tracked = λ x home. elim (Bool-cases (50 == x)) [
    | inl e ↦ inr (0, omega arith, ==→eq 50 x e)
    | inr e ↦ inl (rw e refl)
  ];
  empty = refl;
  no_past = refl;
}

commit-Survives_example :
    (t : Buffers) × (commit one_change ≡ ok tt (record one_change { buffers = t; n = 0 }))
    × Committed one_change t
    × All (Survives one_change) (t.disk ∷ t.past)
commit-Survives_example = commit-Survives one_change committable

-- The log on this disk holds one entry, for block 50, that has not been copied home.
abbrev crashed : Disk
crashed = update (update blank_disk 2 (λ j. if j == 0 then 1 else 50)) 3 (λ _. 7)

abbrev after_crash : Disk
after_crash = update crashed 50 (λ _. 7)

crashed-Leads : Leads 2 after_crash crashed
crashed-Leads = record {
  few = omega arith;
  away = λ i lt. inr (ground arith);
  installing = record {
    header = refl;
    logged = λ i lt. let e : i ≡ 0 = omega arith in rw e refl;
    homes = λ x home. elim (Bool-cases (50 == x)) [
      | inl e ↦ inr (0, omega arith, omega arith, ==→eq 50 x e)
      | inr e ↦ inl (rw e refl)
    ];
  };
}

initlog-Recovered_example :
    (t : Log) × (initlog 2 31 (fresh crashed) ≡ ok t t.buffers) × Recovered 2 after_crash t
initlog-Recovered_example = initlog-Recovered 2 31 after_crash crashed crashed-Leads

-- A process is within a transaction and has changed block 50.
abbrev changed : Log
changed = record one_change {
  buffers = record (fresh blank_disk) { contents = update blank_disk 50 (λ _. 7) };
  outstanding = 1;
  committing = false;
  n = 0;
}

abbrev quiet_log : Log
quiet_log = record changed { outstanding = 0 }
