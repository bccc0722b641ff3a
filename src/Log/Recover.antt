-- ===== src/Log/Recover.antt =====
-- recover_from_log: what a boot makes of a disk.
use csse332_final_project.Base.{
  ℕ, ◌+◌, ◌<◌, ◌≤◌, ◌≡◌, refl, sym, ◌∙◌, ap, inl, inr, true, false, ◌∷◌, All, arith,
}
use csse332_final_project.Run.{ok}
use csse332_final_project.Buffers.{Block, Disk, fresh}
use csse332_final_project.Log.{Log, logsize, install_trans, recover_from_log, initlog}
use csse332_final_project.Log.Head.{rounds-small, read_head-loads, write_head-HeadWritten}
use csse332_final_project.Log.Install.{IsHome, Installing, Steady, install_from-Installing}

-- The number of entries in the header on a disk, and its entries.
abbrev pub count_on : ℕ → Disk → ℕ
count_on start d = d start 0

abbrev pub entry_on : ℕ → Disk → ℕ → ℕ
entry_on start d i = d start (i + 1)

-- A disk whose log, if it is copied home, makes the home blocks those of `new`.
pub record Leads (start : ℕ) (new d : Disk) : Type 0 where
  pub few : count_on start d ≤ logsize
  pub away : (i : ℕ) → i < count_on start d → IsHome start (entry_on start d i)
  pub installing : Installing start (count_on start d) (entry_on start d) new (d start) 0 d

Installing-entries :
    {start n : ℕ} {block block' : ℕ → ℕ} {new : Disk} {hd : Block} {d : Disk}
    → ((j : ℕ) → j < n → block' j ≡ block j)
    → Installing start n block new hd 0 d
    → Installing start n block' new hd 0 d
Installing-entries {new} e h = record {
  header = h.header;
  logged = λ i lt. h.logged i lt ∙ ap new (sym (e i lt));
  homes = λ x home. elim (h.homes x home) [
    | inl same ↦ inl same
    | inr (i, lo, hi, at) ↦ inr (i, lo, hi, e i hi ∙ at)
  ];
}

pub Installing-done :
    {start n : ℕ} {block : ℕ → ℕ} {new : Disk} {hd : Block} {d : Disk}
    → Installing start n block new hd n d
    → (x : ℕ) → IsHome start x
    → d x ≡ new x
Installing-done h x home = elim (h.homes x home) [
  | inl same ↦ same
  | inr (i, lo, hi, at) ↦ absurd (omega arith)
]

pub Leads-empty :
    (start : ℕ) (new d : Disk)
    → d start 0 ≡ 0
    → ((x : ℕ) → IsHome start x → d x ≡ new x)
    → Leads start new d
Leads-empty start new d none homes = record {
  few = omega (arith, none);
  away = λ i lt. absurd (omega (arith, none));
  installing = record {
    header = refl;
    logged = λ i lt. absurd (omega (arith, none));
    homes = λ x home. inl (homes x home);
  };
}

pub Leads-Installing :
    (start n : ℕ) (block : ℕ → ℕ) (new d : Disk) (hd : Block)
    → n ≤ logsize
    → hd 0 ≡ n
    → ((i : ℕ) → i < n → hd (i + 1) ≡ block i)
    → ((i : ℕ) → i < n → IsHome start (block i))
    → Installing start n block new hd 0 d
    → Leads start new d
Leads-Installing start n block new d hd few count entries away h =
    let count' : d start 0 ≡ n = ap (λ (f : Block). f 0) h.header ∙ count in
    let entry : (i : ℕ) → i < n → d start (i + 1) ≡ block i =
      λ i lt. ap (λ (f : Block). f (i + 1)) h.header ∙ entries i lt in
    record {
      few = omega (arith, count');
      away = λ i lt. let lt' : i < n = omega (arith, count') in rw (entry i lt') (away i lt');
      installing = record {
        header = refl;
        logged = λ i lt.
            let lt' : i < n = omega (arith, count') in h.logged i lt' ∙ ap new (sym (entry i lt'));
        homes = λ x home. elim (h.homes x home) [
          | inl same ↦ inl same
          | inr (i, lo, hi, at) ↦ inr (i, lo, omega (arith, count'), entry i hi ∙ at)
        ];
      };
    }

-- The log after a boot: it is empty, and the disk's home blocks are those of `new`.
pub record Recovered (start : ℕ) (new : Disk) (t : Log) : Type 0 where
  pub empty : t.n ≡ 0
  pub cleared : count_on start t.buffers.disk ≡ 0
  pub homes : (x : ℕ) → IsHome start x → t.buffers.disk x ≡ new x
  pub crashes : All (Leads start new) (t.buffers.disk ∷ t.buffers.past)

-- From a disk whose log leads to `new`, initlog returns with `new` in place and the log empty; and
-- each disk that a crash in the middle of it leaves leads to `new` again.
pub initlog-Recovered :
    (start size : ℕ) (new d : Disk)
    → Leads start new d
    → (t : Log) × (initlog start size (fresh d) ≡ ok t t.buffers) × Recovered start new t
unfolding initlog recover_from_log install_trans
initlog-Recovered start size new d h =
    let n = count_on start d in
    let l : Log = record {
      buffers = fresh d;
      start = start;
      size = size;
      outstanding = 0;
      committing = false;
      n = 0;
      block = λ _. 0;
    } in
    let (block, read, loaded) = read_head-loads l (λ q. refl) refl h.few in
    let l1 : Log = record l { n = n; block = block } in
    let away : (i : ℕ) → i < n → IsHome start (block i) = λ i lt. rw (loaded i lt) (h.away i lt) in
    let s : Steady (Leads start new) start n (fresh d) = record {
      idle = λ q. refl;
      same = λ i lt. refl;
      now = h;
      before = tt;
    } in
    let (u, install, done, s') =
      install_from-Installing (Leads start new) new (d start) true n 0 l1 h.few (omega arith) away
        (λ d' at.
          Leads-Installing start n block new d' (d start) h.few refl (λ i lt. sym (loaded i lt))
            away at)
        (Installing-entries loaded h.installing) s in
    let l2 : Log = record l1 { buffers = u; n = 0 } in
    let (v, wrote, w) = write_head-HeadWritten l2 s'.idle (omega arith) in
    let homes : (x : ℕ) → IsHome start x → v.disk x ≡ new x =
      λ x home. w.others x (λ e. ground arith) ∙ Installing-done done x home in
    (
      record l2 { buffers = v },
      rw (read, rounds-small n h.few, install, wrote) refl,
      record {
        empty = refl;
        cleared = w.count;
        homes = homes;
        crashes = (Leads-empty start new v.disk w.count homes, rw w.past (s'.now, s'.before));
      },
    )
