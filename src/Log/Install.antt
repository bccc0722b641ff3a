-- ===== src/Log/Install.antt =====
-- install_trans: copying the logged blocks home, and what the disk is like in the middle of it.
use csse332_final_project.Base.{
  ℕ, zero, suc, ◌+◌, ◌<◌, ◌≤◌, ◌≡◌, ◌≢◌, refl, sym, ◌∙◌, ap, subst, ◌⊎◌, inl, inr, Bool, All, ◌==◌,
  update, arith, Bool-cases, ==→eq,
}
use csse332_final_project.Run.{ok}
use csse332_final_project.Buffers.{Block, Disk, Buffers}
use csse332_final_project.Log.{Log, logsize, install_from}
use csse332_final_project.Log.Rounds.{Idle, written, unpinned, install_round-written}

-- A block that is neither the log's header nor one of its blocks.
abbrev pub IsHome : ℕ → ℕ → Type 0
IsHome start x = (x < start) ⊎ (start + logsize < x)

-- A disk whose header is `hd`, whose log holds the blocks `new` of the homes `block`, and on which
-- all but the entries from `tail` on have been copied home.
pub record Installing (start n : ℕ) (block : ℕ → ℕ) (new : Disk) (hd : Block) (tail : ℕ) (d : Disk)
    : Type 0 where
  pub header : d start ≡ hd
  pub logged : (i : ℕ) → i < n → d (start + i + 1) ≡ new (block i)
  pub homes :
      (x : ℕ) → IsHome start x → (d x ≡ new x) ⊎ ((i : ℕ) × (tail ≤ i) × (i < n) × (block i ≡ x))

module _ (start n : ℕ) (block : ℕ → ℕ) (new : Disk) (hd : Block) where
  pub Installing-weaken :
      {tail : ℕ} {d : Disk}
      → Installing start n block new hd tail d
      → Installing start n block new hd 0 d
  Installing-weaken h = record {
    header = h.header;
    logged = h.logged;
    homes = λ x home. elim (h.homes x home) [
      | inl e ↦ inl e
      | inr (i, lo, hi, e) ↦ inr (i, omega arith, hi, e)
    ];
  }

  next-homes :
      (tail : ℕ) (d : Disk) (x : ℕ)
      → (d x ≡ new x) ⊎ ((i : ℕ) × (tail ≤ i) × (i < n) × (block i ≡ x))
      → (update d (block tail) (new (block tail)) x ≡ new x)
        ⊎ ((i : ℕ) × (tail + 1 ≤ i) × (i < n) × (block i ≡ x))
  next-homes tail d x old = elim (Bool-cases (block tail == x)) [
    | inl here ↦ let e = ==→eq (block tail) x here in rw here (inl (ap new e))
    | inr away ↦ rw away (elim old [
      | inl e ↦ inl e
      | inr (i, lo, hi, e) ↦ elim (Bool-cases (tail == i)) [
        | inl this ↦ absurd (ground (arith, ap block (==→eq tail i this)))
        | inr later ↦ inr (i, ground arith, hi, e)
      ]
    ])
  ]

  Installing-next :
      (tail : ℕ) (d : Disk) (v : Block)
      → n ≤ logsize
      → tail < n
      → ((i : ℕ) → i < n → IsHome start (block i))
      → v ≡ new (block tail)
      → Installing start n block new hd tail d
      → Installing start n block new hd (tail + 1) (update d (block tail) v)
  Installing-next tail d v few more away e h = record {
    header = ground (arith, h.header, away tail more);
    logged = λ i lt. ground (arith, h.logged i lt, away tail more);
    homes = λ x home. rw e (next-homes tail d x (h.homes x home));
  }

-- What a loop of the log has to keep: nobody uses a buffer, the cache and the disk agree on the
-- log's blocks, and `P` holds of the disk and of every disk before.
pub record Steady (P : Disk → Type 0) (start n : ℕ) (b : Buffers) : Type 0 where
  pub idle : Idle b
  pub same : (i : ℕ) → i < n → b.contents (start + i + 1) ≡ b.disk (start + i + 1)
  pub now : P b.disk
  pub before : All P b.past

module _ (P : Disk → Type 0) (new : Disk) (hd : Block) where
  pub install_from-Installing :
      (recovering : Bool) (k tail : ℕ) (l : Log)
      → l.n ≤ logsize
      → tail + k ≡ l.n
      → ((i : ℕ) → i < l.n → IsHome l.start (l.block i))
      → ((d : Disk) → Installing l.start l.n l.block new hd 0 d → P d)
      → Installing l.start l.n l.block new hd tail l.buffers.disk
      → Steady P l.start l.n l.buffers
      → (u : Buffers) × (install_from k recovering tail l ≡ ok tt (record l { buffers = u }))
        × Installing l.start l.n l.block new hd l.n u.disk
        × Steady P l.start l.n u
  unfolding install_from
  install_from-Installing recovering zero tail l few all away safe h s =
      let e : tail ≡ l.n = omega arith in
      (l.buffers, refl, subst (λ t. Installing l.start l.n l.block new hd t l.buffers.disk) e h, s)
  install_from-Installing recovering (suc k) tail l few all away safe h s =
      let more : tail < l.n = omega arith in
      let from = l.start + tail + 1 in
      let b = written (l.block tail) from l.buffers in
      let c = record b { pins = unpinned recovering (l.block tail) b.pins } in
      let apart : from ≢ l.block tail = λ e. ground (arith, away tail more) in
      let logged = s.same tail more ∙ h.logged tail more in
      let h' =
        Installing-next l.start l.n l.block new hd tail l.buffers.disk (l.buffers.contents from) few
          more away logged h in
      let s' : Steady P l.start l.n c = record {
        idle = s.idle;
        same = λ i lt. ground (arith, s.same i lt, away tail more);
        now = safe _ (Installing-weaken l.start l.n l.block new hd h');
        before = (s.now, s.before);
      } in
      rw (install_round-written recovering tail l s.idle apart (λ _. sym (s.same tail more))) (
        install_from-Installing recovering k (tail + 1) (record l { buffers = c }) few (omega arith)
          away safe h' s')
