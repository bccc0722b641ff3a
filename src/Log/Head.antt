-- ===== src/Log/Head.antt =====
-- write_head and read_head: the header block of the log.
use csse332_final_project.Base.{
  ℕ, zero, suc, ◌+◌, ◌<◌, ◌≤◌, ◌≡◌, ◌≢◌, refl, ◌∙◌, ap, true, ◌∷◌, ltb, update, arith, eq→==,
}
use csse332_final_project.Run.{ok}
use csse332_final_project.Buffers.{Block, Disk, Buffers}
use csse332_final_project.Log.{
  Log, logsize, rounds, store_blocks, load_blocks, write_head, read_head,
}
use csse332_final_project.Log.Rounds.{Idle, same_buffers}

pub rounds-small : (n : ℕ) → n ≤ logsize → rounds n ≡ n
rounds-small n h = ground arith

-- The header with the entries from `i` on stored, of which there are `k`.
filled : ℕ → ℕ → (ℕ → ℕ) → Block → Block
filled zero i block hb = hb
filled (suc k) i block hb = filled k (i + 1) block (update hb (i + 1) (block i))

filled-below : (k i j : ℕ) (block : ℕ → ℕ) (hb : Block) → j ≤ i → filled k i block hb j ≡ hb j
unfolding filled
filled-below zero i j block hb h = refl
filled-below (suc k) i j block hb h =
    filled-below k (i + 1) j block (update hb (i + 1) (block i)) (omega arith) ∙ ground arith

filled-entry :
    (k i j : ℕ) (block : ℕ → ℕ) (hb : Block)
    → i ≤ j
    → j < i + k
    → filled k i block hb (j + 1) ≡ block j
unfolding filled
filled-entry zero i j block hb lo hi = absurd (omega arith)
filled-entry (suc k) i j block hb lo hi =
    let hb' = update hb (i + 1) (block i) in
    ground (arith, filled-below k (i + 1) (j + 1) block hb', filled-entry k (i + 1) j block hb')

store_blocks-filled :
    (k i : ℕ) (l : Log)
    → (c : Disk) × (store_blocks k i l
        ≡ ok tt (record l { buffers = record l.buffers { contents = c } }))
      × ((q : ℕ) → q ≢ l.start → c q ≡ l.buffers.contents q)
      × (c l.start ≡ filled k i l.block (l.buffers.contents l.start))
unfolding store_blocks filled
store_blocks-filled zero i l = (l.buffers.contents, refl, λ q ne. refl, refl)
store_blocks-filled (suc k) i l =
    let hb = l.buffers.contents l.start in
    let c = update l.buffers.contents l.start (update hb (i + 1) (l.block i)) in
    let l' = record l { buffers = record l.buffers { contents = c } } in
    let (d, run, others, head) = store_blocks-filled k (i + 1) l' in
    (
      d,
      run,
      λ q ne. others q ne ∙ ground arith,
      head ∙ ap (filled k (i + 1) l.block) (ground arith),
    )

-- What write_head leaves: the header on disk, and nothing else.
pub record HeadWritten (l : Log) (u : Buffers) : Type 0 where
  pub idle : Idle u
  pub count : u.disk l.start 0 ≡ l.n
  pub entries : (j : ℕ) → j < l.n → u.disk l.start (j + 1) ≡ l.block j
  pub others : (q : ℕ) → q ≢ l.start → u.disk q ≡ l.buffers.disk q
  pub cached : (q : ℕ) → q ≢ l.start → u.contents q ≡ l.buffers.contents q
  pub pins : u.pins ≡ l.buffers.pins
  pub past : u.past ≡ l.buffers.disk ∷ l.buffers.past

pub write_head-HeadWritten :
    (l : Log)
    → Idle l.buffers
    → l.n ≤ logsize
    → (u : Buffers) × (write_head l ≡ ok tt (record l { buffers = u })) × HeadWritten l u
unfolding write_head
write_head-HeadWritten l idle few =
    let b = l.buffers in
    let s = l.start in
    let l1 : Log = record l {
      buffers = record b {
        held = update b.held s true;
        contents = update b.contents s (update (b.contents s) 0 l.n);
      };
    } in
    let (c, run, others, head) = store_blocks-filled l.n 0 l1 in
    let hb = update (b.contents s) 0 l.n in
    let header : c s ≡ filled l.n 0 l.block hb =
      head ∙ ap (filled l.n 0 l.block) (rw (eq→== s s refl)) in
    let u : Buffers = record b {
      disk = update b.disk s (c s);
      contents = c;
      held = b.held;
      past = b.disk ∷ b.past;
    } in
    (
      u,
      rw (idle s, rounds-small l.n few, run, eq→== s s refl, eq→== s s refl)
          (ap (λ x. ok tt (record l { buffers = x }))
            (same_buffers _ _ refl (λ q. ground arith) (λ q. ground (arith, idle s)) refl refl)),
      record {
        idle = idle;
        count =
            rw (eq→== s s refl)
              (ap (λ (f : Block). f 0) header ∙ filled-below l.n 0 0 l.block hb (omega arith));
        entries = λ j lt. rw (eq→== s s refl) (
            ap (λ (f : Block). f (j + 1)) header
            ∙ filled-entry l.n 0 j l.block hb (omega arith) (omega arith));
        others = λ q ne. ground arith;
        cached = λ q ne. others q ne ∙ ground arith;
        pins = refl;
        past = refl;
      },
    )

load_blocks-filled :
    (k i : ℕ) (l : Log)
    → i + k ≤ logsize
    → (block : ℕ → ℕ) × (load_blocks k i l ≡ ok tt (record l { block = block }))
      × ((j : ℕ) → j < i → block j ≡ l.block j)
      × ((j : ℕ) → i ≤ j → j < i + k → block j ≡ l.buffers.contents l.start (j + 1))
unfolding load_blocks
load_blocks-filled zero i l few = (l.block, refl, λ j lt. refl, λ j lo hi. absurd (omega arith))
load_blocks-filled (suc k) i l few =
    let block = update l.block i (l.buffers.contents l.start (i + 1)) in
    let (b, run, below, loaded) =
      load_blocks-filled k (i + 1) (record l { block = block }) (omega arith) in
    let fits : ltb i logsize ≡ true = ground arith in
    (
      b,
      rw fits run,
      λ j lt. below j (omega arith) ∙ ground arith,
      λ j lo hi. ground (arith, below j, loaded j),
    )

-- read_head loads the header into memory, and leaves all else as it was.
pub read_head-loads :
    (l : Log)
    → Idle l.buffers
    → l.buffers.contents l.start ≡ l.buffers.disk l.start
    → l.buffers.contents l.start 0 ≤ logsize
    → let n = l.buffers.contents l.start 0 in
      (block : ℕ → ℕ) × (read_head l ≡ ok tt (record l { n = n; block = block }))
      × ((j : ℕ) → j < n → block j ≡ l.buffers.contents l.start (j + 1))
unfolding read_head
read_head-loads l idle clean few =
    let b = l.buffers in
    let s = l.start in
    let n = b.contents s 0 in
    let l1 : Log = record l { buffers = record b { held = update b.held s true }; n = n } in
    let (block, run, below, loaded) = load_blocks-filled n 0 l1 (omega arith) in
    (
      block,
      rw (idle s, rounds-small n few, run, eq→== s s refl)
          (ap (λ x. ok tt (record l { n = n; block = block; buffers = x }))
            (same_buffers _ _ refl (λ q. ground (arith, clean)) (λ q. ground (arith, idle s)) refl
              refl)),
      λ j lt. loaded j (omega arith) (omega arith),
    )
