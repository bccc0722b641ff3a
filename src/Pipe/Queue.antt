-- ===== src/Pipe/Queue.antt =====
-- The bytes of a pipe as a bounded queue.
use csse332_final_project.Base.{
  ℕ, zero, suc, ◌+◌, ◌-◌, ◌%◌, ◌^◌, ◌<◌, ◌≤◌, ◌≡◌, ◌≢◌, refl, ◌∙◌, ap, sym, inl, inr, true, false,
  List, [], ◌∷◌, ◌++◌, length, ltb, not, ==→eq, ==-ne, inc32, arith, Bool-cases, eq→==, ne→==,
}
use csse332_final_project.Pipe.{Pipe, pipesize, is_full, is_empty, put, next_byte, advance}

abbrev count : Pipe → ℕ
count p = (p.nwrite + 2 ^ 32 - p.nread) % 2 ^ 32

-- The `k` bytes from counter `i` on.
held : ℕ → ℕ → Pipe → List ℕ
held zero i p = []
held (suc k) i p = p.bytes (i % pipesize) ∷ held k (inc32 i) p

-- The bytes in the pipe, the oldest first.
pub queue : Pipe → List ℕ
unfolding held
queue p = held (count p) p.nread p

pub record IsPipe (p : Pipe) : Type 0 where
  pub read : p.nread < 2 ^ 32
  pub write : p.nwrite < 2 ^ 32
  pub fits : (p.nwrite + 2 ^ 32 - p.nread) % 2 ^ 32 ≤ pipesize

-- A byte that is put behind the k bytes leaves them as they are.
held-put :
    (k d i ch : ℕ) (p : Pipe)
    → p.nwrite ≡ (i + k + d) % 2 ^ 32
    → k + d < pipesize
    → i < 2 ^ 32
    → held k i (put ch p) ≡ held k i p
unfolding held put
held-put zero d i ch p e small lt = refl
held-put (suc k) d i ch p e small lt =
    let away : p.nwrite % pipesize ≢ i % pipesize = omega arith in
    rw
      (
        ne→== (p.nwrite % pipesize) (i % pipesize) away,
        held-put k d (inc32 i) ch p (omega arith) (omega arith) (omega arith),
      )
      refl

held-append :
    (k i : ℕ) (p : Pipe)
    → i < 2 ^ 32
    → held (suc k) i p ≡ held k i p ++ p.bytes ((i + k) % 2 ^ 32 % pipesize) ∷ []
unfolding held
held-append zero i p lt = ap (λ j. p.bytes j ∷ []) (omega arith)
held-append (suc k) i p lt =
    let same : (inc32 i + k) % 2 ^ 32 % pipesize ≡ (i + suc k) % 2 ^ 32 % pipesize = omega arith in
    ap (λ xs. p.bytes (i % pipesize) ∷ xs)
      (held-append k (inc32 i) p (omega arith)
        ∙ ap (λ j. held k (inc32 i) p ++ p.bytes j ∷ []) same)

held-next : (k : ℕ) (p : Pipe) → held (suc k) p.nread p ≡ next_byte p ∷ held k (inc32 p.nread) p
unfolding held
held-next k p = refl

held-advance : (k i : ℕ) (p : Pipe) → held k i (advance p) ≡ held k i p
unfolding held advance
held-advance zero i p = refl
held-advance (suc k) i p = ap (λ xs. p.bytes (i % pipesize) ∷ xs) (held-advance k (inc32 i) p)

length-held : (k i : ℕ) (p : Pipe) → length (held k i p) ≡ k
unfolding held
length-held zero i p = refl
length-held (suc k) i p = ap suc (length-held k (inc32 i) p)

module _ (p : Pipe) (ok : IsPipe p) where
  length-queue : ltb (length (queue p)) pipesize ≡ not (is_full p)
  unfolding queue
  length-queue =
      let lt = ok.read in
      let lt2 = ok.write in
      let most = ok.fits in rw (length-held (count p) p.nread p) (ground arith)

  count-room : is_full p ≡ false → count p < pipesize
  count-room room =
      let lt = ok.read in
      let lt2 = ok.write in
      let most = ok.fits in
      let ne = ==-ne p.nwrite ((p.nread + pipesize) % 2 ^ 32) room in omega arith

  put-IsPipe : (ch : ℕ) → is_full p ≡ false → IsPipe (put ch p)
  unfolding put
  put-IsPipe ch room =
      let small = count-room room in
      let lt = ok.read in
      let lt2 = ok.write in record { read = ok.read; write = omega arith; fits = omega arith }

  count-put : (ch : ℕ) → is_full p ≡ false → count (put ch p) ≡ suc (count p)
  unfolding put
  count-put ch room =
      let small = count-room room in let lt = ok.read in let lt2 = ok.write in omega arith

  -- The byte at the end is the one that has been put there.
  last-put : (ch : ℕ) → (put ch p).bytes ((p.nread + count p) % 2 ^ 32 % pipesize) ≡ ch
  unfolding put
  last-put ch =
      let lt = ok.read in
      let lt2 = ok.write in
      let here : (p.nread + count p) % 2 ^ 32 ≡ p.nwrite = omega arith in
      rw (here, eq→== (p.nwrite % pipesize) (p.nwrite % pipesize) refl) refl

  put-held :
      (ch : ℕ)
      → held (suc (count p)) (put ch p).nread (put ch p) ≡ held (suc (count p)) p.nread (put ch p)
  unfolding put
  put-held ch = refl

  queue-put : (ch : ℕ) → is_full p ≡ false → queue (put ch p) ≡ queue p ++ ch ∷ []
  unfolding queue
  queue-put ch room =
      let small = count-room room in
      let lt = ok.read in
      let lt2 = ok.write in
      let here : p.nwrite ≡ (p.nread + count p + 0) % 2 ^ 32 = omega arith in
      ap (λ k. held k (put ch p).nread (put ch p)) (count-put ch room)
      ∙ put-held ch
      ∙ held-append (count p) p.nread (put ch p) lt
      ∙ ap (λ c. held (count p) p.nread (put ch p) ++ c ∷ []) (last-put ch)
      ∙ ap (λ xs. xs ++ ch ∷ []) (held-put (count p) 0 p.nread ch p here (omega arith) lt)

  empty-count : is_empty p ≡ true → count p ≡ 0
  empty-count e = let same = ==→eq p.nread p.nwrite e in let lt = ok.read in omega arith

  empty-queue : is_empty p ≡ true → queue p ≡ []
  unfolding queue held
  empty-queue e = ap (λ k. held k p.nread p) (empty-count e)

  advance-IsPipe : is_empty p ≡ false → IsPipe (advance p)
  unfolding advance
  advance-IsPipe some =
      let ne = ==-ne p.nread p.nwrite some in
      let lt = ok.read in
      let lt2 = ok.write in
      let most = ok.fits in record { read = omega arith; write = ok.write; fits = omega arith }

  count-advance : is_empty p ≡ false → count p ≡ suc (count (advance p))
  unfolding advance
  count-advance some =
      let ne = ==-ne p.nread p.nwrite some in
      let lt = ok.read in let lt2 = ok.write in let most = ok.fits in omega arith

  advance-held :
      held (count (advance p)) (inc32 p.nread) p ≡ held (count (advance p)) (advance p).nread p
  unfolding advance
  advance-held = refl

  queue-advance : is_empty p ≡ false → queue p ≡ next_byte p ∷ queue (advance p)
  unfolding queue
  queue-advance some =
      ap (λ k. held k p.nread p) (count-advance some)
      ∙ held-next (count (advance p)) p
      ∙ ap (λ xs. next_byte p ∷ xs)
          (advance-held ∙ sym (held-advance (count (advance p)) (advance p).nread p))

-- A caller of the pipe puts a byte or asks for one.
pub data Request : Type 0 where
  puts : ℕ → Request
  gets : Request

pub data Reply : Type 0 where
  refuses : Reply
  accepts : Reply
  gives : ℕ → Reply

-- A request at a pipe, and at a queue of at most PIPESIZE bytes.
pub serve : Request → Pipe → Reply × Pipe
serve (puts ch) p = elim (is_full p) [ true ↦ (refuses, p) | false ↦ (accepts, put ch p) ]
serve gets p = elim (is_empty p) [ true ↦ (refuses, p) | false ↦ (gives (next_byte p), advance p) ]

pub serve_queue : Request → List ℕ → Reply × List ℕ
serve_queue (puts ch) q = elim (ltb (length q) pipesize) [
  | true ↦ (accepts, q ++ ch ∷ [])
  | false ↦ (refuses, q)
]
serve_queue gets [] = (refuses, [])
serve_queue gets (c ∷ q) = (gives c, q)

pub replies : {S : Type 0} → (Request → S → Reply × S) → List Request → S → List Reply × S
replies step [] s = ([], s)
replies step (r ∷ rs) s =
    let one = step r s in let rest = replies step rs one.1 in (one.0 ∷ rest.0, rest.1)

-- One request has the reply of the queue and leaves its bytes.
serve-queue :
    (r : Request) (p : Pipe)
    → IsPipe p
    → (serve_queue r (queue p) ≡ ((serve r p).0, queue (serve r p).1)) × IsPipe (serve r p).1
unfolding serve serve_queue
serve-queue (puts ch) p ok = elim (Bool-cases (is_full p)) [
  | inl full ↦ (rw (serve_queue, serve, length-queue p ok, full) refl, rw (serve, full) ok)
  | inr room ↦ (
    rw (serve_queue, serve, length-queue p ok, room, queue-put p ok ch room) refl,
    rw (serve, room) (put-IsPipe p ok ch room),
  )
]
serve-queue gets p ok = elim (Bool-cases (is_empty p)) [
  | inl none ↦ (rw (serve, none, empty-queue p ok none) refl, rw (serve, none) ok)
  | inr some ↦
      (rw (serve, some, queue-advance p ok some) refl, rw (serve, some) (advance-IsPipe p ok some))
]

-- A pipe is a queue of at most PIPESIZE bytes: from any pipe that is well formed, any sequence of
-- puts and gets has the replies of the queue of its bytes, and leaves a well-formed pipe that holds
-- the bytes of that queue.
pub replies-queue :
    (rs : List Request) (p : Pipe)
    → IsPipe p
    → (replies serve_queue rs (queue p) ≡ ((replies serve rs p).0, queue (replies serve rs p).1))
      × IsPipe (replies serve rs p).1
unfolding replies
replies-queue [] p ok = (refl, ok)
replies-queue (r ∷ rs) p ok =
    let one = serve-queue r p ok in
    let rest = replies-queue rs (serve r p).1 one.1 in (rw (one.0, rest.0) refl, rest.1)
