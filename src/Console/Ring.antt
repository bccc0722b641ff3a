-- ===== src/Console/Ring.antt =====
-- The input ring of the console as two lists: the complete bytes that wait for a read, and the line
-- that is being edited.
use csse332_final_project.Base.{
  ℕ, zero, suc, ◌+◌, ◌-◌, ◌%◌, ◌^◌, ◌<◌, ◌≤◌, ◌≡◌, ◌≢◌, refl, ◌∙◌, ap, true, false, List, [], ◌∷◌,
  ◌++◌, length, ==→eq, ==-ne, eq→==, ne→==, inc32, dec32, arith, update,
}
use csse332_final_project.Terminal.{Input, input_buf_size}
use csse332_final_project.Console.{at_start, erase, keep, commit, held_bytes}

-- The `k` bytes from counter `i` on.
pub held : ℕ → ℕ → (ℕ → ℕ) → List ℕ
held zero i buf = []
held (suc k) i buf = buf (i % input_buf_size) ∷ held k (inc32 i) buf

-- cons.w - cons.r and cons.e - cons.w
abbrev pub complete : Input → ℕ
complete i = (i.w + 2 ^ 32 - i.r) % 2 ^ 32

abbrev pub in_edit : Input → ℕ
in_edit i = (i.e + 2 ^ 32 - i.w) % 2 ^ 32

pub ready : Input → List ℕ
unfolding held
ready i = held (complete i) i.r i.buf

pub editing : Input → List ℕ
unfolding held
editing i = held (in_edit i) i.w i.buf

-- The counters are in order and at most INPUT_BUF_SIZE apart.
pub record IsInput (i : Input) : Type 0 where
  pub read : i.r < 2 ^ 32
  pub write : i.w < 2 ^ 32
  pub edit : i.e < 2 ^ 32
  pub fits : (i.w + 2 ^ 32 - i.r) % 2 ^ 32 + (i.e + 2 ^ 32 - i.w) % 2 ^ 32 ≤ input_buf_size

-- A byte that is put behind the k bytes leaves them as they are.
held-update :
    (k d i j c : ℕ) (buf : ℕ → ℕ)
    → j ≡ (i + k + d) % 2 ^ 32
    → k + d < input_buf_size
    → i < 2 ^ 32
    → held k i (update buf (j % input_buf_size) c) ≡ held k i buf
unfolding held
held-update zero d i j c buf e small lt = refl
held-update (suc k) d i j c buf e small lt =
    let away : j % input_buf_size ≢ i % input_buf_size = omega arith in
    rw
      (
        ne→== (j % input_buf_size) (i % input_buf_size) away,
        held-update k d (inc32 i) j c buf (omega arith) (omega arith) (omega arith),
      )
      refl

pub held-append :
    (k m i : ℕ) (buf : ℕ → ℕ)
    → i < 2 ^ 32
    → held (k + m) i buf ≡ held k i buf ++ held m ((i + k) % 2 ^ 32) buf
unfolding held
held-append zero m i buf lt =
    let none_first : 0 + m ≡ m = omega arith in
    let same : i ≡ (i + 0) % 2 ^ 32 = omega arith in
    ap (λ k. held k i buf) none_first ∙ ap (λ j. held m j buf) same
held-append (suc k) m i buf lt =
    let one_first : suc k + m ≡ suc (k + m) = omega arith in
    let same : (inc32 i + k) % 2 ^ 32 ≡ (i + suc k) % 2 ^ 32 = omega arith in
    ap (λ n. held n i buf) one_first
    ∙ ap (λ xs. buf (i % input_buf_size) ∷ xs)
        (held-append k m (inc32 i) buf (omega arith)
          ∙ ap (λ j. held k (inc32 i) buf ++ held m j buf) same)

held-one : (i : ℕ) (buf : ℕ → ℕ) → held 1 i buf ≡ buf (i % input_buf_size) ∷ []
unfolding held
held-one i buf = refl

held-none : (i : ℕ) (buf : ℕ → ℕ) → held 0 i buf ≡ []
unfolding held
held-none i buf = refl

pub length-held : (k i : ℕ) (buf : ℕ → ℕ) → length (held k i buf) ≡ k
unfolding held
length-held zero i buf = refl
length-held (suc k) i buf = ap suc (length-held k (inc32 i) buf)

pub length-ready : (i : Input) → length (ready i) ≡ complete i
unfolding ready
length-ready i = length-held (complete i) i.r i.buf

pub length-editing : (i : Input) → length (editing i) ≡ in_edit i
unfolding editing
length-editing i = length-held (in_edit i) i.w i.buf

module _ (i : Input) (ok : IsInput i) where
  pub held_bytes-length : held_bytes i ≡ length (ready i) + length (editing i)
  held_bytes-length =
      let a = length-ready i in
      let b = length-editing i in
      let r = ok.read in let w = ok.write in let e = ok.edit in let f = ok.fits in omega arith

  pub editing-at_start : at_start i ≡ true → editing i ≡ []
  unfolding editing
  editing-at_start e =
      let same = ==→eq i.e i.w e in
      let w = ok.write in
      let nothing : in_edit i ≡ 0 = omega arith in
      ap (λ k. held k i.w i.buf) nothing ∙ held-none i.w i.buf

  -- The line without its last byte, when there is one.
  pub editing-erase :
      at_start i ≡ false → editing i ≡ editing (erase i) ++ i.buf (dec32 i.e % input_buf_size) ∷ []
  unfolding editing erase
  editing-erase some =
      let ne = ==-ne i.e i.w some in
      let w = ok.write in
      let e = ok.edit in
      let f = ok.fits in
      let more : in_edit i ≡ (dec32 i.e + 2 ^ 32 - i.w) % 2 ^ 32 + 1 = omega arith in
      let last : (i.w + (dec32 i.e + 2 ^ 32 - i.w) % 2 ^ 32) % 2 ^ 32 ≡ dec32 i.e = omega arith in
      ap (λ k. held k i.w i.buf) more
      ∙ held-append ((dec32 i.e + 2 ^ 32 - i.w) % 2 ^ 32) 1 i.w i.buf w
      ∙ ap (λ j. held ((dec32 i.e + 2 ^ 32 - i.w) % 2 ^ 32) i.w i.buf ++ held 1 j i.buf) last
      ∙ ap (λ xs. held ((dec32 i.e + 2 ^ 32 - i.w) % 2 ^ 32) i.w i.buf ++ xs)
          (held-one (dec32 i.e) i.buf)

  pub ready-erase : ready (erase i) ≡ ready i
  unfolding ready erase
  ready-erase = refl

  pub erase-IsInput : at_start i ≡ false → IsInput (erase i)
  unfolding erase
  erase-IsInput some =
      let ne = ==-ne i.e i.w some in
      let r = ok.read in
      let w = ok.write in
      let e = ok.edit in
      let f = ok.fits in record { read = r; write = w; edit = omega arith; fits = omega arith }

  module _ (c : ℕ) (room : held_bytes i < input_buf_size) where
    pub keep-IsInput : IsInput (keep c i)
    unfolding keep
    keep-IsInput =
        let r = ok.read in
        let w = ok.write in
        let e = ok.edit in
        let f = ok.fits in record { read = r; write = w; edit = omega arith; fits = omega arith }

    pub ready-keep : ready (keep c i) ≡ ready i
    unfolding ready keep
    ready-keep =
        let r = ok.read in
        let w = ok.write in
        let e = ok.edit in
        let f = ok.fits in
        held-update (complete i) (in_edit i) i.r i.e c i.buf (omega arith) (omega arith) r

    pub editing-keep : editing (keep c i) ≡ editing i ++ c ∷ []
    unfolding editing keep
    editing-keep =
        let r = ok.read in
        let w = ok.write in
        let e = ok.edit in
        let f = ok.fits in
        let buf' = update i.buf (i.e % input_buf_size) c in
        let more : (inc32 i.e + 2 ^ 32 - i.w) % 2 ^ 32 ≡ in_edit i + 1 = omega arith in
        let last : (i.w + in_edit i) % 2 ^ 32 ≡ i.e = omega arith in
        let here : buf' (i.e % input_buf_size) ≡ c =
          rw (eq→== (i.e % input_buf_size) (i.e % input_buf_size) refl) refl in
        ap (λ k. held k i.w buf') more
        ∙ held-append (in_edit i) 1 i.w buf' w
        ∙ ap (λ j. held (in_edit i) i.w buf' ++ held 1 j buf') last
        ∙ ap (λ xs. held (in_edit i) i.w buf' ++ xs) (held-one i.e buf')
        ∙ ap (λ b. held (in_edit i) i.w buf' ++ b ∷ []) here
        ∙ ap (λ xs. xs ++ c ∷ [])
            (held-update (in_edit i) 0 i.w i.e c i.buf (omega arith) (omega arith) w)

  pub commit-IsInput : IsInput (commit i)
  unfolding commit
  commit-IsInput =
      let r = ok.read in
      let w = ok.write in
      let e = ok.edit in
      let f = ok.fits in record { read = r; write = e; edit = e; fits = omega arith }

  pub ready-commit : ready (commit i) ≡ ready i ++ editing i
  unfolding ready editing commit
  ready-commit =
      let r = ok.read in
      let w = ok.write in
      let e = ok.edit in
      let f = ok.fits in
      let all : held_bytes i ≡ complete i + in_edit i = omega arith in
      let from : (i.r + complete i) % 2 ^ 32 ≡ i.w = omega arith in
      ap (λ k. held k i.r i.buf) all
      ∙ held-append (complete i) (in_edit i) i.r i.buf r
      ∙ ap (λ j. held (complete i) i.r i.buf ++ held (in_edit i) j i.buf) from

  pub editing-commit : editing (commit i) ≡ []
  unfolding editing commit
  editing-commit =
      let e = ok.edit in
      let nothing : (i.e + 2 ^ 32 - i.e) % 2 ^ 32 ≡ 0 = omega arith in
      ap (λ k. held k i.e i.buf) nothing ∙ held-none i.e i.buf
