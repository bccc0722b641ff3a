-- ===== src/Console/Typing.antt =====
-- The switch of consoleintr as a line editor.
use mathlib.Core.List.{append_assoc, append-nil}
use csse332_final_project.Base.{
  ℕ, zero, suc, ◌+◌, ◌<◌, ◌≡◌, ◌≢◌, refl, ◌∙◌, ap, sym, subst, inl, inr, Bool, true, false, not,
  ◌&&◌, ◌||◌, List, [], ◌∷◌, ◌++◌, length, length-append, All, if◌then◌else◌, ltb, ◌==◌, ne→==,
  arith, Bool-cases,
}
use csse332_final_project.Run.{Run, ok}
use csse332_final_project.Terminal.{Input, Terminal, input_buf_size}
use csse332_final_project.Console.{
  ctrl_h, ctrl_p, ctrl_u, delete_key, at_start, after_newline, erase, keep, commit, held_bytes,
  as_newline, kill_line, typed_byte, typed,
}
use csse332_final_project.Console.Ring.{
  IsInput, ready, editing, length-editing, held_bytes-length, editing-at_start, editing-erase,
  ready-erase, erase-IsInput, keep-IsInput, ready-keep, editing-keep, commit-IsInput, ready-commit,
  editing-commit,
}
use csse332_final_project.Console.Echo.{
  rub, IsHeld, consputc-sent, consputc-rub, edited, IsHeld-edited, IsHeld-input,
}

-- A line editor: what a byte makes of the complete bytes and of the line, what is echoed, and whether
-- readers are woken.
pub record Effect : Type 0 where
  pub ready : List ℕ
  pub editing : List ℕ
  pub echo : List ℕ
  pub arrives : Bool

pub rubs : ℕ → List ℕ
rubs zero = []
rubs (suc n) = rub ++ rubs n

pub but_last : List ℕ → List ℕ
but_last [] = []
but_last (c ∷ []) = []
but_last (c ∷ d ∷ l) = c ∷ but_last (d ∷ l)

abbrev is_end : ℕ → ℕ → Bool
is_end d n = (d == 10) || ((d == 4) || (n == input_buf_size))

pub type_line : ℕ → List ℕ → List ℕ → Effect
unfolding rubs but_last
type_line c done l =
    if c == 21
    then record { ready = done; editing = []; echo = rubs (length l); arrives = false }
    else if (c == 8) || (c == 127)
    then record {
      ready = done;
      editing = but_last l;
      echo = if length l == 0 then [] else rub;
      arrives = false;
    }
    else if (c == 0) || not (ltb (length done + length l) input_buf_size)
    then record { ready = done; editing = l; echo = []; arrives = false }
    else (let d = if c == 13 then 10 else c in
        if is_end d (length done + length l + 1)
        then record { ready = done ++ (l ++ d ∷ []); editing = []; echo = d ∷ []; arrives = true }
        else record { ready = done; editing = l ++ d ∷ []; echo = d ∷ []; arrives = false })

-- No line is complete within the line that is being edited.
abbrev pub IsLine : List ℕ → Type 0
IsLine l = All (λ b. b ≢ 10) l

All-append : (P : ℕ → Type 0) (l : List ℕ) (c : ℕ) → All P (l ++ c ∷ []) → All P l × P c
All-append P [] c (p, _) = (tt, p)
All-append P (d ∷ l) c (p, ps) = let (rest, last) = All-append P l c ps in ((p, rest), last)

append-All : (P : ℕ → Type 0) (l : List ℕ) (c : ℕ) → All P l → P c → All P (l ++ c ∷ [])
append-All P [] c tt q = (q, tt)
append-All P (d ∷ l) c (p, ps) q = (p, append-All P l c ps q)

module _ {F : Type 0} where
  -- The kill line rubs out what is being edited, and no more.
  kill_line-rubs :
      (k : ℕ) (s : Terminal F)
      → IsHeld s
      → IsInput s.input
      → IsLine (editing s.input)
      → length (editing s.input) < k
      → (i : Input) × (kill_line k s ≡ ok tt (edited i (rubs (length (editing s.input))) s))
        × IsInput i
        × (ready i ≡ ready s.input)
        × (editing i ≡ [])
  unfolding kill_line rubs
  kill_line-rubs zero s held input line lt = absurd (omega arith)
  kill_line-rubs (suc k) s held input line lt = elim (Bool-cases (at_start s.input)) [
    | inl start ↦
        let empty = editing-at_start s.input input start in
        (
          s.input,
          rw (kill_line, start, empty)
              (ap (λ cs. ok tt (record s { sent = cs })) (sym (append-nil s.sent))),
          input,
          refl,
          empty,
        )
    | inr some ↦
        let i = s.input in
        let split = editing-erase i input some in
        let (line', last) =
          All-append (λ b. b ≢ 10) (editing (erase i)) _ (subst IsLine split line) in
        let inside : after_newline i ≡ false = ne→== _ 10 last in
        let longer : length (editing i) ≡ suc (length (editing (erase i))) =
          ap length split ∙ length-append (editing (erase i)) _ ∙ omega arith in
        let s' = edited (erase i) rub s in
        let (j, run, input', same, empty) =
          kill_line-rubs k s' (IsHeld-edited (erase i) rub s held) (erase-IsInput i input some)
            line' (omega arith) in
        (
          j,
          rw
              (
                kill_line,
                some,
                inside,
                consputc-rub (record s { input = erase i }) (IsHeld-input (erase i) s held),
                run,
                longer,
              )
              (ap (λ cs. ok tt (record s { input = j; sent = cs }))
                (append_assoc s.sent rub (rubs (length (editing (erase i)))))),
          input',
          same ∙ ready-erase i input,
          empty,
        )
  ]

but_last-append : (l : List ℕ) (c : ℕ) → but_last (l ++ c ∷ []) ≡ l
unfolding but_last
but_last-append [] c = refl
but_last-append (d ∷ []) c = refl
but_last-append (d ∷ e ∷ l) c = ap (λ xs. d ∷ xs) (but_last-append (e ∷ l) c)

module _ {F : Type 0} where
  -- The run answers as the line editor does, echoes what it echoes, and leaves its bytes.
  abbrev pub Follows : Effect → Run (Terminal F) Bool → Terminal F → Type 0
  Follows eff run s =
      (i : Input) × (run ≡ ok eff.arrives (edited i eff.echo s))
      × IsInput i
      × (ready i ≡ eff.ready)
      × (editing i ≡ eff.editing)
      × IsLine eff.editing

  abbrev pub effect_at : ℕ → Terminal F → Effect
  effect_at c s = type_line c (ready s.input) (editing s.input)

  module _ (c : ℕ) (s : Terminal F) (held : IsHeld s) (input : IsInput s.input)
      (line : IsLine (editing s.input)) (small : c < 256) (quiet : (c == ctrl_p) ≡ false) where
    nothing_sent : s ≡ record s { sent = s.sent ++ [] }
    nothing_sent = ap (λ cs. record s { sent = cs }) (sym (append-nil s.sent))

    typed-kill : (c == ctrl_u) ≡ true → Follows (effect_at c s) (typed c s) s
    unfolding type_line typed
    typed-kill kill =
        let n = length-editing s.input in
        let few = input.fits in
        let (i, run, input', same, empty) =
          kill_line-rubs (input_buf_size + 1) s held input line (omega arith) in
        rw (quiet, kill) (i, rw run refl, input', same, empty, tt)

    typed-rub :
        (c == ctrl_u) ≡ false
        → ((c == ctrl_h) || (c == delete_key)) ≡ true
        → Follows (effect_at c s) (typed c s) s
    unfolding type_line typed but_last
    typed-rub kill back = elim (Bool-cases (at_start s.input)) [
      | inl start ↦
          let empty = editing-at_start s.input input start in
          rw (quiet, kill, back, start, empty)
            (s.input, ap (ok false) nothing_sent, input, refl, empty, tt)
      | inr some ↦
          let i = s.input in
          let split = editing-erase i input some in
          let (line', last) =
            All-append (λ b. b ≢ 10) (editing (erase i)) _ (subst IsLine split line) in
          let nonempty : (length (editing i) == 0) ≡ false =
            ne→== _ 0
              (λ z. let l = ap length split ∙ length-append (editing (erase i)) _ in omega arith) in
          let short : but_last (editing i) ≡ editing (erase i) =
            ap but_last split ∙ but_last-append (editing (erase i)) _ in
          rw (quiet, kill, back, some, nonempty, short)
            (
              erase i,
              rw (consputc-rub (record s { input = erase i }) (IsHeld-input (erase i) s held)) refl,
              erase-IsInput i input some,
              ready-erase i input,
              refl,
              line',
            )
    ]

    module _ (kill : (c == ctrl_u) ≡ false)
        (back : ((c == ctrl_h) || (c == delete_key)) ≡ false) where
      typed-ignored :
          ((c == 0) || not (ltb (held_bytes s.input) input_buf_size)) ≡ true
          → Follows (effect_at c s) (typed c s) s
      unfolding type_line typed typed_byte
      typed-ignored off =
          let same = held_bytes-length s.input input in
          let off' : ((c == 0)
                || not (ltb (length (ready s.input) + length (editing s.input)) input_buf_size))
              ≡ true =
            ap (λ n. (c == 0) || not (ltb n input_buf_size)) (sym same) ∙ off in
          let on : (not (c == 0) && ltb (held_bytes s.input) input_buf_size) ≡ false =
            ground arith in
          rw (quiet, kill, back, on, off')
            (s.input, ap (ok false) nothing_sent, input, refl, refl, line)

      -- What is kept of the byte.
      typed-kept :
          (d : ℕ)
          → as_newline c ≡ d
          → ((c == 0) || not (ltb (held_bytes s.input) input_buf_size)) ≡ false
          → Follows (effect_at c s) (typed c s) s
      unfolding type_line typed typed_byte
      typed-kept d kept on =
          let i = s.input in
          let same = held_bytes-length i input in
          let on' : ((c == 0) || not (ltb (length (ready i) + length (editing i)) input_buf_size))
              ≡ false =
            ap (λ n. (c == 0) || not (ltb n input_buf_size)) (sym same) ∙ on in
          let off : (not (c == 0) && ltb (held_bytes i) input_buf_size) ≡ true = ground arith in
          let room : held_bytes i < input_buf_size = ground arith in
          let r = input.read in
          let e = input.edit in
          let one : held_bytes (keep d i) ≡ length (ready i) + length (editing i) + 1 =
            omega arith in
          let input' = keep-IsInput i input d room in
          let echo = consputc-sent d s held (ground arith) in
          elim (Bool-cases (is_end d (length (ready i) + length (editing i) + 1))) [
            | inl last ↦
                rw (quiet, kill, back, off, on', kept, echo, one, last)
                  (
                    commit (keep d i),
                    refl,
                    commit-IsInput (keep d i) input',
                    ready-commit (keep d i) input'
                        ∙ ap (λ l. l ++ editing (keep d i)) (ready-keep i input d room)
                        ∙ ap (λ l. ready i ++ l) (editing-keep i input d room),
                    editing-commit (keep d i) input',
                    tt,
                  )
            | inr more ↦
                rw (quiet, kill, back, off, on', kept, echo, one, more)
                  (
                    keep d i,
                    refl,
                    input',
                    ready-keep i input d room,
                    editing-keep i input d room,
                    append-All (λ b. b ≢ 10) (editing i) d line (ground arith),
                  )
          ]

    pub typed-Follows : Follows (effect_at c s) (typed c s) s
    typed-Follows = elim (Bool-cases (c == ctrl_u)) [
      | inl kill ↦ typed-kill kill
      | inr kill ↦ elim (Bool-cases ((c == ctrl_h) || (c == delete_key))) [
        | inl back ↦ typed-rub kill back
        | inr back ↦ elim (Bool-cases ((c == 0) || not (ltb (held_bytes s.input) input_buf_size))) [
          | inl off ↦ typed-ignored kill back off
          | inr on ↦ typed-kept kill back (as_newline c) refl on
        ]
      ]
    ]
