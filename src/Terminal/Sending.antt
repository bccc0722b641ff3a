-- ===== src/Terminal/Sending.antt =====
-- uartstart: what has been sent, and the bytes in the transmit buffer.
use mathlib.Core.List.{append_assoc, append-nil}
use csse332_final_project.Base.{
  ℕ, zero, suc, ◌+◌, ◌-◌, ◌%◌, ◌^◌, ◌<◌, ◌≤◌, ◌≡◌, refl, ◌∙◌, ap, sym, inl, inr, true, false, List,
  [], ◌∷◌, ◌++◌, ◌==◌, ==→eq, ==-ne, arith, Bool-cases,
}
use csse332_final_project.Run.{ok}
use csse332_final_project.Spinlock.Laws.{IsSane}
use csse332_final_project.Kernel.Frame.{Restored, Restored-refl, Restored-trans, Restored-IsSane}
use csse332_final_project.Sched.Wakeup.{OthersFree, wakeup-woken}
use csse332_final_project.Terminal.{Output, Terminal, uart_tx_buf_size, uartstart}

abbrev pub waiting : Output → ℕ
waiting o = (o.w + 2 ^ 64 - o.r) % 2 ^ 64

-- The `k` bytes of the buffer from counter `i` on.
outs : ℕ → ℕ → (ℕ → ℕ) → List ℕ
outs zero i buf = []
outs (suc k) i buf = buf (i % uart_tx_buf_size) % 256 ∷ outs k ((i + 1) % 2 ^ 64) buf

pub queued : Output → List ℕ
unfolding outs
queued o = outs (waiting o) o.r o.buf

pub record IsOutput (o : Output) : Type 0 where
  pub write : o.w < 2 ^ 64
  pub read : o.r < 2 ^ 64

queued-waiting : (o : Output) → waiting o ≤ 0 → queued o ≡ []
unfolding queued outs
queued-waiting o le =
    let nothing : waiting o ≡ 0 = omega arith in ap (λ k. outs k o.r o.buf) nothing

abbrev sent_one : Output → Output
sent_one o = record o { r = (o.r + 1) % 2 ^ 64 }

module _ (o : Output) (ok : IsOutput o) where
  queued-none : (o.w == o.r) ≡ true → queued o ≡ []
  unfolding queued outs
  queued-none e =
      let same = ==→eq o.w o.r e in
      let w = ok.write in
      let nothing : waiting o ≡ 0 = omega arith in ap (λ k. outs k o.r o.buf) nothing

  queued-next :
      (o.w == o.r) ≡ false → queued o ≡ o.buf (o.r % uart_tx_buf_size) % 256 ∷ queued (sent_one o)
  unfolding queued outs
  queued-next ne =
      let differ = ==-ne o.w o.r ne in
      let w = ok.write in
      let r = ok.read in
      let more : waiting o ≡ suc (waiting (sent_one o)) = omega arith in
      ap (λ k. outs k o.r o.buf) more

  sent_one-IsOutput : IsOutput (sent_one o)
  sent_one-IsOutput = let w = ok.write in record { write = w; read = omega arith }

  waiting-less :
      (idle : ℕ) → (o.w == o.r) ≡ false → waiting o ≤ suc idle → waiting (sent_one o) ≤ idle
  waiting-less idle ne le =
      let differ = ==-ne o.w o.r ne in let w = ok.write in let r = ok.read in omega arith

module _ {F : Type 0} where
  abbrev pub Sends : ℕ → Terminal F → Terminal F → Type 0
  Sends idle s t =
      (t.sent ++ queued t.output ≡ s.sent ++ queued s.output)
      × (waiting s.output ≤ idle → t.sent ≡ s.sent ++ queued s.output)
      × IsOutput t.output
      × Restored s.kernel.machine t.kernel.machine

  -- While the locks of the other slots are free, uartstart returns, with every lock as it was. No byte
  -- is lost, doubled or moved: what has been sent, and the buffer behind it, are as before. If the
  -- device takes as many bytes as wait, all of them are sent.
  pub uartstart-Sends :
      (idle : ℕ) (s : Terminal F)
      → IsSane s.kernel.machine
      → OthersFree s.kernel.machine.proc s.kernel.machine
      → IsOutput s.output
      → (t : Terminal F) × (uartstart idle s ≡ ok tt t) × Sends idle s t
  unfolding uartstart
  uartstart-Sends zero s sane free out = (
    s,
    refl,
    (
      refl,
      (λ le. sym (ap (λ q. s.sent ++ q) (queued-waiting s.output le) ∙ append-nil s.sent)),
      out,
      Restored-refl s.kernel.machine,
    ),
  )
  uartstart-Sends (suc idle) s sane free out = elim (Bool-cases (s.output.w == s.output.r)) [
    | inl empty ↦
        let nothing = queued-none s.output out empty in
        (
          s,
          rw empty refl,
          (
            refl,
            (λ le. sym (ap (λ q. s.sent ++ q) nothing ∙ append-nil s.sent)),
            out,
            Restored-refl s.kernel.machine,
          ),
        )
    | inr some ↦
        let o = s.output in
        let c = o.buf (o.r % uart_tx_buf_size) % 256 in
        let (k, run, same, table) = wakeup-woken s.tx_chan s.kernel sane free in
        let s' = record s { kernel = k; output = sent_one o; sent = s.sent ++ c ∷ [] } in
        let free' : OthersFree k.machine.proc k.machine =
          λ p lo hi ne. ground (arith, same.machine.locks p, same.machine.proc, free p lo hi) in
        let (t, done, (order, all, out', rest)) =
          uartstart-Sends idle s' (Restored-IsSane same.machine sane) free'
            (sent_one-IsOutput o out) in
        let step : (s.sent ++ c ∷ []) ++ queued (sent_one o) ≡ s.sent ++ queued o =
          append_assoc s.sent (c ∷ []) (queued (sent_one o))
          ∙ ap (λ q. s.sent ++ q) (sym (queued-next o out some)) in
        (
          t,
          rw (some, run) done,
          (
            order ∙ step,
            (λ le. all (waiting-less o out idle some le) ∙ step),
            out',
            Restored-trans same.machine rest,
          ),
        )
  ]
