-- ===== src/Console/Echo.antt =====
-- What consputc sends while a lock is held.
use mathlib.Core.List.{append_assoc}
use csse332_final_project.Base.{
  ℕ, ◌+◌, ◌-◌, ◌%◌, ◌<◌, ◌≡◌, ◌∙◌, ap, sym, false, List, [], ◌∷◌, ◌++◌, ltb, ◌==◌, arith,
}
use csse332_final_project.Run.{ok}
use csse332_final_project.Spinlock.{push_off, pop_off}
use csse332_final_project.Terminal.{Input, Terminal, backspace, uartputc_sync, consputc}

abbrev pub rub : List ℕ
rub = 8 ∷ 32 ∷ 8 ∷ []

module _ {F : Type 0} where
  -- Interrupts are off with a lock held, and the kernel has not panicked.
  pub record IsHeld (s : Terminal F) : Type 0 where
    pub noff : 0 < s.kernel.machine.noff
    pub intr : s.kernel.machine.intr ≡ false
    pub live : s.panicked ≡ false

module _ {F : Type 0} where
  uartputc_sync-sent :
      (c : ℕ) (s : Terminal F)
      → IsHeld s
      → uartputc_sync c s ≡ ok tt (record s { sent = s.sent ++ c % 256 ∷ [] })
  unfolding uartputc_sync push_off pop_off
  uartputc_sync-sent c s held =
      let n = held.noff in
      let m = s.kernel.machine in
      let same : m.noff + 1 - 1 ≡ m.noff = omega arith in
      let some : (m.noff == 0) ≡ false = ground arith in
      let more : ltb (m.noff + 1) 1 ≡ false = ground arith in
      rw (held.live, more, same, some)
        (ap
          (λ b. ok tt (record s {
            kernel = record s.kernel { machine = record m { intr = b } };
            sent = s.sent ++ c % 256 ∷ [];
            panicked = false;
          }))
          (sym held.intr))

  pub IsHeld-sent : (cs : List ℕ) (s : Terminal F) → IsHeld s → IsHeld (record s { sent = cs })
  IsHeld-sent cs s held = record { noff = held.noff; intr = held.intr; live = held.live }

  pub consputc-sent :
      (c : ℕ) (s : Terminal F)
      → IsHeld s
      → c < 256
      → consputc c s ≡ ok tt (record s { sent = s.sent ++ c ∷ [] })
  unfolding consputc
  consputc-sent c s held lt =
      let byte : (c == backspace) ≡ false = ground arith in
      let small : c % 256 ≡ c = omega arith in
      rw byte
        (uartputc_sync-sent c s held ∙ ap (λ d. ok tt (record s { sent = s.sent ++ d ∷ [] })) small)

  pub consputc-rub :
      (s : Terminal F) → IsHeld s → consputc backspace s ≡ ok tt (record s { sent = s.sent ++ rub })
  unfolding consputc
  consputc-rub s held =
      let one = IsHeld-sent (s.sent ++ 8 ∷ []) s held in
      let two = IsHeld-sent ((s.sent ++ 8 ∷ []) ++ 32 ∷ []) s held in
      rw (uartputc_sync-sent 8 s held, uartputc_sync-sent 32 _ one, uartputc_sync-sent 8 _ two)
        (ap (λ cs. ok tt (record s { sent = cs }))
          (append_assoc (s.sent ++ 8 ∷ []) (32 ∷ []) (8 ∷ [])
            ∙ append_assoc s.sent (8 ∷ []) (32 ∷ 8 ∷ [])))

-- The terminal with another input ring, and with more bytes sent.
module _ {F : Type 0} where
  abbrev pub edited : Input → List ℕ → Terminal F → Terminal F
  edited i cs s = record s { input = i; sent = s.sent ++ cs }

  pub IsHeld-edited : (i : Input) (cs : List ℕ) (s : Terminal F) → IsHeld s → IsHeld (edited i cs s)
  IsHeld-edited i cs s held = record { noff = held.noff; intr = held.intr; live = held.live }

  pub IsHeld-input : (i : Input) (s : Terminal F) → IsHeld s → IsHeld (record s { input = i })
  IsHeld-input i s held = record { noff = held.noff; intr = held.intr; live = held.live }
