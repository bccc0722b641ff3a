-- ===== src/Terminal.antt =====
-- The console and what stands behind it: the state of console.c, uart.c and printf.c in
-- xv6-riscv/kernel, and the functions of uart.c that send. `sent` is what has been written to the
-- UART's transmit register; a wait for that register to be empty is no step of its own.
pub mod Sending
use csse332_final_project.Base.{
  ℕ, zero, suc, ◌+◌, ◌%◌, ◌^◌, Bool, true, false, List, [], ◌∷◌, ◌++◌, if◌then◌else◌, ◌==◌, update,
}
use csse332_final_project.Run.{Cmd, ok, spins, pure, put_back, ◌>>=◌, ◌>>◌}
use csse332_final_project.Spinlock.{push_off, pop_off}
use csse332_final_project.Kernel.{Kernel, lock, unlock, on_machine}
use csse332_final_project.Sched.{wakeup, sleep_enter, sleep_leave}

abbrev pub input_buf_size : ℕ
input_buf_size = 128

abbrev pub uart_tx_buf_size : ℕ
uart_tx_buf_size = 32

abbrev pub backspace : ℕ
backspace = 0x100

-- struct cons without its lock
pub record Input : Type 0 where
  pub buf : ℕ → ℕ
  pub r : ℕ
  pub w : ℕ
  pub e : ℕ

-- uart_tx_buf, uart_tx_w and uart_tx_r
pub record Output : Type 0 where
  pub buf : ℕ → ℕ
  pub w : ℕ
  pub r : ℕ

-- `cons` is the address of the struct cons, and `tx_chan` that of uart_tx_r.
pub record Terminal (F : Type 0) : Type 0 where
  pub kernel : Kernel F
  pub input : Input
  pub output : Output
  pub sent : List ℕ
  pub panicked : Bool
  pub locking : Bool
  pub cons : ℕ
  pub tx_chan : ℕ

abbrev pub cons_lock : ℕ
cons_lock = 68

abbrev pub tx_lock : ℕ
tx_lock = 69

abbrev pub pr_lock : ℕ
pr_lock = 70

-- uart_tx_buf[uart_tx_w % UART_TX_BUF_SIZE] = c; uart_tx_w += 1
abbrev pub next_out : ℕ → Output → Output
next_out c o = record o { buf = update o.buf (o.w % uart_tx_buf_size) c; w = (o.w + 1) % 2 ^ 64 }

module _ {F : Type 0} where
  abbrev pub on_kernel : {A : Type 0} → Cmd (Kernel F) A → Cmd (Terminal F) A
  on_kernel c s = put_back (λ k. record s { kernel = k }) (c s.kernel)

  abbrev pub load_input : {A : Type 0} → (Input → A) → Cmd (Terminal F) A
  load_input field s = ok (field s.input) s

  abbrev pub edit_input : (Input → Input) → Cmd (Terminal F) (Unit {0})
  edit_input f s = ok tt (record s { input = f s.input })

  -- WriteReg(THR, c)
  abbrev pub transmit : ℕ → Cmd (Terminal F) (Unit {0})
  transmit c s = ok tt (record s { sent = s.sent ++ c % 256 ∷ [] })

  unfoldable pub uartputc_sync : ℕ → Cmd (Terminal F) (Unit {0})
  uartputc_sync c = do
    on_kernel (on_machine push_off)
    dead ← (λ s. ok s.panicked s)
    if dead then (λ _. spins) else (do transmit c; on_kernel (on_machine pop_off))

  -- The loop of uartstart, when the transmit register can take `idle` bytes one after the other.
  unfoldable pub uartstart : ℕ → Cmd (Terminal F) (Unit {0})
  uartstart zero = pure tt
  uartstart (suc idle) = do
    o ← (λ s. ok s.output s)
    if o.w == o.r then pure tt else (do
      (λ s. ok tt (record s { output = record o { r = (o.r + 1) % 2 ^ 64 } }))
      chan ← (λ s. ok s.tx_chan s)
      on_kernel (wakeup chan)
      transmit (o.buf (o.r % uart_tx_buf_size))
      uartstart idle)

  -- uartputc() with the lock held: whether the byte is in the buffer. If not, the call sleeps.
  pub uartputc_round : ℕ → ℕ → Cmd (Terminal F) Bool
  unfolding uartstart
  uartputc_round idle c = do
    o ← (λ s. ok s.output s)
    if o.w == ((o.r + uart_tx_buf_size) % 2 ^ 64)
        then (do chan ← (λ s. ok s.tx_chan s); on_kernel (sleep_enter chan tx_lock); pure false)
        else (do
          (λ s. ok tt (record s { output = next_out c s.output }))
          uartstart idle
          on_kernel (unlock tx_lock)
          pure true)

  unfoldable pub uartputc : ℕ → ℕ → Cmd (Terminal F) Bool
  unfolding uartputc_round
  uartputc idle c = do
    on_kernel (lock tx_lock)
    dead ← (λ s. ok s.panicked s)
    if dead then (λ _. spins) else uartputc_round idle c

  -- uartputc() from the switch in sleep on.
  unfoldable pub uartputc_on : Bool → ℕ → ℕ → Cmd (Terminal F) Bool
  unfolding uartputc_round
  uartputc_on intena idle c = do on_kernel (sleep_leave intena tx_lock); uartputc_round idle c

  -- console.c
  unfoldable pub consputc : ℕ → Cmd (Terminal F) (Unit {0})
  unfolding uartputc_sync
  consputc c =
      if c == backspace
      then (do uartputc_sync b'\x08'; uartputc_sync b' '; uartputc_sync b'\x08')
      else uartputc_sync c
