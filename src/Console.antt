-- ===== src/Console.antt =====
-- xv6-riscv/kernel/console.c, with procdump of proc.c and the interrupt of uart.c. A byte that is
-- typed is edited into the line; a read takes the bytes of lines that are complete. consoleread and
-- consolewrite run up to their answer, or to the switch in sleep, and go on in functions of their own.
pub mod Ring
pub mod Echo
pub mod Typing
pub mod Interrupt
pub mod Devices
use csse332_final_project.Base.{
  ℕ, zero, suc, ◌+◌, ◌-◌, ◌%◌, ◌^◌, Bool, true, false, not, ◌&&◌, ◌||◌, Option, none, some, List,
  [], ◌∷◌, if◌then◌else◌, ltb, ◌==◌, update, inc32, dec32, get_or,
}
use csse332_final_project.Run.{Cmd, ok, out_of_fuel, pure, put_back, ◌>>=◌, ◌>>◌}
use csse332_final_project.Spinlock.{initlock}
use csse332_final_project.Memory.{add64}
use csse332_final_project.Vm.{Status, success, failure}
use csse332_final_project.Copy.{copyin, copyout}
use csse332_final_project.Kernel.{
  ProcState, unused, used, sleeping, runnable, running, zombie, ghost, Proc, lock, unlock, myproc,
  load, on_machine, on_memory, minus_one32, nproc,
}
use csse332_final_project.Sched.{wakeup, sleep_enter, sleep_leave, killed}
use csse332_final_project.Pipe.{Moved, answers, sleeps, int_rounds}
use csse332_final_project.Terminal.{
  Input, Terminal, input_buf_size, backspace, cons_lock, tx_lock, on_kernel, load_input, edit_input,
  uartstart, uartputc, uartputc_on, consputc,
}
use csse332_final_project.Printf.{Arg, number, text, printf}

-- C('D'), C('H'), C('P') and C('U')
abbrev pub ctrl_d : ℕ
ctrl_d = 4

abbrev pub ctrl_h : ℕ
ctrl_h = 8

abbrev pub ctrl_p : ℕ
ctrl_p = 16

abbrev pub ctrl_u : ℕ
ctrl_u = 21

abbrev pub delete_key : ℕ
delete_key = 0x7f

-- Whether a byte of the line is left to erase, and whether the last one ends a line.
abbrev pub at_start : Input → Bool
at_start i = i.e == i.w

abbrev pub after_newline : Input → Bool
after_newline i = i.buf (dec32 i.e % input_buf_size) == b'\n'

pub erase : Input → Input
erase i = record i { e = dec32 i.e }

-- cons.e - cons.r
abbrev pub held_bytes : Input → ℕ
held_bytes i = (i.e + 2 ^ 32 - i.r) % 2 ^ 32

-- cons.buf[cons.e++ % INPUT_BUF_SIZE] = c
pub keep : ℕ → Input → Input
keep c i = record i { buf = update i.buf (i.e % input_buf_size) c; e = inc32 i.e }

-- cons.w = cons.e
pub commit : Input → Input
commit i = record i { w = i.e }

abbrev pub ends_line : ℕ → Input → Bool
ends_line c i = (c == b'\n') || ((c == ctrl_d) || (held_bytes i == input_buf_size))

abbrev pub as_newline : ℕ → ℕ
as_newline c = if c == b'\r' then b'\n' else c

-- The texts of procdump for the states.
abbrev pub state_name : ProcState → List ℕ
state_name unused = b'u' ∷ b'n' ∷ b'u' ∷ b's' ∷ b'e' ∷ b'd' ∷ []
state_name used = b'u' ∷ b's' ∷ b'e' ∷ b'd' ∷ []
state_name sleeping = b's' ∷ b'l' ∷ b'e' ∷ b'e' ∷ b'p' ∷ b' ' ∷ []
state_name runnable = b'r' ∷ b'u' ∷ b'n' ∷ b'b' ∷ b'l' ∷ b'e' ∷ []
state_name running = b'r' ∷ b'u' ∷ b'n' ∷ b' ' ∷ b' ' ∷ b' ' ∷ []
state_name zombie = b'z' ∷ b'o' ∷ b'm' ∷ b'b' ∷ b'i' ∷ b'e' ∷ []
state_name ghost = b'?' ∷ b'?' ∷ b'?' ∷ []

abbrev pub newline : List ℕ
newline = b'\n' ∷ []

-- "%d %s %s"
abbrev pub slot_format : List ℕ
slot_format = b'%' ∷ b'd' ∷ b' ' ∷ b'%' ∷ b's' ∷ b' ' ∷ b'%' ∷ b's' ∷ []

module _ {F : Type 0} where
  dump_slot : Proc → Cmd (Terminal F) (Unit {0})
  dump_slot p = elim p.state [
    | unused ↦ pure tt
    | _ ↦ (do
      printf (some slot_format)
          (number p.pid ∷ text (some (state_name p.state)) ∷ text (some p.name) ∷ [])
      printf (some newline) [])
  ]

  -- The loop of procdump over `n` slots from p on. It takes no lock.
  pub dump_from : ℕ → ℕ → Cmd (Terminal F) (Unit {0})
  unfolding dump_slot
  dump_from zero p = pure tt
  dump_from (suc n) p = do r ← (λ s. ok (s.kernel.procs p) s); dump_slot r; dump_from n (p + 1)

  unfoldable pub procdump : Cmd (Terminal F) (Unit {0})
  unfolding dump_from
  procdump = do printf (some newline) []; dump_from nproc 1

  -- The loop of the kill line with `k` rounds left.
  pub kill_line : ℕ → Cmd (Terminal F) (Unit {0})
  unfolding erase
  kill_line zero = λ _. out_of_fuel
  kill_line (suc k) = do
    i ← load_input (λ i. i)
    if at_start i || after_newline i
        then pure tt
        else (do edit_input erase; consputc backspace; kill_line k)

  -- The default case of consoleintr up to the call of wakeup: whether that call is made.
  pub typed_byte : ℕ → Cmd (Terminal F) Bool
  unfolding keep commit
  typed_byte c = do
    i ← load_input (λ i. i)
    if not (c == 0) && ltb (held_bytes i) input_buf_size
        then (do
          consputc (as_newline c)
          edit_input (keep (as_newline c))
          j ← load_input (λ i. i)
          if ends_line (as_newline c) j then (do edit_input commit; pure true) else pure false)
        else pure false

  -- The switch of consoleintr, where every case ends but for the call of wakeup.
  pub typed : ℕ → Cmd (Terminal F) Bool
  unfolding procdump kill_line erase typed_byte
  typed c =
      if c == ctrl_p
      then (do procdump; pure false)
      else if c == ctrl_u
      then (do kill_line (input_buf_size + 1); pure false)
      else if (c == ctrl_h) || (c == delete_key)
      then (do
        i ← load_input (λ i. i)
        (if not (at_start i) then (do edit_input erase; consputc backspace) else pure tt)
        pure false)
      else typed_byte c

  -- &cons.r, behind the 24 bytes of the lock and the buffer.
  abbrev pub wake_readers : Cmd (Terminal F) (Unit {0})
  wake_readers = do cons ← (λ s. ok s.cons s); on_kernel (wakeup (cons + 152))

  unfoldable pub consoleintr : ℕ → Cmd (Terminal F) (Unit {0})
  unfolding typed
  consoleintr c = do
    on_kernel (lock cons_lock)
    arrived ← typed c
    (if arrived then wake_readers else pure tt)
    on_kernel (unlock cons_lock)

  pub consoleintrs : List ℕ → Cmd (Terminal F) (Unit {0})
  consoleintrs [] = pure tt
  consoleintrs (c ∷ cs) = consoleintr c >> consoleintrs cs

  -- The UART's interrupt: the bytes that have come in, and then what it can send.
  unfoldable pub uartintr : List ℕ → ℕ → Cmd (Terminal F) (Unit {0})
  unfolding consoleintrs
  uartintr bytes idle = do
    consoleintrs bytes
    on_kernel (lock tx_lock)
    uartstart idle
    on_kernel (unlock tx_lock)
