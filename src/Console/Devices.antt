-- ===== src/Console/Devices.antt =====
-- console.c: the read and write functions of the console, with spoon of proc.c.
use csse332_final_project.Base.{
  ℕ, zero, suc, ◌+◌, ◌-◌, ◌%◌, Bool, true, false, some, [], ◌∷◌, if◌then◌else◌, ltb, ◌==◌, inc32,
  dec32, get_or,
}
use csse332_final_project.Run.{Cmd, ok, pure, ◌>>=◌, ◌>>◌}
use csse332_final_project.Spinlock.{initlock}
use csse332_final_project.Memory.{add64}
use csse332_final_project.Vm.{success, failure}
use csse332_final_project.Copy.{copyin, copyout}
use csse332_final_project.Kernel.{lock, unlock, myproc, load, on_machine, on_memory, minus_one32}
use csse332_final_project.Sched.{sleep_enter, sleep_leave, killed}
use csse332_final_project.Pipe.{Moved, answers, sleeps, int_rounds}
use csse332_final_project.Terminal.{
  Input, Terminal, input_buf_size, cons_lock, tx_lock, on_kernel, load_input, edit_input, uartputc,
  uartputc_on,
}
use csse332_final_project.Printf.{number, printf}
use csse332_final_project.Console.{ctrl_d}

-- c = cons.buf[cons.r++ % INPUT_BUF_SIZE], and cons.r--
abbrev pub next_input : Input → ℕ
next_input i = i.buf (i.r % input_buf_size)

pub advance : Input → Input
advance i = record i { r = inc32 i.r }

pub put_back_eof : Input → Input
put_back_eof i = record i { r = dec32 i.r }

module _ {F : Type 0} where
  abbrev finish_read : ℕ → Cmd (Terminal F) Moved
  finish_read i = do on_kernel (unlock cons_lock); pure (answers i)

  -- The loop of consoleread with the lock held, `k` bytes left to read and `i` read, into the memory
  -- of the process: the callers of the driver pass user_dst 1.
  pub consoleread_from : ℕ → ℕ → ℕ → Cmd (Terminal F) Moved
  unfolding advance put_back_eof
  consoleread_from zero dst i = finish_read i
  consoleread_from (suc k) dst i = do
    empty ← load_input (λ x. x.r == x.w)
    pr ← on_kernel myproc
    elim empty [
      | true ↦ (do
        dead ← on_kernel (killed pr)
        if dead then (do on_kernel (unlock cons_lock); pure (answers minus_one32)) else (do
          cons ← (λ s. ok s.cons s)
          on_kernel (sleep_enter (cons + 152) cons_lock)
          pure (sleeps i)))
      | false ↦ (do
        c ← load_input next_input
        edit_input advance
        elim (c == ctrl_d) [
          | true ↦ (do (if ltb 0 i then edit_input put_back_eof else pure tt); finish_read i)
          | false ↦ (do
            pt ← on_kernel (load pr (λ r. r.pagetable))
            copied ← on_kernel (on_memory (copyout pt (add64 dst i) (c ∷ [])))
            elim copied [
              | failure ↦ finish_read i
              | success ↦ elim (c == b'\n') [
                | true ↦ finish_read (i + 1)
                | false ↦ consoleread_from k dst (i + 1)
              ]
            ])
        ])
    ]

  unfoldable pub consoleread : ℕ → ℕ → Cmd (Terminal F) Moved
  unfolding consoleread_from
  consoleread dst n = do on_kernel (lock cons_lock); consoleread_from (int_rounds n) dst 0

  -- consoleread() from the switch in sleep on, with `i` of the n bytes read.
  unfoldable pub consoleread_on : Bool → ℕ → ℕ → ℕ → Cmd (Terminal F) Moved
  unfolding consoleread_from
  consoleread_on intena dst n i = do
    on_kernel (sleep_leave intena cons_lock)
    consoleread_from (n - i) dst i

  -- The loop of consolewrite with `k` bytes left: the UART can take `idle i` bytes after byte i.
  pub consolewrite_from : (ℕ → ℕ) → ℕ → ℕ → ℕ → Cmd (Terminal F) Moved
  consolewrite_from idle zero src i = pure (answers i)
  consolewrite_from idle (suc k) src i = do
    pr ← on_kernel myproc
    pt ← on_kernel (load pr (λ r. r.pagetable))
    (r, bytes) ← on_kernel (on_memory (copyin pt (add64 src i) 1))
    elim r [
      | failure ↦ pure (answers i)
      | success ↦ (do
        put ← uartputc (idle i) (get_or bytes 0 0)
        elim put [ true ↦ consolewrite_from idle k src (i + 1) | false ↦ pure (sleeps i) ])
    ]

  unfoldable pub consolewrite : (ℕ → ℕ) → ℕ → ℕ → Cmd (Terminal F) Moved
  unfolding consolewrite_from
  consolewrite idle src n = consolewrite_from idle (int_rounds n) src 0

  -- consolewrite() from the switch in uartputc's sleep on, with the byte c in hand.
  unfoldable pub consolewrite_on : Bool → (ℕ → ℕ) → ℕ → ℕ → ℕ → ℕ → Cmd (Terminal F) Moved
  unfolding consolewrite_from
  consolewrite_on intena idle src n i c = do
    put ← uartputc_on intena (idle i) c
    elim put [ true ↦ consolewrite_from idle (n - i - 1) src (i + 1) | false ↦ pure (sleeps i) ]

  -- spoon() of proc.c, and the lock that consoleinit sets up.
  unfoldable pub spoon : ℕ → Cmd (Terminal F) ℕ
  spoon arg = do
    printf
        (some (
          b'I' ∷ b'n' ∷ b' ' ∷ b's' ∷ b'p' ∷ b'o' ∷ b'o' ∷ b'n' ∷ b' ' ∷ b's' ∷ b'y' ∷ b's' ∷ b't'
          ∷ b'e' ∷ b'm' ∷ b' ' ∷ b'c' ∷ b'a' ∷ b'l' ∷ b'l' ∷ b' ' ∷ b'w' ∷ b'i' ∷ b't' ∷ b'h' ∷ b' '
          ∷ b'a' ∷ b'r' ∷ b'g' ∷ b'u' ∷ b'm' ∷ b'e' ∷ b'n' ∷ b't' ∷ b' ' ∷ b'%' ∷ b'p' ∷ b'\n'
          ∷ []))
        (number arg ∷ [])
    pure 0

  unfoldable pub consoleinit : Cmd (Terminal F) (Unit {0})
  consoleinit = do
    on_kernel (on_machine (initlock cons_lock))
    on_kernel (on_machine (initlock tx_lock))
