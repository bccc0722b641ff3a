-- ===== src/Tests/Consoles.antt =====
-- A console whose counters are about to wrap around, and a hart that prints.
use csse332_final_project.Base.{
  ℕ, ◌-◌, ◌^◌, ◌≡◌, ◌≤◌, refl, sym, subst, false, true, List, [], length, arith, inl,
}
use csse332_final_project.Run.{ok}
use csse332_final_project.Terminal.{Input, Terminal, uartstart}
use csse332_final_project.Terminal.Sending.{Sends, uartstart-Sends}
use csse332_final_project.Console.{consoleintr}
use csse332_final_project.Console.Ring.{IsInput, editing-at_start}
use csse332_final_project.Console.Typing.{IsLine, effect_at}
use csse332_final_project.Console.Interrupt.{TakesInput, Edits, consoleintr-Edits}
use csse332_final_project.Printf.{printint}
use csse332_final_project.Printf.Numbers.{value, IsDigits, magnitude, sign_of, printint-value}
use csse332_final_project.Tests.{idle_machine, idle_machine-IsSane, with_table, family}

abbrev nothing_typed : Input
nothing_typed = record { buf = λ _. 0; r = 2 ^ 32 - 1; w = 2 ^ 32 - 1; e = 2 ^ 32 - 1 }

abbrev pub prompt : Terminal (Unit {0})
prompt = record {
  kernel = with_table family;
  input = nothing_typed;
  output = record { buf = λ _. 0; w = 0; r = 0 };
  sent = [];
  panicked = false;
  locking = true;
  cons = 0x8002_0000;
  tx_chan = 0x8002_1000;
}

nothing_typed-IsInput : IsInput nothing_typed
nothing_typed-IsInput = record {
  read = omega arith;
  write = omega arith;
  edit = omega arith;
  fits = omega arith;
}

prompt-TakesInput : TakesInput prompt
prompt-TakesInput = record {
  sane = idle_machine-IsSane;
  free = refl;
  others = λ p lo hi ne. refl;
  live = refl;
  input = nothing_typed-IsInput;
  line = subst IsLine (sym (editing-at_start nothing_typed nothing_typed-IsInput refl)) tt;
}

consoleintr-Edits_example :
    (t : Terminal (Unit {0})) × (consoleintr b'\r' prompt ≡ ok tt t)
    × Edits (effect_at b'\r' prompt) prompt t
consoleintr-Edits_example =
    consoleintr-Edits b'\r' prompt prompt-TakesInput (omega arith) (omega arith)

-- A hart that holds a lock.
abbrev printing : Terminal (Unit {0})
printing = record prompt {
  kernel = record (with_table family) { machine = record idle_machine { noff = 1; intr = false } };
}

printint-value_example :
    (l : List ℕ) × (printint (2 ^ 32 - 120) 10 true printing
      ≡ ok tt (record printing { sent = sign_of (2 ^ 32 - 120) l }))
    × (value 10 0 l ≡ magnitude (2 ^ 32 - 120))
    × IsDigits l
    × (length (sign_of (2 ^ 32 - 120) l) ≤ 16)
printint-value_example =
    printint-value 10 (2 ^ 32 - 120) printing
      (record { noff = omega arith; intr = refl; live = refl }) (inl refl) (omega arith)

-- Two bytes wait in the transmit buffer, across the wrap-around of its counters.
abbrev sending : Terminal (Unit {0})
sending = record prompt { output = record { buf = λ _. b'x'; w = 1; r = 2 ^ 64 - 1 } }

uartstart-Sends_example :
    (t : Terminal (Unit {0})) × (uartstart 2 sending ≡ ok tt t) × Sends 2 sending t
uartstart-Sends_example =
    uartstart-Sends 2 sending idle_machine-IsSane (λ p lo hi ne. refl)
      (record { write = omega arith; read = omega arith })
