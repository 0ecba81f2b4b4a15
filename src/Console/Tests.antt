-- ===== src/Console/Tests.antt =====
-- The theorems on the console's input at a concrete buffer.
use csse332_project.Base.{◌+◌, true, false, if◌then◌else◌, ◌==◌, ◌-◌, ◌^◌, ◌≡◌, refl, arith, []}
use csse332_project.Console.{Cons, consoleread, consoleintr, kill_line, erase, control}
use csse332_project.Console.Reading.{IsTaken, consoleread-IsTaken}
use csse332_project.Console.Typing.{
  IsConsole, IsTyped, typed, consoleintr-IsTyped, consoleintr-IsConsole,
}

-- "ab" is typed and not committed; the counters are about to wrap.
abbrev two_typed : Cons
two_typed = record { buf = λ i. i; r = 2 ^ 32 - 31; w = 2 ^ 32 - 31; e = 2 ^ 32 - 29 }

two_typed-IsConsole : IsConsole two_typed
two_typed-IsConsole = record {
  r_fits = omega arith;
  w_fits = omega arith;
  e_fits = omega arith;
  ordered = omega arith;
  bounded = omega arith;
}

-- A carriage return.
consoleintr-IsTyped_example : IsTyped two_typed 13 (consoleintr two_typed 13)
consoleintr-IsTyped_example =
    consoleintr-IsTyped two_typed 13 two_typed-IsConsole (omega arith) (omega arith) (omega arith)
      (omega arith) (omega arith)

consoleintr-IsConsole_example : IsConsole (consoleintr two_typed (control b'U')).cons
consoleintr-IsConsole_example = consoleintr-IsConsole two_typed (control b'U') two_typed-IsConsole

line_killed : typed (consoleintr two_typed (control b'U')).cons ≡ []
unfolding consoleintr kill_line erase
line_killed = refl

-- "ab" and a newline are committed.
abbrev line_typed : Cons
line_typed = record { buf = λ i. if i == 3 then 10 else 96 + i; r = 1; w = 4; e = 6 }

line_typed-IsConsole : IsConsole line_typed
line_typed-IsConsole = record {
  r_fits = omega arith;
  w_fits = omega arith;
  e_fits = omega arith;
  ordered = omega arith;
  bounded = omega arith;
}

consoleread-IsTaken_example :
    IsTaken
      (λ a b. true)
      false
      10
      10
      4096
      line_typed
      (consoleread (λ a b. true) false 10 10 4096 line_typed)
consoleread-IsTaken_example =
    consoleread-IsTaken (λ a b. true) false 10 10 4096 line_typed line_typed-IsConsole
