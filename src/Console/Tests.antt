-- ===== src/Console/Tests.antt =====
-- Keys typed at the console of kernel/console.c.
use mini_os_design.Common.{◌+◌, ◌≡◌, ◌==◌, if◌then◌else◌, [], ◌∷◌, true, false, refl, arith}
use mini_os_design.Console.{Console, consoleintr, consoleread, ctrl_u, kill_line}
use mini_os_design.Console.Editing.{IsValid, consoleintr-IsValid}
use mini_os_design.Console.Ends.{Read}
use mini_os_design.Console.Reading.{consoleread-Read}

-- The line "a" was entered, and "bc" is being edited.
abbrev editing : Console
editing = record { buf = λ i. if i == 1 then 10 else 97 + i; r = 0; w = 2; e = 4 }

editing-IsValid : IsValid editing
editing-IsValid = record {
  r_word = omega arith;
  w_word = omega arith;
  e_word = omega arith;
  fits = omega arith;
  one_line = λ j h. ground arith;
}

kill_line_run : (consoleintr editing ctrl_u).1 ≡ 256 ∷ 256 ∷ []
unfolding consoleintr kill_line
kill_line_run = refl

consoleintr-IsValid_example : IsValid (consoleintr editing 13).0
consoleintr-IsValid_example = consoleintr-IsValid editing 13 editing-IsValid

consoleread-Read_example :
    Read false (λ _. true) 0 5 editing (consoleread false (λ _. true) 5 editing)
consoleread-Read_example = consoleread-Read false (λ _. true) 5 editing editing-IsValid
