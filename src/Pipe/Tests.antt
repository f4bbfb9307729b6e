-- ===== src/Pipe/Tests.antt =====
-- Concrete calls of kernel/pipe.c on a new pipe.
use mini_os_design.Common.{ℕ, ◌+◌, [], ◌∷◌, Option, some, true, false}
use mini_os_design.Pipe.{Pipe, new_pipe, put}
use mini_os_design.Pipe.Queue.{new_pipe-IsValid}
use mini_os_design.Pipe.Stream.{writes, reads, run, Streams, run-Streams}

abbrev empty : Pipe
empty = new_pipe (λ _. 0)

abbrev copy_byte : ℕ → Option ℕ
copy_byte i = some (i + 65)

run-Streams_example :
    Streams empty (run (writes false copy_byte 3 ∷ reads false (λ _. true) 2 ∷ []) empty)
run-Streams_example =
    run-Streams (writes false copy_byte 3 ∷ reads false (λ _. true) 2 ∷ []) empty
      (new_pipe-IsValid (λ _. 0)).0

abbrev one_byte : Pipe
one_byte = put empty 7
