-- ===== src/Console.antt =====
-- kernel/console.c: the line editor behind the console, a ring of INPUT_BUF_SIZE characters with
-- three `uint` indices. What consputc sends to the terminal is a list. A consoleread runs until it
-- returns or sleeps; `copyout` tells whether the caller's byte at an offset can be stored.
pub mod Editing
pub mod Reading
pub mod Ends
mod Tests
use mini_os_design.Common.{
  ℕ, zero, suc, ◌+◌, ◌-◌, ◌%◌, ◌^◌, List, [], ◌∷◌, Bool, not, ◌&&◌, ◌||◌, ltb, ◌==◌, if◌then◌else◌,
}

abbrev pub input_buf_size : ℕ
input_buf_size = 128

abbrev pub uint_range : ℕ
uint_range = 2 ^ 32

-- erase the last output character
abbrev backspace : ℕ
backspace = 0x100

abbrev pub newline : ℕ
newline = 10

abbrev carriage_return : ℕ
carriage_return = 13

abbrev pub delete_key : ℕ
delete_key = 0x7f

-- C(x), where `x` is a letter: '@' is 64.
abbrev ctrl : ℕ → ℕ
ctrl x = x - 64

abbrev pub ctrl_d : ℕ
ctrl_d = ctrl 68

abbrev pub ctrl_h : ℕ
ctrl_h = ctrl 72

abbrev pub ctrl_p : ℕ
ctrl_p = ctrl 80

abbrev pub ctrl_u : ℕ
ctrl_u = ctrl 85

-- `cons`.
pub record Console : Type 0 where
  pub buf : ℕ → ℕ
  pub r : ℕ
  pub w : ℕ
  pub e : ℕ

-- The last character typed, at e - 1.
abbrev pub last_index : Console → ℕ
last_index c = (c.e + uint_range - 1) % uint_range

abbrev pub erase : Console → Console
erase c = record c { e = last_index c }

-- The loop of C('U'), with at most `fuel` turns; INPUT_BUF_SIZE turns are enough.
pub kill_line : ℕ → Console → Console × List ℕ
kill_line zero c = (c, [])
kill_line (suc fuel) c =
    let rest = kill_line fuel (erase c) in
    if not (c.e == c.w) && not (c.buf (last_index c % input_buf_size) == newline)
    then (rest.0, backspace ∷ rest.1)
    else (c, [])

-- The character `ch` at the edit index, and the line handed to the readers where it ends.
pub type_char : Console → ℕ → Console
type_char c ch =
    if ch == newline || ch == ctrl_d || (e' + uint_range - c.r) % uint_range == input_buf_size
    then record c { buf = buf'; w = e'; e = e' }
    else record c { buf = buf'; e = e' }
  where
    e' : ℕ
    e' = (c.e + 1) % uint_range

    buf' : ℕ → ℕ
    buf' i = if i == c.e % input_buf_size then ch else c.buf i

abbrev pub typed : ℕ → ℕ
typed ch = if ch == carriage_return then newline else ch

-- consoleintr of `ch`; procdump changes nothing here.
pub consoleintr : Console → ℕ → Console × List ℕ
consoleintr c ch =
    if ch == ctrl_p
    then (c, [])
    else (if ch == ctrl_u
        then kill_line input_buf_size c
        else (if ch == ctrl_h || ch == delete_key
            then (if not (c.e == c.w) then (erase c, backspace ∷ []) else (c, []))
            else (if not (ch == 0) && ltb ((c.e + uint_range - c.r) % uint_range) input_buf_size
                then (type_char c (typed ch), typed ch ∷ [])
                else (c, []))))

pub data ReadEnd : Type 0 where
  returned : ℕ → ReadEnd
  failed : ReadEnd
  asleep : ℕ → ReadEnd

abbrev pub consume : Console → Console
consume c = record c { r = (c.r + 1) % uint_range }

-- The loop of consoleread after `i` bytes, with `n` to go: the bytes delivered, and how it ends.
pub read_line : Bool → (ℕ → Bool) → ℕ → ℕ → Console → Console × List ℕ × ReadEnd
read_line killed copyout i zero c = (c, [], returned i)
read_line killed copyout i (suc n) c =
    let rest = read_line killed copyout (i + 1) n (consume c) in
    let ch = c.buf (c.r % input_buf_size) in
    if c.r == c.w
    then (c, [], (if killed then failed else asleep i))
    else (if ch == ctrl_d
        then ((if ltb 0 i then c else consume c), [], returned i)
        else (if not (copyout i)
            then (consume c, [], returned i)
            else (if ch == newline
                then (consume c, ch ∷ [], returned (i + 1))
                else (rest.0, ch ∷ rest.1, rest.2))))

pub consoleread : Bool → (ℕ → Bool) → ℕ → Console → Console × List ℕ × ReadEnd
consoleread killed copyout n c = read_line killed copyout 0 n c
