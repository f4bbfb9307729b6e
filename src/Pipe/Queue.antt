-- ===== src/Pipe/Queue.antt =====
-- The ring of kernel/pipe.c as a queue of bytes.
use mini_os_design.Common.{
  ℕ, zero, suc, ◌+◌, ◌-◌, ◌%◌, ◌≤◌, ◌<◌, ◌≡◌, ◌≢◌, List, [], ◌∷◌, ◌++◌, true, false, ◌==◌,
  if◌then◌else◌, refl, ap, arith, length,
}
use mini_os_design.Pipe.{Pipe, pipe_size, uint_mod, new_pipe, put, peek, advance, is_full, is_empty}

-- The number of bytes in the pipe.
abbrev pub count : Pipe → ℕ
count p = (p.nwrite + uint_mod - p.nread) % uint_mod

-- The counters are words, and the writer is at most PIPESIZE bytes ahead.
pub record IsValid (p : Pipe) : Type 0 where
  pub nread_word : p.nread < uint_mod
  pub nwrite_word : p.nwrite < uint_mod
  pub bounded : count p ≤ pipe_size

-- The `n` bytes from counter `c` on.
abbrev window : (ℕ → ℕ) → ℕ → ℕ → List ℕ
window bytes c zero = []
window bytes c (suc n) = bytes (c % pipe_size) ∷ window bytes ((c + 1) % uint_mod) n

abbrev pub contents : Pipe → List ℕ
contents p = window p.bytes p.nread (count p)

length-window : (n : ℕ) (bytes : ℕ → ℕ) (c : ℕ) → length (window bytes c n) ≡ n
length-window zero bytes c = refl
length-window (suc n) bytes c = ap suc (length-window n bytes ((c + 1) % uint_mod))

-- A store at the slot just past a window extends the window.
window_put :
    (n : ℕ) (bytes : ℕ → ℕ) (c w ch : ℕ)
    → c < uint_mod
    → n < pipe_size
    → w ≡ (c + n) % uint_mod
    → window (λ i. if i == w % pipe_size then ch else bytes i) c (suc n)
      ≡ window bytes c n ++ (ch ∷ [])
window_put zero bytes c w ch h l e = ground arith
window_put (suc n) bytes c w ch h l e =
    ground (
      arith,
      window_put n bytes ((c + 1) % uint_mod) w ch (omega arith) (omega arith) (omega arith),
    )

window_first :
    (n : ℕ) (bytes : ℕ → ℕ) (c : ℕ)
    → n ≢ 0
    → window bytes c n ≡ bytes (c % pipe_size) ∷ window bytes ((c + 1) % uint_mod) (n - 1)
window_first zero bytes c h = absurd (h refl)
window_first (suc n) bytes c h = let e : suc n - 1 ≡ n = omega arith in rw e

pub new_pipe-IsValid : (junk : ℕ → ℕ) → IsValid (new_pipe junk) × (contents (new_pipe junk) ≡ [])
unfolding new_pipe
new_pipe-IsValid junk = (omega arith, refl)

-- Storing a byte in a valid pipe that is not full keeps it valid and appends the byte to the queue
-- of its contents.
pub put_lem :
    (p : Pipe) (ch : ℕ)
    → IsValid p
    → is_full p ≡ false
    → IsValid (put p ch) × (contents (put p ch) ≡ contents p ++ (ch ∷ []))
unfolding put is_full
put_lem p ch v h =
    let room : count p < pipe_size = ground (arith, v) in
    let more : count (put p ch) ≡ suc (count p) = ground (arith, v, room) in
    (
      ground (arith, v, room),
      rw more (window_put (count p) p.bytes p.nread p.nwrite ch (omega arith) room (omega arith)),
    )

-- In a valid pipe that is not empty, the byte that piperead takes is the first of the queue, and
-- advancing keeps the pipe valid and removes that byte from the queue.
pub advance_lem :
    (p : Pipe)
    → IsValid p
    → is_empty p ≡ false
    → IsValid (advance p) × (contents p ≡ peek p ∷ contents (advance p))
unfolding advance peek is_empty
advance_lem p v h =
    let some_byte : count p ≢ 0 = ground (arith, v) in
    let less : count (advance p) ≡ count p - 1 = ground (arith, v, some_byte) in
    (ground (arith, v, some_byte), rw less (window_first (count p) p.bytes p.nread some_byte))

-- The two tests of the counters mean what their names say.
pub is_full_lem :
    (p : Pipe)
    → IsValid p
    → ((is_full p ≡ true → length (contents p) ≡ pipe_size) × (is_empty p ≡ true → contents p ≡ []))
unfolding is_full is_empty
is_full_lem p v = (
  λ h. ground (arith, v, length-window (count p) p.bytes p.nread),
  λ h. let e : count p ≡ 0 = ground (arith, v) in rw e,
)
