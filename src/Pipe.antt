-- ===== src/Pipe.antt =====
-- kernel/pipe.c: the ring of PIPESIZE bytes with its two `uint` counters. A call runs until it
-- returns or sleeps; one that slept is called again, at the offset where it stopped, when a wakeup
-- comes. `copyin` and `copyout` of the caller's page table are arguments: what the byte at an
-- offset is, or whether the store there succeeds.
pub mod Queue
pub mod Stream
mod Tests
use mini_os_design.Common.{
  ℕ, zero, suc, ◌+◌, ◌-◌, ◌%◌, ◌^◌, List, [], ◌∷◌, Option, none, some, Bool, true, false, not, ◌&&◌,
  ◌||◌, ◌==◌, if◌then◌else◌,
}

abbrev pub pipe_size : ℕ
pipe_size = 512

abbrev pub uint_mod : ℕ
uint_mod = 2 ^ 32

-- `bytes` is the array `data`, of which only the indices below PIPESIZE are used.
pub record Pipe : Type 0 where
  pub bytes : ℕ → ℕ
  pub nread : ℕ
  pub nwrite : ℕ
  pub readopen : Bool
  pub writeopen : Bool

-- The pipe that pipealloc sets up, on a page that holds anything.
pub new_pipe : (ℕ → ℕ) → Pipe
new_pipe junk = record { bytes = junk; nread = 0; nwrite = 0; readopen = true; writeopen = true }

-- `pi->data[pi->nwrite++ % PIPESIZE] = ch;`
pub put : Pipe → ℕ → Pipe
put p ch = record p {
  bytes = λ i. if i == p.nwrite % pipe_size then ch else p.bytes i;
  nwrite = (p.nwrite + 1) % uint_mod;
}

-- `ch = pi->data[pi->nread % PIPESIZE];`
pub peek : Pipe → ℕ
peek p = p.bytes (p.nread % pipe_size)

-- `pi->nread++;`
pub advance : Pipe → Pipe
advance p = record p { nread = (p.nread + 1) % uint_mod }

pub is_full : Pipe → Bool
is_full p = p.nwrite == (p.nread + pipe_size) % uint_mod

pub is_empty : Pipe → Bool
is_empty p = p.nread == p.nwrite

-- How a call ends: with the count that it returns, with -1, or asleep at an offset. A writer that
-- sleeps has woken the readers.
pub data Ended : Type 0 where
  returned : ℕ → Ended
  failed : Ended
  asleep : ℕ → Ended

-- The loop of pipewrite at offset `i` with `rest` bytes to go, and the bytes stored.
pub write_loop : Bool → (ℕ → Option ℕ) → ℕ → ℕ → Pipe → Pipe × List ℕ × Ended
write_loop killed copyin i zero p = (p, [], returned i)
write_loop killed copyin i (suc rest) p =
    if not p.readopen || killed
    then (p, [], failed)
    else if is_full p
    then (p, [], asleep i)
    else elim (copyin i) [
      | none ↦ (p, [], returned i)
      | some ch ↦
          let (q, out, e) = write_loop killed copyin (i + 1) rest (put p ch) in (q, ch ∷ out, e)
    ]

pub pipewrite : Bool → (ℕ → Option ℕ) → ℕ → Pipe → Pipe × List ℕ × Ended
pipewrite killed copyin n p = write_loop killed copyin 0 n p

-- The loop of piperead at offset `i` with `rest` bytes to go, and the bytes delivered.
pub read_loop : (ℕ → Bool) → ℕ → ℕ → Pipe → Pipe × List ℕ × Ended
read_loop copyout i zero p = (p, [], returned i)
read_loop copyout i (suc rest) p = if is_empty p then (p, [], returned i) else elim (copyout i) [
  | false ↦ (p, [], (if i == 0 then failed else returned i))
  | true ↦ let (q, out, e) = read_loop copyout (i + 1) rest (advance p) in (q, peek p ∷ out, e)
]

pub piperead : Bool → (ℕ → Bool) → ℕ → Pipe → Pipe × List ℕ × Ended
piperead killed copyout n p =
    if is_empty p && p.writeopen
    then (if killed then (p, [], failed) else (p, [], asleep 0))
    else read_loop copyout 0 n p

-- The pipe with one end closed, and whether its page is freed.
pipeclose : Pipe → Bool → Pipe × Bool
pipeclose p writable =
    let q = if writable then record p { writeopen = false } else record p { readopen = false } in
    (q, not q.readopen && not q.writeopen)
