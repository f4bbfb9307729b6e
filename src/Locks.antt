-- ===== src/Locks.antt =====
-- kernel/spinlock.c and kernel/sleeplock.c. A processor is a number; `sie` of a Cpu tells whether its
-- interrupts are on (intr_get of kernel/riscv.h).
pub mod Nesting
pub mod Exclusion
mod Tests
use mini_os_design.Common.{
  ℕ, ◌+◌, ◌-◌, Bool, true, false, not, ◌&&◌, ltb, ◌==◌, if◌then◌else◌, Option, none, some, Outcome,
  ok, panic, ◌>>=◌, ◌>>◌, panic_if,
}

-- The fields of struct cpu of kernel/proc.h that push_off and pop_off use, and the interrupt flag.
pub record Cpu : Type 0 where
  pub noff : ℕ
  pub intena : Bool
  pub sie : Bool

-- `cpu` is the processor that holds the lock, or `none` for 0.
pub record Spinlock : Type 0 where
  pub locked : Bool
  pub cpu : Option ℕ

pub record Sleeplock : Type 0 where
  pub locked : Bool
  pub pid : ℕ

abbrev pub initlock : Spinlock
initlock = record { locked = false; cpu = none }

unfoldable pub push_off : Cpu → Cpu
push_off c = record {
  noff = c.noff + 1;
  intena = if c.noff == 0 then c.sie else c.intena;
  sie = false;
}

unfoldable pub pop_off : Cpu → Outcome Cpu
pop_off c = do
  panic_if c.sie "pop_off - interruptible"
  panic_if (ltb c.noff 1) "pop_off"
  ok (record c { noff = c.noff - 1; sie = if c.noff - 1 == 0 && c.intena then true else c.sie })

abbrev pub same_cpu : Option ℕ → ℕ → Bool
same_cpu none me = false
same_cpu (some c) me = c == me

unfoldable pub holding : ℕ → Spinlock → Bool
holding me lk = lk.locked && same_cpu lk.cpu me

-- acquire on processor `me`; `none` for a lock that another processor holds, where it spins with
-- interrupts off.
unfoldable pub acquire : ℕ → Cpu → Spinlock → Outcome (Cpu × Option Spinlock)
unfolding push_off holding
acquire me c lk = do
  panic_if (holding me lk) "acquire"
  ok (push_off c, (if lk.locked then none else some (record { locked = true; cpu = some me })))

unfoldable pub release : ℕ → Cpu → Spinlock → Outcome (Cpu × Spinlock)
unfolding pop_off holding
release me c lk = do
  panic_if (not (holding me lk)) "release"
  c' ← pop_off c
  ok (c', record { locked = false; cpu = none })

abbrev pub initsleeplock : Sleeplock
initsleeplock = record { locked = false; pid = 0 }

-- acquiresleep by the process `me`; `none` where it sleeps.
unfoldable pub acquiresleep : ℕ → Sleeplock → Option Sleeplock
acquiresleep me lk = if lk.locked then none else some (record { locked = true; pid = me })

unfoldable pub releasesleep : Sleeplock → Sleeplock
releasesleep lk = record { locked = false; pid = 0 }

unfoldable pub holdingsleep : ℕ → Sleeplock → Bool
holdingsleep me lk = lk.locked && (lk.pid == me)
