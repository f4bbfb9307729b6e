-- ===== src/Proc.antt =====
-- kernel/proc.h: `enum procstate` and the fields of `struct proc` that the kernel's own decisions
-- read. A pointer to a process is its index in the table.
use mini_os_design.Common.{ℕ, Bool, true, false, Option, none, some, ◌==◌}
use mini_os_design.Common.Int.{ℤ}

pub data ProcState : Type 0 where
  unused used sleeping runnable running zombie : ProcState

-- A channel is an address: that of a process, or of another kernel object.
pub data Chan : Type 0 where
  proc_chan : ℕ → Chan
  object : ℕ → Chan

-- p->chan == chan, where `none` is the null pointer.
abbrev pub same_chan : Option Chan → Option Chan → Bool
same_chan none none = true
same_chan (some (proc_chan i)) (some (proc_chan j)) = i == j
same_chan (some (object i)) (some (object j)) = i == j
same_chan _ _ = false

pub record Proc : Type 0 where
  pub state : ProcState
  pub chan : Option Chan
  pub killed : Bool
  pub xstate : ℤ
  pub pid : ℕ
  pub parent : Option ℕ
  pub priority : ℤ
  pub wait_ticks : ℕ
  pub cpu_ticks : ℕ
