-- ===== src/ProcTable/Invariant.antt =====
-- The invariant of the process table of kernel/proc.c.
use mini_os_design.Common.{ℕ, ◌<◌, ◌≡◌, ◌≢◌, true, false, some, get_elem?}
use mini_os_design.Proc.{Proc}
use mini_os_design.ProcTable.{ProcTable, is_unused, is_zombie}

-- A process that has not exited.
abbrev pub IsLive : Proc → Type 0
IsLive p = (is_unused p ≡ false) × (is_zombie p ≡ false)

-- An unused entry has the pid 0, and any other a pid that was handed out.
abbrev pub PidFits : ℕ → Proc → Type 0
PidFits next p =
    (is_unused p ≡ true → p.pid ≡ 0) × (is_unused p ≡ false → (0 < p.pid) × (p.pid < next))

-- Two processes never share a pid, the parent of every process is alive, and so is init.
pub record IsValid (t : ProcTable) : Type 0 where
  pub started : 0 < t.nextpid
  pub pids : (i : ℕ) (p : Proc) → get_elem? t.procs i ≡ some p → PidFits t.nextpid p
  pub unique :
      (i j : ℕ) (p q : Proc)
      → get_elem? t.procs i ≡ some p
      → get_elem? t.procs j ≡ some q
      → i ≢ j
      → p.pid ≡ q.pid
      → p.pid ≡ 0
  pub parents :
      (i j : ℕ) (p : Proc)
      → get_elem? t.procs i ≡ some p
      → p.parent ≡ some j
      → (q : Proc) × (get_elem? t.procs j ≡ some q) × IsLive q
  pub init : (q : Proc) × (get_elem? t.procs t.initproc ≡ some q) × IsLive q
