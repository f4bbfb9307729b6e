-- ===== src/Sched.antt =====
-- kernel/sched.h and `scheduler` of kernel/proc.c: one round of a CPU's scheduling loop. The round
-- is cut at `swtch`: `dispatch` is what the loop does before it, `account` what it does after it,
-- and between them the process, and the other CPUs, change the table.
-- `wait_ticks`, `cpu_ticks` and `window_tick` count without the wrap of `int`.
pub mod Select
pub mod Bounds
pub mod Starvation
mod Tests
use mini_os_design.Common.{
  ℕ, suc, ◌+◌, ◌-◌, ◌%◌, ◌^◌, List, [], ◌∷◌, Option, none, some, Bool, true, false, not, ◌&&◌, ltb,
  leb, ◌==◌, if◌then◌else◌, map_from, get_elem?, set, map,
}
use mini_os_design.Common.Int.{ℤ, pos, ◌+ℤ◌, ◌-ℤ◌, ltb_ℤ}
use mini_os_design.Proc.{Proc, ProcState, unused, used, sleeping, runnable, running, zombie}

abbrev sched_alpha : ℤ
sched_alpha = pos 5

abbrev sched_beta : ℤ
sched_beta = pos 10

abbrev pub sched_default : ℤ
sched_default = pos 60

abbrev pub sched_max : ℤ
sched_max = pos 100

abbrev pub sched_min : ℤ
sched_min = pos 0

abbrev sched_wmax : ℕ
sched_wmax = 50

abbrev sched_tcpu_max : ℕ
sched_tcpu_max = 1

abbrev pub sched_w : ℕ
sched_w = 50

-- The table with what `scheduler` keeps: `cpu_proc` is `c->proc`, the other two are its statics.
pub record Sched : Type 0 where
  pub procs : List Proc
  pub cpu_proc : Option ℕ
  pub window_tick : ℕ
  pub idle_start_tick : ℕ

abbrev pub is_runnable : Proc → Bool
is_runnable p = elim p.state [ runnable ↦ true | _ ↦ false ]

abbrev pub is_starving : Proc → Bool
is_starving p = is_runnable p && leb sched_wmax p.wait_ticks

-- best == 0 || p->priority > best->priority
abbrev pub outranks : Proc → Option (ℕ × Proc) → Bool
outranks p none = true
outranks p (some (i, q)) = ltb_ℤ q.priority p.priority

-- Phase 1, from index `i` on: a starving process ends the search.
pub select : ℕ → Option (ℕ × Proc) → List Proc → Option (ℕ × Proc)
select i best [] = best
select i best (p ∷ ps) =
    let rest = select (i + 1) (if is_runnable p && outranks p best then some (i, p) else best) ps in
    if is_starving p then some (i, p) else rest

-- Phase 2 for one process: a runnable one that was passed over waits and gains priority.
pub age : Proc → Proc
age p =
    if is_runnable p
    then record p {
      wait_ticks = p.wait_ticks + 1;
      priority =
          if ltb_ℤ sched_max (p.priority +ℤ sched_alpha)
          then sched_max
          else p.priority +ℤ sched_alpha;
    }
    else p

-- The winner is set running; every other process ages.
pub take_turn : ℕ → ℕ → Proc → Proc
take_turn best i p = if i == best then record p { state = running; wait_ticks = 0 } else age p

-- Up to `swtch`: the index to switch to, or `none` where the CPU is idle.
pub dispatch : Sched → Sched × Option ℕ
dispatch s = elim (select 0 none s.procs) [
  | none ↦ (s, none)
  | some (best, p) ↦ (
    record s {
      procs = map_from (take_turn best) 0 s.procs;
      cpu_proc = some best;
      idle_start_tick = 0;
    },
    some best,
  )
]

-- What the CPU time costs the process that comes back.
pub charge : Proc → Proc
charge p = record p {
  cpu_ticks = p.cpu_ticks + 1;
  priority =
      if ltb sched_tcpu_max (p.cpu_ticks + 1)
      then (if ltb_ℤ (p.priority -ℤ sched_beta) sched_min
          then sched_min
          else p.priority -ℤ sched_beta)
      else p.priority;
}

abbrev pub reset_cpu_ticks : Proc → Proc
reset_cpu_ticks p = record p { cpu_ticks = 0 }

-- After `swtch` comes back from the process at `best`, with the window reset.
pub account : Sched → ℕ → Sched
account s best = record s {
  procs = if full then map reset_cpu_ticks charged else charged;
  cpu_proc = none;
  window_tick = if full then 0 else s.window_tick + 1;
}
  where
    charged : List Proc
    charged = map_from (λ i p. if i == best then charge p else p) 0 s.procs

    full : Bool
    full = leb sched_w (s.window_tick + 1)

-- `yield` of the process at `best`, which hands the CPU back still runnable.
pub yield : Sched → ℕ → Sched
yield s best = record s {
  procs = map_from (λ i p. if i == best then record p { state = runnable } else p) 0 s.procs;
}

-- What an idle CPU runs before `wfi`.
record IdleWork : Type 0 where
  pub collects : Bool
  pub compacts : Bool

-- The idle branch at the time `current_tick`; ticks are a `uint`.
idle : Sched → ℕ → Sched × IdleWork
idle s current_tick =
    if s.idle_start_tick == 0
    then (
      record s { idle_start_tick = current_tick },
      record { collects = false; compacts = false },
    )
    else (
      if leb 10 elapsed then record s { idle_start_tick = current_tick } else s,
      record { collects = leb 5 elapsed; compacts = leb 10 elapsed },
    )
  where
    elapsed : ℕ
    elapsed = (current_tick + 2 ^ 32 - s.idle_start_tick) % 2 ^ 32
