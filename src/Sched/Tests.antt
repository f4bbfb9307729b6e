-- ===== src/Sched/Tests.antt =====
-- Concrete rounds of the scheduler of kernel/proc.c.
use mini_os_design.Common.{
  ℕ, suc, zero, ◌+◌, ◌-◌, ◌%◌, ◌≡◌, ◌≢◌, List, [], ◌∷◌, none, some, false, refl, arith, All,
}
use mini_os_design.Common.Int.{pos}
use mini_os_design.Proc.{Proc, runnable}
use mini_os_design.Sched.{Sched, dispatch, account, select}
use mini_os_design.Sched.Select.{Chosen, select-Chosen}
use mini_os_design.Sched.Bounds.{InRange, round-InRange}
use mini_os_design.Sched.Starvation.{Staggered, busy_round, busy_rounds, busy_rounds_starve}

-- A busy process with the wait that entry `i` of a staggered table has in round 0.
abbrev busy : ℕ → Proc
busy i = record {
  state = runnable;
  chan = none;
  killed = false;
  xstate = pos 0;
  pid = i + 1;
  parent = none;
  priority = pos 60;
  wait_ticks = (0 + 50 - i) % 51;
  cpu_ticks = 0;
}

crowd : ℕ → ℕ → List Proc
crowd i zero = []
crowd i (suc n) = busy i ∷ crowd (i + 1) n

crowd-Staggered : (n i : ℕ) → Staggered 0 i (crowd i n)
unfolding crowd
crowd-Staggered zero i = tt
crowd-Staggered (suc n) i = (λ h. (refl, refl), crowd-Staggered n (i + 1))

abbrev crowded : Sched
crowded = record { procs = crowd 0 53; cpu_proc = none; window_tick = 0; idle_start_tick = 0 }

busy_rounds_starve_example : (busy_round (busy_rounds 3 crowded)).1 ≢ some 52
unfolding crowd
busy_rounds_starve_example =
    busy_rounds_starve 3 crowded 0 (crowd-Staggered 53 0) (omega arith) 52 (omega arith)

abbrev duel : List Proc
duel = record (busy 50) { priority = pos 40 } ∷ busy 50 ∷ []

select_run : select 0 none duel ≡ some (1, busy 50)
unfolding select
select_run = refl

select-Chosen_example : Chosen duel (select 0 none duel)
select-Chosen_example = select-Chosen duel

abbrev two_procs : Sched
two_procs = record { procs = duel; cpu_proc = none; window_tick = 49; idle_start_tick = 0 }

round-InRange_example :
    All InRange (dispatch two_procs).0.procs × All InRange (account two_procs 1).procs
round-InRange_example = round-InRange two_procs 1 (ground arith, (ground arith, tt))
