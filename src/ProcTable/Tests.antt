-- ===== src/ProcTable/Tests.antt =====
-- Concrete runs of kernel/proc.c on a table with init, its child, a zombie of that child and a free
-- entry.
use mini_os_design.Common.{
  ℕ, zero, suc, ◌+◌, ◌≡◌, ◌≢◌, [], ◌∷◌, none, some, true, false, get_elem?, refl, arith, ok, panic,
}
use mini_os_design.Common.Int.{pos}
use mini_os_design.Proc.{Proc, unused, sleeping, runnable, running, zombie, object}
use mini_os_design.ProcTable.{ProcTable, kfork, kexit, kkill, allocproc}
use mini_os_design.ProcTable.Invariant.{IsLive, PidFits, IsValid}
use mini_os_design.ProcTable.Preserve.{Childless}
use mini_os_design.ProcTable.Lifecycle.{LiveAt, kexit_lem}
use mini_os_design.ProcTable.Fork.{Made, allocproc-Made, kfork-IsValid}
use mini_os_design.ProcTable.KillZero.{kkill_zero}

abbrev blank : Proc
blank = record {
  state = unused;
  chan = none;
  killed = false;
  xstate = pos 0;
  pid = 0;
  parent = none;
  priority = pos 60;
  wait_ticks = 0;
  cpu_ticks = 0;
}

abbrev init_proc : Proc
init_proc = record blank { state = sleeping; chan = some (object 5); pid = 1 }

abbrev shell : Proc
shell = record blank { state = running; pid = 2; parent = some 0 }

abbrev child : Proc
child = record blank { state = zombie; pid = 3; parent = some 1 }

abbrev small : ProcTable
small = record { procs = init_proc ∷ shell ∷ child ∷ blank ∷ []; nextpid = 4; initproc = 0 }

small_pids : (i : ℕ) (p : Proc) → get_elem? small.procs i ≡ some p → PidFits 4 p
small_pids zero p e = ground arith
small_pids (suc zero) p e = ground arith
small_pids (suc (suc zero)) p e = ground arith
small_pids (suc (suc (suc zero))) p e = ground arith
small_pids (suc (suc (suc (suc i)))) p e = cc

-- The pid of entry `i` is `i + 1`, or 0 for the free entry.
small_pid : (i : ℕ) (p : Proc) → get_elem? small.procs i ≡ some p → p.pid ≢ 0 → p.pid ≡ i + 1
small_pid zero p e h = ground arith
small_pid (suc zero) p e h = ground arith
small_pid (suc (suc zero)) p e h = ground arith
small_pid (suc (suc (suc zero))) p e h = ground arith
small_pid (suc (suc (suc (suc i)))) p e h = cc

small_parents :
    (i j : ℕ) (p : Proc)
    → get_elem? small.procs i ≡ some p
    → p.parent ≡ some j
    → (q : Proc) × (get_elem? small.procs j ≡ some q) × IsLive q
small_parents zero j p e h = cc
small_parents (suc zero) j p e h =
    let z : j ≡ 0 = ground arith in rw z (init_proc, refl, (refl, refl))
small_parents (suc (suc zero)) j p e h =
    let z : j ≡ 1 = ground arith in rw z (shell, refl, (refl, refl))
small_parents (suc (suc (suc zero))) j p e h = cc
small_parents (suc (suc (suc (suc i)))) j p e h = cc

small-IsValid : IsValid small
small-IsValid = record {
  started = omega arith;
  pids = small_pids;
  unique = λ i j p q e g ne s. ground (arith, small_pid i p e, small_pid j q g);
  parents = small_parents;
  init = (init_proc, refl, (refl, refl));
}

shell-LiveAt : LiveAt 1 small
shell-LiveAt p e = ground arith

kfork_run : (kfork true true true 1 small).1 ≡ some 4
unfolding kfork allocproc
kfork_run = refl

kfork-IsValid_example : IsValid (kfork true true true 1 small).0
kfork-IsValid_example =
    kfork-IsValid true true true 1 small shell refl (refl, refl) (omega arith) small-IsValid

allocproc-Made_example : Made small (allocproc true false small)
allocproc-Made_example = allocproc-Made true false small (omega arith) small-IsValid

kexit_lem_example :
    (1 ≡ small.initproc → kexit 1 (pos 7) small ≡ panic "init exiting")
    × (1 ≢ small.initproc
        → (t' : ProcTable) × (kexit 1 (pos 7) small ≡ ok t')
          × IsValid t'
          × Childless 1 t'
          × ((p : Proc) → get_elem? t'.procs 1 ≡ some p → (p.state ≡ zombie) × (p.xstate ≡ pos 7)))
kexit_lem_example = kexit_lem 1 (pos 7) small shell-LiveAt small-IsValid

kkill_zero_example :
    ((kkill 0 small).1 ≡ true)
    × ((kfork true true true 1 (kkill 0 small).0).1 ≡ some 4)
    × ((p : Proc)
        → get_elem? (kfork true true true 1 (kkill 0 small).0).0.procs 3 ≡ some p
        → (p.killed ≡ true) × (p.pid ≡ 4) × (p.state ≡ runnable))
kkill_zero_example = kkill_zero small 1 3 small-IsValid refl
