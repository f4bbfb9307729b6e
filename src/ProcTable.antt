-- ===== src/ProcTable.antt =====
-- The process table of kernel/proc.c: allocation, fork, exit, wait, sleep, wakeup and kill. Each
-- function runs with the locks that it takes, so it is one step; kexit stands from the point where
-- it takes wait_lock, and kwait is one turn of its loop. The results of the memory functions of
-- kernel/vm.c that a call depends on are arguments.
pub mod Invariant
pub mod Preserve
pub mod Lifecycle
pub mod Fork
pub mod KillZero
mod Tests
use mini_os_design.Common.{
  ℕ, ◌+◌, ◌%◌, ◌^◌, List, Option, none, some, Bool, true, false, not, ◌&&◌, ◌||◌, ◌==◌,
  if◌then◌else◌, map_from, find_from, get_elem?, Outcome, ok, panic, ◌>>=◌, ◌>>◌, panic_if,
}
use mini_os_design.Common.Int.{ℤ, pos}
use mini_os_design.Proc.{
  Proc, ProcState, unused, used, sleeping, runnable, running, zombie, Chan, proc_chan, object,
  same_chan,
}
use mini_os_design.Sched.{sched_default}

-- `nextpid` is an int, kept as its 32-bit word.
pub record ProcTable : Type 0 where
  pub procs : List Proc
  pub nextpid : ℕ
  pub initproc : ℕ

abbrev pub is_unused : Proc → Bool
is_unused p = elim p.state [ unused ↦ true | _ ↦ false ]

abbrev is_sleeping : Proc → Bool
is_sleeping p = elim p.state [ sleeping ↦ true | _ ↦ false ]

abbrev pub is_zombie : Proc → Bool
is_zombie p = elim p.state [ zombie ↦ true | _ ↦ false ]

abbrev pub has_parent : ℕ → Proc → Bool
has_parent me p = elim p.parent [ none ↦ false | some j ↦ j == me ]

-- Change one process.
abbrev pub at : ℕ → (Proc → Proc) → ℕ → Proc → Proc
at i f j p = if j == i then f p else p

abbrev pub update_at : ℕ → (Proc → Proc) → ProcTable → ProcTable
update_at i f t = record t { procs = map_from (at i f) 0 t.procs }

-- What freeproc leaves of a process.
pub freed : Proc → Proc
freed p = record p {
  pid = 0;
  parent = none;
  chan = none;
  killed = false;
  xstate = pos 0;
  state = unused;
}

pub freeproc : ProcTable → ℕ → ProcTable
freeproc t i = update_at i freed t

-- allocproc: the index of the new process, which is not yet runnable. `trapframe` and `pagetable`
-- tell whether its two allocations succeed.
pub allocproc : Bool → Bool → ProcTable → ProcTable × Option ℕ
allocproc trapframe pagetable t = elim (find_from is_unused 0 t.procs) [
  | none ↦ (t, none)
  | some i ↦
      let found = record (update_at i (λ p. record p { pid = t.nextpid; state = used }) t) {
        nextpid = (t.nextpid + 1) % 2 ^ 32;
      } in
      if not trapframe || not pagetable then (freeproc found i, none) else (
        update_at i (λ p. record p { priority = sched_default; wait_ticks = 0; cpu_ticks = 0 })
            found,
        some i,
      )
]

abbrev pub priority_of : ProcTable → ℕ → ℤ
priority_of t me = elim (get_elem? t.procs me) [ none ↦ sched_default | some p ↦ p.priority ]

-- kfork by process `me`: the pid of the child, or `none` for -1. `copied` tells whether uvmcopy
-- succeeds.
pub kfork : Bool → Bool → Bool → ℕ → ProcTable → ProcTable × Option ℕ
kfork trapframe pagetable copied me t =
    let (t', child) = allocproc trapframe pagetable t in
    elim child [
      | none ↦ (t', none)
      | some i ↦ if not copied then (freeproc t' i, none) else (
        update_at i
            (λ p. record p {
              priority = priority_of t me;
              wait_ticks = 0;
              cpu_ticks = 0;
              parent = some me;
              state = runnable;
            })
            t',
        some t.nextpid,
      )
    ]

-- One process under wakeup: every sleeper on the channel but the caller.
abbrev pub woken : Option Chan → ℕ → ℕ → Proc → Proc
woken chan me i p =
    if not (i == me) && (is_sleeping p && same_chan p.chan chan)
    then record p { state = runnable }
    else p

pub wakeup : Option Chan → ℕ → ProcTable → ProcTable
wakeup chan me t = record t { procs = map_from (woken chan me) 0 t.procs }

-- reparent: the children of `me` pass to init, which is woken if there are any. (The C loop wakes
-- it once for each child; a second wakeup finds nobody asleep.)
pub reparent : ℕ → ProcTable → ProcTable
reparent me t = elim (find_from (has_parent me) 0 t.procs) [
  | none ↦ t
  | some _ ↦ wakeup (some (proc_chan t.initproc)) me (record t {
    procs =
        map_from (λ _ p. if has_parent me p then record p { parent = some t.initproc } else p) 0
          t.procs;
  })
]

-- The channel of a process's parent.
abbrev pub parent_chan : ProcTable → ℕ → Option Chan
parent_chan t me = elim (get_elem? t.procs me) [
  | none ↦ none
  | some p ↦ elim p.parent [ none ↦ none | some j ↦ some (proc_chan j) ]
]

-- kexit, up to its call of sched.
pub kexit : ℕ → ℤ → ProcTable → Outcome ProcTable
kexit me status t = do
  panic_if (me == t.initproc) "init exiting"
  let t₁ = reparent me t
  let t₂ = wakeup (parent_chan t₁ me) me t₁
  ok (update_at me (λ p. record p { xstate = status; state = zombie }) t₂)

pub data Waited : Type 0 where
  reaped : ℕ → ℤ → Waited
  bad_address : Waited
  nothing : Waited
  waits : Waited

-- kwait by process `me`, where `copied` tells whether the status can be stored: the first zombie
-- child is freed; -1 (`nothing`) with no child or when killed; otherwise it sleeps.
pub kwait : ℕ → Bool → ProcTable → ProcTable × Waited
kwait me copied t = elim (find_from (λ p. has_parent me p && is_zombie p) 0 t.procs) [
  | some i ↦
      if copied
      then elim (get_elem? t.procs i) [
        | none ↦ (t, nothing)
        | some p ↦ (freeproc t i, reaped p.pid p.xstate)
      ]
      else (t, bad_address)
  | none ↦ (t, idle_wait (find_from (has_parent me) 0 t.procs) (get_elem? t.procs me))
]
  where
    idle_wait : Option ℕ → Option Proc → Waited
    idle_wait kids self = elim kids [
      | none ↦ nothing
      | some _ ↦ elim self [ none ↦ nothing | some p ↦ (if p.killed then nothing else waits) ]
    ]

-- sleep, up to its call of sched, and what it does after it.
pub sleep : ℕ → Chan → ProcTable → ProcTable
sleep me chan = update_at me (λ p. record p { chan = some chan; state = sleeping })

pub sleep_end : ℕ → ProcTable → ProcTable
sleep_end me = update_at me (λ p. record p { chan = none })

-- The victim of kkill: it runs again if it sleeps.
abbrev pub condemned : Proc → Proc
condemned p =
    if is_sleeping p
    then record p { killed = true; state = runnable }
    else record p { killed = true }

-- kkill: whether a process has the pid.
pub kkill : ℕ → ProcTable → ProcTable × Bool
kkill pid t = elim (find_from (λ p. p.pid == pid) 0 t.procs) [
  | none ↦ (t, false)
  | some i ↦ (update_at i condemned t, true)
]

pub setkilled : ℕ → ProcTable → ProcTable
setkilled i = update_at i (λ p. record p { killed = true })
