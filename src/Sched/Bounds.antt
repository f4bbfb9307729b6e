-- ===== src/Sched/Bounds.antt =====
-- The priorities that `scheduler` (kernel/proc.c) computes, and what a round does to each process.
use mini_os_design.Common.{
  ℕ, ◌+◌, inl, inr, List, [], ◌∷◌, none, if◌then◌else◌, arith, All, All-map_from, map_from, map,
  Bool-cases, Option-cases, leb, ◌==◌,
}
use mini_os_design.Common.Int.{◌+ℤ◌, ◌-ℤ◌, ◌≤ℤ◌}
use mini_os_design.Proc.{Proc}
use mini_os_design.Sched.{
  Sched, sched_min, sched_max, sched_w, select, age, take_turn, dispatch, charge, account,
  reset_cpu_ticks,
}

-- SCHED_MIN <= priority <= SCHED_MAX
abbrev pub InRange : Proc → Type 0
InRange p = (sched_min ≤ℤ p.priority) × (p.priority ≤ℤ sched_max)

age-InRange : (p : Proc) → InRange p → InRange (age p)
unfolding age ◌+ℤ◌
age-InRange p h = ground arith

charge-InRange : (p : Proc) → InRange p → InRange (charge p)
unfolding charge ◌-ℤ◌
charge-InRange p h = ground arith

take_turn-InRange : (best i : ℕ) (p : Proc) → InRange p → InRange (take_turn best i p)
unfolding take_turn
take_turn-InRange best i p h = ground (arith, age-InRange p h)

reset-InRange : (ps : List Proc) → All InRange ps → All InRange (map reset_cpu_ticks ps)
reset-InRange [] a = tt
reset-InRange (p ∷ ps) a = (a.0, reset-InRange ps a.1)

dispatch-InRange : (s : Sched) → All InRange s.procs → All InRange (dispatch s).0.procs
unfolding dispatch
dispatch-InRange s a = elim (Option-cases (select 0 none s.procs)) [
  | inl e ↦ rw (e, dispatch) a
  | inr ((best, p), e) ↦
      rw (e, dispatch) (All-map_from InRange (take_turn best) s.procs 0 (take_turn-InRange best) a)
]

account-InRange : (s : Sched) (best : ℕ) → All InRange s.procs → All InRange (account s best).procs
unfolding account
account-InRange s best a = elim (Bool-cases (leb sched_w (s.window_tick + 1))) [
  | inl e ↦ rw e (reset-InRange _ charged)
  | inr e ↦ rw e charged
]
  where
    charged : All InRange (map_from (λ i p. if i == best then charge p else p) 0 s.procs)
    charged =
        All-map_from InRange (λ i p. if i == best then charge p else p) s.procs 0
          (λ i p h. ground (arith, charge-InRange p h)) a

-- If every priority lies between SCHED_MIN and SCHED_MAX, so does every priority after the part of
-- a round before swtch, and after the part that follows it.
pub round-InRange :
    (s : Sched) (best : ℕ)
    → All InRange s.procs
    → All InRange (dispatch s).0.procs × All InRange (account s best).procs
round-InRange s best a = (dispatch-InRange s a, account-InRange s best a)
