-- ===== src/Sched/Starvation.antt =====
-- Rounds of `scheduler` (kernel/proc.c) over processes that only compute, with more processes than
-- SCHED_WMAX.
use mini_os_design.Common.{
  ℕ, zero, suc, ◌+◌, ◌-◌, ◌%◌, ◌≤◌, ◌<◌, ◌≡◌, ◌≢◌, inl, inr, List, [], ◌∷◌, Option, none, some,
  true, if◌then◌else◌, refl, ap, ◌∙◌, arith, map_from, map, find_from, Bool-cases, leb, ◌==◌,
  length, length-map_from,
}
use mini_os_design.Proc.{Proc, runnable}
use mini_os_design.Sched.{
  Sched, sched_w, is_runnable, is_starving, age, take_turn, dispatch, charge, account, yield,
  reset_cpu_ticks,
}
use mini_os_design.Sched.Select.{select_starving}

-- One round in which the process that ran is preempted.
pub busy_round : Sched → Sched × Option ℕ
busy_round s = elim (dispatch s).1 [
  | none ↦ ((dispatch s).0, none)
  | some best ↦ (account (yield (dispatch s).0 best) best, some best)
]

pub busy_rounds : ℕ → Sched → Sched
busy_rounds zero s = s
busy_rounds (suc n) s = busy_rounds n (busy_round s).0

-- From index `i` on: each of the first 51 processes is runnable, and their waits are staggered.
abbrev pub Staggered : ℕ → ℕ → List Proc → Type 0
Staggered t i [] = Unit {0}
Staggered t i (p ∷ ps) =
    (i < 51 → (is_runnable p ≡ true) × (p.wait_ticks ≡ (t + 50 - i) % 51)) × Staggered t (i + 1) ps

first_starving :
    (ps : List Proc) (t i : ℕ)
    → Staggered t i ps
    → i ≤ t % 51
    → t % 51 < i + length ps
    → find_from is_starving i ps ≡ some (t % 51)
first_starving [] t i h lo hi = absurd (omega arith)
first_starving (p ∷ ps) t i h lo hi = ground (arith, h.0, first_starving ps t (i + 1) h.1)

-- What the round does to one process.
after_round : ℕ → ℕ → Proc → Proc
after_round best i p =
    let q = take_turn best i p in if i == best then charge (record q { state = runnable }) else q

after_round-wait :
    (t i : ℕ) (p : Proc)
    → (i < 51 → (is_runnable p ≡ true) × (p.wait_ticks ≡ (t + 50 - i) % 51))
    → i < 51
    → (is_runnable (after_round (t % 51) i p) ≡ true)
      × ((after_round (t % 51) i p).wait_ticks ≡ (t + 1 + 50 - i) % 51)
unfolding after_round take_turn age charge
after_round-wait t i p h l = ground (arith, h l)

Staggered-after_round :
    (ps : List Proc) (t i : ℕ)
    → Staggered t i ps
    → Staggered (t + 1) i (map_from (after_round (t % 51)) i ps)
Staggered-after_round [] t i h = tt
Staggered-after_round (p ∷ ps) t i h =
    (after_round-wait t i p h.0, Staggered-after_round ps t (i + 1) h.1)

Staggered-reset :
    (ps : List Proc) (t i : ℕ) → Staggered t i ps → Staggered t i (map reset_cpu_ticks ps)
Staggered-reset [] t i h = tt
Staggered-reset (p ∷ ps) t i h = (h.0, Staggered-reset ps t (i + 1) h.1)

length-map_reset : (ps : List Proc) → length (map reset_cpu_ticks ps) ≡ length ps
length-map_reset [] = refl
length-map_reset (p ∷ ps) = ap suc (length-map_reset ps)

-- The three passes over the table are one.
fused :
    (ps : List Proc) (best i : ℕ)
    → map_from
        (λ j p. if j == best then charge p else p)
        i
        (map_from
          (λ j p. if j == best then record p { state = runnable } else p)
          i
          (map_from (take_turn best) i ps))
      ≡ map_from (after_round best) i ps
unfolding after_round
fused [] best i = refl
fused (p ∷ ps) best i = ground (arith, fused ps best (i + 1))

dispatch-Staggered :
    (s : Sched) (t : ℕ)
    → Staggered t 0 s.procs
    → 51 ≤ length s.procs
    → ((dispatch s).1 ≡ some (t % 51))
      × ((dispatch s).0.procs ≡ map_from (take_turn (t % 51)) 0 s.procs)
unfolding dispatch
dispatch-Staggered s t h l =
    let (p, e, _, _) =
      select_starving s.procs 0 none (t % 51)
        (first_starving s.procs t 0 h (omega arith) (omega arith)) in
    (rw (e, dispatch), rw (e, dispatch))

account_procs :
    (s : Sched) (best t : ℕ)
    → Staggered t 0 (map_from (λ j p. if j == best then charge p else p) 0 s.procs)
    → Staggered t 0 (account s best).procs × (length (account s best).procs ≡ length s.procs)
unfolding account
account_procs s best t h = elim (Bool-cases (leb sched_w (s.window_tick + 1))) [
  | inl e ↦ rw e (
    Staggered-reset _ t 0 h,
    length-map_reset (map_from (λ j p. if j == best then charge p else p) 0 s.procs)
        ∙ length-map_from (λ j p. if j == best then charge p else p) s.procs 0,
  )
  | inr e ↦ rw e (h, length-map_from (λ j p. if j == best then charge p else p) s.procs 0)
]

-- The table once the process at `best` has run and has been preempted, before it is charged.
ran_procs :
    (s : Sched) (best : ℕ)
    → (dispatch s).0.procs ≡ map_from (take_turn best) 0 s.procs
    → map_from (λ j p. if j == best then charge p else p) 0 (yield (dispatch s).0 best).procs
      ≡ map_from (after_round best) 0 s.procs
unfolding yield
ran_procs s best e = rw e (fused s.procs best 0)

ran_length :
    (s : Sched) (best : ℕ)
    → (dispatch s).0.procs ≡ map_from (take_turn best) 0 s.procs
    → length (yield (dispatch s).0 best).procs ≡ length s.procs
unfolding yield
ran_length s best e = rw e (
    length-map_from (λ i p. if i == best then record p { state = runnable } else p)
      (map_from (take_turn best) 0 s.procs) 0
    ∙ length-map_from (take_turn best) s.procs 0)

busy_round-Staggered :
    (s : Sched) (t : ℕ)
    → Staggered t 0 s.procs
    → 51 ≤ length s.procs
    → ((busy_round s).1 ≡ some (t % 51))
      × Staggered (t + 1) 0 (busy_round s).0.procs
      × (length (busy_round s).0.procs ≡ length s.procs)
unfolding busy_round
busy_round-Staggered s t h l =
    let (e, f) = dispatch-Staggered s t h l in
    let (a, b) =
      account_procs (yield (dispatch s).0 (t % 51)) (t % 51) (t + 1)
        (rw (ran_procs s (t % 51) f) (Staggered-after_round s.procs t 0 h)) in
    rw (e, busy_round) (refl, a, b ∙ ran_length s (t % 51) f)

-- If the first 51 processes of the table are runnable with staggered waits, then in every round in
-- which the process that ran is preempted the scheduler does not pick a process of index 51 or
-- more, after any number of such rounds.
pub busy_rounds_starve :
    (n : ℕ) (s : Sched) (t : ℕ)
    → Staggered t 0 s.procs
    → 51 ≤ length s.procs
    → (j : ℕ) → 51 ≤ j
    → (busy_round (busy_rounds n s)).1 ≢ some j
unfolding busy_rounds
busy_rounds_starve zero s t h l j far e = ground (arith, (busy_round-Staggered s t h l).0)
busy_rounds_starve (suc n) s t h l j far e =
    let (_, g, m) = busy_round-Staggered s t h l in
    busy_rounds_starve n (busy_round s).0 (t + 1) g (omega arith) j far e
