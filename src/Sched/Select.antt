-- ===== src/Sched/Select.antt =====
-- Which process phase 1 of `scheduler` (kernel/proc.c) picks.
use mini_os_design.Common.{
  ℕ, suc, ◌+◌, ◌-◌, ◌≤◌, ◌<◌, ◌≡◌, ◌⊎◌, inl, inr, List, [], ◌∷◌, Option, none, some, Bool, true,
  false, ◌&&◌, if◌then◌else◌, refl, arith, All, find_from, get_elem?, Bool-cases, Option-cases,
}
use mini_os_design.Common.Int.{ℤ, ◌≤ℤ◌}
use mini_os_design.Proc.{Proc}
use mini_os_design.Sched.{is_runnable, is_starving, outranks, select}

get_elem?-shift {ℓ} :
    {A : Type ℓ} (x : A) (xs : List A) (i k : ℕ)
    → i < k
    → get_elem? (x ∷ xs) (k - i) ≡ get_elem? xs (k - (i + 1))
get_elem?-shift x xs i k h = let e : k - i ≡ suc (k - (i + 1)) = omega arith in rw e

get_elem?-here {ℓ} :
    {A : Type ℓ} (x : A) (xs : List A) (i : ℕ) → get_elem? (x ∷ xs) (i - i) ≡ some x
get_elem?-here x xs i = let e : i - i ≡ 0 = omega arith in rw e

find_from-le {ℓ} :
    {A : Type ℓ} (p : A → Bool) (xs : List A) (i k : ℕ) → find_from p i xs ≡ some k → i ≤ k
find_from-le p [] i k e = cc
find_from-le p (x ∷ xs) i k e = ground (arith, find_from-le p xs (i + 1) k)

-- A starving process ends the search at the first one.
pub select_starving :
    (ps : List Proc) (i : ℕ) (best : Option (ℕ × Proc)) (k : ℕ)
    → find_from is_starving i ps ≡ some k
    → (p : Proc) × (select i best ps ≡ some (k, p))
      × (get_elem? ps (k - i) ≡ some p)
      × (is_runnable p ≡ true)
unfolding select
select_starving [] i best k e = absurd (cc)
select_starving (x ∷ ps) i best k e = elim (Bool-cases (is_starving x)) [
  | inl s ↦
      let q : i ≡ k = ground (arith, s) in
      let z : k - i ≡ 0 = omega arith in (x, ground (arith, s), rw z refl, ground (arith, s))
  | inr c ↦
      let r : find_from is_starving (i + 1) ps ≡ some k = ground (arith, c) in
      let (p, a, b, d) =
        select_starving ps (i + 1) (if is_runnable x && outranks x best then some (i, x) else best)
          k r in
      (
        p,
        ground (arith, c, a),
        ground (arith, b, get_elem?-shift x ps i k, find_from-le is_starving ps (i + 1) k r),
        d,
      )
]

abbrev Top : ℤ → List Proc → Type 0
Top top ps = All (λ q. is_runnable q ≡ true → q.priority ≤ℤ top) ps

abbrev Beaten : ℤ → Option (ℕ × Proc) → Type 0
Beaten top none = Unit {0}
Beaten top (some (j, b)) = b.priority ≤ℤ top

-- With nobody starving: the winner comes from before or from the list, and nobody ranks above it.
abbrev Wins : ℕ → Option (ℕ × Proc) → List Proc → Option (ℕ × Proc) → Type 0
Wins i best ps none = (best ≡ none) × All (λ q. is_runnable q ≡ false) ps
Wins i best ps (some (k, p)) =
    ((best ≡ some (k, p)) ⊎ ((i ≤ k) × (get_elem? ps (k - i) ≡ some p) × (is_runnable p ≡ true)))
    × Top p.priority ps
    × Beaten p.priority best

Wins-step :
    (i : ℕ) (best : Option (ℕ × Proc)) (x : Proc) (ps : List Proc) (r : Option (ℕ × Proc))
    → Wins (i + 1) (if is_runnable x && outranks x best then some (i, x) else best) ps r
    → Wins i best (x ∷ ps) r
Wins-step i none x ps none w = ground arith
Wins-step i (some (j, b)) x ps none w = ground arith
Wins-step i none x ps (some (k, p)) w =
    ground (arith, get_elem?-shift x ps i k, get_elem?-here x ps i)
Wins-step i (some (j, b)) x ps (some (k, p)) w =
    ground (arith, get_elem?-shift x ps i k, get_elem?-here x ps i)

select_calm :
    (ps : List Proc) (i : ℕ) (best : Option (ℕ × Proc))
    → find_from is_starving i ps ≡ none
    → Wins i best ps (select i best ps)
unfolding select
select_calm [] i none e = (refl, tt)
select_calm [] i (some (k, p)) e = (inl refl, tt, omega arith)
select_calm (x ∷ ps) i best e = elim (Bool-cases (is_starving x)) [
  | inl s ↦ absurd (ground (arith, s))
  | inr c ↦ rw c (Wins-step i best x ps _ (select_calm ps (i + 1) _ (ground (arith, c))))
]

-- Phase 1: a starving process is taken, the first in the table; otherwise a runnable process of
-- the highest priority; and none only where no process is runnable.
abbrev pub Chosen : List Proc → Option (ℕ × Proc) → Type 0
Chosen ps none = All (λ q. is_runnable q ≡ false) ps
Chosen ps (some (k, p)) =
    (get_elem? ps k ≡ some p)
    × (is_runnable p ≡ true)
    × ((find_from is_starving 0 ps ≡ some k)
        ⊎ ((find_from is_starving 0 ps ≡ none)
            × All (λ q. is_runnable q ≡ true → q.priority ≤ℤ p.priority) ps))

Chosen-of_Wins :
    (ps : List Proc) (r : Option (ℕ × Proc))
    → find_from is_starving 0 ps ≡ none
    → Wins 0 none ps r
    → Chosen ps r
Chosen-of_Wins ps none e w = w.1
Chosen-of_Wins ps (some (k, p)) e w = let z : k - 0 ≡ k = omega arith in ground (arith, z)

-- Phase 1 of the scheduler finds nothing only if no process is runnable. Otherwise it picks a
-- runnable process: the first starving one of the table if there is one, and else one whose
-- priority no runnable process exceeds.
pub select-Chosen : (ps : List Proc) → Chosen ps (select 0 none ps)
select-Chosen ps = elim (Option-cases (find_from is_starving 0 ps)) [
  | inl e ↦ Chosen-of_Wins ps (select 0 none ps) e (select_calm ps 0 none e)
  | inr (k, e) ↦
      let (p, a, b, d) = select_starving ps 0 none k e in
      let z : k - 0 ≡ k = omega arith in rw a (ground (arith, z, b), d, inl e)
]
