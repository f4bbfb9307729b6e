-- ===== src/ProcTable/KillZero.antt =====
-- kkill(0) of kernel/proc.c. Unused entries have the pid 0, and allocproc does not clear `killed`.
use mini_os_design.Common.{
  ℕ, suc, ◌+◌, ◌≡◌, List, [], ◌∷◌, some, true, ◌==◌, refl, ◌∙◌, arith, map_from, find_from,
  get_elem?,
}
use mini_os_design.Proc.{Proc, runnable}
use mini_os_design.Common.Get.{get-map}
use mini_os_design.ProcTable.Invariant.{IsValid}
use mini_os_design.Common.Int.{ℤ}
use mini_os_design.ProcTable.Fork.{claimed, fresh, taken, child_of}
use mini_os_design.ProcTable.{
  ProcTable, is_unused, at, update_at, allocproc, kfork, kkill, condemned, priority_of,
}

-- On a valid table the entries with the pid 0 are the unused ones.
find_zero :
    (xs : List Proc) (i : ℕ)
    → ((k : ℕ) (p : Proc) → get_elem? xs k ≡ some p → (p.pid == 0) ≡ is_unused p)
    → find_from (λ p. p.pid == 0) i xs ≡ find_from is_unused i xs
find_zero [] i h = refl
find_zero (x ∷ xs) i h = rw (h 0 x refl, find_zero xs (i + 1) (λ k p e. h (suc k) p e)) refl

-- Killing an unused entry leaves it unused.
find_unused :
    (xs : List Proc) (i k : ℕ)
    → find_from is_unused i (map_from (at k condemned) i xs) ≡ find_from is_unused i xs
find_unused [] i k = refl
find_unused (x ∷ xs) i k = ground (arith, find_unused xs (i + 1) k)

kkill_found :
    (pid : ℕ) (t : ProcTable) (i : ℕ)
    → find_from (λ p. p.pid == pid) 0 t.procs ≡ some i
    → kkill pid t ≡ (update_at i condemned t, true)
unfolding kkill
kkill_found pid t i e = rw (e, kkill)

allocproc_found :
    (t : ProcTable) (i : ℕ)
    → find_from is_unused 0 t.procs ≡ some i
    → allocproc true true t ≡ (update_at i fresh (taken t i), some i)
unfolding allocproc
allocproc_found t i e = rw (e, allocproc)

kfork_found :
    (me : ℕ) (t : ProcTable) (i : ℕ)
    → find_from is_unused 0 t.procs ≡ some i
    → kfork true true true me t ≡ (
      update_at i (child_of me (priority_of t me)) (update_at i fresh (taken t i)),
      some t.nextpid,
    )
unfolding kfork
kfork_found me t i e = rw (allocproc_found t i e, kfork, allocproc_found t i e)

-- The child in the entry of a killed process.
condemned_child :
    (t : ProcTable) (me i : ℕ) (priority : ℤ) (p : Proc)
    → get_elem?
        (update_at i
          (child_of me priority)
          (update_at i fresh (taken (update_at i condemned t) i))).procs
        i
      ≡ some p
    → (p.killed ≡ true) × (p.pid ≡ t.nextpid) × (p.state ≡ runnable)
condemned_child t me i priority p k =
    let (p₁, a₁, b₁) = get-map (at i (child_of me priority)) _ i k in
    let (p₂, a₂, b₂) = get-map (at i fresh) _ i a₁ in
    let (p₃, a₃, b₃) = get-map (at i (claimed t.nextpid)) _ i a₂ in
    let (p₄, a₄, b₄) = get-map (at i condemned) t.procs i a₃ in rw (b₁, b₂, b₃, b₄) (ground arith)

-- In a valid table with an unused entry, kkill(0) reports success; if kfork then succeeds in its
-- allocations and copies, the child has the next pid, is runnable, and is already killed.
pub kkill_zero :
    (t : ProcTable) (me i : ℕ)
    → IsValid t
    → find_from is_unused 0 t.procs ≡ some i
    → ((kkill 0 t).1 ≡ true)
      × ((kfork true true true me (kkill 0 t).0).1 ≡ some t.nextpid)
      × ((p : Proc)
          → get_elem? (kfork true true true me (kkill 0 t).0).0.procs i ≡ some p
          → (p.killed ≡ true) × (p.pid ≡ t.nextpid) × (p.state ≡ runnable))
kkill_zero t me i v e =
    let f : find_from (λ p. p.pid == 0) 0 t.procs ≡ some i =
      find_zero t.procs 0 (λ k p a. ground (arith, v.pids k p a)) ∙ e in
    let h : find_from is_unused 0 (map_from (at i condemned) 0 t.procs) ≡ some i =
      find_unused t.procs 0 i ∙ e in
    rw (kkill_found 0 t i f, kfork_found me (update_at i condemned t) i h)
      (refl, refl, condemned_child t me i (priority_of (update_at i condemned t) me))
