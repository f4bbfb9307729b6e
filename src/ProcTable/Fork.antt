-- ===== src/ProcTable/Fork.antt =====
-- allocproc and kfork of kernel/proc.c, whichever of their allocations fails.
use mini_os_design.Common.{
  ℕ, ◌+◌, ◌%◌, ◌^◌, ◌<◌, ◌≡◌, ◌≢◌, ◌⊎◌, inl, inr, Option, none, some, Bool, true, not, ◌||◌, ◌==◌,
  refl, sym, ap, ◌∙◌, arith, find_from, get_elem?, Bool-cases, Option-cases,
}
use mini_os_design.Common.Int.{ℤ}
use mini_os_design.Proc.{Proc, used, runnable}
use mini_os_design.Common.Get.{get-map, map-get, find-some}
use mini_os_design.ProcTable.Invariant.{IsLive, IsValid}
use mini_os_design.ProcTable.Preserve.{pass-IsValid, Quiet-IsValid, Childless}
use mini_os_design.Sched.{sched_default}
use mini_os_design.ProcTable.{
  ProcTable, is_unused, at, update_at, freeproc, allocproc, kfork, priority_of,
}
use mini_os_design.ProcTable.Lifecycle.{dead-Childless, dead-ne-init, freeproc-IsValid}

abbrev pub claimed : ℕ → Proc → Proc
claimed pid p = record p { pid = pid; state = used }

abbrev pub fresh : Proc → Proc
fresh p = record p { priority = sched_default; wait_ticks = 0; cpu_ticks = 0 }

-- The table once allocproc has taken entry `i`.
abbrev pub taken : ProcTable → ℕ → ProcTable
taken t i = record (update_at i (claimed t.nextpid) t) { nextpid = (t.nextpid + 1) % 2 ^ 32 }

taken-IsValid :
    (t : ProcTable) (i : ℕ) (z : Proc)
    → get_elem? t.procs i ≡ some z
    → is_unused z ≡ true
    → t.nextpid + 1 < 2 ^ 31
    → IsValid t
    → IsValid (taken t i)
taken-IsValid t i z g d n v =
    let e : (t.nextpid + 1) % 2 ^ 32 ≡ t.nextpid + 1 = omega arith in
    rw e (
      pass-IsValid t (at i (claimed t.nextpid)) (t.nextpid + 1) (omega (arith, v.started))
        (λ k p a. ground (arith, v.pids k p a, v.started))
        (λ k j p q a b ne s. ground (arith, v.unique k j p q a b ne, v.pids k p a, v.pids j q b))
        (λ k j p a s.
          let pa : p.parent ≡ some j = ground (arith, s) in
          let (q, c, l) = v.parents k j p a pa in (q, c, ground (arith, l)))
        (let (q, c, l) = v.init in (q, c, ground (arith, l))))

taken-Childless : (t : ProcTable) (i : ℕ) → Childless i t → Childless i (taken t i)
taken-Childless t i h k q e =
    let (p, a, b) = get-map (at i (claimed t.nextpid)) t.procs k e in rw b (ground (arith, h k p a))

started-IsValid : (t : ProcTable) (i : ℕ) → IsValid t → IsValid (update_at i fresh t)
started-IsValid t i v = Quiet-IsValid t (at i fresh) (λ k p a. ground arith) v

fresh_alone : (t : ProcTable) (i : ℕ) → Childless i t → Childless i (update_at i fresh t)
fresh_alone t i h k q e =
    let (p, a, b) = get-map (at i fresh) t.procs k e in rw b (ground (arith, h k p a))

freeproc_init : (t : ProcTable) (i : ℕ) → (freeproc t i).initproc ≡ t.initproc
unfolding freeproc
freeproc_init t i = refl

-- The search of allocproc.
alloc_cases :
    (t : ProcTable)
    → (find_from is_unused 0 t.procs ≡ none)
      ⊎ ((i : ℕ) × (z : Proc) × (find_from is_unused 0 t.procs ≡ some i)
          × (get_elem? t.procs i ≡ some z)
          × (is_unused z ≡ true))
alloc_cases t = elim (Option-cases (find_from is_unused 0 t.procs)) [
  | inl e ↦ inl e
  | inr (i, e) ↦ let (z, g, d) = find-some is_unused t.procs i e in inr (i, z, e, g, d)
]

-- What allocproc returns on a valid table: nothing, with a valid table, or an entry that was
-- unused and now has the next pid.
abbrev pub Made : ProcTable → ProcTable × Option ℕ → Type 0
Made t (t', none) = IsValid t' × (t'.initproc ≡ t.initproc)
Made t (t', some i) =
    (t' ≡ update_at i fresh (taken t i)) × IsValid t' × Childless i t' × (i ≢ t'.initproc)

pub allocproc-Made :
    (trapframe pagetable : Bool) (t : ProcTable)
    → t.nextpid + 1 < 2 ^ 31
    → IsValid t
    → Made t (allocproc trapframe pagetable t)
unfolding allocproc
allocproc-Made trapframe pagetable t n v = elim (alloc_cases t) [
  | inl e ↦ rw (e, allocproc) (v, refl)
  | inr (i, z, e, g, d) ↦
      let alone : Childless i t = dead-Childless t i z g (inl d) v in
      let ne : i ≢ t.initproc = dead-ne-init t i z g (inl d) v in
      let w : IsValid (taken t i) = taken-IsValid t i z g d n v in
      elim (Bool-cases (not trapframe || not pagetable)) [
        | inl b ↦
            rw (e, allocproc, b)
              (
                freeproc-IsValid (taken t i) i (taken-Childless t i alone) ne w,
                freeproc_init (taken t i) i,
              )
        | inr b ↦
            rw (e, allocproc, b)
              (
                refl,
                started-IsValid (taken t i) i w,
                fresh_alone (taken t i) i (taken-Childless t i alone),
                ne,
              )
      ]
]

Made-none : (t : ProcTable) (r : ProcTable × Option ℕ) → r.1 ≡ none → Made t r → IsValid r.0
Made-none t (t', none) e m = m.0
Made-none t (t', some i) e m = m.1

Made-some :
    (t : ProcTable) (r : ProcTable × Option ℕ) (i : ℕ)
    → r.1 ≡ some i
    → Made t r
    → Made t (r.0, some i)
Made-some t (t', none) i e m = cc
Made-some t (t', some j) i e m = let z : i ≡ j = cc in rw z m

-- The child as kfork leaves it.
abbrev pub child_of : ℕ → ℤ → Proc → Proc
child_of me priority p = record p {
  priority = priority;
  wait_ticks = 0;
  cpu_ticks = 0;
  parent = some me;
  state = runnable;
}

forked-IsValid :
    (t : ProcTable) (i me : ℕ) (priority : ℤ) (q : Proc)
    → get_elem? t.procs me ≡ some q
    → IsLive q
    → IsValid t
    → ((p : Proc) → get_elem? t.procs i ≡ some p → IsLive p)
    → IsValid (update_at i (child_of me priority) t)
forked-IsValid t i me priority q g l v live =
    pass-IsValid t (at i (child_of me priority)) t.nextpid v.started
      (λ k p a. elim (Bool-cases (k == i)) [
        | inl s ↦
            let z : k ≡ i = ground (arith, s) in ground (arith, s, v.pids k p a, live p (rw z at a))
        | inr s ↦ ground (arith, s, v.pids k p a)
      ])
      (λ k j p r a b ne s. ground (arith, v.unique k j p r a b ne))
      (λ k j p a s. elim (Bool-cases (k == i)) [
        | inl h ↦ let z : j ≡ me = ground (arith, h, s) in (q, rw z g, ground (arith, l))
        | inr h ↦
            let (r, c, m) = v.parents k j p a (ground (arith, h, s)) in (r, c, ground (arith, m))
      ])
      (let (r, c, m) = v.init in (r, c, ground (arith, m)))

taken-IsLive :
    (t : ProcTable) (i : ℕ) (p : Proc)
    → get_elem? (update_at i fresh (taken t i)).procs i ≡ some p
    → IsLive p
taken-IsLive t i p e =
    let (r, a, b) = get-map (at i fresh) (taken t i).procs i e in
    let (s, c, d) = get-map (at i (claimed t.nextpid)) t.procs i a in rw (b, d) (ground arith)

taken_get :
    (t : ProcTable) (i me : ℕ) (q : Proc)
    → get_elem? t.procs me ≡ some q
    → IsLive q
    → (r : Proc) × (get_elem? (update_at i fresh (taken t i)).procs me ≡ some r) × IsLive r
taken_get t i me q g l = (
  at i fresh me (at i (claimed t.nextpid) me q),
  map-get (at i fresh) (taken t i).procs me (map-get (at i (claimed t.nextpid)) t.procs me g),
  ground (arith, l),
)

-- While the next pid plus 1 is below 2^31, kfork by a live process keeps the table valid, whichever
-- of its allocations and copies fails: pids in use stay distinct and below nextpid, every parent is
-- alive, and init is alive.
pub kfork-IsValid :
    (trapframe pagetable copied : Bool) (me : ℕ) (t : ProcTable) (q : Proc)
    → get_elem? t.procs me ≡ some q
    → IsLive q
    → t.nextpid + 1 < 2 ^ 31
    → IsValid t
    → IsValid (kfork trapframe pagetable copied me t).0
unfolding kfork
kfork-IsValid trapframe pagetable copied me t q g l n v =
    let m : Made t (allocproc trapframe pagetable t) = allocproc-Made trapframe pagetable t n v in
    elim (Option-cases (allocproc trapframe pagetable t).1) [
      | inl e ↦ rw (e, kfork) (Made-none t (allocproc trapframe pagetable t) e m)
      | inr (i, e) ↦
          let (s, w, alone, ne) = Made-some t (allocproc trapframe pagetable t) i e m in
          elim (Bool-cases copied) [
            | inl c ↦
                let (r, h, live) = taken_get t i me q g l in
                rw (e, kfork, c)
                  (forked-IsValid (allocproc trapframe pagetable t).0 i me (priority_of t me) r
                    (rw s h) live w
                    (λ p k.
                      taken-IsLive t i p (ap (λ (x : ProcTable). get_elem? x.procs i) (sym s) ∙ k)))
            | inr c ↦
                rw (e, kfork, c) (freeproc-IsValid (allocproc trapframe pagetable t).0 i alone ne w)
          ]
    ]
