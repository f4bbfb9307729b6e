-- ===== src/ProcTable/Lifecycle.antt =====
-- kexit and kwait of kernel/proc.c.
use mini_os_design.Common.{
  ℕ, ◌≡◌, ◌≢◌, ◌⊎◌, inl, inr, Option, some, Bool, true, ◌&&◌, refl, arith, find_from, get_elem?,
  Bool-cases, Option-cases, ok, panic,
}
use mini_os_design.Common.Int.{ℤ}
use mini_os_design.Proc.{Proc, zombie, Chan, proc_chan}
use mini_os_design.Common.Get.{get-map, find-some}
use mini_os_design.ProcTable.Invariant.{IsLive, IsValid}
use mini_os_design.ProcTable.Preserve.{
  wakeup-IsValid, pass-IsValid, reparent-IsValid, Childless, wakeup-Childless, reparent-Childless,
  reparent-initproc, exiting-IsValid, adopted,
}
use mini_os_design.ProcTable.{
  ProcTable, is_unused, is_zombie, has_parent, at, update_at, freed, freeproc, woken, wakeup,
  reparent, parent_chan, kexit, kwait,
}

-- The entry at `i`, if there is one, is alive.
abbrev pub LiveAt : ℕ → ProcTable → Type 0
LiveAt i t = (p : Proc) → get_elem? t.procs i ≡ some p → IsLive p

wakeup-LiveAt :
    (chan : Option Chan) (me i : ℕ) (t : ProcTable) → LiveAt i t → LiveAt i (wakeup chan me t)
unfolding wakeup
wakeup-LiveAt chan me i t h q e =
    let (p, a, b) = get-map (woken chan me) t.procs i e in rw b (ground (arith, h p a))

reparent-LiveAt : (me i : ℕ) (t : ProcTable) → LiveAt i t → LiveAt i (reparent me t)
unfolding reparent
reparent-LiveAt me i t h = elim (Option-cases (find_from (has_parent me) 0 t.procs)) [
  | inl e ↦ rw (e, reparent) h
  | inr (k, e) ↦
      rw (e, reparent)
        (wakeup-LiveAt (some (proc_chan t.initproc)) me i _ (λ q g.
          let (p, a, b) = get-map (adopted t me) t.procs i g in rw b (ground (arith, h p a))))
]

wakeup-initproc :
    (chan : Option Chan) (me : ℕ) (t : ProcTable) → (wakeup chan me t).initproc ≡ t.initproc
unfolding wakeup
wakeup-initproc chan me t = refl

-- In a valid table, kexit by a live process panics if the process is init; otherwise it succeeds,
-- the table stays valid, no process is left with the exiting one as its parent, and its entry is a
-- zombie with the given status.
pub kexit_lem :
    (me : ℕ) (status : ℤ) (t : ProcTable)
    → LiveAt me t
    → IsValid t
    → (me ≡ t.initproc → kexit me status t ≡ panic "init exiting")
      × (me ≢ t.initproc
          → (t' : ProcTable) × (kexit me status t ≡ ok t')
            × IsValid t'
            × Childless me t'
            × ((p : Proc)
                → get_elem? t'.procs me ≡ some p
                → (p.state ≡ zombie) × (p.xstate ≡ status)))
unfolding kexit
kexit_lem me status t live v = (
  λ e. ground arith,
  λ ne.
      let t₁ : ProcTable = reparent me t in
      let t₂ : ProcTable = wakeup (parent_chan t₁ me) me t₁ in
      let f : (Proc → Proc) = λ p. record p { xstate = status; state = zombie } in
      let alone : Childless me t₂ =
        wakeup-Childless (parent_chan t₁ me) me me t₁ (reparent-Childless me t ne) in
      (
        update_at me f t₂,
        ground arith,
        exiting-IsValid me status t₂
            (rw (wakeup-initproc (parent_chan t₁ me) me t₁, reparent-initproc me t) ne)
            (wakeup-LiveAt (parent_chan t₁ me) me me t₁ (reparent-LiveAt me me t live)) alone
            (wakeup-IsValid (parent_chan t₁ me) me t₁ (reparent-IsValid me t v)),
        (λ i q g.
            let (p, a, b) = get-map (at me f) t₂.procs i g in rw b (ground (arith, alone i p a))),
        (λ q g. let (p, a, b) = get-map (at me f) t₂.procs me g in rw b (ground arith)),
      ),
)

-- An entry that is not alive is nobody's parent.
pub dead-Childless :
    (t : ProcTable) (i : ℕ) (z : Proc)
    → get_elem? t.procs i ≡ some z
    → (is_unused z ≡ true) ⊎ (is_zombie z ≡ true)
    → IsValid t
    → Childless i t
dead-Childless t i z g d v k p a = elim (Bool-cases (has_parent i p)) [
  | inl h ↦
      let (q, c, l) = v.parents k i p a (ground (arith, h)) in absurd (ground (arith, g, c, l, d))
  | inr h ↦ h
]

pub dead-ne-init :
    (t : ProcTable) (i : ℕ) (z : Proc)
    → get_elem? t.procs i ≡ some z
    → (is_unused z ≡ true) ⊎ (is_zombie z ≡ true)
    → IsValid t
    → i ≢ t.initproc
dead-ne-init t i z g d v e =
    let (q, c, l) = v.init in
    let h : get_elem? t.procs i ≡ some q = rw e c in absurd (ground (arith, g, h, l, d))

pub freeproc-IsValid :
    (t : ProcTable) (i : ℕ) → Childless i t → i ≢ t.initproc → IsValid t → IsValid (freeproc t i)
unfolding freeproc freed
freeproc-IsValid t i alone ne v =
    pass-IsValid t (at i freed) t.nextpid v.started (λ k p a. ground (arith, v.pids k p a))
      (λ k j p q a b d s. ground (arith, v.unique k j p q a b d))
      (λ k j p a s.
        let pa : p.parent ≡ some j = ground (arith, s) in
        let (q, c, l) = v.parents k j p a pa in (q, c, ground (arith, alone k p a, pa, l)))
      (let (q, c, l) = v.init in (q, c, ground (arith, l, ne)))

-- kwait keeps a valid table valid, whether it reaps a zombie, fails to store its status, returns -1
-- or sleeps.
kwait-IsValid : (me : ℕ) (copied : Bool) (t : ProcTable) → IsValid t → IsValid (kwait me copied t).0
unfolding kwait
kwait-IsValid me copied t v =
    elim (Option-cases (find_from (λ p. has_parent me p && is_zombie p) 0 t.procs)) [
      | inl e ↦ rw (e, kwait) v
      | inr (i, e) ↦
          let (z, g, h) = find-some (λ p. has_parent me p && is_zombie p) t.procs i e in
          let d : is_zombie z ≡ true = ground (arith, h) in
          elim (Bool-cases copied) [
            | inl c ↦
                rw (e, kwait, c, g)
                  (freeproc-IsValid t i (dead-Childless t i z g (inr d) v)
                    (dead-ne-init t i z g (inr d) v) v)
            | inr c ↦ rw (e, kwait, c) v
          ]
    ]
