-- ===== src/ProcTable/Preserve.antt =====
-- The operations of kernel/proc.c that change processes in place.
use mini_os_design.Common.{
  ℕ, ◌<◌, ◌≡◌, ◌≢◌, inl, inr, Option, none, some, true, false, ◌==◌, if◌then◌else◌, sym, ap, ◌∙◌,
  arith, map_from, find_from, get_elem?, Bool-cases, Option-cases,
}
use mini_os_design.Common.Int.{ℤ}
use mini_os_design.Proc.{Proc, sleeping, zombie, Chan, proc_chan}
use mini_os_design.Common.Get.{get-map, map-get, find-none}
use mini_os_design.ProcTable.Invariant.{IsLive, PidFits, IsValid}
use mini_os_design.ProcTable.{
  ProcTable, is_unused, is_zombie, has_parent, at, update_at, woken, wakeup, reparent, sleep,
  sleep_end, kkill, condemned, setkilled,
}

-- A change that leaves a process's identity: its pid, its parent, and whether it is in use and
-- alive.
abbrev Quiet : Proc → Proc → Type 0
Quiet p q =
    (q.pid ≡ p.pid)
    × (q.parent ≡ p.parent)
    × (is_unused q ≡ is_unused p)
    × (is_zombie q ≡ is_zombie p)

-- A pass over the table that is quiet at each entry keeps the invariant.
pub Quiet-IsValid :
    (t : ProcTable) (f : ℕ → Proc → Proc)
    → ((i : ℕ) (p : Proc) → get_elem? t.procs i ≡ some p → Quiet p (f i p))
    → IsValid t
    → IsValid (record t { procs = map_from f 0 t.procs })
Quiet-IsValid t f h v = record {
  started = v.started;
  pids = λ i q e. let (p, a, b) = get-map f t.procs i e in ground (arith, h i p a, v.pids i p a, b);
  unique = λ i j q r e₁ e₂ ne same.
      let (p, a, b) = get-map f t.procs i e₁ in
      let (p', a', b') = get-map f t.procs j e₂ in
      ground (arith, h i p a, h j p' a', v.unique i j p p' a a' ne, b, b');
  parents = λ i j q e pa.
      let (p, a, b) = get-map f t.procs i e in
      let (r, c, l) = v.parents i j p a (ground (arith, h i p a, b)) in
      (f j r, map-get f t.procs j c, ground (arith, h j r c, l));
  init =
      let (r, c, l) = v.init in
      (f t.initproc r, map-get f t.procs t.initproc c, ground (arith, h t.initproc r c, l));
}

-- wakeup on any channel keeps a valid table valid.
pub wakeup-IsValid :
    (chan : Option Chan) (me : ℕ) (t : ProcTable) → IsValid t → IsValid (wakeup chan me t)
unfolding wakeup
wakeup-IsValid chan me t v = Quiet-IsValid t (woken chan me) (λ i p e. ground arith) v

-- In a valid table, falling asleep by a live process keeps the table valid, and so does leaving
-- sleep.
sleep-IsValid :
    (me : ℕ) (chan : Chan) (t : ProcTable)
    → ((p : Proc) → get_elem? t.procs me ≡ some p → IsLive p)
    → IsValid t
    → IsValid (sleep me chan t) × IsValid (sleep_end me t)
unfolding sleep sleep_end
sleep-IsValid me chan t live v = (
  Quiet-IsValid t (at me (λ p. record p { chan = some chan; state = sleeping }))
      (λ i p e. elim (Bool-cases (i == me)) [
        | inl s ↦ let z : i ≡ me = ground (arith, s) in ground (arith, s, live p (rw z at e))
        | inr s ↦ ground (arith, s)
      ])
      v,
  Quiet-IsValid t (at me (λ p. record p { chan = none })) (λ i p e. ground arith) v,
)

-- kkill of any pid keeps a valid table valid.
kkill-IsValid : (pid : ℕ) (t : ProcTable) → IsValid t → IsValid (kkill pid t).0
unfolding kkill
kkill-IsValid pid t v = elim (Option-cases (find_from (λ p. p.pid == pid) 0 t.procs)) [
  | inl e ↦ rw (e, kkill) v
  | inr (i, e) ↦ rw (e, kkill) (Quiet-IsValid t (at i condemned) (λ j p g. ground arith) v)
]

setkilled-IsValid : (i : ℕ) (t : ProcTable) → IsValid t → IsValid (setkilled i t)
unfolding setkilled
setkilled-IsValid i t v =
    Quiet-IsValid t (at i (λ p. record p { killed = true })) (λ j p g. ground arith) v

-- A pass that changes pids, parents or states.
pub pass-IsValid :
    (t : ProcTable) (f : ℕ → Proc → Proc) (next : ℕ)
    → 0 < next
    → ((i : ℕ) (p : Proc) → get_elem? t.procs i ≡ some p → PidFits next (f i p))
    → ((i j : ℕ) (p q : Proc)
        → get_elem? t.procs i ≡ some p
        → get_elem? t.procs j ≡ some q
        → i ≢ j
        → (f i p).pid ≡ (f j q).pid
        → (f i p).pid ≡ 0)
    → ((i j : ℕ) (p : Proc)
        → get_elem? t.procs i ≡ some p
        → (f i p).parent ≡ some j
        → (q : Proc) × (get_elem? t.procs j ≡ some q) × IsLive (f j q))
    → ((q : Proc) × (get_elem? t.procs t.initproc ≡ some q) × IsLive (f t.initproc q))
    → IsValid (record t { procs = map_from f 0 t.procs; nextpid = next })
pass-IsValid t f next pos hp hu hr hi = record {
  started = pos;
  pids = λ i q e. let (p, a, b) = get-map f t.procs i e in rw b (hp i p a);
  unique = λ i j q r e₁ e₂ ne same.
      let (p, a, b) = get-map f t.procs i e₁ in
      let (p', a', b') = get-map f t.procs j e₂ in
      ap (λ (x : Proc). x.pid) b
      ∙ hu i j p p' a a' ne (ap (λ (x : Proc). x.pid) (sym b) ∙ same ∙ ap (λ (x : Proc). x.pid) b');
  parents = λ i j q e pa.
      let (p, a, b) = get-map f t.procs i e in
      let (r, c, l) = hr i j p a (ap (λ (x : Proc). x.parent) (sym b) ∙ pa) in
      (f j r, map-get f t.procs j c, l);
  init = let (r, c, l) = hi in (f t.initproc r, map-get f t.procs t.initproc c, l);
}

abbrev pub adopted : ProcTable → ℕ → ℕ → Proc → Proc
adopted t me i p = if has_parent me p then record p { parent = some t.initproc } else p

pub reparent-IsValid : (me : ℕ) (t : ProcTable) → IsValid t → IsValid (reparent me t)
unfolding reparent
reparent-IsValid me t v = elim (Option-cases (find_from (has_parent me) 0 t.procs)) [
  | inl e ↦ rw (e, reparent) v
  | inr (k, e) ↦
      rw (e, reparent)
        (wakeup-IsValid (some (proc_chan t.initproc)) me _ (
          pass-IsValid t (adopted t me) t.nextpid v.started (λ i p e. ground (arith, v.pids i p e))
            (λ i j p q a b ne s. ground (arith, v.unique i j p q a b ne))
            (λ i j p a s. elim (Bool-cases (has_parent me p)) [
              | inl h ↦
                  let (q, c, l) = v.init in
                  let z : j ≡ t.initproc = ground (arith, h, s) in (q, rw z c, ground (arith, l))
              | inr h ↦
                  let (q, c, l) = v.parents i j p a (ground (arith, h, s)) in
                  (q, c, ground (arith, l))
            ])
            (let (q, c, l) = v.init in (q, c, ground (arith, l)))))
]

-- Nobody is a child of `me`.
abbrev pub Childless : ℕ → ProcTable → Type 0
Childless me t = (i : ℕ) (p : Proc) → get_elem? t.procs i ≡ some p → has_parent me p ≡ false

pub wakeup-Childless :
    (chan : Option Chan) (me k : ℕ) (t : ProcTable) → Childless k t → Childless k (wakeup chan me t)
unfolding wakeup
wakeup-Childless chan me k t h i q e =
    let (p, a, b) = get-map (woken chan me) t.procs i e in rw b (ground (arith, h i p a))

pub reparent-Childless : (me : ℕ) (t : ProcTable) → me ≢ t.initproc → Childless me (reparent me t)
unfolding reparent
reparent-Childless me t ne = elim (Option-cases (find_from (has_parent me) 0 t.procs)) [
  | inl e ↦ rw (e, reparent) (λ i p g. find-none (has_parent me) t.procs i e g)
  | inr (k, e) ↦
      rw (e, reparent)
        (wakeup-Childless (some (proc_chan t.initproc)) me me _ (λ i q g.
          let (p, a, b) = get-map (adopted t me) t.procs i g in rw b (ground (arith, ne))))
]

pub reparent-initproc : (me : ℕ) (t : ProcTable) → (reparent me t).initproc ≡ t.initproc
unfolding reparent wakeup
reparent-initproc me t = ground arith

pub exiting-IsValid :
    (me : ℕ) (status : ℤ) (t : ProcTable)
    → me ≢ t.initproc
    → ((p : Proc) → get_elem? t.procs me ≡ some p → IsLive p)
    → Childless me t
    → IsValid t
    → IsValid (update_at me (λ p. record p { xstate = status; state = zombie }) t)
exiting-IsValid me status t ne live none_left v =
    pass-IsValid t (at me (λ p. record p { xstate = status; state = zombie })) t.nextpid v.started
      (λ i p e. elim (Bool-cases (i == me)) [
        | inl s ↦
            let z : i ≡ me = ground (arith, s) in
            ground (arith, s, v.pids i p e, live p (rw z at e))
        | inr s ↦ ground (arith, s, v.pids i p e)
      ])
      (λ i j p q a b d s. ground (arith, v.unique i j p q a b d))
      (λ i j p a s.
        let pa : p.parent ≡ some j = ground (arith, s) in
        let (q, c, l) = v.parents i j p a pa in (q, c, ground (arith, none_left i p a, pa, l)))
      (let (q, c, l) = v.init in (q, c, ground (arith, l, ne)))
