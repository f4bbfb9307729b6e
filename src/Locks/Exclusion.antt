-- ===== src/Locks/Exclusion.antt =====
-- Mutual exclusion by acquire and release of kernel/spinlock.c.
use mini_os_design.Common.{
  ℕ, ◌≡◌, true, false, ◌&&◌, ◌==◌, if◌then◌else◌, Bool, Option, none, some, refl, sym, ◌∙◌, arith,
  Bool-cases, inl, inr, Outcome, >>=-eq-ok, ok, panic, ◌>>=◌,
}
use mini_os_design.Locks.{
  Cpu, Spinlock, initlock, push_off, pop_off, same_cpu, holding, acquire, release,
}

abbrev pub flag : (ℕ → Bool) → ℕ → Bool → ℕ → Bool
flag f i v j = if j == i then v else f j

-- One lock, and the processors that are between their acquire and their release of it, as any
-- sequence of calls that return leaves them. `c` is the state of the calling processor.
pub data Run : Spinlock → (ℕ → Bool) → Type 0 where
  start : Run initlock (λ _. false)
  enter :
      (lk lk' : Spinlock) (inside : ℕ → Bool) (me : ℕ) (c c' : Cpu)
      → acquire me c lk ≡ ok (c', some lk')
      → Run lk inside
      → Run lk' (flag inside me true)
  leave :
      (lk lk' : Spinlock) (inside : ℕ → Bool) (me : ℕ) (c c' : Cpu)
      → release me c lk ≡ ok (c', lk')
      → Run lk inside
      → Run lk' (flag inside me false)

-- The processor inside is the one that the lock records.
abbrev Records : Spinlock → (ℕ → Bool) → Type 0
Records lk inside =
    ((a : ℕ) → inside a ≡ true → (lk.locked ≡ true) × (lk.cpu ≡ some a))
    × (lk.locked ≡ true → (a : ℕ) × (lk.cpu ≡ some a) × (inside a ≡ true))

acquired :
    (me : ℕ) (c c' : Cpu) (lk lk' : Spinlock)
    → acquire me c lk ≡ ok (c', some lk')
    → (lk.locked ≡ false) × (lk' ≡ record { locked = true; cpu = some me })
unfolding acquire holding
acquired me c c' lk lk' e = elim (Bool-cases (holding me lk)) [
  | inl h ↦
      (let z : ◌≡◌ {A = Outcome (Cpu × Option Spinlock)} (panic "acquire") (ok (c', some lk')) =
          rw (acquire, h) at e in
        cc)
  | inr h ↦ elim (Bool-cases lk.locked) [
    | inl b ↦
        (let z : ◌≡◌ {A = Outcome (Cpu × Option Spinlock)} (ok (push_off c, none))
              (ok (c', some lk')) =
            rw (acquire, h, b) at e in
          cc)
    | inr b ↦
        let z : ◌≡◌ {A = Outcome (Cpu × Option Spinlock)}
            (ok (push_off c, some (record { locked = true; cpu = some me }))) (ok (c', some lk')) =
          rw (acquire, h, b) at e in
        (b, sym cc)
  ]
]

released :
    (me : ℕ) (c c' : Cpu) (lk lk' : Spinlock)
    → release me c lk ≡ ok (c', lk')
    → (holding me lk ≡ true) × (lk' ≡ record { locked = false; cpu = none })
unfolding release holding
released me c c' lk lk' e = elim (Bool-cases (holding me lk)) [
  | inl h ↦
      let next : Cpu → Outcome (Cpu × Spinlock) =
        λ d. ok (d, record { locked = false; cpu = none }) in
      let z : (pop_off c >>= next) ≡ ok (c', lk') = rw (release, h) at e in
      let (d, _, q) = >>=-eq-ok (pop_off c) next z in
      let q' : ◌≡◌ {A = Outcome (Cpu × Spinlock)} (ok (d, record { locked = false; cpu = none }))
          (ok (c', lk')) =
        q in
      (h, sym cc)
  | inr h ↦
      (let z : ◌≡◌ {A = Outcome (Cpu × Spinlock)} (panic "release") (ok (c', lk')) =
          rw (release, h) at e in
        cc)
]

Run-Records : (lk : Spinlock) (inside : ℕ → Bool) → Run lk inside → Records lk inside
unfolding holding
Run-Records lk inside start = ((λ a h. cc), (λ h. cc))
Run-Records _ _ (enter lk lk' inside me c c' e r) =
    let (f, g) = Run-Records lk inside r in
    let (p, q) = acquired me c c' lk lk' e in
    rw q ((λ a h. (refl, ground (arith, f a, p))), (λ h. (me, refl, ground arith)))
Run-Records _ _ (leave lk lk' inside me c c' e r) =
    let (f, g) = Run-Records lk inside r in
    let (p, q) = released me c c' lk lk' e in
    let left : (a : ℕ) → flag inside me false a ≡ true → ⊥ = λ a h.
      let k : lk.cpu ≡ some a = (f a (ground arith)).1 in
      let w : (lk.locked && same_cpu (some a) me) ≡ true = rw k at p in ground (arith, w) in
    rw q ((λ a h. absurd (left a h)), (λ h. cc))

-- After any sequence of calls of acquire and release that return, by any processors, a processor
-- between the two is the one that the lock records, and the only one.
pub Run-exclusive :
    (lk : Spinlock) (inside : ℕ → Bool) (a : ℕ)
    → Run lk inside
    → inside a ≡ true
    → (lk.locked ≡ true) × (lk.cpu ≡ some a) × ((b : ℕ) → inside b ≡ true → b ≡ a)
Run-exclusive lk inside a r h =
    let (f, _) = Run-Records lk inside r in
    ((f a h).0, (f a h).1, λ b k. let e : some b ≡ some a = sym (f b k).1 ∙ (f a h).1 in cc)
