-- ===== src/Locks/Nesting.antt =====
-- push_off and pop_off of kernel/spinlock.c nest.
use mini_os_design.Common.{
  ◌-◌, ◌<◌, ◌≡◌, true, false, ◌&&◌, ◌==◌, ltb, if◌then◌else◌, refl, ap, ◌∙◌, arith, Outcome, ok,
  ◌>>=◌,
}
use mini_os_design.Locks.{Cpu, push_off, pop_off}

-- Well-nested sequences of push_off and pop_off.
pub data Nest : Type 0 where
  empty : Nest
  nested : Nest → Nest → Nest

-- A sequence run by a processor: `nested n m` is push_off, `n`, pop_off, and then `m`.
unfoldable pub run : Nest → Cpu → Outcome Cpu
unfolding push_off pop_off
run empty c = ok c
run (nested n m) c = do c₁ ← run n (push_off c); c₂ ← pop_off c₁; run m c₂

-- A processor between two such sequences: interrupts are on only at depth 0.
abbrev IsRested : Cpu → Type 0
IsRested c = 0 < c.noff → c.sie ≡ false

-- Inside a nest only `intena` has changed, and only at depth 0.
abbrev Back : Cpu → Cpu → Type 0
Back c d = (d.noff ≡ c.noff) × (d.sie ≡ c.sie) × (0 < c.noff → d.intena ≡ c.intena)

-- The processor after a pop_off that does not panic.
abbrev popped : Cpu → Cpu
popped d = record d { noff = d.noff - 1; sie = if d.noff - 1 == 0 && d.intena then true else d.sie }

pop_off_ok : (d : Cpu) → d.sie ≡ false → 0 < d.noff → pop_off d ≡ ok (popped d)
unfolding pop_off
pop_off_ok d s h = let k : ltb d.noff 1 ≡ false = ground arith in rw (pop_off, s, k) refl

-- On a processor whose interrupts are on at most at depth 0, any well-nested sequence of push_off
-- and pop_off runs without panic and ends with the depth and the interrupts as before, and at a
-- depth above 0 with intena as before.
run-Back : (n : Nest) (c : Cpu) → IsRested c → (d : Cpu) × (run n c ≡ ok d) × Back c d
unfolding run push_off
run-Back empty c r = (c, refl, (refl, refl, λ h. refl))
run-Back (nested n m) c r =
    let (d, e, (p, q, i)) = run-Back n (push_off c) (λ h. refl) in
    let s : d.sie ≡ false = q in
    let u : Cpu = popped d in
    let t : d.intena ≡ (if c.noff == 0 then c.sie else c.intena) = i (omega arith) in
    let v : (u.noff ≡ c.noff) × (u.sie ≡ c.sie) = ground (arith, p, s, t, r) in
    let (w, e', (p', q', i')) = run-Back m u (ground (arith, v, r)) in
    let whole : run (nested n m) c ≡ ok w =
      ap (λ o. o >>= λ x. pop_off x >>= λ y. run m y) e
      ∙ ap (λ o. o >>= λ y. run m y) (pop_off_ok d s (omega (arith, p)))
      ∙ e' in
    (w, whole, (p' ∙ v.0, q' ∙ v.1, λ h. i' (rw v.0 h) ∙ t ∙ ground arith))
