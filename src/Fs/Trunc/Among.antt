-- ===== src/Fs/Trunc/Among.antt =====
-- The blocks of a list of block numbers.
use mini_os_design.Common.{
  ℕ, zero, suc, ◌+◌, ◌≤◌, ◌<◌, ◌≡◌, ◌≢◌, true, false, ◌||◌, ◌==◌, Bool, refl, arith, Bool-cases,
  inl, inr,
}
use mini_os_design.Fs.Trunc.Freed.{among, just}

pub among-true : (f : ℕ → ℕ) (i n k : ℕ) → i ≤ k → k < i + n → f k ≢ 0 → among f i n (f k) ≡ true
unfolding among
among-true f i zero k l m nz = absurd (omega arith)
among-true f i (suc n) k l m nz = elim (Bool-cases (k == i)) [
  | inl e ↦
      let q : k ≡ i = ground arith in
      let z : (f k == 0) ≡ false = ground (arith, nz) in
      let y : (f k == f k) ≡ true = ground arith in rw (← q, z, y) refl
  | inr e ↦
      let r = among-true f (i + 1) n k (ground (arith, e)) (omega arith) nz in ground (arith, r)
]

pub among-false :
    (f : ℕ → ℕ) (i n c : ℕ)
    → ((k : ℕ) → i ≤ k → k < i + n → f k ≢ 0 → f k ≢ c)
    → among f i n c ≡ false
unfolding among
among-false f i zero c h = refl
among-false f i (suc n) c h =
    let r = among-false f (i + 1) n c (λ k l m. h k (omega arith) (omega arith)) in
    ground (arith, r, h i (omega arith) (omega arith))

pub just_self : (b : ℕ) → b ≢ 0 → just b b ≡ true
just_self b n = ground (arith, n)

pub just_other : (b c : ℕ) → b ≢ c → just b c ≡ false
just_other b c n = ground (arith, n)

pub or_assoc : (a b c : Bool) → (a || (b || c)) ≡ ((a || b) || c)
or_assoc a b c = ground arith

pub or_last : (a b : Bool) → (a || (b || true)) ≡ true
or_last a b = ground arith

pub or_middle : (a b : Bool) → (a || (true || b)) ≡ true
or_middle a b = ground arith
