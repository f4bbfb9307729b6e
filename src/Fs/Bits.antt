-- ===== src/Fs/Bits.antt =====
-- Bits of a byte, as the free map of kernel/fs.c uses them.
use mini_os_design.Common.{
  ℕ, zero, suc, ◌+◌, ◌-◌, ◌*◌, ◌/◌, ◌%◌, ◌^◌, ◌≤◌, ◌≡◌, true, false, not, ◌&&◌, ◌||◌, ◌==◌, leb,
  Bool, refl, sym, ◌∙◌, arith, Bool-cases, inl, inr,
}
use native.Mathlib.Nat.{div-eq_of_lt, div-div-eq-div-mul}
use mini_os_design.Fs.{is_set, set_bit, clear_bit}

abbrev bit_of : ℕ → ℕ → Bool
bit_of w k = w / 2 ^ k % 2 == 1

pub or_false : (b : Bool) → (b || false) ≡ b
or_false true = refl
or_false false = refl

pub and_true : (b : Bool) → (b && true) ≡ b
and_true true = refl
and_true false = refl

-- The bits above the lowest are those of the half.
bit_of_half : (w k : ℕ) → bit_of w (suc k) ≡ bit_of (w / 2) k
bit_of_half w k =
    let p : 2 ^ suc k ≡ 2 * 2 ^ k = omega arith in
    let q = div-div-eq-div-mul w 2 (2 ^ k) in rw (p, q) refl

-- Adding a bit that is not set sets it, and no other.
bit_of-add : (k j w : ℕ) → bit_of w k ≡ false → bit_of (w + 2 ^ k) j ≡ (bit_of w j || j == k)
bit_of-add zero zero w h = ground arith
bit_of-add zero (suc j) w h =
    let q : (w + 1) / 2 ≡ w / 2 = ground (arith, h) in
    let z : (suc j == 0) ≡ false = ground arith in
    rw (bit_of_half (w + 1) j, bit_of_half w j, q, z) (sym (or_false (bit_of (w / 2) j)))
bit_of-add (suc k) zero w h = ground arith
bit_of-add (suc k) (suc j) w h =
    let q : (w + 2 ^ suc k) / 2 ≡ w / 2 + 2 ^ k = omega arith in
    let r = bit_of-add k j (w / 2) (sym (bit_of_half w k) ∙ h) in
    let z : (suc j == suc k) ≡ (j == k) = ground arith in
    rw (bit_of_half (w + 2 ^ suc k) j, bit_of_half w j, q, z) r

bit_of_bound : (k w : ℕ) → bit_of w k ≡ true → 2 ^ k ≤ w
bit_of_bound k w h = elim (Bool-cases (leb (2 ^ k) w)) [
  | inl l ↦ ground (arith, l)
  | inr l ↦
      let z = div-eq_of_lt {n = w} {m = 2 ^ k} (ground (arith, l)) in
      let c : false ≡ true = rw z at h in cc
]

-- Taking away a bit that is set clears it, and no other.
bit_of-sub : (k j w : ℕ) → bit_of w k ≡ true → bit_of (w - 2 ^ k) j ≡ (bit_of w j && not (j == k))
bit_of-sub zero zero w h = ground arith
bit_of-sub zero (suc j) w h =
    let q : (w - 1) / 2 ≡ w / 2 = ground (arith, h) in
    let z : (suc j == 0) ≡ false = ground arith in
    rw (bit_of_half (w - 1) j, bit_of_half w j, q, z) (sym (and_true (bit_of (w / 2) j)))
bit_of-sub (suc k) zero w h = let l = bit_of_bound (suc k) w h in ground (arith, l)
bit_of-sub (suc k) (suc j) w h =
    let q : (w - 2 ^ suc k) / 2 ≡ w / 2 - 2 ^ k = omega arith in
    let r = bit_of-sub k j (w / 2) (sym (bit_of_half w k) ∙ h) in
    let z : (suc j == suc k) ≡ (j == k) = ground arith in
    rw (bit_of_half (w - 2 ^ suc k) j, bit_of_half w j, q, z) r

same : (a : ℕ) → (a == a) ≡ true
same a = ground arith

pub is_set-set_bit :
    (block : ℕ → ℕ) (bi j : ℕ)
    → is_set block bi ≡ false
    → is_set (set_bit block bi) j ≡ (is_set block j || j == bi)
is_set-set_bit block bi j h = elim (Bool-cases (j / 8 == bi / 8)) [
  | inl e ↦
      let q : j / 8 ≡ bi / 8 = ground arith in
      let r = bit_of-add (bi % 8) (j % 8) (block (bi / 8)) h in
      let z : (j % 8 == bi % 8) ≡ (j == bi) = ground (arith, q) in
      rw (q, same (bi / 8)) (r ∙ rw z refl)
  | inr e ↦
      let z : (j == bi) ≡ false = ground (arith, e) in rw (e, z, or_false (is_set block j)) refl
]

pub is_set-clear_bit :
    (block : ℕ → ℕ) (bi j : ℕ)
    → is_set block bi ≡ true
    → is_set (clear_bit block bi) j ≡ (is_set block j && not (j == bi))
is_set-clear_bit block bi j h = elim (Bool-cases (j / 8 == bi / 8)) [
  | inl e ↦
      let q : j / 8 ≡ bi / 8 = ground arith in
      let r = bit_of-sub (bi % 8) (j % 8) (block (bi / 8)) h in
      let z : (j % 8 == bi % 8) ≡ (j == bi) = ground (arith, q) in
      rw (q, same (bi / 8)) (r ∙ rw z refl)
  | inr e ↦
      let z : (j == bi) ≡ false = ground (arith, e) in rw (e, z, and_true (is_set block j)) refl
]
