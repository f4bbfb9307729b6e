-- ===== src/Print/Digits.antt =====
-- The decimal digits that printint of user/printf.c prints.
use mini_os_design.Common.{
  ℕ, zero, suc, ◌+◌, ◌-◌, ◌*◌, ◌/◌, ◌%◌, ◌^◌, ◌<◌, ◌≡◌, true, false, ◌&&◌, ◌==◌, leb, Bool, refl,
  ◌∙◌, arith, Bool-cases, inl, inr, List, [], ◌∷◌,
}
use mini_os_design.Print.{digit, print_digits, printint, is_digit, atoi_from, atoi}

-- A number of at most `n` digits is below limit n.
abbrev limit : ℕ → ℕ
limit zero = 1
limit (suc n) = 10 * limit n

and-false : (a b : Bool) → b ≡ false → (a && b) ≡ false
and-false true b e = e
and-false false b e = refl

atoi_from-print_digits :
    (fuel x : ℕ) (out : List ℕ)
    → x < limit fuel
    → atoi_from 0 (print_digits fuel 10 x out) ≡ atoi_from x out
unfolding atoi_from print_digits
atoi_from-print_digits zero x out l =
    let z : x ≡ 0 = omega (arith, l) in rw (print_digits, z, atoi_from) refl
atoi_from-print_digits (suc fuel) x out l =
    let d : digit (x % 10) ≡ 48 + x % 10 = ground arith in
    let i : is_digit (48 + x % 10) ≡ true = ground arith in
    elim (Bool-cases (x / 10 == 0)) [
      | inl e ↦
          let v : 0 * 10 + (48 + x % 10) - 48 ≡ x = ground (arith, e) in
          rw (print_digits, e, d, atoi_from, i, v) refl
      | inr e ↦
          let v : x / 10 * 10 + (48 + x % 10) - 48 ≡ x = omega arith in
          let r = atoi_from-print_digits fuel (x / 10) ((48 + x % 10) ∷ out) (omega (arith, l)) in
          rw (print_digits, e, d) (r ∙ rw (atoi_from, i, v) refl)
    ]

-- For every number below 2 ^ 31, atoi reads back the digits that printint prints for it in base 10,
-- whether printint takes it as signed or not.
atoi-printint : (x : ℕ) (sgn : Bool) → x < 2 ^ 31 → atoi (printint x 10 sgn) ≡ x
unfolding atoi printint atoi_from
atoi-printint x sgn l =
    let big : leb (2 ^ 63) x ≡ false = ground (arith, l) in
    let neg : (sgn && leb (2 ^ 63) x) ≡ false = and-false sgn _ big in
    rw neg (atoi_from-print_digits 20 x [] (omega (arith, l)))
