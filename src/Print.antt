-- ===== src/Print.antt =====
-- printint of user/printf.c, and atoi of user/ulib.c. A text is the list of its bytes before the NUL.
pub mod Digits
mod Tests
use mini_os_design.Common.{
  ℕ, zero, suc, ◌+◌, ◌-◌, ◌*◌, ◌/◌, ◌%◌, ◌^◌, true, false, ◌&&◌, ◌==◌, ltb, leb, if◌then◌else◌,
  Bool, List, [], ◌∷◌,
}

-- digits[k]
abbrev pub digit : ℕ → ℕ
digit k = if ltb k 10 then 48 + k else 55 + k

-- The loop of printint, which stores the last digit first, in the order in which `buf` is written
-- out; `fuel` is the room in `buf`.
unfoldable pub print_digits : ℕ → ℕ → ℕ → List ℕ → List ℕ
print_digits zero base x out = out
print_digits (suc fuel) base x out =
    let more = print_digits fuel base (x / base) (digit (x % base) ∷ out) in
    if x / base == 0 then digit (x % base) ∷ out else more

-- printint of the 64 bits `xx`, of a number below 0 from 2 ^ 63 on, for a base of at least 10.
unfoldable pub printint : ℕ → ℕ → Bool → List ℕ
unfolding print_digits
printint xx base sgn =
    let neg = sgn && leb (2 ^ 63) xx in
    let x = if neg then (2 ^ 64 - xx) % 2 ^ 64 else xx in
    let out = print_digits 20 base x [] in if neg then 45 ∷ out else out

abbrev pub is_digit : ℕ → Bool
is_digit c = leb 48 c && leb c 57

-- The loop of atoi, for numbers that an `int` holds.
unfoldable pub atoi_from : ℕ → List ℕ → ℕ
atoi_from n [] = n
atoi_from n (c ∷ cs) = let more = atoi_from (n * 10 + c - 48) cs in if is_digit c then more else n

unfoldable pub atoi : List ℕ → ℕ
unfolding atoi_from
atoi s = atoi_from 0 s
