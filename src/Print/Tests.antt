-- ===== src/Print/Tests.antt =====
-- Concrete runs of user/printf.c and user/ulib.c.
use mini_os_design.Common.{◌≡◌, true, refl, [], ◌∷◌}
use mini_os_design.Print.{printint, print_digits, atoi, atoi_from}

-- -120 in base 10, and 255 in base 16.
printint_run :
    (printint 0xffff_ffff_ffff_ff88 10 true ≡ 45 ∷ 49 ∷ 50 ∷ 48 ∷ [])
    × (printint 255 16 true ≡ 70 ∷ 70 ∷ [])
unfolding printint print_digits
printint_run = (refl, refl)

atoi_run : atoi (52 ∷ 50 ∷ 32 ∷ 49 ∷ []) ≡ 42
unfolding atoi atoi_from
atoi_run = refl
