-- ===== src/Grep/Tests.antt =====
-- Concrete runs of user/grep.c.
use mini_os_design.Common.{ℕ, ◌≡◌, true, false, refl, ◌↔◌, List, [], ◌∷◌}
use mini_os_design.Grep.{match_line, match_somewhere, matchhere, matchstar, match_one}
use mini_os_design.Grep.Meaning.{Selects, match_line_iff}

-- "^ab*c$"
abbrev expression : List ℕ
expression = 94 ∷ 97 ∷ 98 ∷ 42 ∷ 99 ∷ 36 ∷ []

match_run :
    (match_line expression (97 ∷ 98 ∷ 98 ∷ 99 ∷ []) ≡ true)
    × (match_line expression (97 ∷ 99 ∷ []) ≡ true)
    × (match_line expression (120 ∷ 97 ∷ 99 ∷ []) ≡ false)
    × (match_line (98 ∷ 46 ∷ []) (97 ∷ 98 ∷ 99 ∷ []) ≡ true)
unfolding match_line match_somewhere matchhere matchstar match_one
match_run = (refl, refl, refl, refl)

match_line_iff_example :
    (match_line expression (97 ∷ 98 ∷ 98 ∷ 99 ∷ []) ≡ true)
    ↔ Selects expression (97 ∷ 98 ∷ 98 ∷ 99 ∷ [])
match_line_iff_example = match_line_iff expression (97 ∷ 98 ∷ 98 ∷ 99 ∷ [])
