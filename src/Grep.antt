-- ===== src/Grep.antt =====
-- The matcher of user/grep.c. An expression and a line are the lists of their bytes before the NUL.
pub mod Meaning
mod Tests
use mini_os_design.Common.{ℕ, true, false, ◌&&◌, ◌||◌, ◌==◌, if◌then◌else◌, Bool, List, [], ◌∷◌}

-- '*', '$', '.' and '^'
abbrev pub asterisk : ℕ
asterisk = 42

abbrev pub dollar : ℕ
dollar = 36

abbrev pub dot : ℕ
dot = 46

abbrev pub caret : ℕ
caret = 94

-- The loop of matchstar, where `m` is matchhere of the rest of the expression.
unfoldable pub matchstar : (List ℕ → Bool) → ℕ → List ℕ → Bool
matchstar m c [] = m []
matchstar m c (t ∷ ts) =
    let later = matchstar m c ts in m (t ∷ ts) || ((t == c || c == dot) && later)

-- The last test of matchhere, for the character `c` of the expression.
unfoldable pub match_one : (List ℕ → Bool) → ℕ → List ℕ → Bool
match_one m c [] = false
match_one m c (t ∷ ts) = (c == dot || c == t) && m ts

abbrev pub is_empty_text : List ℕ → Bool
is_empty_text [] = true
is_empty_text (t ∷ ts) = false

unfoldable pub matchhere : List ℕ → List ℕ → Bool
unfolding matchstar match_one
matchhere [] text = true
matchhere (c ∷ []) text =
    if c == dollar then is_empty_text text else match_one (matchhere []) c text
matchhere (c ∷ d ∷ re) text =
    let star = matchstar (matchhere re) c text in
    let one = match_one (matchhere (d ∷ re)) c text in if d == asterisk then star else one

-- The loop of match over the places of the text.
unfoldable pub match_somewhere : (List ℕ → Bool) → List ℕ → Bool
match_somewhere m [] = m []
match_somewhere m (t ∷ ts) = let later = match_somewhere m ts in m (t ∷ ts) || later

unfoldable pub match_line : List ℕ → List ℕ → Bool
unfolding matchhere match_somewhere
match_line [] text = match_somewhere (matchhere []) text
match_line (c ∷ re) text =
    if c == caret then matchhere re text else match_somewhere (matchhere (c ∷ re)) text
