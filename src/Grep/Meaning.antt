-- ===== src/Grep/Meaning.antt =====
-- What the matcher of user/grep.c decides.
use mini_os_design.Common.{
  ℕ, ◌≡◌, ◌≢◌, true, false, ◌&&◌, ◌||◌, ◌==◌, Bool, refl, ap, arith, Bool-cases, inl, inr, ◌⊎◌, ◌↔◌,
  List, [], ◌∷◌, ◌++◌,
}
use mini_os_design.Grep.{
  asterisk, dollar, dot, caret, matchstar, match_one, is_empty_text, matchhere, match_somewhere,
  match_line,
}

-- `c` of an expression stands for the character `t`.
abbrev pub Fits : ℕ → ℕ → Type 0
Fits c t = (t ≡ c) ⊎ (c ≡ dot)

abbrev AllFit : ℕ → List ℕ → Type 0
AllFit c [] = Unit {0}
AllFit c (t ∷ ts) = Fits c t × AllFit c ts

-- The expression describes a text that begins like `text`.
abbrev Begins : List ℕ → List ℕ → Type 0
Begins [] text = Unit {0}
Begins (c ∷ []) text =
    ((c ≡ dollar) × (text ≡ []))
    ⊎ ((c ≢ dollar) × ((t : ℕ) × (ts : List ℕ) × (text ≡ t ∷ ts) × Fits c t))
Begins (c ∷ d ∷ re) text =
    ((d ≡ asterisk)
      × ((run : List ℕ) × (rest : List ℕ) × (text ≡ run ++ rest) × AllFit c run × Begins re rest))
    ⊎ ((d ≢ asterisk) × ((t : ℕ) × (ts : List ℕ) × (text ≡ t ∷ ts) × Fits c t × Begins (d ∷ re) ts))

matchstar-run :
    (m : List ℕ → Bool) (c : ℕ) (text : List ℕ)
    → matchstar m c text ≡ true
    → (run : List ℕ) × (rest : List ℕ) × (text ≡ run ++ rest) × AllFit c run × (m rest ≡ true)
unfolding matchstar
matchstar-run m c [] h = ([], [], refl, tt, h)
matchstar-run m c (t ∷ ts) h = elim (Bool-cases (m (t ∷ ts))) [
  | inl e ↦ ([], t ∷ ts, refl, tt, e)
  | inr e ↦
      let z : ((t == c || c == dot) && matchstar m c ts) ≡ true = rw (matchstar, e) at h in
      let (run, rest, p, f, k) = matchstar-run m c ts (ground (arith, z)) in
      (t ∷ run, rest, ap (λ x. t ∷ x) p, (ground (arith, z), f), k)
]

or_true : (b : Bool) → (b || true) ≡ true
or_true true = refl
or_true false = refl

run-matchstar :
    (m : List ℕ → Bool) (c : ℕ) (run rest : List ℕ)
    → AllFit c run
    → m rest ≡ true
    → matchstar m c (run ++ rest) ≡ true
unfolding matchstar
run-matchstar m c [] [] f h = h
run-matchstar m c [] (t ∷ rest) f h = rw (matchstar, h) refl
run-matchstar m c (t ∷ run) rest f h =
    let r = run-matchstar m c run rest f.1 h in
    let z : (t == c || c == dot) ≡ true = ground (arith, f.0) in
    rw (matchstar, r, z) (or_true (m (t ∷ run ++ rest)))

match_one-found :
    (m : List ℕ → Bool) (c : ℕ) (text : List ℕ)
    → match_one m c text ≡ true
    → (t : ℕ) × (ts : List ℕ) × (text ≡ t ∷ ts) × Fits c t × (m ts ≡ true)
unfolding match_one
match_one-found m c [] h = cc
match_one-found m c (t ∷ ts) h = (t, ts, refl, ground (arith, h), ground (arith, h))

found-match_one :
    (m : List ℕ → Bool) (c t : ℕ) (ts : List ℕ)
    → Fits c t
    → m ts ≡ true
    → match_one m c (t ∷ ts) ≡ true
unfolding match_one
found-match_one m c t ts f h =
    let z : (c == dot || c == t) ≡ true = ground (arith, f) in rw (match_one, z) h

empty_text : (text : List ℕ) → is_empty_text text ≡ true → text ≡ []
empty_text [] h = refl
empty_text (t ∷ ts) h = cc

matchhere-Begins : (re text : List ℕ) → matchhere re text ≡ true → Begins re text
unfolding matchhere match_one
matchhere-Begins [] text h = tt
matchhere-Begins (c ∷ []) text h = elim (Bool-cases (c == dollar)) [
  | inl e ↦
      let h' : is_empty_text text ≡ true = rw (matchhere, e) at h in
      inl (ground arith, empty_text text h')
  | inr e ↦
      let h' : match_one (matchhere []) c text ≡ true = rw (matchhere, e) at h in
      let (t, ts, p, f, _) = match_one-found (matchhere []) c text h' in
      inr (ground (arith, e), (t, ts, p, f))
]
matchhere-Begins (c ∷ d ∷ re) text h = elim (Bool-cases (d == asterisk)) [
  | inl e ↦
      let h' : matchstar (matchhere re) c text ≡ true = rw (matchhere, e) at h in
      let (run, rest, p, f, k) = matchstar-run (matchhere re) c text h' in
      inl (ground arith, (run, rest, p, f, matchhere-Begins re rest k))
  | inr e ↦
      let h' : match_one (matchhere (d ∷ re)) c text ≡ true = rw (matchhere, e) at h in
      let (t, ts, p, f, k) = match_one-found (matchhere (d ∷ re)) c text h' in
      inr (ground (arith, e), (t, ts, p, f, matchhere-Begins (d ∷ re) ts k))
]

Begins-matchhere : (re text : List ℕ) → Begins re text → matchhere re text ≡ true
unfolding matchhere match_one
Begins-matchhere [] text b = refl
Begins-matchhere (c ∷ []) text (inl (e, p)) =
    let z : (c == dollar) ≡ true = ground (arith, e) in rw (matchhere, z, p) refl
Begins-matchhere (c ∷ []) text (inr (n, (t, ts, p, f))) =
    let z : (c == dollar) ≡ false = ground (arith, n) in
    rw (matchhere, z, p) (found-match_one (matchhere []) c t ts f refl)
Begins-matchhere (c ∷ d ∷ re) text (inl (e, (run, rest, p, f, b))) =
    let z : (d == asterisk) ≡ true = ground (arith, e) in
    rw (matchhere, z, p) (run-matchstar (matchhere re) c run rest f (Begins-matchhere re rest b))
Begins-matchhere (c ∷ d ∷ re) text (inr (n, (t, ts, p, f, b))) =
    let z : (d == asterisk) ≡ false = ground (arith, n) in
    rw (matchhere, z, p)
      (found-match_one (matchhere (d ∷ re)) c t ts f (Begins-matchhere (d ∷ re) ts b))

somewhere-found :
    (m : List ℕ → Bool) (text : List ℕ)
    → match_somewhere m text ≡ true
    → (front : List ℕ) × (back : List ℕ) × (text ≡ front ++ back) × (m back ≡ true)
unfolding match_somewhere
somewhere-found m [] h = ([], [], refl, h)
somewhere-found m (t ∷ ts) h = elim (Bool-cases (m (t ∷ ts))) [
  | inl e ↦ ([], t ∷ ts, refl, e)
  | inr e ↦
      let h' : match_somewhere m ts ≡ true = rw (match_somewhere, e) at h in
      let (front, back, p, k) = somewhere-found m ts h' in (t ∷ front, back, ap (λ x. t ∷ x) p, k)
]

found-somewhere :
    (m : List ℕ → Bool) (front back : List ℕ)
    → m back ≡ true
    → match_somewhere m (front ++ back) ≡ true
unfolding match_somewhere
found-somewhere m [] [] h = h
found-somewhere m [] (t ∷ back) h = rw (match_somewhere, h) refl
found-somewhere m (t ∷ front) back h =
    rw (match_somewhere, found-somewhere m front back h) (or_true (m (t ∷ front ++ back)))

-- The expression describes a part of the text, which is its beginning where it starts with '^'.
abbrev Describes : List ℕ → List ℕ → Type 0
Describes re text = (front : List ℕ) × (back : List ℕ) × (text ≡ front ++ back) × Begins re back

abbrev pub Selects : List ℕ → List ℕ → Type 0
Selects [] text = Describes [] text
Selects (c ∷ re) text = ((c ≡ caret) × Begins re text) ⊎ ((c ≢ caret) × Describes (c ∷ re) text)

somewhere_iff :
    (re text : List ℕ) → (match_somewhere (matchhere re) text ≡ true) ↔ Describes re text
somewhere_iff re text = (
  λ h.
      (let (front, back, p, k) = somewhere-found (matchhere re) text h in
        (front, back, p, matchhere-Begins re back k)),
  λ (front, back, p, b).
      rw p (found-somewhere (matchhere re) front back (Begins-matchhere re back b)),
)

Selects-match_line :
    (c : ℕ) (re text : List ℕ) → Selects (c ∷ re) text → match_line (c ∷ re) text ≡ true
unfolding match_line
Selects-match_line c re text (inl (e, b)) =
    let z : (c == caret) ≡ true = ground (arith, e) in
    rw (match_line, z) (Begins-matchhere re text b)
Selects-match_line c re text (inr (n, d)) =
    let z : (c == caret) ≡ false = ground (arith, n) in
    rw (match_line, z) ((somewhere_iff (c ∷ re) text).1 d)

-- The matcher of grep accepts a line exactly when the expression describes a part of it, or its
-- beginning where the expression starts with ^: a character followed by an asterisk stands for any
-- run of characters that fit it, a dot fits every character, another character itself, and a final
-- $ the end of the line.
pub match_line_iff : (re text : List ℕ) → (match_line re text ≡ true) ↔ Selects re text
unfolding match_line
match_line_iff [] text = somewhere_iff [] text
match_line_iff (c ∷ re) text = elim (Bool-cases (c == caret)) [
  | inl e ↦ (
    (λ h. inl (ground arith, matchhere-Begins re text (rw (match_line, e) at h))),
    (λ s. Selects-match_line c re text s),
  )
  | inr e ↦ (
    (λ h. inr (ground (arith, e), (somewhere_iff (c ∷ re) text).0 (rw (match_line, e) at h))),
    (λ s. Selects-match_line c re text s),
  )
]
