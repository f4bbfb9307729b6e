-- ===== src/Fs/Names/Paths.antt =====
-- What skipelem of kernel/fs.c makes of a path.
use mini_os_design.Common.{
  ℕ, zero, suc, ◌+◌, ◌<◌, ◌≡◌, ◌≢◌, true, false, ◌==◌, some, refl, ap, ◌∙◌, arith, List, [], ◌∷◌,
  ◌++◌, length, take, replicate, map,
}
use mini_os_design.Fs.Names.{slash, dirsiz, skip_slashes, element, skipelem, path_names}

-- An element of a path: not empty, and without slashes.
abbrev IsPlain : List ℕ → Type 0
IsPlain [] = Unit {0}
IsPlain (c ∷ cs) = (c ≢ slash) × IsPlain cs

abbrev IsElement : List ℕ → Type 0
IsElement [] = ⊥
IsElement (c ∷ cs) = IsPlain (c ∷ cs)

abbrev AreElements : List (ℕ × List ℕ) → Type 0
AreElements [] = Unit {0}
AreElements (x ∷ es) = IsElement x.1 × AreElements es

-- The text after the first element: each element comes after one slash and so many more, and the
-- path ends in `n` slashes.
unfoldable pub render : ℕ → List (ℕ × List ℕ) → List ℕ
render n [] = replicate n slash
render n (x ∷ es) = slash ∷ (replicate x.0 slash ++ (x.1 ++ render n es))

abbrev AtEnd : List ℕ → Type 0
AtEnd [] = Unit {0}
AtEnd (c ∷ cs) = c ≡ slash

render-AtEnd : (n : ℕ) (es : List (ℕ × List ℕ)) → AtEnd (render n es)
unfolding render
render-AtEnd zero [] = tt
render-AtEnd (suc n) [] = refl
render-AtEnd n (x ∷ es) = refl

skip_replicate : (k : ℕ) (cs : List ℕ) → skip_slashes (replicate k slash ++ cs) ≡ skip_slashes cs
unfolding skip_slashes
skip_replicate zero cs = refl
skip_replicate (suc k) cs = skip_replicate k cs

skip_all : (k : ℕ) → skip_slashes (replicate k slash) ≡ []
unfolding skip_slashes
skip_all zero = refl
skip_all (suc k) = skip_all k

element_end : (cs : List ℕ) → AtEnd cs → element cs ≡ ([], cs)
unfolding element
element_end [] h = refl
element_end (c ∷ cs) h = let z : (c == slash) ≡ true = ground (arith, h) in rw (element, z) refl

element_plain : (e cs : List ℕ) → IsPlain e → AtEnd cs → element (e ++ cs) ≡ (e, cs)
unfolding element
element_plain [] cs h a = element_end cs a
element_plain (c ∷ e) cs h a =
    let z : (c == slash) ≡ false = ground (arith, h.0) in
    rw (element, z, element_plain e cs h.1 a) refl

skip_element :
    (k : ℕ) (e cs : List ℕ) → IsElement e → skip_slashes (replicate k slash ++ (e ++ cs)) ≡ e ++ cs
unfolding skip_slashes
skip_element k [] cs h = absurd h
skip_element k (c ∷ e) cs h =
    let z : (c == slash) ≡ false = ground (arith, h.0) in
    skip_replicate k ((c ∷ e) ++ cs) ∙ rw (skip_slashes, z) refl

skipelem_found :
    (k : ℕ) (e cs : List ℕ)
    → IsElement e
    → AtEnd cs
    → skipelem (replicate k slash ++ (e ++ cs)) ≡ some (take dirsiz e, skip_slashes cs)
unfolding skipelem
skipelem_found k [] cs h a = absurd h
skipelem_found k (c ∷ e) cs h a =
    rw (skipelem, skip_element k (c ∷ e) cs h, element_plain (c ∷ e) cs h a) refl

names_nil : (fuel : ℕ) → path_names fuel [] ≡ []
unfolding path_names skipelem skip_slashes
names_nil zero = refl
names_nil (suc fuel) = refl

-- For a path of elements that are not empty and have no slash, with any number of slashes before
-- the first, at least one between two, and any number at the end, the calls of skipelem give the
-- first 14 bytes of each element in turn and then end, within one turn more than there are
-- elements.
pub path_names-render :
    (fuel k n : ℕ) (e : List ℕ) (es : List (ℕ × List ℕ))
    → IsElement e
    → AreElements es
    → length es + 1 < fuel
    → path_names fuel (replicate k slash ++ (e ++ render n es))
      ≡ take dirsiz e ∷ map (λ x. take dirsiz x.1) es
unfolding path_names render
path_names-render zero k n e es h hs l = absurd (omega arith)
path_names-render (suc fuel) k n e [] h hs l =
    rw (path_names, skipelem_found k e (replicate n slash) h (render-AtEnd n []), skip_all n)
      (ap (λ ns. take dirsiz e ∷ ns) (names_nil fuel))
path_names-render (suc fuel) k n e (x ∷ es) h hs l =
    let r = path_names-render fuel 0 n x.1 es hs.0 hs.1 (omega arith) in
    let s : skip_slashes (render n (x ∷ es)) ≡ x.1 ++ render n es =
      skip_element (suc x.0) x.1 (render n es) hs.0 in
    rw (path_names, skipelem_found k e (render n (x ∷ es)) h refl, s, r) refl
