-- ===== src/Common/Get.antt =====
-- Reading an entry of a table after one pass over it, and what a search of a table finds.
use mini_os_design.Common.{
  ℕ, zero, suc, ◌+◌, ◌<◌, ◌≡◌, inl, inr, List, [], ◌∷◌, none, some, Bool, true, false, refl, arith,
  map_from, find_from, get_elem?, length, Bool-cases,
}

pub get_length {ℓ} :
    {A : Type ℓ} (xs : List A) (i : ℕ) {x : A} → get_elem? xs i ≡ some x → i < length xs
get_length [] i e = cc
get_length (x ∷ xs) zero e = omega arith
get_length (x ∷ xs) (suc i) e = omega (arith, get_length xs i e)

module _ {ℓ} {A : Type ℓ} where
  get_map_from :
      (f : ℕ → A → A) (xs : List A) (i k : ℕ) {q : A}
      → get_elem? (map_from f i xs) k ≡ some q
      → (p : A) × (get_elem? xs k ≡ some p) × (q ≡ f (i + k) p)
  get_map_from f [] i k e = cc
  get_map_from f (x ∷ xs) i zero e =
      let z : i + 0 ≡ i = omega arith in (x, refl, rw z (ground arith))
  get_map_from f (x ∷ xs) i (suc k) e =
      let (p, a, b) = get_map_from f xs (i + 1) k e in
      let z : i + suc k ≡ i + 1 + k = omega arith in (p, a, rw z b)

  -- An entry after a pass comes from the entry before it.
  pub get-map :
      (f : ℕ → A → A) (xs : List A) (k : ℕ) {q : A}
      → get_elem? (map_from f 0 xs) k ≡ some q
      → (p : A) × (get_elem? xs k ≡ some p) × (q ≡ f k p)
  get-map f xs k e =
      let (p, a, b) = get_map_from f xs 0 k e in
      let z : 0 + k ≡ k = omega arith in (p, a, rw z at b)

  map_from_get :
      (f : ℕ → A → A) (xs : List A) (i k : ℕ) {p : A}
      → get_elem? xs k ≡ some p
      → get_elem? (map_from f i xs) k ≡ some (f (i + k) p)
  map_from_get f [] i k e = cc
  map_from_get f (x ∷ xs) i zero e = let z : i + 0 ≡ i = omega arith in rw z (ground arith)
  map_from_get f (x ∷ xs) i (suc k) e =
      let z : i + suc k ≡ i + 1 + k = omega arith in rw z (map_from_get f xs (i + 1) k e)

  pub map-get :
      (f : ℕ → A → A) (xs : List A) (k : ℕ) {p : A}
      → get_elem? xs k ≡ some p
      → get_elem? (map_from f 0 xs) k ≡ some (f k p)
  map-get f xs k e = let z : 0 + k ≡ k = omega arith in rw z at (map_from_get f xs 0 k e)

  find_from-some :
      (p : A → Bool) (xs : List A) (i k : ℕ)
      → find_from p i xs ≡ some k
      → (j : ℕ) × (k ≡ i + j) × (x : A) × (get_elem? xs j ≡ some x) × (p x ≡ true)
  find_from-some p [] i k e = cc
  find_from-some p (x ∷ xs) i k e = elim (Bool-cases (p x)) [
    | inl t ↦ (0, ground (arith, t), x, refl, t)
    | inr f ↦
        let (j, a, y, b, c) = find_from-some p xs (i + 1) k (ground (arith, f)) in
        (suc j, omega arith, y, b, c)
  ]

  -- A search finds an entry with the property.
  pub find-some :
      (p : A → Bool) (xs : List A) (k : ℕ)
      → find_from p 0 xs ≡ some k
      → (x : A) × (get_elem? xs k ≡ some x) × (p x ≡ true)
  find-some p xs k e =
      let (j, a, x, b, c) = find_from-some p xs 0 k e in
      let z : k ≡ j = omega arith in (x, rw z b, c)

  find_from-none :
      (p : A → Bool) (xs : List A) (i k : ℕ) {x : A}
      → find_from p i xs ≡ none
      → get_elem? xs k ≡ some x
      → p x ≡ false
  find_from-none p [] i k e g = cc
  find_from-none p (y ∷ xs) i zero e g = ground arith
  find_from-none p (y ∷ xs) i (suc k) e g = find_from-none p xs (i + 1) k (ground arith) g

  -- A search that finds nothing has tried every entry.
  pub find-none :
      (p : A → Bool) (xs : List A) (k : ℕ) {x : A}
      → find_from p 0 xs ≡ none
      → get_elem? xs k ≡ some x
      → p x ≡ false
  find-none p xs k e g = find_from-none p xs 0 k e g
