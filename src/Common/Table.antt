-- ===== src/Common/Table.antt =====
-- A C array of structs, walked by index: find the first entry, update one or all.
use Prim.Native.Nat.{ℕ, zero, suc, ◌+◌}
use mathlib.Core.Path.{◌≡◌, refl}
use mathlib.Core.Bool.{Bool}
use mathlib.Core.List.{List, [], ◌∷◌}
use mathlib.Core.Option.{Option, none, some}
use native.Mathlib.Omega.{arith}
use mini_os_design.Common.Tests.{if◌then◌else◌}
use mini_os_design.Common.Lists.{length, get_elem?}

module _ {ℓ} {A : Type ℓ} where
  -- The loop of a table search that stops at the first entry with the property, from index `i` on.
  abbrev pub find_from : (A → Bool) → ℕ → List A → Option ℕ
  find_from p i [] = none
  find_from p i (x ∷ xs) = if p x then some i else find_from p (i + 1) xs

  -- The loop `for(p = table; p < &table[N]; p++) *p = f(index, *p);`, from index `i` on.
  abbrev pub map_from : (ℕ → A → A) → ℕ → List A → List A
  map_from f i [] = []
  map_from f i (x ∷ xs) = f i x ∷ map_from f (i + 1) xs

  abbrev pub All {κ} : (A → Type κ) → List A → Type κ
  All P [] = Unit
  All P (x ∷ xs) = P x × All P xs

  pub length-map_from : (f : ℕ → A → A) (xs : List A) (i : ℕ) → length (map_from f i xs) ≡ length xs
  length-map_from f [] i = refl
  length-map_from f (x ∷ xs) i = omega (arith, length-map_from f xs (i + 1))

  pub All-map_from {κ} :
      (P : A → Type κ) (f : ℕ → A → A) (xs : List A) (i : ℕ)
      → ((j : ℕ) (x : A) → P x → P (f j x))
      → All P xs
      → All P (map_from f i xs)
  All-map_from P f [] i h a = a
  All-map_from P f (x ∷ xs) i h a = (h i x a.0, All-map_from P f xs (i + 1) h a.1)

  pub All-get {κ} :
      (P : A → Type κ) (xs : List A) (i : ℕ) {x : A} → All P xs → get_elem? xs i ≡ some x → P x
  All-get P [] i a e = cc
  All-get P (y ∷ xs) zero a e = ground (arith, e)
  All-get P (y ∷ xs) (suc i) a e = All-get P xs i a.1 e
