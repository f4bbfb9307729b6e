-- ===== src/Kalloc/Blocks/Insert.antt =====
-- Insertion into the free list of kernel/kalloc.c: the walk with its two merges, and a plain
-- recursion.
use mini_os_design.Common.{
  ℕ, ◌+◌, ◌*◌, ◌%◌, ◌≤◌, ◌<◌, ◌≡◌, ◌⊎◌, inl, inr, List, [], ◌∷◌, ◌||◌, ltb, ◌==◌, if◌then◌else◌,
  refl, sym, ap, arith, ◌∙◌, Bool-cases,
}
use mini_os_design.Common.Machine.{page_size, phystop, within}
use mini_os_design.Kalloc.Blocks.{Block, block_end, relink, coalesce, join, seek, insert}
use mini_os_design.Kalloc.Blocks.Shape.{
  IsChain, IsChain-le, covers, coalesce-IsChain, covers-coalesce,
}

-- No block of the list meets `b`.
abbrev pub Apart : Block → List Block → Type 0
Apart b [] = Unit {0}
Apart b (c ∷ rest) = ((block_end b ≤ c.addr) ⊎ (block_end c ≤ b.addr)) × Apart b rest

-- The reference: put `b` in its place, and merge on the way back.
pub insert_sorted : Block → List Block → List Block
insert_sorted b [] = b ∷ []
insert_sorted b (c ∷ rest) =
    let further = coalesce c (insert_sorted b rest) in
    if ltb c.addr b.addr then further else coalesce b (c ∷ rest)

pub insert_sorted-IsChain :
    (xs : List Block) (lo : ℕ) (b : Block)
    → lo ≤ b.addr
    → b.addr % page_size ≡ 0
    → 0 < b.num_pages
    → block_end b ≤ phystop
    → Apart b xs
    → IsChain lo xs
    → IsChain lo (insert_sorted b xs)
unfolding insert_sorted
insert_sorted-IsChain [] lo b h₁ h₂ h₃ h₄ p c = (h₁, h₂, h₃, h₄, tt)
insert_sorted-IsChain (x ∷ xs) lo b h₁ h₂ h₃ h₄ p c = elim (Bool-cases (ltb x.addr b.addr)) [
  | inl e ↦ rw e (
      coalesce-IsChain lo x (insert_sorted b xs) c.0 c.1 c.2 c.3 (
        insert_sorted-IsChain xs (block_end x) b (ground arith) h₂ h₃ h₄ p.1
          (IsChain-le xs (omega arith) c.4)))
  | inr e ↦ rw e (coalesce-IsChain lo b (x ∷ xs) h₁ h₂ h₃ h₄ (ground arith, c.1, c.2, c.3, c.4))
]

pub covers-insert_sorted :
    (xs : List Block) (b : Block) (a : ℕ)
    → covers (insert_sorted b xs) a ≡ (within b.addr (b.num_pages * page_size) a || covers xs a)
unfolding insert_sorted
covers-insert_sorted [] b a = refl
covers-insert_sorted (x ∷ xs) b a = elim (Bool-cases (ltb x.addr b.addr)) [
  | inl e ↦
      rw (e, covers-coalesce x (insert_sorted b xs) a, covers-insert_sorted xs b a) (ground arith)
  | inr e ↦ rw (e, covers-coalesce b (x ∷ xs) a) refl
]

-- Where a list begins after the end of `p`, merging `p` with it does nothing.
abbrev StartsAfter : ℕ → List Block → Type 0
StartsAfter n [] = Unit {0}
StartsAfter n (c ∷ rest) = n < c.addr

coalesce_apart :
    (p : Block) (xs : List Block) → StartsAfter (block_end p) xs → coalesce p xs ≡ p ∷ xs
unfolding coalesce
coalesce_apart p [] h = refl
coalesce_apart p (x ∷ xs) h = ground arith

StartsAfter-coalesce :
    (n : ℕ) (b : Block) (xs : List Block) → n < b.addr → StartsAfter n (coalesce b xs)
unfolding coalesce
StartsAfter-coalesce n b [] h = h
StartsAfter-coalesce n b (x ∷ xs) h = ground arith

join-cons :
    (p : Block) (passed : List Block) (b : Block) (xs : List Block)
    → join (p ∷ passed) b xs ≡ relink passed (coalesce p (coalesce b xs))
unfolding join
join-cons p passed b [] = refl
join-cons p passed b (x ∷ xs) = elim (Bool-cases (block_end b == x.addr)) [
  | inl e ↦ rw (e, join)
  | inr e ↦ rw (e, join)
]

-- The walk, once it has passed `p`.
seek-cons :
    (xs : List Block) (p : Block) (passed : List Block) (b : Block)
    → IsChain (block_end p + 1) xs
    → seek (p ∷ passed) b xs ≡ relink passed (coalesce p (insert_sorted b xs))
unfolding seek insert_sorted
seek-cons [] p passed b c = join-cons p passed b []
seek-cons (x ∷ xs) p passed b c = elim (Bool-cases (ltb x.addr b.addr)) [
  | inl e ↦ rw e (
      seek-cons xs x (p ∷ passed) b c.4
      ∙ ap (relink passed) (
          sym (
            coalesce_apart p (coalesce x (insert_sorted b xs))
              (StartsAfter-coalesce (block_end p) x (insert_sorted b xs) (omega arith)))))
  | inr e ↦ rw e (join-cons p passed b (x ∷ xs))
]

-- On a well-formed free list, the walk of kfree_contig with its two merges is the plain recursive
-- insertion that merges on the way back.
pub insert-insert_sorted :
    (lo : ℕ) (b : Block) (xs : List Block) → IsChain lo xs → insert b xs ≡ insert_sorted b xs
unfolding insert insert_sorted
insert-insert_sorted lo b [] c = refl
insert-insert_sorted lo b (x ∷ xs) c = elim (Bool-cases (ltb x.addr b.addr)) [
  | inl e ↦ rw e (seek-cons xs x [] b c.4)
  | inr e ↦ rw e
]
