-- ===== src/Kalloc/Blocks/Shape.antt =====
-- What a free list of kernel/kalloc.c looks like, and which addresses it covers.
use mini_os_design.Common.{
  ℕ, ◌+◌, ◌*◌, ◌%◌, ◌≤◌, ◌<◌, ◌≡◌, List, [], ◌∷◌, Bool, true, false, ◌||◌, ◌&&◌, not, refl, arith,
}
use mini_os_design.Common.Machine.{page_size, phystop, within}
use mini_os_design.Kalloc.Blocks.{Block, block_end, relink, coalesce}

-- Page-aligned blocks of at least one page, from `lo` up to the end of memory, in address order,
-- with a gap between any two.
abbrev pub IsChain : ℕ → List Block → Type 0
IsChain lo [] = Unit {0}
IsChain lo (b ∷ bs) =
    (lo ≤ b.addr)
    × (b.addr % page_size ≡ 0)
    × (0 < b.num_pages)
    × (block_end b ≤ phystop)
    × IsChain (block_end b + 1) bs

-- Is the byte at `a` in a free block?
abbrev pub covers : List Block → ℕ → Bool
covers [] a = false
covers (b ∷ bs) a = within b.addr (b.num_pages * page_size) a || covers bs a

pub IsChain-le : {m n : ℕ} (xs : List Block) → m ≤ n → IsChain n xs → IsChain m xs
IsChain-le [] h c = tt
IsChain-le (b ∷ bs) h c = (omega arith, c.1, c.2, c.3, c.4)

pub covers_below : (xs : List Block) (lo a : ℕ) → IsChain lo xs → a < lo → covers xs a ≡ false
covers_below [] lo a c h = refl
covers_below (b ∷ bs) lo a c h = ground (arith, covers_below bs (block_end b + 1) a c.4)

pub covers_above : (xs : List Block) (lo a : ℕ) → IsChain lo xs → phystop ≤ a → covers xs a ≡ false
covers_above [] lo a c h = refl
covers_above (b ∷ bs) lo a c h = ground (arith, covers_above bs (block_end b + 1) a c.4)

-- Merging keeps the shape when the rest begins at the end of the block or later.
pub coalesce-IsChain :
    (lo : ℕ) (b : Block) (xs : List Block)
    → lo ≤ b.addr
    → b.addr % page_size ≡ 0
    → 0 < b.num_pages
    → block_end b ≤ phystop
    → IsChain (block_end b) xs
    → IsChain lo (coalesce b xs)
unfolding coalesce
coalesce-IsChain lo b [] h₁ h₂ h₃ h₄ c = (h₁, h₂, h₃, h₄, tt)
coalesce-IsChain lo b (x ∷ xs) h₁ h₂ h₃ h₄ c =
    ground (arith, IsChain-le {m = block_end b + 1} {n = block_end x + 1} xs)

pub covers-coalesce :
    (b : Block) (xs : List Block) (a : ℕ)
    → covers (coalesce b xs) a ≡ (within b.addr (b.num_pages * page_size) a || covers xs a)
unfolding coalesce
covers-coalesce b [] a = refl
covers-coalesce b (x ∷ xs) a = ground arith

-- A change at one place of a list keeps its shape.
pub relink-IsChain :
    (passed xs ys : List Block) (lo : ℕ)
    → ((m : ℕ) → IsChain m xs → IsChain m ys)
    → IsChain lo (relink passed xs)
    → IsChain lo (relink passed ys)
relink-IsChain [] xs ys lo f c = f lo c
relink-IsChain (p ∷ passed) xs ys lo f c =
    relink-IsChain passed (p ∷ xs) (p ∷ ys) lo
      (λ m d. (d.0, d.1, d.2, d.3, f (block_end p + 1) d.4)) c

-- Taking the addresses with `w` away at one place takes them away from the list.
pub covers-relink :
    (passed xs ys : List Block) (lo a : ℕ) (w : Bool)
    → (w ≡ true → covers xs a ≡ true)
    → ((m : ℕ) → IsChain m xs → covers ys a ≡ (covers xs a && not w))
    → IsChain lo (relink passed xs)
    → covers (relink passed ys) a ≡ (covers (relink passed xs) a && not w)
covers-relink [] xs ys lo a w g f c = f lo c
covers-relink (p ∷ passed) xs ys lo a w g f c =
    covers-relink passed (p ∷ xs) (p ∷ ys) lo a w (λ e. ground (arith, g e))
      (λ m d. ground (arith, f (block_end p + 1) d.4, g, covers_below xs (block_end p + 1) a d.4)) c
