-- ===== src/Kalloc/Blocks.antt =====
-- The free list of kernel/kalloc.c: address-ordered insertion with coalescing, best fit, split.
pub mod Insert
pub mod Take
pub mod Shape
use mini_os_design.Common.{
  ℕ, ◌+◌, ◌-◌, ◌*◌, List, [], ◌∷◌, Option, none, some, ltb, leb, ◌==◌, if◌then◌else◌,
}
use mini_os_design.Common.Machine.{page_size}

-- `struct free_block` with its address; `next` is the rest of the list.
pub record Block : Type 0 where
  pub addr : ℕ
  pub num_pages : ℕ

abbrev pub block_end : Block → ℕ
block_end b = b.addr + b.num_pages * page_size

-- The blocks walked past stand reversed, so that `prev` is their head. (`while(curr != 0 && …)`.)
abbrev pub relink : List Block → List Block → List Block
relink [] rest = rest
relink (p ∷ passed) rest = relink passed (p ∷ rest)

-- Merge `b` with the block after it where they touch.
unfoldable pub coalesce : Block → List Block → List Block
coalesce b [] = b ∷ []
coalesce b (c ∷ rest) =
    if block_end b == c.addr
    then record b { num_pages = b.num_pages + c.num_pages } ∷ rest
    else b ∷ c ∷ rest

-- Coalesce right, then left with `prev`.
unfoldable pub join : List Block → Block → List Block → List Block
unfolding coalesce
join [] b rest = coalesce b rest
join (p ∷ passed) b rest = elim (coalesce b rest) [
  | [] ↦ relink (p ∷ passed) []
  | b' ∷ rest' ↦ relink passed (coalesce p (b' ∷ rest'))
]

unfoldable pub seek : List Block → Block → List Block → List Block
unfolding join
seek passed b [] = join passed b []
seek passed b (c ∷ rest) =
    let further = seek (c ∷ passed) b rest in
    if ltb c.addr b.addr then further else join passed b (c ∷ rest)

unfoldable pub insert : Block → List Block → List Block
unfolding seek
insert b xs = seek [] b xs

-- A candidate: the blocks before it (reversed), itself, and those after it.
pub record Fit : Type 0 where
  pub before : List Block
  pub block : Block
  pub after : List Block

-- Keep the first of the smallest blocks that are large enough.
abbrev pub better : ℕ → Option Fit → Fit → Option Fit
better n none f = if leb n f.block.num_pages then some f else none
better n (some g) f =
    if leb n f.block.num_pages
    then (if ltb f.block.num_pages g.block.num_pages then some f else some g)
    else some g

unfoldable pub scan : ℕ → Option Fit → List Block → List Block → Option Fit
scan n best passed [] = best
scan n best passed (c ∷ rest) =
    scan n (better n best (record { before = passed; block = c; after = rest })) (c ∷ passed) rest

unfoldable pub best_fit : ℕ → List Block → Option Fit
unfolding scan
best_fit n xs = scan n none [] xs

-- Unlink a perfect fit; otherwise the tail of the block stays in the list.
unfoldable pub take_fit : ℕ → Fit → List Block
take_fit n f =
    if f.block.num_pages == n
    then relink f.before f.after
    else relink f.before (
        record { addr = f.block.addr + n * page_size; num_pages = f.block.num_pages - n } ∷ f.after)
