-- ===== src/Kalloc/Blocks/Take.antt =====
-- Best fit in the free list of kernel/kalloc.c, and the split of the block that is found.
use mini_os_design.Common.{
  ℕ, ◌+◌, ◌*◌, ◌≤◌, ◌<◌, ◌≡◌, inl, inr, List, [], ◌∷◌, Option, none, some, ◌&&◌, not, ◌==◌, refl,
  arith, Bool-cases,
}
use mini_os_design.Common.Machine.{page_size, within}
use mini_os_design.Kalloc.Blocks.{Block, block_end, relink, Fit, better, scan, best_fit, take_fit}
use mini_os_design.Kalloc.Blocks.Shape.{
  IsChain, IsChain-le, covers, covers_below, relink-IsChain, covers-relink,
}

-- No block has `n` pages.
abbrev pub NoneFits : ℕ → List Block → Type 0
NoneFits n [] = Unit {0}
NoneFits n (c ∷ rest) = (c.num_pages < n) × NoneFits n rest

-- Every block with `n` pages has at least `m`.
abbrev pub Smallest : ℕ → ℕ → List Block → Type 0
Smallest n m [] = Unit {0}
Smallest n m (c ∷ rest) = (n ≤ c.num_pages → m ≤ c.num_pages) × Smallest n m rest

-- The best of the blocks in `seen`, where `all` is the whole list.
abbrev Found : ℕ → Option Fit → List Block → List Block → Type 0
Found n none seen all = NoneFits n seen
Found n (some f) seen all =
    (relink f.before (f.block ∷ f.after) ≡ all)
    × (n ≤ f.block.num_pages)
    × Smallest n f.block.num_pages seen

Smallest-of_NoneFits : (n m : ℕ) (xs : List Block) → NoneFits n xs → Smallest n m xs
Smallest-of_NoneFits n m [] h = tt
Smallest-of_NoneFits n m (x ∷ xs) h = (λ k. absurd (omega arith), Smallest-of_NoneFits n m xs h.1)

Smallest-le : (n m k : ℕ) (xs : List Block) → m ≤ k → Smallest n k xs → Smallest n m xs
Smallest-le n m k [] h s = tt
Smallest-le n m k (x ∷ xs) h s = (λ e. omega (arith, s.0 e), Smallest-le n m k xs h s.1)

better-Found :
    (n : ℕ) (best : Option Fit) (seen : List Block) (f : Fit) (all : List Block)
    → relink f.before (f.block ∷ f.after) ≡ all
    → Found n best seen all
    → Found n (better n best f) (f.block ∷ seen) all
better-Found n none seen f all e h = ground (arith, Smallest-of_NoneFits n f.block.num_pages seen)
better-Found n (some g) seen f all e h =
    ground (arith, Smallest-le n f.block.num_pages g.block.num_pages seen)

scan-Found :
    (n : ℕ) (rest : List Block) (best : Option Fit) (passed all : List Block)
    → relink passed rest ≡ all
    → Found n best passed all
    → Found n (scan n best passed rest) (relink rest passed) all
unfolding scan
scan-Found n [] best passed all e h = h
scan-Found n (c ∷ rest) best passed all e h =
    scan-Found n rest (better n best (record { before = passed; block = c; after = rest }))
      (c ∷ passed) all e
      (better-Found n best passed (record { before = passed; block = c; after = rest }) all e h)

NoneFits-relink :
    (n : ℕ) (xs ys : List Block) → NoneFits n (relink xs ys) → NoneFits n xs × NoneFits n ys
NoneFits-relink n [] ys h = (tt, h)
NoneFits-relink n (x ∷ xs) ys h = let (l, r) = NoneFits-relink n xs (x ∷ ys) h in ((r.0, l), r.1)

Smallest-relink :
    (n m : ℕ) (xs ys : List Block) → Smallest n m (relink xs ys) → Smallest n m xs × Smallest n m ys
Smallest-relink n m [] ys h = (tt, h)
Smallest-relink n m (x ∷ xs) ys h =
    let (l, r) = Smallest-relink n m xs (x ∷ ys) h in ((r.0, l), r.1)

Found-relink :
    (n : ℕ) (best : Option Fit) (xs all : List Block)
    → Found n best (relink xs []) all
    → Found n best xs all
Found-relink n none xs all h = (NoneFits-relink n xs [] h).0
Found-relink n (some f) xs all h = (h.0, h.1, (Smallest-relink n f.block.num_pages xs [] h.2).0)

-- The search of kalloc_contig finds a block of the list with at least n pages such that every block
-- with n pages has at least as many, or nothing where no block has n pages.
pub best_fit-Found : (n : ℕ) (xs : List Block) → Found n (best_fit n xs) xs xs
unfolding best_fit
best_fit-Found n xs = Found-relink n (scan n none [] xs) xs xs (scan-Found n xs none [] xs refl tt)

-- The blocks after a place in a well-formed list are well formed.
pub relink-tail :
    (passed xs : List Block) (lo : ℕ)
    → IsChain lo (relink passed xs)
    → (m : ℕ) × (lo ≤ m) × IsChain m xs
relink-tail [] xs lo c = (lo, omega arith, c)
relink-tail (p ∷ passed) xs lo c =
    let (m, h, d) = relink-tail passed (p ∷ xs) lo c in (block_end p + 1, omega arith, d.4)

pub take_fit-IsChain :
    (n : ℕ) (f : Fit) (lo : ℕ)
    → n ≤ f.block.num_pages
    → IsChain lo (relink f.before (f.block ∷ f.after))
    → IsChain lo (take_fit n f)
unfolding take_fit
take_fit-IsChain n f lo h c = elim (Bool-cases (f.block.num_pages == n)) [
  | inl e ↦ rw e (
      relink-IsChain f.before (f.block ∷ f.after) f.after lo
        (λ m d. IsChain-le f.after (omega arith) d.4) c)
  | inr e ↦ rw e (
      relink-IsChain f.before (f.block ∷ f.after) _ lo
        (λ m d. (
          omega arith,
          omega arith,
          ground arith,
          omega arith,
          IsChain-le f.after (omega arith) d.4,
        ))
        c)
]

-- Taking n pages from a block that has them, in a well-formed free list, removes exactly the
-- addresses of those pages from the list.
pub covers-take_fit :
    (n : ℕ) (f : Fit) (lo a : ℕ)
    → n ≤ f.block.num_pages
    → IsChain lo (relink f.before (f.block ∷ f.after))
    → covers (take_fit n f) a ≡ (
        covers (relink f.before (f.block ∷ f.after)) a
        && not (within f.block.addr (n * page_size) a))
unfolding take_fit
covers-take_fit n f lo a h c = elim (Bool-cases (f.block.num_pages == n)) [
  | inl e ↦ rw e (
      covers-relink f.before (f.block ∷ f.after) f.after lo a
        (within f.block.addr (n * page_size) a) (λ w. ground arith)
        (λ m d. ground (arith, covers_below f.after (block_end f.block + 1) a d.4)) c)
  | inr e ↦ rw e (
      covers-relink f.before (f.block ∷ f.after) _ lo a (within f.block.addr (n * page_size) a)
        (λ w. ground arith)
        (λ m d. ground (arith, covers_below f.after (block_end f.block + 1) a d.4)) c)
]
