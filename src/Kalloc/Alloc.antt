-- ===== src/Kalloc/Alloc.antt =====
-- kalloc_contig of kernel/kalloc.c.
use mini_os_design.Common.{
  ℕ, ◌*◌, ◌%◌, ◌≤◌, ◌<◌, ◌≡◌, true, not, ◌&&◌, if◌then◌else◌, refl, ap, arith, ◌∙◌, List, [], ◌∷◌,
  inl, inr, Option, none, some, Option-cases,
}
use mini_os_design.Common.Machine.{page_size, within, pa2idx, fill}
use mini_os_design.Kalloc.Blocks.{Block, Fit, best_fit, take_fit, relink}
use mini_os_design.Kalloc.Blocks.Shape.{IsChain, covers}
use mini_os_design.Kalloc.Blocks.Take.{
  NoneFits, Smallest, best_fit-Found, relink-tail, take_fit-IsChain, covers-take_fit,
}
use mini_os_design.Kalloc.Refs.{set_refs_lem}
use mini_os_design.Kalloc.Invariant.{IsValid}
use mini_os_design.Kalloc.{Kmem, kalloc_contig}

-- What a caller of kalloc_contig gets: a run of `n` free pages from a smallest block that holds
-- them, each with the count 1 and no longer free, or nothing, where no block is large enough.
abbrev pub Allocated : Kmem → ℕ → Kmem × Option ℕ → Type 0
Allocated s n (s', none) = (s' ≡ s) × NoneFits n s.freelist
Allocated s n (s', some pa) =
    (m : ℕ) × (pa % page_size ≡ 0)
    × (n ≤ m)
    × Smallest n m s.freelist
    × ((a : ℕ) → within pa (m * page_size) a ≡ true → covers s.freelist a ≡ true)
    × ((a : ℕ) → covers s'.freelist a ≡ (covers s.freelist a && not (within pa (n * page_size) a)))
    × ((i : ℕ) → s'.ref_count i ≡ (if within (pa2idx pa) n i then 1 else s.ref_count i))
    × (s'.mem ≡ fill s.mem pa (n * page_size) 0x0505_0505_0505_0505)
    × (s'.reverse_map ≡ s.reverse_map)

covers-relink_mono :
    (passed xs : List Block) (a : ℕ) → covers xs a ≡ true → covers (relink passed xs) a ≡ true
covers-relink_mono [] xs a h = h
covers-relink_mono (p ∷ passed) xs a h = covers-relink_mono passed (p ∷ xs) a (ground arith)

kalloc_contig_found :
    (base : ℕ) (s : Kmem) (n : ℕ) (f : Fit)
    → 0 < n
    → IsValid base s
    → best_fit n s.freelist ≡ some f
    → IsValid base (kalloc_contig s n).0 × Allocated s n (kalloc_contig s n)
unfolding kalloc_contig
kalloc_contig_found base s n f pos v e =
    let (whole, large, small) = found in
    let c : IsChain base (relink f.before (f.block ∷ f.after)) = rw whole v.chain in
    let (m, h, d) = relink-tail f.before (f.block ∷ f.after) base c in
    rw (e, kalloc_contig)
      (
        record {
          chain = take_fit-IsChain n f base large c;
          agrees = λ a lo hi. ground (
            arith,
            taken a,
            v.agrees a lo hi,
            set_refs_lem n s.ref_count (pa2idx f.block.addr) (pa2idx a),
          );
        },
        (
          f.block.num_pages,
          d.1,
          large,
          small,
          λ a w. rw (← whole) (covers-relink_mono f.before (f.block ∷ f.after) a (ground arith)),
          taken,
          set_refs_lem n s.ref_count (pa2idx f.block.addr),
          refl,
          refl,
        ),
      )
  where
    found :
        (relink f.before (f.block ∷ f.after) ≡ s.freelist)
        × (n ≤ f.block.num_pages)
        × Smallest n f.block.num_pages s.freelist
    found = rw e at (best_fit-Found n s.freelist)

    taken :
        (a : ℕ)
        → covers (take_fit n f) a
          ≡ (covers s.freelist a && not (within f.block.addr (n * page_size) a))
    taken a =
        covers-take_fit n f base a found.1 (rw found.0 v.chain)
        ∙ ap (λ xs. covers xs a && not (within f.block.addr (n * page_size) a)) found.0

-- For n > 0 and a valid allocator, kalloc_contig leaves it valid. Where it succeeds, the address is
-- page-aligned and starts a free run of m pages, m being the least size of a block with at least n
-- pages; exactly the addresses of the first n pages leave the free list, their counts become 1 and
-- the others stay, the pages are filled with 5s, and the reverse map stays. Where it fails, nothing
-- has changed and no block has n pages.
pub kalloc_contig-Allocated :
    (base : ℕ) (s : Kmem) (n : ℕ)
    → 0 < n
    → IsValid base s
    → IsValid base (kalloc_contig s n).0 × Allocated s n (kalloc_contig s n)
unfolding kalloc_contig
kalloc_contig-Allocated base s n pos v = elim (Option-cases (best_fit n s.freelist)) [
  | inl e ↦ rw (e, kalloc_contig) (v, (refl, rw e at (best_fit-Found n s.freelist)))
  | inr (f, e) ↦ kalloc_contig_found base s n f pos v e
]
