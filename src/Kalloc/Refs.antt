-- ===== src/Kalloc/Refs.antt =====
-- The loops of kernel/kalloc.c over the counts and the reverse map of a run of pages.
use mini_os_design.Common.{
  ℕ, zero, suc, ◌+◌, ◌-◌, ◌*◌, ◌<◌, ◌≡◌, true, false, if◌then◌else◌, refl, arith, ok, List, [], ◌∷◌,
}
use mini_os_design.Common.Machine.{page_size, within, pa2idx}
use mini_os_design.Kalloc.Blocks.{Block, block_end}
use mini_os_design.Kalloc.Blocks.Shape.{IsChain, covers}
use mini_os_design.Kalloc.Blocks.Insert.{Apart}
use mini_os_design.Kalloc.{
  Kmem, update, drop_refs, any_ref, set_refs, claim_pages, clear_rmap, clear_rmaps,
}

-- Every count of the run was positive, and each is one less.
pub drop_refs_lem :
    (n : ℕ) (ref : ℕ → ℕ) (idx : ℕ) (ref' : ℕ → ℕ) (i : ℕ)
    → drop_refs ref idx n ≡ ok ref'
    → (ref' i ≡ (if within idx n i then ref i - 1 else ref i)) × (within idx n i ≡ true → 0 < ref i)
unfolding drop_refs
drop_refs_lem zero ref idx ref' i h = ground arith
drop_refs_lem (suc n) ref idx ref' i h =
    ground (arith, drop_refs_lem n (update ref idx (ref idx - 1)) (idx + 1) ref' i)

-- The loop stops the machine only at a page whose count is zero.
pub drop_refs-ok :
    (n : ℕ) (ref : ℕ → ℕ) (idx : ℕ)
    → ((i : ℕ) → within idx n i ≡ true → 0 < ref i)
    → (ref' : ℕ → ℕ) × (drop_refs ref idx n ≡ ok ref')
unfolding drop_refs
drop_refs-ok zero ref idx h = (ref, refl)
drop_refs-ok (suc n) ref idx h =
    let (ref', e) =
      drop_refs-ok n (update ref idx (ref idx - 1)) (idx + 1) (λ i w. ground (arith, h i)) in
    (ref', ground (arith, h idx))

pub any_ref_lem :
    (n : ℕ) (ref : ℕ → ℕ) (idx i : ℕ)
    → any_ref ref idx n ≡ false
    → within idx n i ≡ true
    → ref i ≡ 0
unfolding any_ref
any_ref_lem zero ref idx i h w = ground arith
any_ref_lem (suc n) ref idx i h w = ground (arith, any_ref_lem n ref (idx + 1) i)

pub set_refs_lem :
    (n : ℕ) (ref : ℕ → ℕ) (idx i : ℕ) → set_refs ref idx n i ≡ (if within idx n i then 1 else ref i)
unfolding set_refs
set_refs_lem zero ref idx i = ground arith
set_refs_lem (suc n) ref idx i = ground (arith, set_refs_lem n (update ref idx 1) (idx + 1) i)

pub claim_pages_lem :
    (n : ℕ) (ref : ℕ → ℕ) (p i : ℕ)
    → claim_pages ref p n i ≡ (if within (pa2idx p) n i then 1 else ref i)
unfolding claim_pages
claim_pages_lem zero ref p i = ground arith
claim_pages_lem (suc n) ref p i =
    ground (arith, claim_pages_lem n (update ref (pa2idx p) 1) (p + page_size) i)

-- The reverse map has no part in the free list, the counts or the memory.
pub clear_rmaps-rest :
    (n : ℕ) (s : Kmem) (pa : ℕ)
    → ((clear_rmaps s pa n).freelist ≡ s.freelist)
      × ((clear_rmaps s pa n).ref_count ≡ s.ref_count)
      × ((clear_rmaps s pa n).mem ≡ s.mem)
      × ((clear_rmaps s pa n).use_lock ≡ s.use_lock)
unfolding clear_rmaps clear_rmap
clear_rmaps-rest zero s pa = (refl, refl, refl, refl)
clear_rmaps-rest (suc n) s pa =
    ground (arith, clear_rmaps-rest n (clear_rmap s pa) (pa + page_size))

-- A run of addresses that the list does not cover meets none of its blocks.
pub Apart-of_not_covers :
    (xs : List Block) (lo : ℕ) (b : Block)
    → IsChain lo xs
    → 0 < b.num_pages
    → ((a : ℕ) → within b.addr (b.num_pages * page_size) a ≡ true → covers xs a ≡ false)
    → Apart b xs
Apart-of_not_covers [] lo b c h f = tt
Apart-of_not_covers (x ∷ xs) lo b c h f = (
  ground (arith, f b.addr, f x.addr),
  Apart-of_not_covers xs (block_end x + 1) b c.4 h (λ a w. ground (arith, f a w)),
)

pub any_ref-false :
    (n : ℕ) (ref : ℕ → ℕ) (idx : ℕ)
    → ((i : ℕ) → within idx n i ≡ true → ref i ≡ 0)
    → any_ref ref idx n ≡ false
unfolding any_ref
any_ref-false zero ref idx h = refl
any_ref-false (suc n) ref idx h =
    ground (arith, h idx, any_ref-false n ref (idx + 1) (λ i w. ground (arith, h i)))
