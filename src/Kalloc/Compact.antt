-- ===== src/Kalloc/Compact.antt =====
-- compact_memory of kernel/kalloc.c, up to the first page that it would move.
use mini_os_design.Common.{
  ℕ, ◌+◌, ◌-◌, ◌*◌, ◌/◌, ◌%◌, ◌^◌, false, not, ◌&&◌, ◌==◌, leb, if◌then◌else◌, Bool, Option, none,
  some, List, [], ◌∷◌,
}
use mini_os_design.Common.Machine.{page_size, kernbase, phystop}
use mini_os_design.Kalloc.Blocks.{Block}
use mini_os_design.Kalloc.{Kmem, shared_pagetable}

-- Does the block after the hole begin at `used`?
abbrev joins : ℕ → List Block → Bool
joins used [] = false
joins used (b ∷ bs) = b.addr == used

-- The test of the page behind a hole, whose number is `pfn`.
abbrev pub movable : Kmem → ℕ → Bool
movable s pfn =
    not ((s.reverse_map pfn).pagetable == 0)
    && not ((s.reverse_map pfn).pagetable == shared_pagetable)
    && (s.ref_count pfn == 1)

-- The walk over the holes from the first of `bs` on: the first hole into which a page is to be
-- moved, and that page.
unfoldable pub compact_from : Kmem → List Block → Option (ℕ × ℕ)
compact_from s [] = none
compact_from s (b ∷ bs) =
    let used = b.addr + b.num_pages * page_size in
    let later = compact_from s bs in
    if leb phystop used
    then none
    else if joins used bs
    then later
    else if movable s ((used + 2 ^ 64 - kernbase) % 2 ^ 64 / page_size)
    then some (b.addr, used)
    else later

unfoldable pub compact_memory : Kmem → Option (ℕ × ℕ)
compact_memory s = if not s.use_lock then none else compact_from s s.freelist
