-- ===== src/Kalloc.antt =====
-- kernel/kalloc.c: the physical page allocator with its reference counts and reverse map.
-- The free blocks of `kmem.freelist` are a list, in the order of the `next` pointers; what the C
-- code stores of a block inside its first page is not part of the memory `mem`.
-- Each function runs with `kmem.lock` held, so it is one step; `kfree_contig` takes the lock twice,
-- and is the sequence of its two sections `kfree_drop` and `kfree_insert`.
pub mod Blocks
pub mod Refs
pub mod Invariant
pub mod Alloc
pub mod Init
pub mod RoundTrip
pub mod Free
pub mod Page
pub mod Compact
pub mod Reach
mod Tests
use mini_os_design.Common.{
  ℕ, zero, suc, ◌+◌, ◌-◌, ◌*◌, ◌/◌, ◌%◌, List, [], ◌∷◌, Option, none, some, Bool, true, false, not,
  ◌&&◌, ◌||◌, ltb, leb, ◌==◌, if◌then◌else◌, Outcome, ok, panic, ◌>>=◌, ◌>>◌, panic_if,
}
use mini_os_design.Common.Machine.{page_size, kernbase, phystop, pg_round_up, pa2idx, Memory, fill}
use Blocks.{Block, insert, best_fit, take_fit}

-- An entry of `reverse_map`.
pub record Rmap : Type 0 where
  pub pagetable : ℕ
  pub va : ℕ

-- The globals of kalloc.c. Counts are never negative: each decrement is guarded.
pub record Kmem : Type 0 where
  pub use_lock : Bool
  pub freelist : List Block
  pub ref_count : ℕ → ℕ
  pub reverse_map : ℕ → Rmap
  pub mem : Memory

abbrev pub no_rmap : Rmap
no_rmap = record { pagetable = 0; va = 0 }

-- (pagetable_t)-1
abbrev pub shared_pagetable : ℕ
shared_pagetable = 0xffff_ffff_ffff_ffff

abbrev pub update {ℓ} : {A : Type ℓ} → (ℕ → A) → ℕ → A → ℕ → A
update f i v j = if j == i then v else f j

unfoldable pub record_rmap : Kmem → ℕ → ℕ → ℕ → Kmem
record_rmap s pa pagetable va =
    if leb kernbase pa && ltb pa phystop
    then (if (s.reverse_map idx).pagetable == 0
        then enter (record { pagetable = pagetable; va = va })
        else if not ((s.reverse_map idx).pagetable == pagetable)
        then enter (record { pagetable = shared_pagetable; va = (s.reverse_map idx).va })
        else s)
    else s
  where
    idx : ℕ
    idx = (pa - kernbase) / page_size

    enter : Rmap → Kmem
    enter r = record s { reverse_map = update s.reverse_map idx r }

unfoldable pub clear_rmap : Kmem → ℕ → Kmem
clear_rmap s pa =
    if leb kernbase pa && ltb pa phystop
    then record s { reverse_map = update s.reverse_map ((pa - kernbase) / page_size) no_rmap }
    else s

-- The loop that decrements the count of each page.
pub drop_refs : (ℕ → ℕ) → ℕ → ℕ → Outcome (ℕ → ℕ)
drop_refs ref idx zero = ok ref
drop_refs ref idx (suc n) =
    let rest = drop_refs (update ref idx (ref idx - 1)) (idx + 1) n in
    if leb (ref idx) 0 then panic "kfree_contig: ref_count already zero" else rest

-- Is the count of some of the `n` pages from `idx` on positive?
pub any_ref : (ℕ → ℕ) → ℕ → ℕ → Bool
any_ref ref idx zero = false
any_ref ref idx (suc n) = ltb 0 (ref idx) || any_ref ref (idx + 1) n

-- The loop that clears the reverse map of each page.
pub clear_rmaps : Kmem → ℕ → ℕ → Kmem
clear_rmaps s pa zero = s
clear_rmaps s pa (suc n) = clear_rmaps (clear_rmap s pa) (pa + page_size) n

-- The first critical section: the new counts, and whether the pages are to be freed.
pub kfree_drop : Kmem → ℕ → ℕ → Outcome (Kmem × Bool)
kfree_drop s pa n = do
  ref ← drop_refs s.ref_count (pa2idx pa) n
  let s' = record s { ref_count = ref }
  if n == 1 && ltb 0 (ref (pa2idx pa)) then ok (s', false) else do
    panic_if (ltb 1 n && any_ref ref (pa2idx pa) n)
        "kfree_contig: partial free not supported on contiguous blocks"
    ok (s', true)

-- After it: clear the reverse map, fill with junk, and put the block into the free list.
pub kfree_insert : Kmem → ℕ → ℕ → Kmem
kfree_insert s pa n = record s' {
  mem = fill s'.mem pa (n * page_size) 0x0101_0101_0101_0101;
  freelist = insert (record { addr = pa; num_pages = n }) s'.freelist;
}
  where
    s' : Kmem
    s' = clear_rmaps s pa n

-- The loop of `freerange` that gives each page from `p` on the count 1 before its first free.
pub claim_pages : (ℕ → ℕ) → ℕ → ℕ → ℕ → ℕ
claim_pages ref p zero = ref
claim_pages ref p (suc n) = claim_pages (update ref (pa2idx p) 1) (p + page_size) n

-- `kernel_end` is the linker's `end`, the first address after the kernel.
module _ (kernel_end : ℕ) where
  -- `n` is at most the number of pages of memory, so no product overflows.
  unfoldable pub kfree_contig : Kmem → ℕ → ℕ → Outcome Kmem
  kfree_contig s pa n = do
    panic_if (not (pa % page_size == 0) || ltb pa kernel_end || ltb phystop (pa + n * page_size))
        "kfree_contig"
    (s', free) ← kfree_drop s pa n
    ok (if free then kfree_insert s' pa n else s')

  unfoldable pub kfree : Kmem → ℕ → Outcome Kmem
  kfree s pa = kfree_contig s pa 1

  -- The loop runs while p + PGSIZE <= pa_end.
  unfoldable pub freerange : Kmem → ℕ → ℕ → Outcome Kmem
  freerange s pa_start pa_end =
      let lo = pg_round_up pa_start in
      let n = (pa_end - lo) / page_size in
      kfree_contig (record s { ref_count = claim_pages s.ref_count lo n }) lo n

  -- Boot: memory holds anything, the free list is the null pointer of a zeroed global.
  unfoldable pub kinit : Memory → Outcome Kmem
  kinit mem = do
    s ←
        freerange
          (record {
            use_lock = false;
            freelist = [];
            ref_count = λ _. 0;
            reverse_map = λ _. no_rmap;
            mem = mem;
          })
          kernel_end phystop
    ok (record s { use_lock = true })

-- The loop that gives each allocated page the count 1.
pub set_refs : (ℕ → ℕ) → ℕ → ℕ → ℕ → ℕ
set_refs ref idx zero = ref
set_refs ref idx (suc n) = set_refs (update ref idx 1) (idx + 1) n

-- The best-fitting block, or `none` where the C code returns 0.
unfoldable pub kalloc_contig : Kmem → ℕ → Kmem × Option ℕ
kalloc_contig s n = elim (best_fit n s.freelist) [
  | none ↦ (s, none)
  | some f ↦ (
    record s {
      freelist = take_fit n f;
      ref_count = set_refs s.ref_count (pa2idx f.block.addr) n;
      mem = fill s.mem f.block.addr (n * page_size) 0x0505_0505_0505_0505;
    },
    some f.block.addr,
  )
]

unfoldable pub kalloc : Kmem → Kmem × Option ℕ
kalloc s = kalloc_contig s 1

unfoldable pub incref : Kmem → ℕ → Kmem
incref s pa = record s { ref_count = update s.ref_count (pa2idx pa) (s.ref_count (pa2idx pa) + 1) }

unfoldable pub getref : Kmem → ℕ → ℕ
getref s pa = s.ref_count (pa2idx pa)

unfoldable pub decref : Kmem → ℕ → Outcome (Kmem × ℕ)
decref s pa =
    if leb (s.ref_count (pa2idx pa)) 0
    then panic "decref: invalid"
    else ok (
      record s { ref_count = update s.ref_count (pa2idx pa) (s.ref_count (pa2idx pa) - 1) },
      s.ref_count (pa2idx pa) - 1,
    )
