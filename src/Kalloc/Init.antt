-- ===== src/Kalloc/Init.antt =====
-- kinit and freerange of kernel/kalloc.c: the boot state of the allocator.
use mini_os_design.Common.{
  ℕ, ◌+◌, ◌-◌, ◌*◌, ◌/◌, ◌%◌, ◌≤◌, ◌<◌, ◌≡◌, true, false, refl, arith, ok, ◌∙◌, [],
}
use mini_os_design.Common.Machine.{page_size, phystop, within, pa2idx, pg_round_up, Memory}
use mini_os_design.Kalloc.Blocks.Shape.{covers}
use mini_os_design.Kalloc.Refs.{claim_pages_lem, drop_refs_lem, drop_refs-ok, any_ref-false}
use mini_os_design.Kalloc.Invariant.{IsValid}
use mini_os_design.Kalloc.Free.{kfree_contig-IsValid, kfree_insert_lem}
use mini_os_design.Kalloc.{
  Kmem, claim_pages, kfree_drop, kfree_insert, kfree_contig, freerange, kinit, no_rmap,
}

-- A run of pages that each have one reference is freed.
kfree_contig-ok :
    (kernel_end : ℕ) (s : Kmem) (pa n : ℕ)
    → kernel_end ≤ pa
    → pa % page_size ≡ 0
    → pa + n * page_size ≤ phystop
    → ((i : ℕ) → within (pa2idx pa) n i ≡ true → s.ref_count i ≡ 1)
    → (ref : ℕ → ℕ) × (kfree_contig kernel_end s pa n
        ≡ ok (kfree_insert (record s { ref_count = ref }) pa n))
unfolding kfree_contig kfree_drop
kfree_contig-ok kernel_end s pa n lo al hi one =
    let (ref, e) = drop_refs-ok n s.ref_count (pa2idx pa) (λ i w. ground (arith, one i)) in
    let zeros : ((i : ℕ) → within (pa2idx pa) n i ≡ true → ref i ≡ 0) =
      λ i w. ground (arith, one i, drop_refs_lem n s.ref_count (pa2idx pa) ref i) in
    (ref, ground (arith, e, any_ref-false n ref (pa2idx pa) zeros, zeros (pa2idx pa)))

-- If the kernel ends at least two pages before PHYSTOP, kinit succeeds on any memory contents, in a
-- valid state that uses the lock and in which every byte from the first page boundary after the
-- kernel up to PHYSTOP is free.
pub kinit-IsValid :
    (kernel_end : ℕ) (mem : Memory)
    → kernel_end + 2 * page_size ≤ phystop
    → (s : Kmem) × (kinit kernel_end mem ≡ ok s)
      × IsValid (pg_round_up kernel_end) s
      × ((a : ℕ) → pg_round_up kernel_end ≤ a → a < phystop → covers s.freelist a ≡ true)
      × (s.use_lock ≡ true)
unfolding kinit freerange
kinit-IsValid kernel_end mem h =
    let (ref, e) =
      kfree_contig-ok kernel_end start lo n (omega arith) (omega arith) (omega arith)
        (λ i w. ground (arith, claim_pages_lem n (λ _. 0) lo i)) in
    let t : Kmem = kfree_insert (record start { ref_count = ref }) lo n in
    let v : IsValid lo t =
      kfree_contig-IsValid kernel_end (omega arith) start lo n t (omega arith) valid_start e in
    (
      record t { use_lock = true },
      rw e refl,
      record { chain = v.chain; agrees = v.agrees },
      λ a l u. (kfree_insert_lem lo (record start { ref_count = ref }) lo n tt).0 a ∙ ground arith,
      refl,
    )
  where
    lo : ℕ
    lo = pg_round_up kernel_end

    n : ℕ
    n = (phystop - lo) / page_size

    start : Kmem
    start = record {
      use_lock = false;
      freelist = [];
      ref_count = claim_pages (λ _. 0) lo n;
      reverse_map = λ _. no_rmap;
      mem = mem;
    }

    valid_start : IsValid lo start
    valid_start = record {
      chain = tt;
      agrees = λ a l u. ground (arith, claim_pages_lem n (λ _. 0) lo (pa2idx a));
    }
