-- ===== src/Kalloc/Free.antt =====
-- kfree_contig and kfree of kernel/kalloc.c, on every branch.
use mini_os_design.Common.{
  ℕ, zero, suc, ◌+◌, ◌-◌, ◌*◌, ◌%◌, ◌≤◌, ◌<◌, ◌≡◌, Bool, true, false, ◌||◌, ◌==◌, if◌then◌else◌, ap,
  arith, ok, panic, ◌∙◌, List, ◌⊎◌, inl, inr, Outcome-cases,
}
use mini_os_design.Common.Machine.{page_size, phystop, within, pa2idx, pg_round_up}
use mini_os_design.Kalloc.Blocks.{Block, block_end, insert}
use mini_os_design.Kalloc.Blocks.Shape.{IsChain, covers}
use mini_os_design.Kalloc.Blocks.Insert.{
  insert_sorted-IsChain, covers-insert_sorted, insert-insert_sorted,
}
use mini_os_design.Kalloc.Refs.{drop_refs_lem, any_ref_lem, clear_rmaps-rest, Apart-of_not_covers}
use mini_os_design.Kalloc.Invariant.{IsValid, Agrees}
use mini_os_design.Kalloc.{
  Kmem, update, drop_refs, any_ref, kfree_drop, kfree_insert, kfree_contig, kfree,
}

-- Inserting a run whose pages have lost their last reference.
insert-valid :
    (base : ℕ) (xs : List Block) (ref ref' : ℕ → ℕ) (b : Block)
    → IsChain base xs
    → Agrees base xs ref
    → base ≤ b.addr
    → b.addr % page_size ≡ 0
    → 0 < b.num_pages
    → block_end b ≤ phystop
    → ((i : ℕ) → within (pa2idx b.addr) b.num_pages i ≡ true → (0 < ref i) × (ref' i ≡ 0))
    → ((i : ℕ) → within (pa2idx b.addr) b.num_pages i ≡ false → ref' i ≡ ref i)
    → IsChain base (insert b xs) × Agrees base (insert b xs) ref'
insert-valid base xs ref ref' b c g h₁ h₂ h₃ h₄ inside outside =
    rw (insert-insert_sorted base b xs c) (
      insert_sorted-IsChain xs base b h₁ h₂ h₃ h₄
          (Apart-of_not_covers xs base b c h₃ (λ a w. ground (arith, g a, inside (pa2idx a)))) c,
      λ a lo hi.
          ground (arith, covers-insert_sorted xs b a, g a, inside (pa2idx a), outside (pa2idx a)),
    )

-- What the first critical section did, where it did not stop the machine.
pub kfree_drop_cases :
    (s : Kmem) (pa n : ℕ) (s' : Kmem) (free : Bool)
    → kfree_drop s pa n ≡ ok (s', free)
    → (drop_refs s.ref_count (pa2idx pa) n ≡ ok s'.ref_count)
      × (s' ≡ record s { ref_count = s'.ref_count })
      × (((free ≡ false) × (n ≡ 1) × (0 < s'.ref_count (pa2idx pa)))
          ⊎ ((free ≡ true)
              × ((n ≡ 1 → s'.ref_count (pa2idx pa) ≡ 0)
                  × (1 < n → any_ref s'.ref_count (pa2idx pa) n ≡ false))))
unfolding kfree_drop
kfree_drop_cases s pa n s' free h = ground arith

all_dropped :
    (ref : ℕ → ℕ) (idx n i : ℕ)
    → 0 < n
    → (n ≡ 1 → ref idx ≡ 0)
    → (1 < n → any_ref ref idx n ≡ false)
    → within idx n i ≡ true
    → ref i ≡ 0
all_dropped ref idx (suc zero) i h one more w = ground arith
all_dropped ref idx (suc (suc n)) i h one more w =
    any_ref_lem (suc (suc n)) ref idx i (more (omega arith)) w
all_dropped ref idx zero i h one more w = absurd (omega arith)

-- The count goes down and stays positive: the page is still in use.
drop-IsValid :
    (base : ℕ) (s : Kmem) (idx : ℕ) (ref : ℕ → ℕ)
    → IsValid base s
    → drop_refs s.ref_count idx 1 ≡ ok ref
    → 0 < ref idx
    → IsValid base (record s { ref_count = ref })
drop-IsValid base s idx ref v d p = record {
  chain = v.chain;
  agrees = λ a lo hi. ground (arith, v.agrees a, drop_refs_lem 1 s.ref_count idx ref (pa2idx a));
}

-- All counts of the run went down to zero: it becomes free.
kfree_insert-IsValid :
    (base : ℕ) (s : Kmem) (ref : ℕ → ℕ) (pa n : ℕ)
    → IsValid base s
    → drop_refs s.ref_count (pa2idx pa) n ≡ ok ref
    → base ≤ pa
    → pa % page_size ≡ 0
    → 0 < n
    → pa + n * page_size ≤ phystop
    → ((i : ℕ) → within (pa2idx pa) n i ≡ true → ref i ≡ 0)
    → IsValid base (kfree_insert (record s { ref_count = ref }) pa n)
unfolding kfree_insert
kfree_insert-IsValid base s ref pa n v d lo al pos hi zeros =
    let (f, r, _, _) = clear_rmaps-rest n (record s { ref_count = ref }) pa in
    let (c, g) =
      insert-valid base s.freelist s.ref_count ref (record { addr = pa; num_pages = n }) v.chain
        v.agrees lo al pos hi
        (λ i w. ground (arith, drop_refs_lem n s.ref_count (pa2idx pa) ref i, zeros i))
        (λ i w. ground (arith, drop_refs_lem n s.ref_count (pa2idx pa) ref i)) in
    record { chain = rw f c; agrees = rw (f, r) g }

-- What the second critical section does to the free list and the counts.
pub kfree_insert_lem :
    (base : ℕ) (t : Kmem) (pa n : ℕ)
    → IsChain base t.freelist
    → ((a : ℕ)
        → covers (kfree_insert t pa n).freelist a
          ≡ (within pa (n * page_size) a || covers t.freelist a))
      × ((kfree_insert t pa n).ref_count ≡ t.ref_count)
unfolding kfree_insert
kfree_insert_lem base t pa n c =
    let (f, r, _, _) = clear_rmaps-rest n t pa in
    let b : Block = record { addr = pa; num_pages = n } in
    (
      λ a.
          ap (λ xs. covers (insert b xs) a) f
          ∙ ap (λ xs. covers xs a) (insert-insert_sorted base b t.freelist c)
          ∙ covers-insert_sorted t.freelist b a,
      r,
    )

module _ (kernel_end : ℕ) (small : kernel_end ≤ phystop) where
  pub kfree_contig_guard :
      (s : Kmem) (pa n : ℕ) (s' : Kmem)
      → kfree_contig kernel_end s pa n ≡ ok s'
      → (pg_round_up kernel_end ≤ pa)
        × (pa % page_size ≡ 0)
        × (pa + n * page_size ≤ phystop)
        × (t : Kmem) × (free : Bool) × (kfree_drop s pa n ≡ ok (t, free))
        × (s' ≡ (if free then kfree_insert t pa n else t))
  unfolding kfree_contig
  kfree_contig_guard s pa n s' h = elim (Outcome-cases (kfree_drop s pa n)) [
    | inl ((t, free), e) ↦
        (ground (arith, e), ground (arith, e), ground (arith, e), t, free, e, ground (arith, e))
    | inr (m, e) ↦ absurd (ground (arith, e))
  ]

  -- A kfree_contig of n > 0 pages that does not panic keeps the allocator valid: the free list
  -- stays aligned, ordered, in memory and fully coalesced, and a byte of memory is free exactly
  -- when the count of its page is 0.
  pub kfree_contig-IsValid :
      (s : Kmem) (pa n : ℕ) (s' : Kmem)
      → 0 < n
      → IsValid (pg_round_up kernel_end) s
      → kfree_contig kernel_end s pa n ≡ ok s'
      → IsValid (pg_round_up kernel_end) s'
  kfree_contig-IsValid s pa n s' pos v h =
      let (lo, al, hi, t, free, e, r) = kfree_contig_guard s pa n s' h in
      let (d, same, what) = kfree_drop_cases s pa n t free e in
      elim what [
        | inl (kept, one, p) ↦
            rw (r, kept, same)
              (drop-IsValid (pg_round_up kernel_end) s (pa2idx pa) t.ref_count v (rw one at d) p)
        | inr (freed, (one, more)) ↦
            rw (r, freed, same)
              (kfree_insert-IsValid (pg_round_up kernel_end) s t.ref_count pa n v d lo al pos hi
                (λ i w. all_dropped t.ref_count (pa2idx pa) n i pos one more w))
      ]

  -- In a valid allocator, with the kernel ending inside memory, kfree of a page of memory panics if
  -- its count is 0; if the count is above 1 it lowers it by one and changes nothing else; if it is
  -- 1 it succeeds, adds exactly the addresses of the page to the free list, and sets only its count
  -- to 0.
  pub kfree_lem :
      (s : Kmem) (pa : ℕ)
      → IsValid (pg_round_up kernel_end) s
      → kernel_end ≤ pa
      → pa % page_size ≡ 0
      → pa + page_size ≤ phystop
      → (s.ref_count (pa2idx pa) ≡ 0
          → kfree kernel_end s pa ≡ panic "kfree_contig: ref_count already zero")
        × (1 < s.ref_count (pa2idx pa)
            → kfree kernel_end s pa
              ≡ ok (record s {
                ref_count = update s.ref_count (pa2idx pa) (s.ref_count (pa2idx pa) - 1);
              }))
        × (s.ref_count (pa2idx pa) ≡ 1
            → (s' : Kmem) × (kfree kernel_end s pa ≡ ok s')
              × ((a : ℕ) → covers s'.freelist a ≡ (within pa page_size a || covers s.freelist a))
              × ((i : ℕ) → s'.ref_count i ≡ (if i == pa2idx pa then 0 else s.ref_count i)))
  unfolding kfree kfree_contig kfree_drop drop_refs
  kfree_lem s pa v lo al hi = (
    λ e. ground arith,
    λ e. ground arith,
    λ e.
        let t : Kmem = record s {
          ref_count = update s.ref_count (pa2idx pa) (s.ref_count (pa2idx pa) - 1);
        } in
        let (f, r) = kfree_insert_lem (pg_round_up kernel_end) t pa 1 v.chain in
        (kfree_insert t pa 1, ground arith, f, λ i. ap (λ g. g i) r ∙ ground arith),
  )

  pub kfree-IsValid :
      (s : Kmem) (pa : ℕ) (s' : Kmem)
      → IsValid (pg_round_up kernel_end) s
      → kfree kernel_end s pa ≡ ok s'
      → IsValid (pg_round_up kernel_end) s'
  unfolding kfree
  kfree-IsValid s pa s' v e = kfree_contig-IsValid s pa 1 s' (omega arith) v e
