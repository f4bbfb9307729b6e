-- ===== src/Kalloc/Reach.antt =====
-- The states that the calls of kernel/kalloc.c reach from boot, and compact_memory in them.
use mini_os_design.Common.{
  ℕ, ◌+◌, ◌-◌, ◌*◌, ◌/◌, ◌%◌, ◌^◌, ◌≤◌, ◌<◌, ◌≡◌, true, false, leb, Bool, Option, none, some, refl,
  sym, ap, ◌∙◌, arith, Bool-cases, inl, inr, Outcome, >>=-eq-ok, ok, panic, List, [], ◌∷◌,
}
use mini_os_design.Common.Machine.{page_size, kernbase, phystop, pa2idx, Memory, pg_round_up}
use mini_os_design.Kalloc.Blocks.{Block, block_end}
use mini_os_design.Kalloc.Blocks.Shape.{IsChain}
use mini_os_design.Kalloc.Refs.{claim_pages_lem, drop_refs_lem, clear_rmaps-rest}
use mini_os_design.Kalloc.Invariant.{IsValid}
use mini_os_design.Kalloc.Alloc.{Allocated, kalloc_contig-Allocated}
use mini_os_design.Kalloc.Free.{kfree_contig-IsValid, kfree_contig_guard, kfree_drop_cases}
use mini_os_design.Kalloc.RoundTrip.{allocated_in_range}
use mini_os_design.Kalloc.Init.{kinit-IsValid}
use mini_os_design.Kalloc.Page.{record_rmap-rest}
use mini_os_design.Kalloc.{
  Kmem, kalloc_contig, kfree_contig, kfree_drop, kfree_insert, kinit, freerange, incref, decref,
  record_rmap, update, getref, no_rmap, claim_pages,
}
use mini_os_design.Kalloc.Compact.{compact_from, compact_memory, movable}

-- A state that a sequence of calls leaves, from boot on. Any code may write the memory. An incref is
-- of a page in use, and a decref leaves the page a user: the last one frees it by kfree. Two decrefs
-- of the two last users, which a race of two page faults can make, are not among these sequences.
pub data Reachable (kernel_end : ℕ) : Kmem → Type 0 where
  booted : (mem : Memory) (s : Kmem) → kinit kernel_end mem ≡ ok s → Reachable kernel_end s
  allocated :
      (s : Kmem) (n : ℕ)
      → 0 < n
      → Reachable kernel_end s
      → Reachable kernel_end (kalloc_contig s n).0
  freed :
      (s s' : Kmem) (pa n : ℕ)
      → 0 < n
      → kfree_contig kernel_end s pa n ≡ ok s'
      → Reachable kernel_end s
      → Reachable kernel_end s'
  referenced :
      (s : Kmem) (pa : ℕ)
      → 0 < getref s pa
      → Reachable kernel_end s
      → Reachable kernel_end (incref s pa)
  released :
      (s s' : Kmem) (pa n : ℕ)
      → 0 < n
      → decref s pa ≡ ok (s', n)
      → Reachable kernel_end s
      → Reachable kernel_end s'
  recorded :
      (s : Kmem) (pa pagetable va : ℕ)
      → Reachable kernel_end s
      → Reachable kernel_end (record_rmap s pa pagetable va)
  written :
      (s : Kmem) (mem : Memory)
      → Reachable kernel_end s
      → Reachable kernel_end (record s { mem = mem })

-- The counts of the page numbers below RAM.
abbrev pub LowZero : (ℕ → ℕ) → Type 0
LowZero ref = (i : ℕ) → i < kernbase / page_size → ref i ≡ 0

kfree_drop-LowZero :
    (s : Kmem) (pa n : ℕ) (t : Kmem) (free : Bool)
    → kfree_drop s pa n ≡ ok (t, free)
    → LowZero s.ref_count
    → LowZero t.ref_count
kfree_drop-LowZero s pa n t free e z i l =
    let (d, _, _) = kfree_drop_cases s pa n t free e in
    ground (arith, drop_refs_lem n s.ref_count (pa2idx pa) t.ref_count i d, z i)

kfree_contig-LowZero :
    (kernel_end : ℕ) (s s' : Kmem) (pa n : ℕ)
    → kernel_end ≤ phystop
    → kfree_contig kernel_end s pa n ≡ ok s'
    → LowZero s.ref_count
    → LowZero s'.ref_count
unfolding kfree_insert
kfree_contig-LowZero kernel_end s s' pa n k e z i l =
    let (_, _, _, t, free, d, q) = kfree_contig_guard kernel_end k s pa n s' e in
    let w = kfree_drop-LowZero s pa n t free d z i l in
    let (_, r, _, _) = clear_rmaps-rest n t pa in
    elim (Bool-cases free) [ inl b ↦ rw (q, b) (ap (λ g. g i) r ∙ w) | inr b ↦ rw (q, b) w ]

kinit-LowZero :
    (kernel_end : ℕ) (mem : Memory) (s : Kmem)
    → kernbase ≤ kernel_end
    → kernel_end ≤ phystop
    → kinit kernel_end mem ≡ ok s
    → LowZero s.ref_count
unfolding kinit freerange
kinit-LowZero kernel_end mem s lo hi e i l =
    let a = pg_round_up kernel_end in
    let n = (phystop - a) / page_size in
    let start : Kmem = record {
      use_lock = false;
      freelist = [];
      ref_count = claim_pages (λ _. 0) a n;
      reverse_map = λ _. no_rmap;
      mem = mem;
    } in
    let (t, c, g) =
      >>=-eq-ok (kfree_contig kernel_end start a n) (λ u. ok (record u { use_lock = true })) e in
    let z =
      kfree_contig-LowZero kernel_end start t a n hi c
        (λ j k. claim_pages_lem n (λ _. 0) a j ∙ ground arith) i l in
    let q : ◌≡◌ {A = Outcome Kmem} (ok (record t { use_lock = true })) (ok s) = g in
    let q' : record t { use_lock = true } ≡ s = cc in ap (λ u. u.ref_count i) (sym q') ∙ z

Allocated-LowZero :
    (base : ℕ) (s : Kmem) (n : ℕ) (r : Kmem × Option ℕ)
    → kernbase ≤ base
    → 0 < n
    → IsValid base s
    → Allocated s n r
    → LowZero s.ref_count
    → LowZero r.0.ref_count
Allocated-LowZero base s n (t, none) lo p v a z = rw a.0 z
Allocated-LowZero base s n (t, some pa) lo p v (m, al, large, _, was, _, refs, _, _) z = λ i l.
    let (h, _) = allocated_in_range base s pa v (was pa (ground arith)) al in
    refs i ∙ ground (arith, z i)

released_inv :
    (base : ℕ) (s s' : Kmem) (pa n : ℕ)
    → 0 < n
    → decref s pa ≡ ok (s', n)
    → IsValid base s
    → LowZero s.ref_count
    → IsValid base s' × LowZero s'.ref_count
unfolding decref
released_inv base s s' pa n p e v z = elim (Bool-cases (leb (s.ref_count (pa2idx pa)) 0)) [
  | inl b ↦
      (let c : ◌≡◌ {A = Outcome (Kmem × ℕ)} (panic "decref: invalid") (ok (s', n)) =
          rw (decref, b) at e in
        cc)
  | inr b ↦
      let k : ℕ = s.ref_count (pa2idx pa) - 1 in
      let t : Kmem = record s { ref_count = update s.ref_count (pa2idx pa) k } in
      let c : ◌≡◌ {A = Outcome (Kmem × ℕ)} (ok (t, k)) (ok (s', n)) = rw (decref, b) at e in
      let q : t ≡ s' = cc in
      let m : k ≡ n = cc in
      rw (← q) (
        record { chain = v.chain; agrees = λ a l u. ground (arith, v.agrees a, m) },
        λ i l. ground (arith, z i),
      )
]

-- In every state that the calls of the allocator and writes to memory reach from boot, where incref
-- is called only on a page with a positive count and decref only where it leaves a positive count,
-- the kernel lying between KERNBASE and two pages below PHYSTOP, the free list is aligned, ordered,
-- in memory and fully coalesced, a byte of memory is free exactly when the count of its page is 0,
-- and the counts of page numbers below KERNBASE are 0.
pub Reachable-inv :
    (kernel_end : ℕ) (s : Kmem)
    → kernbase ≤ kernel_end
    → kernel_end + 2 * page_size ≤ phystop
    → Reachable kernel_end s
    → IsValid (pg_round_up kernel_end) s × LowZero s.ref_count
unfolding incref getref
Reachable-inv kernel_end t lo hi (booted mem s e) =
    let (u, q, v, _, _) = kinit-IsValid kernel_end mem hi in
    let c : ◌≡◌ {A = Outcome Kmem} (ok u) (ok s) = sym q ∙ e in
    let c' : u ≡ s = cc in (rw (← c') v, kinit-LowZero kernel_end mem s lo (omega arith) e)
Reachable-inv kernel_end t lo hi (allocated s n p r) =
    let (v, z) = Reachable-inv kernel_end s lo hi r in
    let (v', a) = kalloc_contig-Allocated (pg_round_up kernel_end) s n p v in
    (v', Allocated-LowZero (pg_round_up kernel_end) s n (kalloc_contig s n) (omega arith) p v a z)
Reachable-inv kernel_end t lo hi (freed s s' pa n p e r) =
    let (v, z) = Reachable-inv kernel_end s lo hi r in
    (
      kfree_contig-IsValid kernel_end (omega arith) s pa n s' p v e,
      kfree_contig-LowZero kernel_end s s' pa n (omega arith) e z,
    )
Reachable-inv kernel_end t lo hi (referenced s pa p r) =
    let (v, z) = Reachable-inv kernel_end s lo hi r in
    (
      record { chain = v.chain; agrees = λ a l u. ground (arith, v.agrees a) },
      λ i l. ground (arith, z i),
    )
Reachable-inv kernel_end t lo hi (released s s' pa n p e r) =
    let (v, z) = Reachable-inv kernel_end s lo hi r in
    released_inv (pg_round_up kernel_end) s s' pa n p e v z
Reachable-inv kernel_end t lo hi (recorded s pa pagetable va r) =
    let (v, z) = Reachable-inv kernel_end s lo hi r in
    let (f, c, _) = record_rmap-rest s pa pagetable va in
    (record { chain = rw f v.chain; agrees = rw (f, c) v.agrees }, rw c z)
Reachable-inv kernel_end t lo hi (written s mem r) =
    let (v, z) = Reachable-inv kernel_end s lo hi r in
    (record { chain = v.chain; agrees = v.agrees }, z)

compact_from-none :
    (s : Kmem) (lo : ℕ) (bs : List Block)
    → kernbase ≤ lo
    → IsChain lo bs
    → LowZero s.ref_count
    → compact_from s bs ≡ none
unfolding compact_from
compact_from-none s lo [] h c z = refl
compact_from-none s lo (b ∷ bs) h c z =
    let r = compact_from-none s (block_end b + 1) bs (omega arith) c.4 z in
    let pfn = (block_end b + 2 ^ 64 - kernbase) % 2 ^ 64 / page_size in
    let l : pfn < kernbase / page_size = omega arith in
    let no : movable s pfn ≡ false = ground (arith, z pfn l) in ground (arith, no, r)

-- In every state that the calls of the allocator reach from boot, with any contents of memory, the
-- kernel starting at KERNBASE or above and ending two pages below PHYSTOP or earlier,
-- compact_memory finds no page to move.
compact_memory-none :
    (kernel_end : ℕ) (s : Kmem)
    → kernbase ≤ kernel_end
    → kernel_end + 2 * page_size ≤ phystop
    → Reachable kernel_end s
    → compact_memory s ≡ none
unfolding compact_memory
compact_memory-none kernel_end s lo hi r =
    let (v, z) = Reachable-inv kernel_end s lo hi r in
    let e = compact_from-none s (pg_round_up kernel_end) s.freelist (omega arith) v.chain z in
    ground (arith, e)
