-- ===== src/Vm/CopyOnWrite.antt =====
-- The copy-on-write fault of vmfault in kernel/vm.c.
use mini_os_design.Common.{
  ℕ, ◌+◌, ◌-◌, ◌%◌, ◌^◌, ◌≤◌, ◌<◌, ◌≡◌, ◌≢◌, true, false, ltb, leb, none, refl, ap, ◌∙◌, arith,
  Option-cases, inl, inr, ◌⊎◌, ok,
}
use mini_os_design.Common.Machine.{page_size, phystop, store, pa2idx, within, fill, copy}
use mini_os_design.Kalloc.Invariant.{IsValid}
use mini_os_design.Kalloc.Page.{InUse, Got, kalloc-Got, kalloc-none, record_rmap-rest}
use mini_os_design.Kalloc.{Kmem, kalloc, getref, decref, update}
use mini_os_design.Vm.{bit, set_bit, clear_bit, pte_w, pte_cow, pa2pte, pte2pa, set_word}
use mini_os_design.Vm.Fault.{owned_flags, refreshed, cow_fault}

-- `s'` is `s` where the entry at `pte` has got a copy of its page, at `page`, for itself.
pub record Copied (s s' : Kmem) (pte page : ℕ) : Type 0 where
  pub mapped : s'.mem pte ≡ pa2pte page + owned_flags
  pub contents : (i : ℕ) → i < page_size → s'.mem (page + i) ≡ s.mem (pte2pa (s.mem pte) + i)
  pub shared :
      s'.ref_count (pa2idx (pte2pa (s.mem pte))) ≡ s.ref_count (pa2idx (pte2pa (s.mem pte))) - 1
  pub own : s'.ref_count (pa2idx page) ≡ 1
  pub fresh : (a : ℕ) → within page page_size a ≡ true → InUse s' a × (InUse s a → ⊥)
  pub rest : (a : ℕ) → InUse s a → a ≢ pte → s'.mem a ≡ s.mem a

-- The state once `page` holds the copy of `pa`, and the entry and the count of `pa` are changed.
abbrev gave : Kmem → ℕ → ℕ → ℕ → Kmem
gave t pte page pa = record t {
  mem = store (copy t.mem page pa page_size) pte (pa2pte page + owned_flags);
  ref_count = update t.ref_count (pa2idx pa) (t.ref_count (pa2idx pa) - 1);
}

gave-Copied :
    (base : ℕ) (s t : Kmem) (pagetable va pte page : ℕ)
    → Got base s t page
    → InUse s pte
    → ((i : ℕ) → i < page_size → InUse s (pte2pa (s.mem pte) + i))
    → 1 < s.ref_count (pa2idx (pte2pa (s.mem pte)))
    → Copied s (gave t pte page (pte2pa (s.mem pte))) pte page
unfolding copy fill
gave-Copied base s t pagetable va pte page g u us n =
    let pa = pte2pa (s.mem pte) in
    let old : (a : ℕ) → InUse s a → (within page page_size a ≡ false) × (t.mem a ≡ s.mem a) = λ a h.
      let e : t.mem a ≡ fill s.mem page page_size 0x0505_0505_0505_0505 a =
        ap (λ m. m a) g.filled in
      (ground (arith, g.was_free a), ground (arith, g.was_free a, e)) in
    record {
      mapped = ground arith;
      contents = λ i l. ground (arith, old pte u, old (pa + i) (us i l));
      shared = ground (arith, g.counts (pa2idx pa), g.count_was);
      own = ground (arith, g.counts (pa2idx page), g.count_was);
      fresh = λ a w. (ground (arith, g.left a), λ h. ground (arith, g.was_free a));
      rest = λ a h n'. ground (arith, old a h);
    }

refreshed-Copied :
    (s t : Kmem) (pagetable va pte page : ℕ)
    → page % page_size ≡ 0
    → page + page_size ≤ phystop
    → Copied s t pte page
    → Copied s (refreshed t pte pagetable va).0 pte page × ((refreshed t pte pagetable va).1 ≡ page)
refreshed-Copied s t pagetable va pte page al hi c =
    let (f, r, m) = record_rmap-rest t (pte2pa (t.mem pte)) pagetable va in
    (
      record {
        mapped = ap (λ x. x pte) m ∙ c.mapped;
        contents = λ i l. ap (λ x. x (page + i)) m ∙ c.contents i l;
        shared = ap (λ x. x (pa2idx (pte2pa (s.mem pte)))) r ∙ c.shared;
        own = ap (λ x. x (pa2idx page)) r ∙ c.own;
        fresh = λ a w. rw f (c.fresh a w);
        rest = λ a h n. ap (λ x. x a) m ∙ c.rest a h n;
      },
      ground (arith, c.mapped),
    )

-- In a valid allocator, a copy-on-write fault on a page in use with more than one reference, whose
-- entry is in use, does not panic. It answers 0 and changes nothing where no page is free;
-- otherwise the entry leads to a page that was free, writable, with the same contents and the count
-- 1, the old page has one reference less, and no other word in use changes.
pub cow_fault-Copied :
    (base : ℕ) (s : Kmem) (pagetable va pte : ℕ)
    → IsValid base s
    → InUse s pte
    → ((i : ℕ) → i < page_size → InUse s (pte2pa (s.mem pte) + i))
    → 1 < getref s (pte2pa (s.mem pte))
    → ((cow_fault s pagetable va pte ≡ ok (s, 0)) × ((kalloc s).1 ≡ none))
      ⊎ ((s' : Kmem) × (page : ℕ) × (cow_fault s pagetable va pte ≡ ok (s', page))
          × Copied s s' pte page)
unfolding cow_fault getref decref
cow_fault-Copied base s pagetable va pte v u us n =
    let pa = pte2pa (s.mem pte) in
    let b : ltb 1 (getref s pa) ≡ true = ground arith in
    elim (Option-cases (kalloc s).1) [
      | inl e ↦
          let q : (kalloc s).0 ≡ s =
            kalloc-none base s (kalloc s).0 v (ap (λ x. ((kalloc s).0, x)) e) in
          inl (rw (cow_fault, b, e, q) refl, e)
      | inr (page, e) ↦
          let t = (kalloc s).0 in
          let g : Got base s t page = kalloc-Got base s t page v (ap (λ x. (t, x)) e) in
          let c = gave-Copied base s t pagetable va pte page g u us n in
          let k : leb (t.ref_count (pa2idx pa)) 0 ≡ false =
            ground (arith, g.counts (pa2idx pa), g.count_was) in
          let (d, r) =
            refreshed-Copied s (gave t pte page pa) pagetable va pte page g.aligned g.high c in
          inr (
            (refreshed (gave t pte page pa) pte pagetable va).0,
            page,
            rw (cow_fault, b, e, decref, k)
                (ap (λ x. ok ((refreshed (gave t pte page pa) pte pagetable va).0, x)) r),
            d,
          )
    ]

-- A copy-on-write fault on a page with at most one reference, at an entry with PTE_COW and without
-- PTE_W, answers that page: the entry gets PTE_W and loses PTE_COW, and no other word, no count and
-- no free block changes.
cow_fault-in_place :
    (s : Kmem) (pagetable va pte : ℕ)
    → getref s (pte2pa (s.mem pte)) ≤ 1
    → bit pte_w (s.mem pte) ≡ false
    → bit pte_cow (s.mem pte) ≡ true
    → s.mem pte < 2 ^ 54
    → (s' : Kmem) × (cow_fault s pagetable va pte ≡ ok (s', pte2pa (s.mem pte)))
      × (s'.mem pte ≡ s.mem pte + 2 ^ pte_w - 2 ^ pte_cow)
      × ((a : ℕ) → a ≢ pte → s'.mem a ≡ s.mem a)
      × (s'.ref_count ≡ s.ref_count)
      × (s'.freelist ≡ s.freelist)
unfolding cow_fault getref
cow_fault-in_place s pagetable va pte n w c h =
    let pa = pte2pa (s.mem pte) in
    let b : ltb 1 (getref s pa) ≡ false = ground arith in
    let t = set_word s pte (clear_bit pte_cow (set_bit pte_w (s.mem pte))) in
    let e : t.mem pte ≡ s.mem pte + 2 ^ pte_w - 2 ^ pte_cow = ground arith in
    let a : pte2pa (t.mem pte) ≡ pa = ground (arith, e) in
    let (f, r, m) = record_rmap-rest t (pte2pa (t.mem pte)) pagetable va in
    let q = (refreshed t pte pagetable va).0 in
    (
      q,
      rw (cow_fault, b) (ap (λ x. ok (q, x)) a),
      ap (λ x. x pte) m ∙ e,
      (λ a d. ap (λ x. x a) m ∙ ground arith),
      r,
      f,
    )
