-- ===== src/Kalloc/Page.antt =====
-- One page of kernel/kalloc.c, as its callers in kernel/vm.c see kalloc, incref and decref.
use mini_os_design.Common.{
  ℕ, ◌+◌, ◌%◌, ◌≤◌, ◌≡◌, true, false, not, ◌&&◌, ◌==◌, if◌then◌else◌, none, some, ◌∙◌, arith,
}
use mini_os_design.Common.Machine.{page_size, phystop, within, pa2idx, fill}
use mini_os_design.Kalloc.Blocks.Shape.{covers}
use mini_os_design.Kalloc.Invariant.{IsValid}
use mini_os_design.Kalloc.Alloc.{Allocated, kalloc_contig-Allocated}
use mini_os_design.Kalloc.RoundTrip.{allocated_in_range}
use mini_os_design.Kalloc.{Kmem, kalloc, record_rmap}

-- The byte at `a` lies in no free block.
abbrev pub InUse : Kmem → ℕ → Type 0
InUse s a = covers s.freelist a ≡ false

-- `s'` is `s` with the page at `pa` allocated.
pub record Got (base : ℕ) (s s' : Kmem) (pa : ℕ) : Type 0 where
  pub valid : IsValid base s'
  pub aligned : pa % page_size ≡ 0
  pub low : base ≤ pa
  pub high : pa + page_size ≤ phystop
  pub was_free : (a : ℕ) → within pa page_size a ≡ true → covers s.freelist a ≡ true
  pub left : (a : ℕ) → covers s'.freelist a ≡ (covers s.freelist a && not (within pa page_size a))
  pub counts : (i : ℕ) → s'.ref_count i ≡ (if i == pa2idx pa then 1 else s.ref_count i)
  pub count_was : s.ref_count (pa2idx pa) ≡ 0
  pub filled : s'.mem ≡ fill s.mem pa page_size 0x0505_0505_0505_0505
  pub rmap : s'.reverse_map ≡ s.reverse_map

pub kalloc-Got :
    (base : ℕ) (s s' : Kmem) (pa : ℕ) → IsValid base s → kalloc s ≡ (s', some pa) → Got base s s' pa
unfolding kalloc
kalloc-Got base s s' pa v h =
    let (v₀, a₀) = kalloc_contig-Allocated base s 1 (omega arith) v in
    let v' : IsValid base s' = rw h at v₀ in
    let got : Allocated s 1 (s', some pa) = rw h at a₀ in
    let (m, al, large, _, was, left, refs, mem, rm) = got in
    let free : covers s.freelist pa ≡ true = was pa (ground arith) in
    let (lo, hi) = allocated_in_range base s pa v free al in
    record {
      valid = v';
      aligned = al;
      low = lo;
      high = hi;
      was_free = λ a w. was a (ground arith);
      left = left;
      counts = λ i. refs i ∙ ground arith;
      count_was = ground (arith, v.agrees pa lo (omega arith), free);
      filled = mem;
      rmap = rm;
    }

-- A page that is not allocated stays as it is.
pub kalloc-none : (base : ℕ) (s s' : Kmem) → IsValid base s → kalloc s ≡ (s', none) → s' ≡ s
unfolding kalloc
kalloc-none base s s' v h =
    let (_, a₀) = kalloc_contig-Allocated base s 1 (omega arith) v in
    let got : Allocated s 1 (s', none) = rw h at a₀ in got.0

pub record_rmap-rest :
    (s : Kmem) (pa pagetable va : ℕ)
    → ((record_rmap s pa pagetable va).freelist ≡ s.freelist)
      × ((record_rmap s pa pagetable va).ref_count ≡ s.ref_count)
      × ((record_rmap s pa pagetable va).mem ≡ s.mem)
unfolding record_rmap
record_rmap-rest s pa pagetable va = ground arith
