-- ===== src/Vm/Walk.antt =====
-- walk of kernel/vm.c: what it changes, and that a second walk finds what the first one built.
use mini_os_design.Common.{
  ℕ, zero, suc, ◌+◌, ◌*◌, ◌/◌, ◌≡◌, ◌≢◌, true, false, Bool, Option, none, some, refl, sym, ap, ◌∙◌,
  arith, Bool-cases, Option-cases, inl, inr,
}
use mini_os_design.Common.Machine.{page_size, within, fill}
use mini_os_design.Kalloc.Blocks.Shape.{covers}
use mini_os_design.Kalloc.Invariant.{IsValid}
use mini_os_design.Kalloc.Page.{InUse, Got, kalloc-Got, kalloc-none}
use mini_os_design.Kalloc.{Kmem, kalloc}
use mini_os_design.Vm.{bit, set_bit, pte_v, pa2pte, pte2pa, slot, set_word, zero_page, walk_from}

-- Is the word at `a` a valid entry, in a page that is in use?
abbrev Entry : Kmem → ℕ → Type 0
Entry s a = InUse s a × (bit pte_v (s.mem a) ≡ true)

-- What page-table code may do to the memory: valid entries stay, and pages in use stay in use with
-- their counts.
pub record Extends (s s' : Kmem) : Type 0 where
  pub entries : (a : ℕ) → InUse s a → bit pte_v (s.mem a) ≡ true → s'.mem a ≡ s.mem a
  pub used : (a : ℕ) → InUse s a → InUse s' a
  pub counts : (i : ℕ) → s.ref_count i ≢ 0 → s'.ref_count i ≡ s.ref_count i

Extends-refl : (s : Kmem) → Extends s s
Extends-refl s = record { entries = λ a u b. refl; used = λ a u. u; counts = λ i n. refl }

pub Extends-trans : (s t u : Kmem) → Extends s t → Extends t u → Extends s u
Extends-trans s t u h k = record {
  entries = λ a i b. let e = h.entries a i b in k.entries a (h.used a i) (rw e b) ∙ e;
  used = λ a i. k.used a (h.used a i);
  counts = λ i n. let e = h.counts i n in k.counts i (rw e n) ∙ e;
}

-- The page-table page that walk adds under the invalid entry at `pte`.
abbrev grown : Kmem → ℕ → ℕ → Kmem
grown s page pte = set_word (zero_page s page) pte (set_bit pte_v (pa2pte page))

grown-Extends :
    (base : ℕ) (s s' : Kmem) (page pte : ℕ)
    → Got base s s' page
    → bit pte_v (s.mem pte) ≡ false
    → Extends s (grown s' page pte)
unfolding fill
grown-Extends base s s' page pte g b = record {
  entries = λ a u v.
      let e : s'.mem a ≡ fill s.mem page page_size 0x0505_0505_0505_0505 a =
        ap (λ m. m a) g.filled in
      let apart : within page page_size a ≡ false = ground (arith, g.was_free a) in
      let ne : a ≢ pte = λ q. ground (arith, ap (λ x. bit pte_v (s.mem x)) q) in
      ground (arith, e, apart, ne);
  used = λ a u. ground (arith, g.left a);
  counts = λ i n. ground (arith, g.counts i, g.count_was);
}

-- The page-table pages that walk visits are in use.
abbrev pub Tables : Kmem → ℕ → ℕ → ℕ → Type 0
Tables s pagetable va zero = InUse s (slot pagetable 0 va)
Tables s pagetable va (suc level) =
    InUse s (slot pagetable (suc level) va)
    × (bit pte_v (s.mem (slot pagetable (suc level) va)) ≡ true
        → Tables s (pte2pa (s.mem (slot pagetable (suc level) va))) va level)

-- The entries on the way to the level-0 entry `p`.
abbrev pub Trail : Kmem → ℕ → ℕ → ℕ → ℕ → Type 0
Trail s pagetable va zero p = (p ≡ slot pagetable 0 va) × InUse s p
Trail s pagetable va (suc level) p =
    Entry s (slot pagetable (suc level) va)
    × Trail s (pte2pa (s.mem (slot pagetable (suc level) va))) va level p

pub Trail-Extends :
    (level : ℕ) (s t : Kmem) (pagetable va p : ℕ)
    → Extends s t
    → Trail s pagetable va level p
    → Trail t pagetable va level p
Trail-Extends zero s t pagetable va p x h = (h.0, x.used p h.1)
Trail-Extends (suc level) s t pagetable va p x ((u, b), h) =
    let a = slot pagetable (suc level) va in
    let e = x.entries a u b in
    ((x.used a u, rw e b), rw e (Trail-Extends level s t (pte2pa (s.mem a)) va p x h))

-- A walk along a path that is there changes nothing.
pub Trail-found :
    (level : ℕ) (s : Kmem) (pagetable va p : ℕ) (alloc : Bool)
    → Trail s pagetable va level p
    → walk_from s pagetable va alloc level ≡ (s, some p)
unfolding walk_from
Trail-found zero s pagetable va p alloc h = ap (λ x. (s, some x)) (sym h.0)
Trail-found (suc level) s pagetable va p alloc ((u, b), h) =
    rw (walk_from, b)
      (Trail-found level s (pte2pa (s.mem (slot pagetable (suc level) va))) va p alloc h)

-- What a walk that may allocate does, and the path that it leaves.
abbrev pub Walked : ℕ → Kmem → ℕ → ℕ → ℕ → Kmem × Option ℕ → Type 0
Walked base s pagetable va level (s', none) = IsValid base s' × Extends s s'
Walked base s pagetable va level (s', some p) =
    IsValid base s' × Extends s s' × Trail s' pagetable va level p

Walked-after :
    (base : ℕ) (level : ℕ) (s t : Kmem) (pagetable va a : ℕ) (x : Kmem × Option ℕ)
    → a ≡ slot pagetable (suc level) va
    → Extends s t
    → Entry t a
    → Walked base t (pte2pa (t.mem a)) va level x
    → Walked base s pagetable va (suc level) x
Walked-after base level s t pagetable va a (s', none) q k e (v, h) = (v, Extends-trans s t s' k h)
Walked-after base level s t pagetable va a (s', some p) q k (u, b) (v, h, r) =
    let m = h.entries a u b in
    (v, Extends-trans s t s' k h, rw (← q) ((h.used a u, rw m b), rw m r))

grown-Tables :
    (base : ℕ) (s s' : Kmem) (page pte level va : ℕ)
    → Got base s s' page
    → InUse s pte
    → Tables (grown s' page pte) page va level
unfolding fill
grown-Tables base s s' page pte zero va g u =
    ground (arith, g.left (slot page 0 va), g.was_free (slot page 0 va))
grown-Tables base s s' page pte (suc level) va g u =
    let a = slot page (suc level) va in
    let i : within page page_size a ≡ true = ground arith in
    let ne : a ≢ pte = λ q. ground (arith, g.was_free a, ap (λ x. covers s.freelist x) q) in
    (ground (arith, g.left a, i), λ b. ground (arith, i, ne))

grown-Entry :
    (base : ℕ) (s s' : Kmem) (page pte : ℕ)
    → Got base s s' page
    → InUse s pte
    → Entry (grown s' page pte) pte × (pte2pa ((grown s' page pte).mem pte) ≡ page)
grown-Entry base s s' page pte g u =
    let v : (grown s' page pte).mem pte ≡ page / 4096 * 1024 + 1 = ground (arith, g.aligned) in
    ((ground (arith, g.left pte), ground (arith, v)), ground (arith, v, g.aligned, g.high))

pub walk_from-Walked :
    (level : ℕ) (base : ℕ) (s : Kmem) (pagetable va : ℕ)
    → IsValid base s
    → Tables s pagetable va level
    → Walked base s pagetable va level (walk_from s pagetable va true level)
unfolding walk_from
walk_from-Walked zero base s pagetable va v t = (v, Extends-refl s, (refl, t))
walk_from-Walked (suc level) base s pagetable va v (u, t) =
    let a : ℕ = slot pagetable (suc level) va in
    elim (Bool-cases (bit pte_v (s.mem a))) [
      | inl b ↦
          rw (walk_from, b)
            (Walked-after base level s s pagetable va a _ refl (Extends-refl s) (u, b)
              (walk_from-Walked level base s (pte2pa (s.mem a)) va v (t b)))
      | inr b ↦ elim (Option-cases (kalloc s).1) [
        | inl n ↦
            let q : (kalloc s).0 ≡ s =
              kalloc-none base s (kalloc s).0 v (ap (λ x. ((kalloc s).0, x)) n) in
            rw (walk_from, b, n) (rw q (v, Extends-refl s))
        | inr (page, n) ↦
            let g : Got base s (kalloc s).0 page =
              kalloc-Got base s (kalloc s).0 page v (ap (λ x. ((kalloc s).0, x)) n) in
            let k : Kmem = grown (kalloc s).0 page a in
            let w : IsValid base k = record { chain = g.valid.chain; agrees = g.valid.agrees } in
            let (e, m) = grown-Entry base s (kalloc s).0 page a g u in
            let r =
              walk_from-Walked level base k page va w
                (grown-Tables base s (kalloc s).0 page a level va g u) in
            rw (walk_from, b, n)
              (Walked-after base level s k pagetable va a _ refl
                (grown-Extends base s (kalloc s).0 page a g b) e (rw m r))
      ]
    ]
