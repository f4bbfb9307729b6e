-- ===== src/Vm/Map.antt =====
-- mappages of kernel/vm.c for one page.
use mini_os_design.Common.{
  ℕ, ◌+◌, ◌≤◌, ◌≡◌, ◌≢◌, true, false, leb, if◌then◌else◌, Bool, Option, none, some, refl, ap, ◌∙◌,
  arith, Bool-cases, Option-cases, inl, inr, ◌⊎◌, Outcome, ok, panic, ◌>>=◌, ◌>>◌, panic_if,
}
use mini_os_design.Common.Machine.{maxva}
use mini_os_design.Kalloc.Invariant.{IsValid}
use mini_os_design.Kalloc.Page.{record_rmap-rest}
use mini_os_design.Kalloc.{Kmem, record_rmap}
use mini_os_design.Vm.{bit, set_bit, pte_v, pte_u, pa2pte, set_word, walk_from, walk, map_page}
use mini_os_design.Vm.Walk.{
  Extends, Extends-trans, Tables, Trail, Trail-Extends, Walked, walk_from-Walked,
}

-- The word of a new entry.
abbrev pub entry : ℕ → ℕ → ℕ
entry pa perm = pa2pte pa + set_bit pte_v perm

set_word-Extends : (s : Kmem) (p w : ℕ) → bit pte_v (s.mem p) ≡ false → Extends s (set_word s p w)
set_word-Extends s p w b = record {
  entries = λ a u v.
      let ne : a ≢ p = λ q. ground (arith, ap (λ x. bit pte_v (s.mem x)) q) in ground (arith, ne);
  used = λ a u. u;
  counts = λ i n. refl;
}

-- What mapping one page does: the entry stands at the end of the path for `a`, and all that was
-- mapped before is as it was.
abbrev pub Mapped : ℕ → Kmem → ℕ → ℕ → ℕ → ℕ → Outcome (Kmem × Bool) → Type 0
Mapped base s pagetable a pa perm (panic e) = ((e ≡ "walk") × (maxva ≤ a)) ⊎ (e ≡ "mappages: remap")
Mapped base s pagetable a pa perm (ok (s', false)) = IsValid base s' × Extends s s'
Mapped base s pagetable a pa perm (ok (s', true)) =
    IsValid base s'
    × Extends s s'
    × ((p : ℕ) × Trail s' pagetable a 2 p × (s'.mem p ≡ entry pa perm))

recorded :
    (base : ℕ) (s t : Kmem) (pagetable a pa perm p : ℕ) (b : Bool)
    → IsValid base t
    → Extends s t
    → Trail t pagetable a 2 p
    → t.mem p ≡ entry pa perm
    → Mapped base s pagetable a pa perm (ok ((if b then record_rmap t pa pagetable a else t), true))
recorded base s t pagetable a pa perm p false v x h e = (v, x, (p, h, e))
recorded base s t pagetable a pa perm p true v x h e =
    let (f, r, m) = record_rmap-rest t pa pagetable a in
    let y : Extends t (record_rmap t pa pagetable a) = record {
      entries = λ c u w. ap (λ k. k c) m;
      used = λ c u. rw f u;
      counts = λ i n. ap (λ k. k i) r;
    } in
    (
      record { chain = rw f v.chain; agrees = rw (f, r) v.agrees },
      Extends-trans s t (record_rmap t pa pagetable a) x y,
      (p, Trail-Extends 2 t (record_rmap t pa pagetable a) pagetable a p y h, ap (λ k. k p) m ∙ e),
    )

placed :
    (base : ℕ) (s t : Kmem) (pagetable a pa perm p : ℕ)
    → IsValid base t
    → Extends s t
    → Trail t pagetable a 2 p
    → bit pte_v (t.mem p) ≡ false
    → Mapped base s pagetable a pa perm (
        ok (
          (if bit pte_u perm
              then record_rmap (set_word t p (entry pa perm)) pa pagetable a
              else set_word t p (entry pa perm)),
          true,
        ))
placed base s t pagetable a pa perm p v x h b =
    let k = set_word t p (entry pa perm) in
    let y = set_word-Extends t p (entry pa perm) b in
    recorded base s k pagetable a pa perm p (bit pte_u perm)
      (record { chain = v.chain; agrees = v.agrees }) (Extends-trans s t k x y)
      (Trail-Extends 2 t k pagetable a p y h) (ground arith)

Walked-case :
    (base level : ℕ) (s : Kmem) (pagetable a : ℕ) (w : Kmem × Option ℕ) (o : Option ℕ)
    → w.1 ≡ o
    → Walked base s pagetable a level w
    → Walked base s pagetable a level (w.0, o)
Walked-case base level s pagetable a w o n h = rw (← n) h

pub map_page-Mapped :
    (base : ℕ) (s : Kmem) (pagetable a pa perm : ℕ)
    → IsValid base s
    → Tables s pagetable a 2
    → Mapped base s pagetable a pa perm (map_page s pagetable a pa perm)
unfolding map_page walk
map_page-Mapped base s pagetable a pa perm v t = elim (Bool-cases (leb maxva a)) [
  | inl b ↦ rw (map_page, walk, b) (inl (refl, ground arith))
  | inr b ↦
      let w = walk_from-Walked 2 base s pagetable a v t in
      elim (Option-cases (walk_from s pagetable a true 2).1) [
        | inl n ↦
            rw (map_page, walk, b, ◌>>◌, ◌>>=◌, panic_if, n)
              (Walked-case base 2 s pagetable a _ none n w)
        | inr (p, n) ↦
            let (v₁, x, h) = Walked-case base 2 s pagetable a _ (some p) n w in
            let s₁ = (walk_from s pagetable a true 2).0 in
            elim (Bool-cases (bit pte_v (s₁.mem p))) [
              | inl c ↦ rw (map_page, walk, b, ◌>>◌, ◌>>=◌, panic_if, n, c) (inr refl)
              | inr c ↦
                  rw (map_page, walk, b, ◌>>◌, ◌>>=◌, panic_if, n, c)
                    (placed base s s₁ pagetable a pa perm p v₁ x h c)
            ]
      ]
]
