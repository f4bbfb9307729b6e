-- ===== src/Vm/Frame.antt =====
-- walkaddr and mappages of kernel/vm.c together: what a process sees of its mappings.
use mini_os_design.Common.{
  ℕ, zero, suc, ◌%◌, ◌^◌, ◌<◌, ◌≡◌, ◌≢◌, true, false, leb, Bool, Option, none, some, refl, sym,
  subst, ◌∙◌, arith, Bool-cases, Option-cases, inl, inr, Outcome, Outcome-cases, ok, panic,
}
use mini_os_design.Common.Machine.{page_size, maxva}
use mini_os_design.Kalloc.Invariant.{IsValid}
use mini_os_design.Kalloc.{Kmem}
use mini_os_design.Vm.{
  bit, pte_v, pte_u, pte2pa, slot, walk_from, walk, walkaddr, map_page, map_pages, mappages,
  user_page,
}
use mini_os_design.Vm.Walk.{Extends, Tables, Trail, Trail-Extends, Trail-found}
use mini_os_design.Vm.Map.{entry, Mapped, map_page-Mapped}

-- A walk without allocation changes nothing, and finds the end of a path.
walk_from-Trail :
    (level : ℕ) (s : Kmem) (pagetable va p : ℕ)
    → Tables s pagetable va level
    → (walk_from s pagetable va false level).1 ≡ some p
    → Trail s pagetable va level p
unfolding walk_from
walk_from-Trail zero s pagetable va p u e =
    let q : slot pagetable 0 va ≡ p = ground arith in rw (← q) (refl, u)
walk_from-Trail (suc level) s pagetable va p (u, t) e =
    elim (Bool-cases (bit pte_v (s.mem (slot pagetable (suc level) va)))) [
      | inl b ↦
          let e' : (walk_from s (pte2pa (s.mem (slot pagetable (suc level) va))) va false level).1
              ≡ some p =
            rw (walk_from, b) at e in
          (
            (u, b),
            walk_from-Trail level s (pte2pa (s.mem (slot pagetable (suc level) va))) va p (t b) e',
          )
      | inr b ↦ (let e' : ◌≡◌ {A = Option ℕ} none (some p) = rw (walk_from, b) at e in cc)
    ]

pub walkaddr-Trail :
    (s : Kmem) (pagetable va p : ℕ)
    → va < maxva
    → Trail s pagetable va 2 p
    → walkaddr s pagetable va ≡ user_page s (some p)
unfolding walkaddr
walkaddr-Trail s pagetable va p l h =
    let b : leb maxva va ≡ false = ground arith in
    rw (walkaddr, b, Trail-found 2 s pagetable va p false h) refl

walkaddr-Extends :
    (s t : Kmem) (pagetable va : ℕ)
    → Extends s t
    → Tables s pagetable va 2
    → walkaddr s pagetable va ≢ 0
    → walkaddr t pagetable va ≡ walkaddr s pagetable va
unfolding walkaddr
walkaddr-Extends s t pagetable va x h n = elim (Bool-cases (leb maxva va)) [
  | inl b ↦ absurd (n (rw (walkaddr, b) refl))
  | inr b ↦ elim (Option-cases (walk_from s pagetable va false 2).1) [
    | inl e ↦ absurd (n (rw (walkaddr, b, e) refl))
    | inr (p, e) ↦
        let r = walk_from-Trail 2 s pagetable va p h e in
        let l : va < maxva = ground arith in
        let q = walkaddr-Trail s pagetable va p l r in
        let q' = walkaddr-Trail t pagetable va p l (Trail-Extends 2 s t pagetable va p x r) in
        elim (Bool-cases (bit pte_v (s.mem p))) [
          | inl v ↦ rw (q, q', x.entries p r.1.1.1 v) refl
          | inr v ↦ absurd (n (q ∙ rw v refl))
        ]
  ]
]

-- The loop of mappages over one page is its one turn.
mappages_one :
    (s : Kmem) (pagetable va pa perm : ℕ)
    → va % page_size ≡ 0
    → mappages s pagetable va page_size pa perm ≡ map_page s pagetable va pa perm
unfolding mappages map_pages
mappages_one s pagetable va pa perm h = elim (Outcome-cases (map_page s pagetable va pa perm)) [
  | inl ((t, true), e) ↦ rw (mappages, h, map_pages, e) refl
  | inl ((t, false), e) ↦ rw (mappages, h, map_pages, e) refl
  | inr (m, e) ↦ rw (mappages, h, map_pages, e) refl
]

-- Reading an entry of mappages back.
pub entry_lem :
    (s : Kmem) (pa perm p : ℕ)
    → pa % page_size ≡ 0
    → pa < 2 ^ 56
    → perm < 1024
    → bit pte_u perm ≡ true
    → s.mem p ≡ entry pa perm
    → user_page s (some p) ≡ pa
entry_lem s pa perm p al hi small u e =
    let v : bit pte_v (entry pa perm) ≡ true = ground arith in
    let w : bit pte_u (entry pa perm) ≡ true = ground arith in rw (e, v, w) (ground arith)

map_page_bound :
    (s : Kmem) (pagetable a pa perm : ℕ) (y : Kmem × Bool)
    → map_page s pagetable a pa perm ≡ ok y
    → a < maxva
unfolding map_page walk
map_page_bound s pagetable a pa perm y e = elim (Bool-cases (leb maxva a)) [
  | inl b ↦
      (let k : ◌≡◌ {A = Outcome (Kmem × Bool)} (panic "walk") (ok y) =
          rw (map_page, walk, b) at e in
        cc)
  | inr b ↦ ground arith
]

pub mapped :
    (base : ℕ) (s s' : Kmem) (pagetable va pa perm : ℕ) (done : Bool)
    → IsValid base s
    → Tables s pagetable va 2
    → va % page_size ≡ 0
    → mappages s pagetable va page_size pa perm ≡ ok (s', done)
    → Mapped base s pagetable va pa perm (ok (s', done)) × (va < maxva)
mapped base s s' pagetable va pa perm done v t al e =
    let q : map_page s pagetable va pa perm ≡ ok (s', done) =
      sym (mappages_one s pagetable va pa perm al) ∙ e in
    (
      subst (λ x. Mapped base s pagetable va pa perm x) q
          (map_page-Mapped base s pagetable va pa perm v t),
      map_page_bound s pagetable va pa perm (s', done) q,
    )

-- In a valid allocator, where the page tables for an aligned address are in use, a mappages of one
-- aligned page below 2^56 with PTE_U that succeeds makes walkaddr answer that page.
pub mappages-walkaddr :
    (base : ℕ) (s s' : Kmem) (pagetable va pa perm : ℕ)
    → IsValid base s
    → Tables s pagetable va 2
    → va % page_size ≡ 0
    → pa % page_size ≡ 0
    → pa < 2 ^ 56
    → perm < 1024
    → bit pte_u perm ≡ true
    → mappages s pagetable va page_size pa perm ≡ ok (s', true)
    → walkaddr s' pagetable va ≡ pa
mappages-walkaddr base s s' pagetable va pa perm v t al al' hi small u e =
    let ((_, _, (p, h, m)), l) = mapped base s s' pagetable va pa perm true v t al e in
    walkaddr-Trail s' pagetable va p l h ∙ entry_lem s' pa perm p al' hi small u m

Mapped-Extends :
    (base : ℕ) (s s' : Kmem) (pagetable va pa perm : ℕ) (done : Bool)
    → Mapped base s pagetable va pa perm (ok (s', done))
    → IsValid base s' × Extends s s'
Mapped-Extends base s s' pagetable va pa perm true (w, x, _) = (w, x)
Mapped-Extends base s s' pagetable va pa perm false m = m

-- In a valid allocator, where the page tables for an aligned address are in use, a mappages of one
-- page that returns, whether it succeeds or not, keeps the allocator valid, and every user page
-- that any page tables in use lead to is found as before.
mappages-kept :
    (base : ℕ) (s s' : Kmem) (pagetable va pa perm : ℕ) (done : Bool)
    → IsValid base s
    → Tables s pagetable va 2
    → va % page_size ≡ 0
    → mappages s pagetable va page_size pa perm ≡ ok (s', done)
    → IsValid base s'
      × ((root a : ℕ)
          → Tables s root a 2
          → walkaddr s root a ≢ 0
          → walkaddr s' root a ≡ walkaddr s root a)
mappages-kept base s s' pagetable va pa perm done v t al e =
    let m = mapped base s s' pagetable va pa perm done v t al e in
    let (w, x) = Mapped-Extends base s s' pagetable va pa perm done m.0 in
    (w, λ root a. walkaddr-Extends s s' root a x)
