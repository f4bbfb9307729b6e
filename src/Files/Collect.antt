-- ===== src/Files/Collect.antt =====
-- garbage_collect of kernel/gc.c.
use mini_os_design.Common.{
  ℕ, ◌+◌, ◌%◌, ◌≤◌, ◌≡◌, ◌≢◌, List, [], ◌∷◌, Bool, true, false, not, ◌&&◌, ◌||◌, ◌==◌,
  if◌then◌else◌, map, refl, arith, Bool-cases, inl, inr, ok,
}
use mini_os_design.Common.Machine.{page_size, phystop, pa2idx, pg_round_up}
use mini_os_design.Kalloc.{Kmem, kfree}
use mini_os_design.Kalloc.Invariant.{IsValid}
use mini_os_design.Kalloc.Free.{kfree_lem, kfree-IsValid}
use mini_os_design.Files.{MemFile, Files, is_garbage, collected, collect, garbage_collect}

-- No other file has the page `pa`.
abbrev Unshared : ℕ → List MemFile → Type 0
Unshared pa [] = Unit {0}
Unshared pa (m ∷ ms) = (m.page ≢ 0 → pa2idx m.page ≢ pa2idx pa) × Unshared pa ms

-- Each in-memory file has a page of its own, or none; the page is in use once.
abbrev pub Owned : ℕ → (ℕ → ℕ) → List MemFile → Type 0
Owned kernel_end ref [] = Unit {0}
Owned kernel_end ref (m ∷ ms) =
    (m.page ≢ 0
      → (kernel_end ≤ m.page)
        × (m.page % page_size ≡ 0)
        × (m.page + page_size ≤ phystop)
        × (ref (pa2idx m.page) ≡ 1)
        × Unshared m.page ms)
    × Owned kernel_end ref ms

-- Is page number `i` the page of a file that is deleted and no longer open?
abbrev garbage_page : List MemFile → ℕ → Bool
garbage_page [] i = false
garbage_page (m ∷ ms) i =
    (is_garbage m && not (m.page == 0) && i == pa2idx m.page) || garbage_page ms i

abbrev after_collection : MemFile → MemFile
after_collection m = if is_garbage m then collected m else m

Owned-freed :
    (ms : List MemFile) (kernel_end pa : ℕ) (ref ref' : ℕ → ℕ)
    → Unshared pa ms
    → ((i : ℕ) → ref' i ≡ (if i == pa2idx pa then 0 else ref i))
    → Owned kernel_end ref ms
    → Owned kernel_end ref' ms
Owned-freed [] kernel_end pa ref ref' u h o = tt
Owned-freed (m ∷ ms) kernel_end pa ref ref' u h o = (
  λ ne. let (a, b, c, d, e) = o.0 ne in (a, b, c, ground (arith, h (pa2idx m.page), u.0 ne, d), e),
  Owned-freed ms kernel_end pa ref ref' u.1 h o.1,
)

Unshared-kept : (ms : List MemFile) (pa : ℕ) → Unshared pa ms → garbage_page ms (pa2idx pa) ≡ false
Unshared-kept [] pa u = refl
Unshared-kept (m ∷ ms) pa u = ground (arith, u.0, Unshared-kept ms pa u.1)

-- What a collection does to the pages and to the table.
abbrev Collects : ℕ → Kmem → List MemFile → Type 0
Collects kernel_end kmem ms =
    (kmem' : Kmem) × (collect kernel_end kmem ms ≡ ok (kmem', map after_collection ms))
    × IsValid (pg_round_up kernel_end) kmem'
    × ((i : ℕ) → kmem'.ref_count i ≡ (if garbage_page ms i then 0 else kmem.ref_count i))

collect-keeps :
    (kernel_end : ℕ) (kmem : Kmem) (m : MemFile) (ms : List MemFile)
    → (is_garbage m && not (m.page == 0)) ≡ false
    → Collects kernel_end kmem ms
    → Collects kernel_end kmem (m ∷ ms)
unfolding collect
collect-keeps kernel_end kmem m ms h (kmem', e, v, r) =
    (kmem', rw (h, e) refl, v, λ i. ground (arith, h, r i))

collect-frees :
    (kernel_end : ℕ) (kmem t : Kmem) (m : MemFile) (ms : List MemFile)
    → (is_garbage m && not (m.page == 0)) ≡ true
    → kfree kernel_end kmem m.page ≡ ok t
    → ((i : ℕ) → t.ref_count i ≡ (if i == pa2idx m.page then 0 else kmem.ref_count i))
    → Collects kernel_end t ms
    → Collects kernel_end kmem (m ∷ ms)
unfolding collect
collect-frees kernel_end kmem t m ms h f c (kmem', e, v, r) =
    (kmem', rw (h, f, e) refl, v, λ i. ground (arith, h, r i, c i))

collect_lem :
    (ms : List MemFile) (kernel_end : ℕ) (kmem : Kmem)
    → kernel_end ≤ phystop
    → IsValid (pg_round_up kernel_end) kmem
    → Owned kernel_end kmem.ref_count ms
    → Collects kernel_end kmem ms
unfolding collect
collect_lem [] kernel_end kmem small v o = (kmem, refl, v, λ i. refl)
collect_lem (m ∷ ms) kernel_end kmem small v o =
    elim (Bool-cases (is_garbage m && not (m.page == 0))) [
      | inl h ↦
          let (a, b, c, d, u) = o.0 (ground (arith, h)) in
          let (t, e, _, r) = (kfree_lem kernel_end small kmem m.page v a b c).2 d in
          collect-frees kernel_end kmem t m ms h e r (
            collect_lem ms kernel_end t small (kfree-IsValid kernel_end small kmem m.page t v e)
              (Owned-freed ms kernel_end m.page kmem.ref_count t.ref_count u r o.1))
      | inr h ↦ collect-keeps kernel_end kmem m ms h (collect_lem ms kernel_end kmem small v o.1)
    ]

-- In a valid allocator in which every in-memory file has no page or one of its own with count 1,
-- garbage_collect succeeds: it empties exactly the slots of the files that are deleted and closed,
-- sets exactly the counts of their pages to 0, leaves the table of open files, and keeps the
-- allocator valid.
garbage_collect_lem :
    (kernel_end : ℕ) (s : Files)
    → kernel_end ≤ phystop
    → IsValid (pg_round_up kernel_end) s.kmem
    → Owned kernel_end s.kmem.ref_count s.memfiles
    → (s' : Files) × (garbage_collect kernel_end s ≡ ok s')
      × (s'.memfiles ≡ map after_collection s.memfiles)
      × (s'.file ≡ s.file)
      × IsValid (pg_round_up kernel_end) s'.kmem
      × ((i : ℕ)
          → s'.kmem.ref_count i ≡ (if garbage_page s.memfiles i then 0 else s.kmem.ref_count i))
unfolding garbage_collect
garbage_collect_lem kernel_end s small v o =
    let (kmem', e, w, r) = collect_lem s.memfiles kernel_end s.kmem small v o in
    (
      record s { kmem = kmem'; memfiles = map after_collection s.memfiles },
      rw e refl,
      refl,
      refl,
      w,
      r,
    )
