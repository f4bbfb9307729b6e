-- ===== src/Vm.antt =====
-- kernel/vm.c and the page-table macros of kernel/riscv.h: three-level page tables in the memory of
-- the allocator. A page-table entry is a word of that memory, its flags the numbers below 1024; `|`
-- of a flag sets its bit. `true` is the 0 that a function returns on success, `false` its -1.
pub mod Walk
pub mod Map
pub mod Frame
pub mod CopyOnWrite
pub mod CopyIn
pub mod Share
pub mod CopyInStr
pub mod CopyOut
pub mod Fault
pub mod Fork
pub mod Copy
mod Tests
use mini_os_design.Common.{
  ℕ, zero, suc, ◌+◌, ◌-◌, ◌*◌, ◌/◌, ◌%◌, ◌^◌, Option, none, some, Bool, true, false, not, ◌&&◌,
  ◌||◌, ltb, leb, ◌==◌, if◌then◌else◌, Outcome, ok, panic, ◌>>=◌, ◌>>◌, panic_if,
}
use mini_os_design.Common.Machine.{page_size, maxva, pg_round_up, fill, store}
use mini_os_design.Kalloc.{Kmem, kalloc, kfree, record_rmap, incref}

-- Is bit `k` of `w` set?
abbrev pub bit : ℕ → ℕ → Bool
bit k w = w / 2 ^ k % 2 == 1

abbrev pub set_bit : ℕ → ℕ → ℕ
set_bit k w = if bit k w then w else w + 2 ^ k

abbrev pub clear_bit : ℕ → ℕ → ℕ
clear_bit k w = if bit k w then w - 2 ^ k else w

-- The positions of PTE_V, PTE_R, PTE_W, PTE_X, PTE_U and PTE_COW.
abbrev pub pte_v : ℕ
pte_v = 0

abbrev pub pte_r : ℕ
pte_r = 1

abbrev pub pte_w : ℕ
pte_w = 2

abbrev pte_x : ℕ
pte_x = 3

abbrev pub pte_u : ℕ
pte_u = 4

abbrev pub pte_cow : ℕ
pte_cow = 8

abbrev pub pa2pte : ℕ → ℕ
pa2pte pa = pa / 2 ^ 12 * 2 ^ 10

abbrev pub pte2pa : ℕ → ℕ
pte2pa pte = pte / 2 ^ 10 * 2 ^ 12 % 2 ^ 64

abbrev pub pte_flags : ℕ → ℕ
pte_flags pte = pte % 1024

-- PX(level, va)
abbrev px : ℕ → ℕ → ℕ
px level va = va / 2 ^ (12 + 9 * level) % 512

-- &pagetable[PX(level, va)]
abbrev pub slot : ℕ → ℕ → ℕ → ℕ
slot pagetable level va = pagetable + 8 * px level va

abbrev pub set_word : Kmem → ℕ → ℕ → Kmem
set_word s p w = record s { mem = store s.mem p w }

abbrev pub zero_page : Kmem → ℕ → Kmem
zero_page s pa = record s { mem = fill s.mem pa page_size 0 }

-- The loop of walk from `level` down: the address of the level-0 entry, or `none` for 0.
unfoldable pub walk_from : Kmem → ℕ → ℕ → Bool → ℕ → Kmem × Option ℕ
walk_from s pagetable va alloc zero = (s, some (slot pagetable 0 va))
walk_from s pagetable va alloc (suc level) =
    let pte = slot pagetable (suc level) va in
    elim (bit pte_v (s.mem pte)) [
      | true ↦ walk_from s (pte2pa (s.mem pte)) va alloc level
      | false ↦ elim alloc [
        | false ↦ (s, none)
        | true ↦ elim (kalloc s).1 [
          | none ↦ ((kalloc s).0, none)
          | some page ↦
              walk_from (set_word (zero_page (kalloc s).0 page) pte (set_bit pte_v (pa2pte page)))
                page va true level
        ]
      ]
    ]

unfoldable pub walk : Kmem → ℕ → ℕ → Bool → Outcome (Kmem × Option ℕ)
unfolding walk_from
walk s pagetable va alloc = do panic_if (leb maxva va) "walk"; ok (walk_from s pagetable va alloc 2)

-- The entry of a page that is mapped for the user, by its address; 0 for no such page.
abbrev pub user_page : Kmem → Option ℕ → ℕ
user_page s none = 0
user_page s (some pte) =
    if bit pte_v (s.mem pte) && bit pte_u (s.mem pte) then pte2pa (s.mem pte) else 0

unfoldable pub walkaddr : Kmem → ℕ → ℕ → ℕ
unfolding walk_from
walkaddr s pagetable va =
    if leb maxva va then 0 else user_page s (walk_from s pagetable va false 2).1

-- One turn of the loop of mappages.
unfoldable pub map_page : Kmem → ℕ → ℕ → ℕ → ℕ → Outcome (Kmem × Bool)
unfolding walk
map_page s pagetable a pa perm = do
  (s₁, found) ← walk s pagetable a true
  elim found [
    | none ↦ ok (s₁, false)
    | some pte ↦ do
      panic_if (bit pte_v (s₁.mem pte)) "mappages: remap"
      let s₂ = set_word s₁ pte (pa2pte pa + set_bit pte_v perm)
      ok (if bit pte_u perm then record_rmap s₂ pa pagetable a else s₂, true)
  ]

-- The loop of mappages over `n` pages.
unfoldable pub map_pages : Kmem → ℕ → ℕ → ℕ → ℕ → ℕ → Outcome (Kmem × Bool)
map_pages s pagetable a pa perm zero = ok (s, true)
map_pages s pagetable a pa perm (suc n) = do
  (s₁, done) ← map_page s pagetable a pa perm
  elim done [
    | false ↦ ok (s₁, false)
    | true ↦ map_pages s₁ pagetable (a + page_size) (pa + page_size) perm n
  ]

unfoldable pub mappages : Kmem → ℕ → ℕ → ℕ → ℕ → ℕ → Outcome (Kmem × Bool)
mappages s pagetable va size pa perm = do
  panic_if (not (va % page_size == 0)) "mappages: va not aligned"
  panic_if (not (size % page_size == 0)) "mappages: size not aligned"
  panic_if (size == 0) "mappages: size"
  map_pages s pagetable va pa perm (size / page_size)

unfoldable kvmmap : Kmem → ℕ → ℕ → ℕ → ℕ → ℕ → Outcome Kmem
kvmmap s kpgtbl va pa sz perm = do
  (s₁, done) ← mappages s kpgtbl va sz pa perm
  if done then ok s₁ else panic "kvmmap"

-- An empty user page table, or `none` for 0.
unfoldable uvmcreate : Kmem → Kmem × Option ℕ
uvmcreate s = elim (kalloc s).1 [
  | none ↦ ((kalloc s).0, none)
  | some page ↦ (zero_page (kalloc s).0 page, some page)
]

unfoldable uvmclear : Kmem → ℕ → ℕ → Outcome Kmem
uvmclear s pagetable va = do
  (s₁, found) ← walk s pagetable va false
  elim found [
    | none ↦ panic "uvmclear"
    | some pte ↦ ok (set_word s₁ pte (clear_bit pte_u (s₁.mem pte)))
  ]

unfoldable ismapped : Kmem → ℕ → ℕ → Outcome Bool
ismapped s pagetable va = do
  (s₁, found) ← walk s pagetable va false
  ok (elim found [ none ↦ false | some pte ↦ bit pte_v (s₁.mem pte) ])

-- `kernel_end` is the first address after the kernel, which kfree checks.
module _ (kernel_end : ℕ) where
  -- One turn of the loop of uvmunmap.
  unfoldable pub unmap_page : Kmem → ℕ → ℕ → Bool → Outcome Kmem
  unfolding walk
  unmap_page s pagetable a do_free = do
    (s₁, found) ← walk s pagetable a false
    elim found [
      | none ↦ ok s₁
      | some pte ↦ if not (bit pte_v (s₁.mem pte)) then ok s₁ else do
        s₂ ← (if do_free then kfree kernel_end s₁ (pte2pa (s₁.mem pte)) else ok s₁)
        ok (set_word s₂ pte 0)
    ]

  unfoldable pub unmap_pages : Kmem → ℕ → ℕ → ℕ → Bool → Outcome Kmem
  unmap_pages s pagetable a zero do_free = ok s
  unmap_pages s pagetable a (suc n) do_free = do
    s₁ ← unmap_page s pagetable a do_free
    unmap_pages s₁ pagetable (a + page_size) n do_free

  unfoldable pub uvmunmap : Kmem → ℕ → ℕ → ℕ → Bool → Outcome Kmem
  uvmunmap s pagetable va npages do_free = do
    panic_if (not (va % page_size == 0)) "uvmunmap: not aligned"
    unmap_pages s pagetable va npages do_free

  unfoldable pub uvmdealloc : Kmem → ℕ → ℕ → ℕ → Outcome (Kmem × ℕ)
  uvmdealloc s pagetable oldsz newsz =
      if leb oldsz newsz
      then ok (s, oldsz)
      else (if ltb (pg_round_up newsz) (pg_round_up oldsz)
          then (uvmunmap s pagetable (pg_round_up newsz)
                ((pg_round_up oldsz - pg_round_up newsz) / page_size) true
              >>= λ s₁. ok (s₁, newsz))
          else ok (s, newsz))

  -- The loop of uvmalloc from `a` on, with at most `n` pages to go: the new size, or 0.
  unfoldable pub alloc_pages : Kmem → ℕ → ℕ → ℕ → ℕ → ℕ → ℕ → Outcome (Kmem × ℕ)
  alloc_pages s pagetable oldsz newsz xperm a zero = ok (s, newsz)
  alloc_pages s pagetable oldsz newsz xperm a (suc n) = elim (kalloc s).1 [
    | none ↦ do (s₁, _) ← uvmdealloc (kalloc s).0 pagetable a oldsz; ok (s₁, 0)
    | some page ↦ do
      (s₁, done) ←
          mappages (zero_page (kalloc s).0 page) pagetable a page_size page
            (set_bit pte_r (set_bit pte_u xperm))
      elim done [
        | true ↦ alloc_pages s₁ pagetable oldsz newsz xperm (a + page_size) n
        | false ↦ do
          s₂ ← kfree kernel_end s₁ page
          (s₃, _) ← uvmdealloc s₂ pagetable a oldsz
          ok (s₃, 0)
      ]
  ]

  unfoldable pub uvmalloc : Kmem → ℕ → ℕ → ℕ → ℕ → Outcome (Kmem × ℕ)
  uvmalloc s pagetable oldsz newsz xperm =
      let start = pg_round_up oldsz in
      if ltb newsz oldsz
      then ok (s, oldsz)
      else alloc_pages s pagetable start newsz xperm start
          ((newsz + page_size - 1 - start) / page_size)
