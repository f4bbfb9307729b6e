-- ===== src/Vm/Fault.antt =====
-- vmfault of kernel/vm.c: lazy allocation, and copy-on-write.
use mini_os_design.Common.{
  ℕ, ◌+◌, ◌^◌, Option, none, some, Bool, true, false, not, ◌&&◌, ltb, leb, if◌then◌else◌, Outcome,
  ok, ◌>>=◌,
}
use mini_os_design.Common.Machine.{page_size, pg_round_down, copy}
use mini_os_design.Kalloc.{Kmem, kalloc, kfree, getref, decref, record_rmap}
use mini_os_design.Vm.{
  bit, set_bit, clear_bit, pte_v, pte_r, pte_w, pte_u, pte_cow, pa2pte, pte2pa, set_word, zero_page,
  walk, mappages,
}

-- The flags of a page that is given to the process: PTE_W|PTE_U|PTE_R, and with PTE_V.
abbrev pub user_flags : ℕ
user_flags = 2 ^ pte_w + 2 ^ pte_u + 2 ^ pte_r

abbrev pub owned_flags : ℕ
owned_flags = user_flags + 2 ^ pte_v

-- Is there a page behind the entry that walk found?
abbrev present : Kmem → Option ℕ → Bool
present s none = false
present s (some pte) = bit pte_v (s.mem pte)

-- The last lines of case 2: the reverse map is refreshed, and the page returned.
abbrev pub refreshed : Kmem → ℕ → ℕ → ℕ → Kmem × ℕ
refreshed s pte pagetable va = (record_rmap s (pte2pa (s.mem pte)) pagetable va, pte2pa (s.mem pte))

-- Case 2, a fault on a copy-on-write page whose entry is at `pte`.
unfoldable pub cow_fault : Kmem → ℕ → ℕ → ℕ → Outcome (Kmem × ℕ)
cow_fault s pagetable va pte =
    let pa = pte2pa (s.mem pte) in
    if ltb 1 (getref s pa)
    then elim (kalloc s).1 [
      | none ↦ ok ((kalloc s).0, 0)
      | some page ↦ do
        let s₁ = (kalloc s).0
        let s₂ = record s₁ { mem = copy s₁.mem page pa page_size }
        (s₃, _) ← decref (set_word s₂ pte (pa2pte page + owned_flags)) pa
        ok (refreshed s₃ pte pagetable va)
    ]
    else ok (
        refreshed (set_word s pte (clear_bit pte_cow (set_bit pte_w (s.mem pte)))) pte pagetable va)

module _ (kernel_end : ℕ) where
  -- Case 1: a zeroed page for `va`, which is the start of a page.
  unfoldable pub lazy_fault : Kmem → ℕ → ℕ → Outcome (Kmem × ℕ)
  lazy_fault s pagetable va = elim (kalloc s).1 [
    | none ↦ ok ((kalloc s).0, 0)
    | some page ↦ do
      (s₁, done) ← mappages (zero_page (kalloc s).0 page) pagetable va page_size page user_flags
      elim done [ true ↦ ok (s₁, page) | false ↦ do s₂ ← kfree kernel_end s₁ page; ok (s₂, 0) ]
  ]

  -- vmfault in a process of `sz` bytes: the address of the page, or 0.
  unfoldable pub vmfault : Kmem → ℕ → ℕ → ℕ → Outcome (Kmem × ℕ)
  vmfault s sz pagetable va₀ =
      let va = pg_round_down va₀ in
      if leb sz va₀ then ok (s, 0) else do
        (s₁, found) ← walk s pagetable va false
        elim found [
          | none ↦ lazy_fault s₁ pagetable va
          | some pte ↦
              if not (bit pte_v (s₁.mem pte))
              then lazy_fault s₁ pagetable va
              else (if bit pte_cow (s₁.mem pte) && not (bit pte_w (s₁.mem pte))
                  then cow_fault s₁ pagetable va pte
                  else ok (s₁, 0))
        ]
