-- ===== src/Vm/Fork.antt =====
-- uvmcopy of kernel/vm.c: a fork shares the pages of the parent, copy-on-write.
use mini_os_design.Common.{
  ℕ, zero, suc, ◌+◌, ◌-◌, ◌/◌, none, some, Bool, true, false, not, if◌then◌else◌, Outcome, ok,
  ◌>>=◌,
}
use mini_os_design.Common.Machine.{page_size}
use mini_os_design.Kalloc.{Kmem, incref}
use mini_os_design.Vm.{
  bit, set_bit, clear_bit, pte_v, pte_w, pte_cow, pa2pte, pte2pa, pte_flags, set_word, walk,
  mappages, uvmunmap,
}

-- flags & PTE_W: the shared page is read-only from now on, and marked.
abbrev pub shared_flags : ℕ → ℕ
shared_flags flags = if bit pte_w flags then set_bit pte_cow (clear_bit pte_w flags) else flags

-- The parent's entry at `pte`, protected.
abbrev pub protect : Kmem → ℕ → Kmem
protect s pte =
    let flags = pte_flags (s.mem pte) in
    if bit pte_w flags then set_word s pte (pa2pte (pte2pa (s.mem pte)) + shared_flags flags) else s

-- One turn of the loop: whether mappages succeeded.
unfoldable pub share_page : Kmem → ℕ → ℕ → ℕ → Outcome (Kmem × Bool)
share_page s old new i = do
  (s₁, found) ← walk s old i false
  elim found [
    | none ↦ ok (s₁, true)
    | some pte ↦ if not (bit pte_v (s₁.mem pte)) then ok (s₁, true) else do
      let pa = pte2pa (s₁.mem pte)
      let flags = shared_flags (pte_flags (s₁.mem pte))
      (s₂, done) ← mappages (protect s₁ pte) new i page_size pa flags
      ok (if done then (incref s₂ pa, true) else (s₂, false))
  ]

module _ (kernel_end : ℕ) where
  -- The loop from `i` on with `n` pages to go; what was shared is taken back on failure.
  unfoldable pub share_pages : Kmem → ℕ → ℕ → ℕ → ℕ → Outcome (Kmem × Bool)
  share_pages s old new i zero = ok (s, true)
  share_pages s old new i (suc n) = do
    (s₁, done) ← share_page s old new i
    elim done [
      | true ↦ share_pages s₁ old new (i + page_size) n
      | false ↦ do s₂ ← uvmunmap kernel_end s₁ new 0 (i / page_size) true; ok (s₂, false)
    ]

  unfoldable pub uvmcopy : Kmem → ℕ → ℕ → ℕ → Outcome (Kmem × Bool)
  uvmcopy s old new sz = share_pages s old new 0 ((sz + page_size - 1) / page_size)
