-- ===== src/Kalloc/Invariant.antt =====
-- The invariant of the allocator of kernel/kalloc.c.
use mini_os_design.Common.{ℕ, ◌≤◌, ◌<◌, ◌≡◌, ◌==◌, List}
use mini_os_design.Common.Machine.{phystop, pa2idx}
use mini_os_design.Kalloc.Blocks.{Block}
use mini_os_design.Kalloc.Blocks.Shape.{IsChain, covers}
use mini_os_design.Kalloc.{Kmem}

-- A byte above `base` is free exactly when the count of its page is zero: no page is lost, and none
-- is both free and in use.
abbrev pub Agrees : ℕ → List Block → (ℕ → ℕ) → Type 0
Agrees base xs ref = (a : ℕ) → base ≤ a → a < phystop → covers xs a ≡ (ref (pa2idx a) == 0)

-- `base` is the first page boundary after the kernel.
pub record IsValid (base : ℕ) (s : Kmem) : Type 0 where
  pub chain : IsChain base s.freelist
  pub agrees : Agrees base s.freelist s.ref_count
