-- ===== src/Vm/Copy.antt =====
-- copyout, copyin and copyinstr of kernel/vm.c. A kernel buffer is a list of bytes. Byte `a` of the
-- memory is byte `a % 8` of the word at `a / 8 * 8`, the least significant byte first.
use mini_os_design.Common.{
  ℕ, zero, suc, ◌+◌, ◌-◌, ◌*◌, ◌/◌, ◌%◌, ◌^◌, List, [], ◌∷◌, ◌++◌, Option, none, some, Bool, true,
  false, leb, ◌==◌, if◌then◌else◌, length, min, Outcome, ok, panic, ◌>>=◌,
}
use mini_os_design.Common.Machine.{Memory, page_size, maxva, pg_round_down, store}
use mini_os_design.Kalloc.{Kmem}
use mini_os_design.Vm.{bit, pte_w, walk, walkaddr}
use mini_os_design.Vm.Fault.{vmfault}

abbrev pub peek_byte : Memory → ℕ → ℕ
peek_byte mem a = mem (a / 8 * 8) / 2 ^ (8 * (a % 8)) % 2 ^ 8

abbrev poke_byte : Memory → ℕ → ℕ → Memory
poke_byte mem a b =
    store mem (a / 8 * 8)
      (mem (a / 8 * 8) - peek_byte mem a * 2 ^ (8 * (a % 8)) + b % 2 ^ 8 * 2 ^ (8 * (a % 8)))

-- memmove into the memory, and out of it.
unfoldable pub poke_bytes : Memory → ℕ → List ℕ → Memory
poke_bytes mem a [] = mem
poke_bytes mem a (b ∷ bs) = poke_bytes (poke_byte mem a b) (a + 1) bs

unfoldable pub peek_bytes : Memory → ℕ → ℕ → List ℕ
peek_bytes mem a zero = []
peek_bytes mem a (suc n) = peek_byte mem a ∷ peek_bytes mem (a + 1) n

-- The first `n` bytes of a buffer, and the others.
unfoldable pub prefix : ℕ → List ℕ → List ℕ
prefix zero bs = []
prefix (suc n) [] = []
prefix (suc n) (b ∷ bs) = b ∷ prefix n bs

unfoldable pub suffix : ℕ → List ℕ → List ℕ
suffix zero bs = bs
suffix (suc n) [] = []
suffix (suc n) (b ∷ bs) = suffix n bs

module _ (kernel_end sz : ℕ) where
  -- The page at `va0`, where need be after a page fault; 0 on failure.
  unfoldable pub touch_page : Kmem → ℕ → ℕ → Outcome (Kmem × ℕ)
  touch_page s pagetable va0 =
      let pa0 = walkaddr s pagetable va0 in
      if pa0 == 0 then vmfault kernel_end s sz pagetable va0 else ok (s, pa0)

  -- The page at `va0` for a store: not where its entry is read-only.
  unfoldable pub writable_page : Kmem → ℕ → ℕ → Outcome (Kmem × Option ℕ)
  writable_page s pagetable va0 = if leb maxva va0 then ok (s, none) else do
    (s₁, pa0) ← touch_page s pagetable va0
    elim (pa0 == 0) [
      | true ↦ ok (s₁, none)
      | false ↦ do
        (s₂, found) ← walk s₁ pagetable va0 false
        elim found [
          | none ↦ panic "null pointer"
          | some pte ↦ ok (s₂, (if bit pte_w (s₂.mem pte) then some pa0 else none))
        ]
    ]

  -- copyout of the bytes `src`, with at most `fuel` turns of its loop.
  unfoldable pub copyout_loop : ℕ → Kmem → ℕ → ℕ → List ℕ → Outcome (Kmem × Bool)
  copyout_loop fuel s pagetable dstva [] = ok (s, true)
  copyout_loop zero s pagetable dstva (b ∷ src) = ok (s, false)
  copyout_loop (suc fuel) s pagetable dstva (b ∷ src) = do
    let va0 = pg_round_down dstva
    let n = min (page_size - (dstva - va0)) (length (b ∷ src))
    (s₁, page) ← writable_page s pagetable va0
    elim page [
      | none ↦ ok (s₁, false)
      | some pa0 ↦
          copyout_loop fuel
            (record s₁ { mem = poke_bytes s₁.mem (pa0 + (dstva - va0)) (prefix n (b ∷ src)) })
            pagetable (va0 + page_size) (suffix n (b ∷ src))
    ]

  unfoldable pub copyout : Kmem → ℕ → ℕ → List ℕ → Outcome (Kmem × Bool)
  copyout s pagetable dstva src = copyout_loop (length src) s pagetable dstva src

  -- copyin of `len` bytes: the bytes that reached the buffer, and whether all did.
  unfoldable pub copyin_loop : ℕ → Kmem → ℕ → ℕ → ℕ → Outcome (Kmem × List ℕ × Bool)
  copyin_loop fuel s pagetable srcva zero = ok (s, [], true)
  copyin_loop zero s pagetable srcva (suc len) = ok (s, [], false)
  copyin_loop (suc fuel) s pagetable srcva (suc len) = do
    let va0 = pg_round_down srcva
    let n = min (page_size - (srcva - va0)) (suc len)
    (s₁, pa0) ← touch_page s pagetable va0
    elim (pa0 == 0) [
      | true ↦ ok (s₁, [], false)
      | false ↦ do
        (s₂, rest, done) ← copyin_loop fuel s₁ pagetable (va0 + page_size) (suc len - n)
        ok (s₂, peek_bytes s₁.mem (pa0 + (srcva - va0)) n ++ rest, done)
    ]

  unfoldable pub copyin : Kmem → ℕ → ℕ → ℕ → Outcome (Kmem × List ℕ × Bool)
  copyin s pagetable srcva len = copyin_loop len s pagetable srcva len

-- The inner loop of copyinstr over `n` bytes: what was copied, and whether the 0 was met.
unfoldable pub string_bytes : Memory → ℕ → ℕ → List ℕ × Bool
string_bytes mem p zero = ([], false)
string_bytes mem p (suc n) =
    let rest = string_bytes mem (p + 1) n in
    if peek_byte mem p == 0 then (0 ∷ [], true) else (peek_byte mem p ∷ rest.0, rest.1)

-- copyinstr of at most `max` bytes, with at most `fuel` turns of its loop.
unfoldable pub copyinstr_loop : ℕ → Kmem → ℕ → ℕ → ℕ → List ℕ × Bool
copyinstr_loop fuel s pagetable srcva zero = ([], false)
copyinstr_loop zero s pagetable srcva (suc max) = ([], false)
copyinstr_loop (suc fuel) s pagetable srcva (suc max) =
    let va0 = pg_round_down srcva in
    let pa0 = walkaddr s pagetable va0 in
    let n = min (page_size - (srcva - va0)) (suc max) in
    let here = string_bytes s.mem (pa0 + (srcva - va0)) n in
    let rest = copyinstr_loop fuel s pagetable (va0 + page_size) (suc max - n) in
    if pa0 == 0 then ([], false) else (if here.1 then here else (here.0 ++ rest.0, rest.1))

unfoldable pub copyinstr : Kmem → ℕ → ℕ → ℕ → List ℕ × Bool
copyinstr s pagetable srcva max = copyinstr_loop max s pagetable srcva max
