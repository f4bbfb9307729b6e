-- ===== src/Log/Absorbed.antt =====
-- What log_write of kernel/log.c adds to the transaction.
use mini_os_design.Common.{
  ℕ, ◌+◌, ◌≤◌, ◌≡◌, inl, inr, List, [], ◌∷◌, ◌++◌, true, false, ◌||◌, ◌==◌, if◌then◌else◌, length,
  length-append, refl, arith, Bool-cases, ok,
}
use mini_os_design.Log.Store.{Buffers, bpin}
use mini_os_design.Log.{Log, log_blocks, log_write, elem}

abbrev pub Distinct : List ℕ → Type 0
Distinct [] = Unit {0}
Distinct (b ∷ bs) = (elem b bs ≡ false) × Distinct bs

elem-snoc : (c b : ℕ) (bs : List ℕ) → elem c (bs ++ (b ∷ [])) ≡ (b == c || elem c bs)
elem-snoc c b [] = refl
elem-snoc c b (x ∷ bs) = ground (arith, elem-snoc c b bs)

Distinct-snoc : (b : ℕ) (bs : List ℕ) → elem b bs ≡ false → Distinct bs → Distinct (bs ++ (b ∷ []))
Distinct-snoc b [] e d = (refl, tt)
Distinct-snoc b (x ∷ bs) e d =
    (ground (arith, elem-snoc x b bs), Distinct-snoc b bs (ground arith) d.1)

-- A log_write that does not panic, on a log of distinct blocks, keeps them distinct; the log then
-- holds exactly its old blocks and the new one, is at most one longer and within LOGBLOCKS; the
-- buffer is pinned exactly when the block is new; the counters stay.
pub log_write_lem :
    (l l' : Log) (s s' : Buffers) (b : ℕ)
    → Distinct l.blocks
    → log_write l s b ≡ ok (l', s')
    → Distinct l'.blocks
      × ((c : ℕ) → elem c l'.blocks ≡ (b == c || elem c l.blocks))
      × (s' ≡ (if elem b l.blocks then s else bpin s b))
      × (length l'.blocks ≤ length l.blocks + 1)
      × (length l'.blocks ≤ log_blocks)
      × (l'.outstanding ≡ l.outstanding)
      × (l'.committing ≡ l.committing)
unfolding log_write
log_write_lem l l' s s' b d h = elim (Bool-cases (elem b l.blocks)) [
  | inl e ↦ (
    ground (arith, e),
    λ c. absorbed c e,
    ground (arith, e),
    ground (arith, e),
    ground (arith, e),
    ground (arith, e),
    ground (arith, e),
  )
  | inr e ↦ (
    ground (arith, e, Distinct-snoc b l.blocks e d),
    λ c. ground (arith, e, elem-snoc c b l.blocks),
    ground (arith, e),
    ground (arith, e, length-append l.blocks (b ∷ [])),
    ground (arith, e, length-append l.blocks (b ∷ [])),
    ground (arith, e),
    ground (arith, e),
  )
]
  where
    absorbed : (c : ℕ) → elem b l.blocks ≡ true → elem c l'.blocks ≡ (b == c || elem c l.blocks)
    absorbed c e = ground (arith, e)

-- The log with the number of blocks that each running call has logged so far.
