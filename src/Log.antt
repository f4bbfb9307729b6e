-- ===== src/Log.antt =====
-- kernel/log.c: the write-ahead log of disk blocks, over the view that kernel/bio.c gives of a
-- disk. `power` counts the disk writes that still reach the disk before the machine stops: a
-- commit with any `power` is a commit that crashes at any point.
pub mod Store
pub mod Header
pub mod Space
mod Tests
pub mod Copy
pub mod Crash
pub mod Recovery
pub mod Absorbed
use mini_os_design.Common.{
  ℕ, zero, suc, ◌+◌, ◌-◌, ◌*◌, List, [], ◌∷◌, ◌++◌, Bool, true, false, not, ◌&&◌, ◌||◌, ltb, leb,
  ◌==◌, if◌then◌else◌, length, Outcome, ok, panic, ◌>>=◌, ◌>>◌, panic_if,
}
use Store.{Disk, Buffers, view, bread, bwrite, bpin, bunpin}
use Header.{encode, decode}

abbrev pub max_op_blocks : ℕ
max_op_blocks = 10

abbrev pub log_blocks : ℕ
log_blocks = 30

-- `struct log`; `blocks` is `lh.block[0..lh.n)`.
pub record Log : Type 0 where
  pub start : ℕ
  pub outstanding : ℕ
  pub committing : Bool
  pub blocks : List ℕ

-- Copy each logged block from the cache to the log, from log block `a` on.
pub write_log : Buffers → ℕ → List ℕ → Buffers
write_log s a [] = s
write_log s a (b ∷ bs) =
    let s₁ = bread (bread s a) b in write_log (bwrite s₁ a (view s₁ b)) (a + 1) bs

-- Copy each logged block from the log, from log block `a` on, to its home.
pub install_trans : Bool → Buffers → ℕ → List ℕ → Buffers
install_trans recovering s a [] = s
install_trans recovering s a (b ∷ bs) =
    let s₁ = bread (bread s a) b in
    let s₂ = bwrite s₁ b (view s₁ a) in
    install_trans recovering (if recovering then s₂ else bunpin s₂ b) (a + 1) bs

pub read_head : Buffers → ℕ → Buffers × List ℕ
read_head s start = let s₁ = bread s start in (s₁, decode (view s₁ start))

pub write_head : Buffers → ℕ → List ℕ → Buffers
write_head s start bs = let s₁ = bread s start in bwrite s₁ start (encode (view s₁ start) bs)

pub recover_from_log : Buffers → ℕ → Buffers
recover_from_log s start =
    let (s₁, bs) = read_head s start in write_head (install_trans true s₁ (start + 1) bs) start []

-- The disk writes of a commit, in order; the log is empty afterwards.
pub commit_blocks : Buffers → ℕ → List ℕ → Buffers
commit_blocks s start bs =
    if ltb 0 (length bs)
    then (let s₁ = write_log s (start + 1) bs in
        let s₂ = write_head s₁ start bs in
        let s₃ = install_trans false s₂ (start + 1) bs in write_head s₃ start [])
    else s

pub commit : Log → Buffers → Log × Buffers
commit l s = (record l { blocks = [] }, commit_blocks s l.start l.blocks)

-- One turn of the loop of begin_op: `false` where it sleeps and will look again.
pub begin_op : Log → Log × Bool
begin_op l =
    if l.committing || ltb log_blocks (length l.blocks + (l.outstanding + 1) * max_op_blocks)
    then (l, false)
    else (record l { outstanding = l.outstanding + 1 }, true)

-- The first section of end_op: whether this call has to commit. `outstanding` is positive, by the
-- matching begin_op.
pub end_op_enter : Log → Outcome (Log × Bool)
end_op_enter l = do
  panic_if l.committing "log.committing"
  let l' = record l { outstanding = l.outstanding - 1 }
  ok (if l'.outstanding == 0 then (record l' { committing = true }, true) else (l', false))

end_op : Log → Buffers → Outcome (Log × Buffers)
end_op l s = do
  (l', do_commit) ← end_op_enter l
  let (l'', s') = commit l' s
  ok (if do_commit then (record l'' { committing = false }, s') else (l', s))

-- Is `b` logged already?
abbrev pub elem : ℕ → List ℕ → Bool
elem b [] = false
elem b (c ∷ cs) = c == b || elem b cs

-- log_write of block `b`, with absorption.
pub log_write : Log → Buffers → ℕ → Outcome (Log × Buffers)
log_write l s b = do
  panic_if (leb log_blocks (length l.blocks)) "too big a transaction"
  panic_if (ltb l.outstanding 1) "log_write outside of trans"
  ok (if elem b l.blocks then (l, s) else (record l { blocks = l.blocks ++ (b ∷ []) }, bpin s b))
