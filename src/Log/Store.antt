-- ===== src/Log/Store.antt =====
-- What kernel/log.c sees of the buffer cache and the disk: a read returns the cached copy of a
-- block, or the disk's; a write goes through to the disk while there is power.
use mini_os_design.Common.{
  ℕ, ◌+◌, ◌-◌, ◌≡◌, Option, none, some, ◌==◌, ◌&&◌, ltb, if◌then◌else◌, arith,
}

-- A block of BSIZE bytes as its 256 words of 32 bits.
abbrev pub DiskBlock : Type 0
DiskBlock = ℕ → ℕ

abbrev pub Disk : Type 0
Disk = ℕ → DiskBlock

-- `cached` holds the valid buffers, `pins` the references that log_write adds.
pub record Buffers : Type 0 where
  pub cached : ℕ → Option DiskBlock
  pub pins : ℕ → ℕ
  pub disk : Disk
  pub power : ℕ

-- The contents that a reader of block `b` gets.
abbrev pub view : Buffers → Disk
view s b = elim (s.cached b) [ none ↦ s.disk b | some v ↦ v ]

-- bread, and the brelse that follows: the block is in the cache.
unfoldable pub bread : Buffers → ℕ → Buffers
bread s b = record s { cached = λ c. if c == b then some (view s b) else s.cached c }

-- The buffer's new contents, and bwrite.
unfoldable pub bwrite : Buffers → ℕ → DiskBlock → Buffers
bwrite s b v = record s {
  cached = λ c. if c == b then some v else s.cached c;
  disk = λ c. if ltb 0 s.power && c == b then v else s.disk c;
  power = s.power - 1;
}

unfoldable pub bpin : Buffers → ℕ → Buffers
bpin s b = record s { pins = λ c. if c == b then s.pins c + 1 else s.pins c }

unfoldable pub bunpin : Buffers → ℕ → Buffers
bunpin s b = record s { pins = λ c. if c == b then s.pins c - 1 else s.pins c }

-- A reboot: an empty cache over what the disk holds.
unfoldable pub reboot : Disk → ℕ → Buffers
reboot d power = record { cached = λ _. none; pins = λ _. 0; disk = d; power = power }

pub view-bread : (s : Buffers) (b c : ℕ) → view (bread s b) c ≡ view s c
unfolding bread
view-bread s b c = ground arith

pub view-bwrite :
    (s : Buffers) (b : ℕ) (v : DiskBlock) (c : ℕ)
    → view (bwrite s b v) c ≡ (if c == b then v else view s c)
unfolding bwrite
view-bwrite s b v c = ground arith

pub disk-bwrite :
    (s : Buffers) (b : ℕ) (v : DiskBlock) (c : ℕ)
    → (bwrite s b v).disk c ≡ (if ltb 0 s.power && c == b then v else s.disk c)
unfolding bwrite
disk-bwrite s b v c = ground arith
