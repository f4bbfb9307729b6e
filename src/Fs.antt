-- ===== src/Fs.antt =====
-- kernel/fs.c and kernel/fs.h. `blocks` is what the buffer cache shows of the blocks of the one device,
-- by block and byte; bread, log_write and brelse are a read and a write of it. A block is a function
-- of the index of a byte.
pub mod Bits
pub mod Bitmap
pub mod Names
pub mod Bmap
pub mod Itable
pub mod Slots
pub mod Dinode
pub mod Transfer
pub mod Trunc
pub mod Dirs
mod Tests
mod FileTests
mod DirTests
use mini_os_design.Common.{
  ◌>>=◌, ◌>>◌, ℕ, zero, suc, ◌+◌, ◌-◌, ◌*◌, ◌/◌, ◌%◌, ◌^◌, not, ◌==◌, ltb, min, if◌then◌else◌, Bool,
  Option, none, some, Outcome, ok, panic_if,
}

abbrev pub bsize : ℕ
bsize = 1024

-- BPB
abbrev pub bits_per_block : ℕ
bits_per_block = 1024 * 8

-- The fields of the super block that the code below reads.
pub record Fs : Type 0 where
  pub size : ℕ
  pub ninodes : ℕ
  pub inodestart : ℕ
  pub bmapstart : ℕ
  pub blocks : ℕ → ℕ → ℕ

-- BBLOCK
abbrev pub bblock : Fs → ℕ → ℕ
bblock s b = b / bits_per_block + s.bmapstart

abbrev pub write_block : Fs → ℕ → (ℕ → ℕ) → Fs
write_block s b v = record s { blocks = λ c. if c == b then v else s.blocks c }

unfoldable pub bzero : Fs → ℕ → Fs
bzero s bno = write_block s bno (λ i. if ltb i bsize then 0 else s.blocks bno i)

-- data[bi/8] & (1 << (bi % 8))
abbrev pub is_set : (ℕ → ℕ) → ℕ → Bool
is_set block bi = block (bi / 8) / 2 ^ (bi % 8) % 2 == 1

-- data[bi/8] |= m, of a bit that is not set, and data[bi/8] &= ~m, of one that is.
abbrev pub set_bit : (ℕ → ℕ) → ℕ → ℕ → ℕ
set_bit block bi i = if i == bi / 8 then block i + 2 ^ (bi % 8) else block i

abbrev pub clear_bit : (ℕ → ℕ) → ℕ → ℕ → ℕ
clear_bit block bi i = if i == bi / 8 then block i - 2 ^ (bi % 8) else block i

-- The inner loop of balloc: the first free bit of the `n` from `bi` on.
unfoldable pub free_bit : (ℕ → ℕ) → ℕ → ℕ → Option ℕ
free_bit block bi zero = none
free_bit block bi (suc n) =
    let later = free_bit block (bi + 1) n in if is_set block bi then later else some bi

-- The loop of balloc from the block `b` on, with `n` bitmap blocks to go: the new block, or 0.
unfoldable pub alloc_from : Fs → ℕ → ℕ → Fs × ℕ
unfolding free_bit bzero
alloc_from s b zero = (s, 0)
alloc_from s b (suc n) =
    elim (free_bit (s.blocks (bblock s b)) 0 (min bits_per_block (s.size - b))) [
      | none ↦ alloc_from s (b + bits_per_block) n
      | some bi ↦
          (bzero (write_block s (bblock s b) (set_bit (s.blocks (bblock s b)) bi)) (b + bi), b + bi)
    ]

unfoldable pub balloc : Fs → Fs × ℕ
unfolding alloc_from
balloc s = alloc_from s 0 ((s.size + bits_per_block - 1) / bits_per_block)

unfoldable pub bfree : Fs → ℕ → Outcome Fs
bfree s b = do
  panic_if (not (is_set (s.blocks (bblock s b)) (b % bits_per_block))) "freeing free block"
  ok (write_block s (bblock s b) (clear_bit (s.blocks (bblock s b)) (b % bits_per_block)))
