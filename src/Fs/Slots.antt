-- ===== src/Fs/Slots.antt =====
-- A file of kernel/fs.c as the map from its slots to its blocks: the slots 0 to 11 are the direct
-- blocks, 12 is the indirect block, and from 13 on come the entries of the indirect block.
pub mod Grow
pub mod Mapped
pub mod Overwrite
pub mod Preserved
pub mod Updated
use mini_os_design.Common.{
  ℕ, ◌+◌, ◌-◌, ◌*◌, ◌/◌, ◌%◌, ◌^◌, ◌≤◌, ◌<◌, ◌≡◌, ◌≢◌, true, ◌==◌, leb, ltb, if◌then◌else◌,
}
use mini_os_design.Fs.{Fs, bsize, bblock}
use mini_os_design.Fs.Bitmap.{used}
use mini_os_design.Fs.Bmap.{ndirect, word_at}

abbrev pub block_of : Fs → (ℕ → ℕ) → ℕ → ℕ
block_of s addrs k =
    if leb k ndirect
    then addrs k
    else if addrs ndirect == 0
    then 0
    else word_at (s.blocks (addrs ndirect)) (k - 13)

abbrev pub slots : ℕ
slots = 269

-- MAXFILE*BSIZE
abbrev pub max_bytes : ℕ
max_bytes = 268 * bsize

-- The slot of the block `bn` of a file.
abbrev pub data_slot : ℕ → ℕ
data_slot bn = if ltb bn ndirect then bn else bn + 1

-- The byte `x` of a file; a block that is not there reads as zeros.
abbrev pub byte : Fs → (ℕ → ℕ) → ℕ → ℕ
byte s addrs x =
    let b = block_of s addrs (data_slot (x / bsize)) in if b == 0 then 0 else s.blocks b (x % bsize)

-- The free map and the inodes lie below the block `nmeta`, and all blocks below it are in use.
pub record IsLaid (s : Fs) (nmeta : ℕ) : Type 0 where
  pub maps : (b : ℕ) → b < s.size → bblock s b < nmeta
  pub inodes : (i : ℕ) → i < s.ninodes → i / 16 + s.inodestart < nmeta
  pub disjoint : (i b : ℕ) → i < s.ninodes → b < s.size → i / 16 + s.inodestart ≢ bblock s b
  pub reserved : (b : ℕ) → b < nmeta → used s b ≡ true
  pub fits : nmeta ≤ s.size
  pub small : s.size ≤ 2 ^ 32

-- The blocks of a file are data blocks in use, and no block is in two slots.
pub record IsSound (s : Fs) (nmeta : ℕ) (addrs : ℕ → ℕ) : Type 0 where
  pub laid : IsLaid s nmeta
  pub in_use :
      (k : ℕ)
      → k < slots
      → block_of s addrs k ≢ 0
      → (nmeta ≤ block_of s addrs k)
        × (block_of s addrs k < s.size)
        × (used s (block_of s addrs k) ≡ true)
  pub apart :
      (i j : ℕ)
      → i < slots
      → j < slots
      → block_of s addrs i ≡ block_of s addrs j
      → block_of s addrs i ≢ 0
      → i ≡ j

-- A block in use that is not of the file, and not of the free map.
pub record IsForeign (s : Fs) (addrs : ℕ → ℕ) (c : ℕ) : Type 0 where
  pub within : c < s.size
  pub used_here : used s c ≡ true
  pub no_map : (b : ℕ) → b < s.size → bblock s b ≢ c
  pub no_slot : (k : ℕ) → k < slots → block_of s addrs k ≢ c

abbrev pub SameLayout : Fs → Fs → Type 0
SameLayout s s' =
    (s'.size ≡ s.size)
    × (s'.ninodes ≡ s.ninodes)
    × (s'.inodestart ≡ s.inodestart)
    × (s'.bmapstart ≡ s.bmapstart)

-- What an operation on a file keeps: what the file holds, and all that is not of the file.
pub record Kept (s : Fs) (nmeta : ℕ) (addrs : ℕ → ℕ) (s' : Fs) (addrs' : ℕ → ℕ) : Type 0 where
  pub sound : IsSound s' nmeta addrs'
  pub layout : SameLayout s s'
  pub bytes : (x : ℕ) → x < max_bytes → byte s' addrs' x ≡ byte s addrs x
  pub foreign : (c : ℕ) → IsForeign s addrs c → IsForeign s' addrs' c × (s'.blocks c ≡ s.blocks c)

-- What an operation on a file does where the file holds `f` after it.
pub record Rewritten (s : Fs) (nmeta : ℕ) (addrs : ℕ → ℕ) (s' : Fs) (addrs' : ℕ → ℕ) (f : ℕ → ℕ)
    : Type 0 where
  pub sound : IsSound s' nmeta addrs'
  pub layout : SameLayout s s'
  pub bytes : (x : ℕ) → x < max_bytes → byte s' addrs' x ≡ f x
  pub foreign : (c : ℕ) → IsForeign s addrs c → IsForeign s' addrs' c × (s'.blocks c ≡ s.blocks c)
