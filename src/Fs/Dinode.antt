-- ===== src/Fs/Dinode.antt =====
-- The inodes on disk, of kernel/fs.h, and iupdate and ilock of kernel/fs.c. A short or a word is kept least
-- significant byte first; a short stands for its 16 bits.
pub mod Stored
pub mod Ialloc
use mini_os_design.Common.{
  ◌>>◌, ℕ, zero, suc, ◌+◌, ◌-◌, ◌*◌, ◌/◌, ◌%◌, ◌^◌, true, ◌==◌, ltb, if◌then◌else◌, Outcome, ok,
  panic_if,
}
use mini_os_design.Fs.{Fs, write_block}
use mini_os_design.Fs.Bmap.{word_at}
use mini_os_design.Fs.Itable.{Inode}

-- IBLOCK, for the IPB inodes of a block.
abbrev pub iblock : Fs → ℕ → ℕ
iblock s i = i / 16 + s.inodestart

-- Byte `r` of `w`.
abbrev pub byte_of : ℕ → ℕ → ℕ
byte_of w r = w / 2 ^ (8 * r) % 2 ^ 8

abbrev pub half_at : (ℕ → ℕ) → ℕ → ℕ
half_at block i = block (2 * i) + 2 ^ 8 * block (2 * i + 1)

-- The four shorts at the start of a struct dinode.
abbrev pub short_field : Inode → ℕ → ℕ
short_field ip zero = ip.type
short_field ip (suc zero) = ip.major
short_field ip (suc (suc zero)) = ip.minor
short_field ip (suc (suc (suc k))) = ip.nlink

-- The byte `o` of the struct dinode of an inode.
abbrev pub dinode_byte : Inode → ℕ → ℕ
dinode_byte ip o =
    if ltb o 8
    then byte_of (short_field ip (o / 2)) (o % 2)
    else if ltb o 12
    then byte_of ip.size (o % 4)
    else byte_of (ip.addrs ((o - 12) / 4)) (o % 4)

abbrev pub put_dinode : (ℕ → ℕ) → ℕ → Inode → ℕ → ℕ
put_dinode block n ip j = if j / 64 == n then dinode_byte ip (j % 64) else block j

unfoldable pub iupdate : Fs → Inode → Fs
iupdate s ip =
    let b = iblock s ip.inum in write_block s b (put_dinode (s.blocks b) (ip.inum % 16) ip)

-- The lines of ilock that read the inode from disk.
unfoldable pub read_dinode : Fs → Inode → Inode
read_dinode s ip =
    let block = s.blocks (iblock s ip.inum) in
    let n = ip.inum % 16 in
    record ip {
      type = half_at block (32 * n);
      major = half_at block (32 * n + 1);
      minor = half_at block (32 * n + 2);
      nlink = half_at block (32 * n + 3);
      size = word_at block (16 * n + 2);
      addrs = λ i. if ltb i 13 then word_at block (16 * n + 3 + i) else ip.addrs i;
      valid = true;
    }

-- ilock once it has the lock.
unfoldable pub ilock_locked : Fs → Inode → Outcome Inode
unfolding read_dinode
ilock_locked s ip =
    if ip.valid
    then ok ip
    else (do panic_if ((read_dinode s ip).type == 0) "ilock: no type"; ok (read_dinode s ip))
