-- ===== src/Fs/FileTests.antt =====
-- Concrete runs of the operations of kernel/fs.c on a file.
use mini_os_design.Common.{
  ℕ, zero, suc, ◌+◌, ◌-◌, ◌≤◌, ◌<◌, ◌≡◌, true, false, ◌&&◌, ◌==◌, min, if◌then◌else◌, refl, arith,
  ◌⊎◌, ok, none, some, Option, panic,
}
use mini_os_design.Fs.{Fs}
use mini_os_design.Fs.Bitmap.{used}
use mini_os_design.Fs.Bmap.{bmap, direct}
use mini_os_design.Fs.Itable.{Inode}
use mini_os_design.Fs.Dinode.{iupdate, ilock_locked}
use mini_os_design.Fs.Slots.{block_of, data_slot, IsLaid, IsSound, Kept, max_bytes}
use mini_os_design.Fs.Slots.Mapped.{Answered, bmap_lem}
use mini_os_design.Fs.Dinode.Stored.{Fits, SameDinode, ilock_locked-iupdate}
use mini_os_design.Fs.Transfer.{FileRead, readi, writei, write_blocks}
use mini_os_design.Fs.Transfer.Reading.{IsFull, Delivered, readi-Delivered}
use mini_os_design.Fs.Transfer.Writei.{Saved, writei-Saved}
use mini_os_design.Fs.Transfer.ReadBack.{readi-writei}
use mini_os_design.Fs.Trunc.{itrunc}
use mini_os_design.Fs.Trunc.Emptied.{Emptied, itrunc-Emptied}
use mini_os_design.Locks.{initsleeplock}

-- Twelve blocks: the inodes are in block 2 and the free map is block 3; the blocks 0 to 4 are in use,
-- and block 4 holds `four`.
abbrev pub disk : (ℕ → ℕ) → Fs
disk four = record {
  size = 12;
  ninodes = 16;
  inodestart = 2;
  bmapstart = 3;
  blocks = λ b i. if b == 3 && i == 0 then 31 else if b == 4 then four i else 0;
}

abbrev twelve_blocks : Fs
twelve_blocks = disk (λ _. 7)

-- A file of ten bytes in block 4.
abbrev pub one_block_file : Inode
one_block_file = record {
  dev = 1;
  inum = 5;
  ref = 1;
  lock = initsleeplock;
  valid = true;
  type = 2;
  major = 0;
  minor = 0;
  nlink = 1;
  size = 10;
  addrs = λ i. if i == 0 then 4 else 0;
}

module _ (four : ℕ → ℕ) where
  reserved_blocks : (b : ℕ) → b < 4 → used (disk four) b ≡ true
  reserved_blocks zero l = refl
  reserved_blocks (suc zero) l = refl
  reserved_blocks (suc (suc zero)) l = refl
  reserved_blocks (suc (suc (suc zero))) l = refl
  reserved_blocks (suc (suc (suc (suc b)))) l = absurd (omega arith)

  disk-IsLaid : IsLaid (disk four) 4
  disk-IsLaid = record {
    maps = λ b l. omega arith;
    inodes = λ i l. omega arith;
    disjoint = λ i b l m e. omega (arith, e);
    reserved = reserved_blocks;
    fits = omega arith;
    small = omega arith;
  }

  file_slot : (k : ℕ) → block_of (disk four) one_block_file.addrs k ≡ (if k == 0 then 4 else 0)
  file_slot k = ground arith

  pub disk-IsSound : IsSound (disk four) 4 one_block_file.addrs
  disk-IsSound = record {
    laid = disk-IsLaid;
    in_use = λ k l n.
        let q : block_of (disk four) one_block_file.addrs k ≡ 4 = ground (arith, file_slot k, n) in
        rw q (omega arith, omega arith, refl);
    apart = λ i j l m e n. ground (arith, file_slot i, file_slot j, e, n);
  }

one_block_file-IsSound : IsSound twelve_blocks 4 one_block_file.addrs
one_block_file-IsSound = disk-IsSound (λ _. 7)

one_block_file-Fits : Fits one_block_file
one_block_file-Fits = record {
  type_fits = omega arith;
  major_fits = omega arith;
  minor_fits = omega arith;
  nlink_fits = omega arith;
  size_fits = omega arith;
  addrs_fit = λ i l. ground arith;
}

bmap_lem_example :
    (r : Fs × (ℕ → ℕ) × ℕ) × (bmap twelve_blocks one_block_file.addrs 20 ≡ ok r)
    × Kept twelve_blocks 4 one_block_file.addrs r.0 r.1
    × Answered r.0 r.1 (data_slot 20) r.2
bmap_lem_example =
    bmap_lem twelve_blocks 4 one_block_file.addrs 20 one_block_file-IsSound (omega arith)

-- A memory that holds its addresses, and calls that do not fail.
abbrev all_of_it : ℕ → ℕ → ℕ
all_of_it a n = n

readi-Delivered_example :
    (r : FileRead) × (readi all_of_it twelve_blocks one_block_file (λ _. 0) 100 3 50 ≡ ok r)
    × Kept twelve_blocks 4 one_block_file.addrs r.fs r.addrs
    × Delivered all_of_it twelve_blocks one_block_file.addrs (λ _. 0) 100 3 (min 50 (10 - 3)) 0 r
readi-Delivered_example =
    readi-Delivered all_of_it twelve_blocks 4 one_block_file (λ _. 0) 100 3 50
      one_block_file-IsSound (omega arith) (omega arith)

writei-Saved_example :
    ((writei all_of_it twelve_blocks one_block_file (λ a. a) 70 8 6
        ≡ ok (twelve_blocks, one_block_file, none))
      × ((10 < 8) ⊎ (max_bytes < 8 + 6)))
    ⊎ ((8 ≤ 10)
        × (8 + 6 ≤ max_bytes)
        × (s' : Fs) × (ip' : Inode) × (tot : ℕ) × (writei all_of_it twelve_blocks one_block_file
              (λ a. a)
              70
              8
              6
            ≡ ok (s', ip', some tot))
        × Saved all_of_it twelve_blocks 4 one_block_file (λ a. a) 70 8 6 s' ip' tot)
writei-Saved_example =
    writei-Saved all_of_it twelve_blocks 4 one_block_file (λ a. a) 70 8 6 (λ d m. omega arith)
      one_block_file-IsSound one_block_file-Fits (omega arith) (omega arith)

-- The disk and the inode after the write of six bytes at 8.
abbrev after_write : Fs × Inode × Option ℕ
after_write = elim (writei all_of_it twelve_blocks one_block_file (λ a. a) 70 8 6) [
  | ok r ↦ r
  | panic message ↦ (twelve_blocks, one_block_file, none)
]

write_run :
    (writei all_of_it twelve_blocks one_block_file (λ a. a) 70 8 6
      ≡ ok (after_write.0, after_write.1, some 6))
    × (after_write.1.size ≡ 14)
    × (after_write.0.blocks 4 13 ≡ 75)
unfolding writei write_blocks bmap direct iupdate
write_run = (refl, refl, refl)

readi-writei_example :
    (r : FileRead) × (t : ℕ) × (readi all_of_it after_write.0 after_write.1 (λ _. 0) 200 8 6 ≡ ok r)
    × (r.result ≡ some t)
    × ((i : ℕ) → i < t → r.mem (200 + i) ≡ 70 + i)
    × ((t ≡ 6) ⊎ IsFull r.fs)
readi-writei_example =
    readi-writei all_of_it all_of_it twelve_blocks 4 one_block_file (λ a. a) (λ _. 0) 70 200 8 6
      after_write.0 after_write.1 6 (λ d m. omega arith) (λ d m. refl) one_block_file-IsSound
      one_block_file-Fits (omega arith) (omega arith) (omega arith) write_run.0

-- The entry of the same inode before it is read.
abbrev unread : Inode
unread = record one_block_file { valid = false; type = 9; size = 0; nlink = 0 }

ilock_locked-iupdate_example :
    (jp' : Inode) × (ilock_locked (iupdate twelve_blocks one_block_file) unread ≡ ok jp')
    × SameDinode one_block_file jp'
    × (jp'.valid ≡ true)
    × (jp'.dev ≡ 1)
    × (jp'.inum ≡ 5)
    × (jp'.ref ≡ 1)
    × (jp'.lock ≡ initsleeplock)
ilock_locked-iupdate_example =
    ilock_locked-iupdate twelve_blocks one_block_file unread one_block_file-Fits (omega arith) refl
      refl

itrunc-Emptied_example :
    (s' : Fs) × (ip' : Inode) × (itrunc twelve_blocks one_block_file ≡ ok (s', ip'))
    × Emptied twelve_blocks 4 one_block_file s' ip'
itrunc-Emptied_example =
    itrunc-Emptied twelve_blocks 4 one_block_file one_block_file-IsSound one_block_file-Fits
      (omega arith)
