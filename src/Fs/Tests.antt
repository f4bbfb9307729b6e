-- ===== src/Fs/Tests.antt =====
-- Concrete runs of kernel/fs.c.
use mini_os_design.Common.{
  ℕ, zero, suc, ◌<◌, ◌≡◌, true, false, ◌&&◌, ◌==◌, if◌then◌else◌, none, some, refl, ap, arith, ◌⊎◌,
  Outcome, ok, panic, List, [], ◌∷◌, ◌++◌, take, map, replicate, get_elem?,
}
use mini_os_design.Fs.{Fs, bblock, balloc, alloc_from, free_bit, bzero}
use mini_os_design.Fs.Bitmap.{used, IsMapUsed, Allocated, balloc-Allocated}
use mini_os_design.Fs.Names.{skipelem, skip_slashes, element, path_names, dirsiz, slash}
use mini_os_design.Fs.Names.Paths.{render, path_names-render}
use mini_os_design.Fs.Bmap.{bmap, direct, indirect}
use mini_os_design.Fs.Itable.{Inode, is_empty_slot, iget}
use mini_os_design.Fs.Itable.Inodes.{IsUnique, Held, iget-Held}
use mini_os_design.Locks.{initsleeplock}

-- Ten blocks; block 2 is the free map, and blocks 0 to 4 are in use.
abbrev ten_blocks : Fs
ten_blocks = record {
  size = 10;
  ninodes = 0;
  inodestart = 1;
  bmapstart = 2;
  blocks = λ b i. if b == 2 && i == 0 then 31 else 0;
}

ten_blocks-IsMapUsed : IsMapUsed ten_blocks
ten_blocks-IsMapUsed b l = let e : bblock ten_blocks b ≡ 2 = omega arith in rw e (omega arith, refl)

balloc_run : (balloc ten_blocks).1 ≡ 5
unfolding balloc alloc_from free_bit bzero
balloc_run = refl

balloc-Allocated_example :
    ((s' : Fs) × (a : ℕ) × (balloc ten_blocks ≡ (s', a)) × Allocated ten_blocks s' a)
    ⊎ ((balloc ten_blocks ≡ (ten_blocks, 0)) × ((c : ℕ) → c < 10 → used ten_blocks c ≡ true))
balloc-Allocated_example = balloc-Allocated ten_blocks ten_blocks-IsMapUsed

-- The examples above skipelem.
skipelem_run :
    (skipelem (97 ∷ 47 ∷ 98 ∷ 98 ∷ 47 ∷ 99 ∷ []) ≡ some (97 ∷ [], 98 ∷ 98 ∷ 47 ∷ 99 ∷ []))
    × (skipelem (47 ∷ 47 ∷ 47 ∷ 97 ∷ 47 ∷ 47 ∷ 98 ∷ 98 ∷ []) ≡ some (97 ∷ [], 98 ∷ 98 ∷ []))
    × (skipelem (97 ∷ []) ≡ some (97 ∷ [], []))
    × (skipelem [] ≡ none)
    × (skipelem (47 ∷ 47 ∷ 47 ∷ 47 ∷ []) ≡ none)
unfolding skipelem skip_slashes element
skipelem_run = (refl, refl, refl, refl, refl)

-- "/usr//bin/"
path_names-render_example :
    path_names 5
      (replicate 1 slash ++ ((117 ∷ 115 ∷ 114 ∷ []) ++ render 1 ((1, 98 ∷ 105 ∷ 110 ∷ []) ∷ [])))
    ≡ take dirsiz (117 ∷ 115 ∷ 114 ∷ [])
      ∷ map (λ (x : ℕ × List ℕ). take dirsiz x.1) ((1, 98 ∷ 105 ∷ 110 ∷ []) ∷ [])
path_names-render_example =
    path_names-render 5 1 1 (117 ∷ 115 ∷ 114 ∷ []) ((1, 98 ∷ 105 ∷ 110 ∷ []) ∷ [])
      (omega arith, (omega arith, (omega arith, tt)))
      ((omega arith, (omega arith, (omega arith, tt))), tt) (omega arith)

-- What bmap leaves; the ten blocks and an empty file where it panics.
abbrev mapped : Outcome (Fs × (ℕ → ℕ) × ℕ) → Fs × (ℕ → ℕ) × ℕ
mapped (panic message) = (ten_blocks, (λ _. 0), 0)
mapped (ok r) = r

-- Block 20 of an empty file, behind the indirect block.
abbrev block_20 : Fs × (ℕ → ℕ) × ℕ
block_20 = mapped (bmap ten_blocks (λ _. 0) 20)

bmap_run : (bmap ten_blocks (λ _. 0) 20 ≡ ok block_20) × (block_20.2 ≡ 6)
unfolding bmap direct indirect balloc alloc_from free_bit bzero
bmap_run = (refl, refl)

abbrev no_inode : Inode
no_inode = record {
  dev = 0;
  inum = 0;
  ref = 0;
  lock = initsleeplock;
  valid = false;
  type = 0;
  major = 0;
  minor = 0;
  nlink = 0;
  size = 0;
  addrs = λ _. 0;
}

abbrev root_inode : Inode
root_inode = record no_inode { dev = 1; inum = 1; ref = 2 }

abbrev two_inodes : List Inode
two_inodes = root_inode ∷ no_inode ∷ []

two_inodes-IsUnique : IsUnique two_inodes
two_inodes-IsUnique zero zero p q g h s l = refl
two_inodes-IsUnique zero (suc zero) p q g h s l =
    (let e : no_inode ≡ q = cc in absurd (omega (arith, l, ap (λ (x : Inode). x.ref) e)))
two_inodes-IsUnique (suc zero) zero p q g h s l =
    (let e : no_inode ≡ p = cc in absurd (ground (arith, s, ap (λ (x : Inode). x.ref) e)))
two_inodes-IsUnique (suc zero) (suc zero) p q g h s l = refl
two_inodes-IsUnique (suc (suc i)) j p q g h s l = cc
two_inodes-IsUnique i (suc (suc j)) p q g h s l = cc

iget-Held_example :
    ((iget two_inodes 1 7 ≡ panic "iget: no inodes")
      × ((j : ℕ) (p : Inode) → get_elem? two_inodes j ≡ some p → is_empty_slot p ≡ false))
    ⊎ ((t' : List Inode) × (i : ℕ) × (iget two_inodes 1 7 ≡ ok (t', i)) × Held two_inodes t' i 1 7)
iget-Held_example = iget-Held two_inodes 1 7 two_inodes-IsUnique
