-- ===== src/Fs/DirTests.antt =====
-- Concrete runs of the directories of kernel/fs.c.
use mini_os_design.Common.{
  ℕ, ◌≡◌, true, false, ◌==◌, if◌then◌else◌, Bool, refl, arith, ◌⊎◌, ok, none, some, Option, Outcome,
  panic, ◌-◌, ◌≢◌, [], ◌∷◌, ◌>>=◌, ◌≤◌, ◌<◌,
}
use mini_os_design.Fs.{Fs}
use mini_os_design.Fs.Bmap.{bmap, direct}
use mini_os_design.Fs.Itable.{Inode, at_inode, iget}
use mini_os_design.Fs.Dinode.{iupdate}
use mini_os_design.Fs.Slots.{byte, max_bytes, IsSound}
use mini_os_design.Fs.Dinode.Stored.{Fits}
use mini_os_design.Fs.Transfer.Reading.{IsFull}
use mini_os_design.Fs.Transfer.{readi, read_blocks, writei, write_blocks}
use mini_os_design.Fs.Dirs.{
  same_name, find_name, lookup_from, read_entry, add_entry, empty_from, iput,
}
use mini_os_design.Fs.Dirs.Entries.{Looked, LookupCut, find_name-Looked}
use mini_os_design.Fs.Dirs.Vacancy.{ScanCut}
use mini_os_design.Fs.Dirs.Linked.{Added, add_entry-Added}
use mini_os_design.Fs.Dirs.Iput.{Gone, iput_lem}
use mini_os_design.Fs.Dinode.Ialloc.{Made, type_on_disk, free_inode, ialloc, ialloc-Made}
use mini_os_design.Fs.Dirs.Relookup.{find_name-add_entry}
use mini_os_design.Fs.FileTests.{disk, one_block_file, disk-IsSound}

-- The root directory with its entry ".".
abbrev root_disk : Fs
root_disk = disk (λ i. if i == 0 then 1 else if i == 2 then 46 else 0)

abbrev root : Inode
root = record one_block_file { type = 1; size = 16; inum = 1 }

root-Fits : Fits root
root-Fits = record {
  type_fits = omega arith;
  major_fits = omega arith;
  minor_fits = omega arith;
  nlink_fits = omega arith;
  size_fits = omega arith;
  addrs_fit = λ i l. ground arith;
}

root-IsSound : IsSound root_disk 4 root.addrs
root-IsSound = disk-IsSound (λ i. if i == 0 then 1 else if i == 2 then 46 else 0)

-- "." and "ab"
abbrev dot_name : ℕ → ℕ
dot_name i = if i == 0 then 46 else 0

abbrev ab_name : ℕ → ℕ
ab_name i = if i == 0 then 97 else if i == 1 then 98 else 0

find_name-Looked_example :
    Looked root_disk 4 root
      (byte root_disk root.addrs)
      dot_name
      0
      (find_name root_disk root dot_name)
find_name-Looked_example =
    find_name-Looked root_disk 4 root dot_name refl root-IsSound (omega arith) refl

abbrev without : Outcome (Fs × Inode × Option (ℕ × ℕ)) → Fs × Inode
without (ok r) = (r.0, r.1)
without (panic message) = (root_disk, root)

abbrev looked_up : Fs × Inode
looked_up = without (find_name root_disk root ab_name)

find_name_run :
    (find_name root_disk root ab_name ≡ ok (looked_up.0, looked_up.1, none))
    × (find_name root_disk root dot_name ≡ ok (looked_up.0, looked_up.1, some (1, 0)))
unfolding find_name lookup_from read_entry readi read_blocks bmap direct same_name
find_name_run = (refl, refl)

abbrev with_ab : Outcome (Fs × Inode × Bool) → Fs × Inode
with_ab (ok r) = (r.0, r.1)
with_ab (panic message) = (root_disk, root)

abbrev linked : Fs × Inode
linked = with_ab (add_entry looked_up.0 looked_up.1 ab_name 7)

add_entry_run :
    (add_entry looked_up.0 looked_up.1 ab_name 7 ≡ ok (linked.0, linked.1, true))
    × (linked.1.size ≡ 32)
unfolding add_entry empty_from read_entry readi read_blocks writei write_blocks bmap direct
    find_name lookup_from same_name iupdate
add_entry_run = (refl, refl)

add_entry-Added_example :
    ((add_entry root_disk root ab_name 7 ≡ panic "dirlink read") × ScanCut root_disk root 0)
    ⊎ ((s' : Fs) × (dp' : Inode) × (add_entry root_disk root ab_name 7 ≡ ok (s', dp', false))
        × IsSound s' 4 dp'.addrs
        × ((◌≡◌ {A = ℕ} 16 max_bytes) ⊎ IsFull s'))
    ⊎ ((s' : Fs) × (dp' : Inode) × (add_entry root_disk root ab_name 7 ≡ ok (s', dp', true))
        × Added root_disk 4 root ab_name 7 s' dp')
add_entry-Added_example =
    add_entry-Added root_disk 4 root ab_name 7 root-IsSound root-Fits (omega arith) (omega arith)
      refl (omega arith)

find_name-add_entry_example :
    ((find_name linked.0 linked.1 ab_name ≡ panic "dirlookup read")
      × LookupCut linked.0 linked.1 ab_name 0)
    ⊎ ((t : Fs) × (tp : Inode) × (off : ℕ) × (find_name linked.0 linked.1 ab_name
          ≡ ok (t, tp, some (7, off))))
find_name-add_entry_example =
    find_name-add_entry root_disk looked_up.0 linked.0 4 root looked_up.1 linked.1 ab_name 7
      root-IsSound root-Fits (omega arith) refl (omega arith) refl (omega arith) (omega arith)
      find_name_run.0 add_entry_run.0

-- The last reference to a file of no links.
abbrev unlinked : Inode
unlinked = record root { type = 2; nlink = 0 }

unlinked-Fits : Fits unlinked
unlinked-Fits = record {
  type_fits = omega arith;
  major_fits = omega arith;
  minor_fits = omega arith;
  nlink_fits = omega arith;
  size_fits = omega arith;
  addrs_fit = λ i l. ground arith;
}

iput_lem_example :
    ((◌≡◌ {A = ℕ} 1 1)
      × (true ≡ true)
      × (◌≡◌ {A = ℕ} 0 0)
      × (s' : Fs) × (ip' : Inode) × (iput root_disk (unlinked ∷ []) 0 unlinked
          ≡ ok (s', at_inode 0 (λ _. ip') (unlinked ∷ [])))
      × (ip'.ref ≡ 0)
      × (ip'.valid ≡ false)
      × Gone root_disk 4 unlinked s')
    ⊎ (((◌≢◌ {A = ℕ} 1 1) ⊎ (true ≡ false) ⊎ (◌≢◌ {A = ℕ} 0 0))
        × (iput root_disk (unlinked ∷ []) 0 unlinked
            ≡ ok (root_disk, at_inode 0 (λ p. record p { ref = p.ref - 1 }) (unlinked ∷ []))))
iput_lem_example =
    iput_lem root_disk 4 (unlinked ∷ []) 0 unlinked root-IsSound unlinked-Fits (omega arith)

ialloc-Made_example :
    ((ialloc root_disk (unlinked ∷ []) 1 2 ≡ ok (root_disk, unlinked ∷ [], none))
      × ((i : ℕ) → 1 ≤ i → i < 16 → type_on_disk root_disk i ≢ 0))
    ⊎ ((s' : Fs) × (inum : ℕ) × Made root_disk s' inum 2
        × (ialloc root_disk (unlinked ∷ []) 1 2
            ≡ (iget (unlinked ∷ []) 1 inum >>= λ x. ok (s', x.0, some x.1))))
ialloc-Made_example = ialloc-Made root_disk (unlinked ∷ []) 1 2 (omega arith)

free_inode_run : free_inode root_disk 1 15 ≡ some 1
unfolding free_inode
free_inode_run = refl
