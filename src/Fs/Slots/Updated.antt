-- ===== src/Fs/Slots/Updated.antt =====
-- What iupdate of kernel/fs.c keeps of a file.
use mini_os_design.Common.{ℕ, ◌%◌, ◌<◌, ◌≡◌, ◌≢◌, false, ◌==◌, refl, sym, arith}
use mini_os_design.Fs.{Fs, bblock}
use mini_os_design.Fs.Bitmap.{used}
use mini_os_design.Fs.Bmap.{ndirect}
use mini_os_design.Fs.Itable.{Inode}
use mini_os_design.Fs.Dinode.{iblock, put_dinode, iupdate}
use mini_os_design.Fs.Slots.{block_of, slots, byte, max_bytes, IsSound, IsForeign, SameLayout}
use mini_os_design.Fs.Slots.Overwrite.{same_used, same-IsSound, same_bytes, same-IsForeign}

-- `addrs` are those of the inode `ip` or of any other.
module _ (s : Fs) (nmeta : ℕ) (addrs : ℕ → ℕ) (v : IsSound s nmeta addrs) (ip : Inode)
    (known : ip.inum < s.ninodes) where
  abbrev here : ℕ
  here = iblock s ip.inum

  abbrev new_block : ℕ → ℕ
  new_block = put_dinode (s.blocks here) (ip.inum % 16) ip

  no_map : (c : ℕ) → c < s.size → bblock s c ≢ here
  no_map c h e = v.laid.disjoint ip.inum c known h (sym e)

  no_slot : (j : ℕ) → j < slots → block_of s addrs j ≢ 0 → block_of s addrs j ≢ here
  no_slot j l n e =
      let i = v.laid.inodes ip.inum known in let (a, _, _) = v.in_use j l n in omega (arith, e)

  no_index : addrs ndirect ≢ 0 → here ≢ addrs ndirect
  no_index n e = no_slot ndirect (omega arith) n (sym e)

  pub iupdate-IsSound : IsSound (iupdate s ip) nmeta addrs
  unfolding iupdate
  iupdate-IsSound = same-IsSound s nmeta addrs v here new_block no_map no_index

  pub iupdate-bytes : (x : ℕ) → x < max_bytes → byte (iupdate s ip) addrs x ≡ byte s addrs x
  unfolding iupdate
  iupdate-bytes x l = same_bytes s nmeta addrs v here new_block no_map no_index no_slot x l

  pub iupdate-IsForeign :
      (c : ℕ)
      → IsForeign s addrs c
      → IsForeign (iupdate s ip) addrs c × (c ≢ here → (iupdate s ip).blocks c ≡ s.blocks c)
  unfolding iupdate
  iupdate-IsForeign c f = (
    same-IsForeign s nmeta addrs v here new_block no_map no_index c f,
    λ n. (let z : (c == here) ≡ false = ground (arith, n) in rw z refl),
  )

  pub iupdate-used : (c : ℕ) → c < s.size → used (iupdate s ip) c ≡ used s c
  unfolding iupdate
  iupdate-used c l = same_used s nmeta addrs v here new_block no_map no_index c l

  pub iupdate_layout : SameLayout s (iupdate s ip)
  unfolding iupdate
  iupdate_layout = (refl, refl, refl, refl)

  pub iupdate-other : (c : ℕ) → c ≢ iblock s ip.inum → (iupdate s ip).blocks c ≡ s.blocks c
  unfolding iupdate
  iupdate-other c n = let z : (c == here) ≡ false = ground (arith, n) in rw z refl
