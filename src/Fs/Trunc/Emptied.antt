-- ===== src/Fs/Trunc/Emptied.antt =====
-- What itrunc of kernel/fs.c leaves.
use mini_os_design.Common.{
  ℕ, ◌+◌, ◌/◌, ◌<◌, ◌≡◌, ◌≢◌, true, false, ◌==◌, leb, Bool, refl, ap, ◌∙◌, arith, Bool-cases, inl,
  inr, ok,
}
use mini_os_design.Fs.{Fs, bblock}
use mini_os_design.Fs.Bitmap.{used}
use mini_os_design.Fs.Bmap.{ndirect}
use mini_os_design.Fs.Itable.{Inode}
use mini_os_design.Fs.Dinode.{iblock, iupdate, read_dinode}
use mini_os_design.Fs.Dinode.Stored.{Fits, SameDinode, read_dinode-iupdate}
use mini_os_design.Fs.Slots.{block_of, slots, IsLaid, IsSound, SameLayout}
use mini_os_design.Fs.Slots.Preserved.{SameLayout-trans}
use mini_os_design.Fs.Slots.Updated.{iupdate-used, iupdate-IsSound, iupdate-other, iupdate_layout}
use mini_os_design.Fs.Trunc.{free_direct, free_rest, itrunc}
use mini_os_design.Fs.Trunc.Freed.{Dropped}
use mini_os_design.Fs.Trunc.FileBlocks.{IsBlocks, free_lem}

-- The file `ip` is empty in `s'`, and its blocks are free.
pub record Emptied (s : Fs) (nmeta : ℕ) (ip : Inode) (s' : Fs) (ip' : Inode) : Type 0 where
  pub sound : IsSound s' nmeta ip'.addrs
  pub layout : SameLayout s s'
  pub same : ip' ≡ record ip { addrs = ip'.addrs; size = 0 }
  pub none_left : (k : ℕ) → k < 13 → ip'.addrs k ≡ 0
  pub freed :
      (k : ℕ) → k < slots → block_of s ip.addrs k ≢ 0 → used s' (block_of s ip.addrs k) ≡ false
  pub kept :
      (c : ℕ)
      → c < s.size
      → ((k : ℕ) → k < slots → block_of s ip.addrs k ≢ 0 → block_of s ip.addrs k ≢ c)
      → used s' c ≡ used s c
  pub blocks :
      (c : ℕ)
      → ((b : ℕ) → b < s.size → bblock s b ≢ c)
      → c ≢ iblock s ip.inum
      → s'.blocks c ≡ s.blocks c
  pub stored : (jp : Inode) → jp.inum ≡ ip.inum → SameDinode ip' (read_dinode s' jp)

no_slots :
    (s : Fs) (addrs : ℕ → ℕ) (k : ℕ) → ((i : ℕ) → i < 13 → addrs i ≡ 0) → block_of s addrs k ≡ 0
no_slots s addrs k h = elim (Bool-cases (leb k ndirect)) [
  | inl p ↦ rw p (h k (ground (arith, p)))
  | inr p ↦
      let z : (addrs ndirect == 0) ≡ true = ground (arith, h ndirect (omega arith)) in
      rw (p, z) refl
]

-- The blocks below nmeta stay in use.
Dropped-IsLaid :
    (s t : Fs) (nmeta : ℕ) (addrs : ℕ → ℕ) (gone : ℕ → Bool)
    → IsSound s nmeta addrs
    → Dropped s t gone
    → IsBlocks s addrs gone
    → IsLaid t nmeta
Dropped-IsLaid s t nmeta addrs gone v d g =
    let (e₀, e₁, e₂, e₃) = d.layout in
    let l = v.laid in
    record {
      maps = λ b h. (let m = l.maps b (rw e₀ at h) in rw e₃ m);
      inodes = λ i h. (let m = l.inodes i (rw e₁ at h) in rw e₂ m);
      disjoint = λ i b h h'. (let m = l.disjoint i b (rw e₁ at h) (rw e₀ at h') in rw (e₂, e₃) m);
      reserved = λ b h.
          let z =
            g.only b (λ k lk nz e. (let (lo, _, _) = v.in_use k lk nz in omega (arith, lo, e))) in
          d.marks b ∙ rw (l.reserved b h, z) refl;
      fits = rw e₀ l.fits;
      small = rw e₀ l.small;
    }

empty-IsSound :
    (t : Fs) (nmeta : ℕ) (addrs : ℕ → ℕ)
    → IsLaid t nmeta
    → ((i : ℕ) → i < 13 → addrs i ≡ 0)
    → IsSound t nmeta addrs
empty-IsSound t nmeta addrs l h = record {
  laid = l;
  in_use = λ k lk nz. absurd (nz (no_slots t addrs k h));
  apart = λ i j li lj e nz. absurd (nz (no_slots t addrs i h));
}

emptied :
    (s : Fs) (nmeta : ℕ) (ip : Inode) (t : Fs × (ℕ → ℕ)) (gone : ℕ → Bool)
    → IsSound s nmeta ip.addrs
    → Fits ip
    → ip.inum < s.ninodes
    → Dropped s t.0 gone
    → IsBlocks s ip.addrs gone
    → ((k : ℕ) → k < 13 → t.1 k ≡ 0)
    → Emptied s nmeta ip
        (iupdate t.0 (record ip { addrs = t.1; size = 0 }))
        (record ip { addrs = t.1; size = 0 })
emptied s nmeta ip t gone v f known d g z =
    let ip' : Inode = record ip { addrs = t.1; size = 0 } in
    let (e₀, e₁, e₂, e₃) = d.layout in
    let w = empty-IsSound t.0 nmeta t.1 (Dropped-IsLaid s t.0 nmeta ip.addrs gone v d g) z in
    let known' : ip.inum < t.0.ninodes = rw e₁ known in
    let fits : Fits ip' = record {
      type_fits = f.type_fits;
      major_fits = f.major_fits;
      minor_fits = f.minor_fits;
      nlink_fits = f.nlink_fits;
      size_fits = omega arith;
      addrs_fit = λ i l. (let q = z i l in omega (arith, q));
    } in
    record {
      sound = iupdate-IsSound t.0 nmeta t.1 w ip' known';
      layout =
          SameLayout-trans s t.0 (iupdate t.0 ip') d.layout
            (iupdate_layout t.0 nmeta t.1 w ip' known');
      same = refl;
      none_left = z;
      freed = λ k l nz.
          let (_, hi, u) = v.in_use k l nz in
          iupdate-used t.0 nmeta t.1 w ip' known' (block_of s ip.addrs k) (rw e₀ hi)
          ∙ d.marks (block_of s ip.addrs k)
          ∙ rw (u, g.all k l nz) refl;
      kept = λ c l h.
          iupdate-used t.0 nmeta t.1 w ip' known' c (rw e₀ l)
          ∙ d.marks c
          ∙ ground (arith, g.only c h);
      blocks = λ c m n.
          iupdate-other t.0 nmeta t.1 w ip' known' c (λ e. n (e ∙ ap (λ x. ip.inum / 16 + x) e₂))
          ∙ d.blocks c m;
      stored = λ jp j. read_dinode-iupdate t.0 ip' jp fits j;
    }

through_loops :
    (s : Fs) (ip : Inode) (r t : Fs × (ℕ → ℕ))
    → free_direct s ip.addrs 0 ndirect ≡ ok r
    → free_rest r.0 r.1 ≡ ok t
    → itrunc s ip
      ≡ ok (iupdate t.0 (record ip { addrs = t.1; size = 0 }), record ip { addrs = t.1; size = 0 })
unfolding itrunc
through_loops s ip r t e e' = rw (itrunc, e, e') refl

-- For a file whose inode fits its fields on disk, itrunc does not panic: the file is empty then, of
-- size 0 and with no block, in memory and on disk; its blocks are all free, the direct ones, the
-- indirect block and those in it, every other mark is as before, and all blocks but the inode's and
-- the free map stay.
pub itrunc-Emptied :
    (s : Fs) (nmeta : ℕ) (ip : Inode)
    → IsSound s nmeta ip.addrs
    → Fits ip
    → ip.inum < s.ninodes
    → (s' : Fs) × (ip' : Inode) × (itrunc s ip ≡ ok (s', ip')) × Emptied s nmeta ip s' ip'
itrunc-Emptied s nmeta ip v f known =
    let l = v.laid in
    let some_block : 0 < s.size =
      (let a = l.inodes ip.inum known in let b = l.fits in omega arith) in
    let (r, t, gone, e, e', d, g, z) = free_lem s nmeta ip.addrs v some_block in
    (
      iupdate t.0 (record ip { addrs = t.1; size = 0 }),
      record ip { addrs = t.1; size = 0 },
      through_loops s ip r t e e',
      emptied s nmeta ip t gone v f known d g z,
    )
