-- ===== src/Fs/Dirs/Iput.antt =====
-- What iput of kernel/fs.c does to an inode and to the disk.
use mini_os_design.Common.{
  ℕ, ◌+◌, ◌-◌, ◌/◌, ◌<◌, ◌≡◌, ◌≢◌, true, false, ◌&&◌, ◌==◌, refl, sym, ap, ◌∙◌, arith, Bool-cases,
  inl, inr, ◌⊎◌, ok, List,
}
use mini_os_design.Fs.{Fs, bblock}
use mini_os_design.Fs.Bitmap.{used}
use mini_os_design.Fs.Itable.{Inode, at_inode}
use mini_os_design.Fs.Dinode.{iblock, iupdate, read_dinode}
use mini_os_design.Fs.Dinode.Stored.{Fits, read_dinode-iupdate}
use mini_os_design.Fs.Slots.{block_of, slots, IsLaid, IsSound}
use mini_os_design.Fs.Slots.Updated.{iupdate-used, iupdate-IsSound, iupdate-other}
use mini_os_design.Fs.Trunc.Emptied.{Emptied, itrunc-Emptied}
use mini_os_design.Fs.Dirs.{iput}
use mini_os_design.Locks.{releasesleep}

-- The inode `ip` is free on disk, and so are all the blocks that were its.
pub record Gone (s : Fs) (nmeta : ℕ) (ip : Inode) (s' : Fs) : Type 0 where
  pub laid : IsLaid s' nmeta
  pub freed :
      (k : ℕ) → k < slots → block_of s ip.addrs k ≢ 0 → used s' (block_of s ip.addrs k) ≡ false
  pub kept :
      (c : ℕ)
      → c < s.size
      → ((k : ℕ) → k < slots → block_of s ip.addrs k ≢ 0 → block_of s ip.addrs k ≢ c)
      → used s' c ≡ used s c
  pub blocks :
      (c : ℕ)
      → ((b : ℕ) → b < s.size → bblock s b ≢ c)
      → c ≢ iblock s ip.inum
      → s'.blocks c ≡ s.blocks c
  pub free :
      (jp : Inode)
      → jp.inum ≡ ip.inum
      → ((read_dinode s' jp).type ≡ 0) × ((read_dinode s' jp).size ≡ 0)

gone :
    (s s₁ : Fs) (nmeta : ℕ) (ip ip₁ : Inode)
    → IsSound s nmeta ip.addrs
    → Emptied s nmeta ip s₁ ip₁
    → Fits ip
    → ip.inum < s.ninodes
    → Gone s nmeta ip (iupdate s₁ (record ip₁ { type = 0 }))
gone s s₁ nmeta ip ip₁ v d f known =
    let ip' : Inode = record ip₁ { type = 0 } in
    let (e₀, e₁, e₂, _) = d.layout in
    let same_inum : ip₁.inum ≡ ip.inum = ap (λ (p : Inode). p.inum) d.same in
    let known' : ip'.inum < s₁.ninodes = rw (same_inum, e₁) known in
    let fits : Fits ip' = record {
      type_fits = omega arith;
      major_fits = rw (ap (λ (p : Inode). p.major) d.same) f.major_fits;
      minor_fits = rw (ap (λ (p : Inode). p.minor) d.same) f.minor_fits;
      nlink_fits = rw (ap (λ (p : Inode). p.nlink) d.same) f.nlink_fits;
      size_fits = rw (ap (λ (p : Inode). p.size) d.same) (omega arith);
      addrs_fit = λ i l. (let q = d.none_left i l in omega (arith, q));
    } in
    record {
      laid = (iupdate-IsSound s₁ nmeta ip₁.addrs d.sound ip' known').laid;
      freed = λ k l n.
          let (_, hi, _) = v.in_use k l n in
          iupdate-used s₁ nmeta ip₁.addrs d.sound ip' known' (block_of s ip.addrs k) (rw e₀ hi)
          ∙ d.freed k l n;
      kept = λ c l h. iupdate-used s₁ nmeta ip₁.addrs d.sound ip' known' c (rw e₀ l) ∙ d.kept c l h;
      blocks = λ c m n.
          iupdate-other s₁ nmeta ip₁.addrs d.sound ip' known' c (λ e.
            n (e ∙ ap (λ x. ip₁.inum / 16 + x) e₂ ∙ ap (λ x. x / 16 + s.inodestart) same_inum))
          ∙ d.blocks c m n;
      free = λ jp j.
          let r = read_dinode-iupdate s₁ ip' jp fits (j ∙ sym same_inum) in
          (r.same_type, r.same_size ∙ ap (λ (p : Inode). p.size) d.same);
    }

not_last :
    (ip : Inode)
    → (ip.ref == 1 && ip.valid && ip.nlink == 0) ≡ false
    → (ip.ref ≢ 1) ⊎ (ip.valid ≡ false) ⊎ (ip.nlink ≢ 0)
not_last ip h = elim (Bool-cases (ip.ref == 1)) [
  | inr a ↦ inl (ground (arith, a))
  | inl a ↦ elim (Bool-cases ip.valid) [
    | inr b ↦ inr (inl b)
    | inl b ↦ inr (inr (ground (arith, a, b, h)))
  ]
]

-- For an inode that fits its fields on disk, iput of its last reference, where it is valid and has
-- no links, frees it and its blocks on disk and leaves the entry of the table with no reference and
-- not valid, and every other mark, block but the inode's and the free map, and entry is as before;
-- any other iput drops one reference and changes nothing else.
pub iput_lem :
    (s : Fs) (nmeta : ℕ) (t : List Inode) (i : ℕ) (ip : Inode)
    → IsSound s nmeta ip.addrs
    → Fits ip
    → ip.inum < s.ninodes
    → ((ip.ref ≡ 1)
        × (ip.valid ≡ true)
        × (ip.nlink ≡ 0)
        × (s' : Fs) × (ip' : Inode) × (iput s t i ip ≡ ok (s', at_inode i (λ _. ip') t))
        × (ip'.ref ≡ 0)
        × (ip'.valid ≡ false)
        × Gone s nmeta ip s')
      ⊎ (((ip.ref ≢ 1) ⊎ (ip.valid ≡ false) ⊎ (ip.nlink ≢ 0))
          × (iput s t i ip ≡ ok (s, at_inode i (λ p. record p { ref = p.ref - 1 }) t)))
unfolding iput
iput_lem s nmeta t i ip v f known = elim (Bool-cases (ip.ref == 1 && ip.valid && ip.nlink == 0)) [
  | inr h ↦ inr (not_last ip h, rw (iput, h) refl)
  | inl h ↦
      let (s₁, ip₁, e, d) = itrunc-Emptied s nmeta ip v f known in
      let one : ip.ref ≡ 1 = ground (arith, h) in
      inl (
        one,
        ground (arith, h),
        ground (arith, h),
        iupdate s₁ (record ip₁ { type = 0 }),
        record ip₁ { type = 0; valid = false; lock = releasesleep ip.lock; ref = ip₁.ref - 1 },
        rw (iput, h, e) refl,
        (let q : ip₁.ref ≡ ip.ref = ap (λ (p : Inode). p.ref) d.same in omega (arith, q, one)),
        refl,
        gone s s₁ nmeta ip ip₁ v d f known,
      )
]
