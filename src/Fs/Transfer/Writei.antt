-- ===== src/Fs/Transfer/Writei.antt =====
-- What writei of kernel/fs.c writes, and readi reads back.
use mini_os_design.Common.{
  ℕ, ◌+◌, ◌*◌, ◌/◌, ◌%◌, ◌^◌, ◌≤◌, ◌<◌, ◌≡◌, ◌≢◌, true, false, ◌||◌, ◌==◌, leb, ltb, if◌then◌else◌,
  refl, sym, ap, ◌∙◌, arith, Bool-cases, inl, inr, ◌⊎◌, ok, none, some,
}
use mini_os_design.Fs.{Fs, bsize}
use mini_os_design.Fs.Itable.{Inode}
use mini_os_design.Fs.Dinode.{iblock, iupdate, read_dinode}
use mini_os_design.Fs.Slots.{block_of, byte, max_bytes, IsSound, IsForeign, SameLayout}
use mini_os_design.Fs.Dinode.Stored.{Fits, SameDinode, read_dinode-iupdate}
use mini_os_design.Fs.Slots.Updated.{
  iupdate-IsSound, iupdate-bytes, iupdate-IsForeign, iupdate-used, iupdate_layout,
}
use mini_os_design.Fs.Slots.Preserved.{SameLayout-trans}
use mini_os_design.Fs.Transfer.{put_bytes, Written, write_blocks, finish, writei}
use mini_os_design.Fs.Transfer.Reading.{IsFull}
use mini_os_design.Fs.Transfer.Failed.{FailedAt}
use mini_os_design.Fs.Transfer.Writing.{Wrote}
use mini_os_design.Fs.Transfer.WriteLoop.{write_all}

-- A write to the file `ip` at `off` that counts `tot` of `n` bytes leaves the file `ip'`.
pub record Saved (have : ℕ → ℕ → ℕ) (s : Fs) (nmeta : ℕ) (ip : Inode) (mem : ℕ → ℕ) (src off n : ℕ)
    (s' : Fs) (ip' : Inode) (tot : ℕ) : Type 0 where
  pub amount : ℕ
  pub enough : tot ≤ amount
  pub most : amount ≤ n
  pub sound : IsSound s' nmeta ip'.addrs
  pub layout : SameLayout s s'
  pub bytes :
      (x : ℕ)
      → x < max_bytes
      → byte s' ip'.addrs x ≡ put_bytes (byte s ip.addrs) off (λ i. mem (src + i)) amount x
  pub length : ip'.size ≡ (if ltb ip.size (off + tot) then off + tot else ip.size)
  pub same : ip' ≡ record ip { addrs = ip'.addrs; size = ip'.size }
  pub stored : (jp : Inode) → jp.inum ≡ ip.inum → SameDinode ip' (read_dinode s' jp)
  pub stop : ((amount ≡ tot) × ((tot ≡ n) ⊎ IsFull s')) ⊎ FailedAt have src off n 0 tot
  pub foreign :
      (c : ℕ)
      → IsForeign s ip.addrs c
      → c ≢ iblock s ip.inum
      → IsForeign s' ip'.addrs c × (s'.blocks c ≡ s.blocks c)

-- writei goes through its loop.
writei_lem :
    (have : ℕ → ℕ → ℕ) (s : Fs) (ip : Inode) (mem : ℕ → ℕ) (src off n : ℕ) (w : Written)
    → off ≤ ip.size
    → off + n ≤ max_bytes
    → write_blocks n have s ip.addrs mem src off n 0 ≡ ok w
    → writei have s ip mem src off n ≡ ok (finish ip w)
unfolding writei
writei_lem have s ip mem src off n w l b e =
    let z : (off + n) % 2 ^ 32 ≡ off + n = omega arith in
    let z' : (ltb ip.size off || ltb (off + n) off) ≡ false = ground arith in
    let z'' : ltb (268 * bsize) (off + n) ≡ false = ground arith in rw (writei, z, z', z'', e) refl

finish-Fits :
    (s : Fs) (nmeta : ℕ) (ip : Inode) (w : Written)
    → Fits ip
    → IsSound s nmeta w.addrs
    → w.off ≤ max_bytes
    → Fits (finish ip w).1
finish-Fits s nmeta ip w f v l = record {
  type_fits = f.type_fits;
  major_fits = f.major_fits;
  minor_fits = f.minor_fits;
  nlink_fits = f.nlink_fits;
  size_fits = (let q = f.size_fits in ground (arith, q));
  addrs_fit = λ i h. elim (Bool-cases (w.addrs i == 0)) [
    | inl z ↦ ground (arith, z)
    | inr z ↦
        let d : leb i 12 ≡ true = ground arith in
        let q : block_of s w.addrs i ≡ w.addrs i = rw d refl in
        let (_, b, _) =
          v.in_use i (omega arith)
            (λ e. (let e' : w.addrs i ≡ 0 = sym q ∙ e in ground (arith, z, e'))) in
        let y = v.laid.small in omega (arith, q, b, y)
  ];
}

finish-Saved :
    (have : ℕ → ℕ → ℕ) (s : Fs) (nmeta : ℕ) (ip : Inode) (mem : ℕ → ℕ) (src off n : ℕ) (w : Written)
    → Fits ip
    → ip.inum < s.ninodes
    → off + n ≤ max_bytes
    → Wrote have s nmeta ip.addrs mem src off n 0 w
    → Saved have s nmeta ip mem src off n (finish ip w).0 (finish ip w).1 w.tot
finish-Saved have s nmeta ip mem src off n w f known le d =
    let ip' = (finish ip w).1 in
    let r = d.held in
    let known' : ip'.inum < w.fs.ninodes = rw (r.layout.1) known in
    let ly = iupdate_layout w.fs nmeta w.addrs r.sound ip' known' in
    let mv = d.moved in
    let en = d.enough in
    let mo = d.most in
    record {
      amount = d.amount;
      enough = omega arith;
      most = omega arith;
      sound = iupdate-IsSound w.fs nmeta w.addrs r.sound ip' known';
      layout = SameLayout-trans s w.fs (iupdate w.fs ip') r.layout ly;
      bytes = λ x l. iupdate-bytes w.fs nmeta w.addrs r.sound ip' known' x l ∙ r.bytes x l;
      length = (let q : w.off ≡ off + w.tot = omega (arith, mv) in rw q refl);
      same = refl;
      stored = λ jp j.
          read_dinode-iupdate w.fs ip' jp
            (finish-Fits w.fs nmeta ip w f r.sound (omega (arith, mv, en, mo))) j;
      stop = elim d.stop [
        | inl (q, inl e) ↦ inl (omega (arith, q), inl e)
        | inl (q, inr full) ↦ inl (
          omega (arith, q),
          inr (λ c l.
              let l' : c < w.fs.size = omega (arith, l, ly.0) in
              iupdate-used w.fs nmeta w.addrs r.sound ip' known' c l' ∙ full c l'),
        )
        | inr z ↦ inr z
      ];
      foreign = λ c y n'.
          let (y', q) = r.foreign c y in
          let (y'', q') = iupdate-IsForeign w.fs nmeta w.addrs r.sound ip' known' c y' in
          (y'', q' (λ e. n' (e ∙ ap (λ x. ip.inum / 16 + x) r.layout.2)) ∙ q);
    }

-- For a file whose inode fits its fields on disk, with off and n whose sum a uint holds, and where
-- no load gives more than is asked for, writei answers -1, changes nothing, and off is beyond the
-- end of the file or off + n beyond MAXFILE*BSIZE; or neither is, and it answers how many bytes it
-- wrote. The file then holds these in order from off on, and is otherwise as before; the size is
-- the old one or the end of the write; the inode on disk is the one in memory; the blocks that are
-- not of the file, but the inode's, stay. It wrote all n bytes, or no block is left, or the load of
-- the bytes that come next, up to the end of their block, comes short, and the bytes loaded by then
-- may be in the file too.
pub writei-Saved :
    (have : ℕ → ℕ → ℕ) (s : Fs) (nmeta : ℕ) (ip : Inode) (mem : ℕ → ℕ) (src off n : ℕ)
    → ((d m : ℕ) → have d m ≤ m)
    → IsSound s nmeta ip.addrs
    → Fits ip
    → ip.inum < s.ninodes
    → off + n < 2 ^ 32
    → ((writei have s ip mem src off n ≡ ok (s, ip, none))
        × ((ip.size < off) ⊎ (max_bytes < off + n)))
      ⊎ ((off ≤ ip.size)
          × (off + n ≤ max_bytes)
          × (s' : Fs) × (ip' : Inode) × (tot : ℕ) × (writei have s ip mem src off n
              ≡ ok (s', ip', some tot))
          × Saved have s nmeta ip mem src off n s' ip' tot)
unfolding writei
writei-Saved have s nmeta ip mem src off n am v f known u =
    let z : (off + n) % 2 ^ 32 ≡ off + n = omega arith in
    elim (Bool-cases (ltb ip.size off)) [
      | inl h ↦ inl (rw (writei, h) refl, inl (ground (arith, h)))
      | inr h ↦
          let o : ltb (off + n) off ≡ false = ground arith in
          elim (Bool-cases (ltb max_bytes (off + n))) [
            | inl g ↦ inl (rw (writei, h, z, o, g) refl, inr (ground (arith, g)))
            | inr g ↦
                let le : off ≤ ip.size = ground (arith, h) in
                let le' : off + n ≤ max_bytes = ground (arith, g) in
                let (w, e, d) = write_all have am nmeta n mem s ip.addrs src off v le' in
                let r = writei_lem have s ip mem src off n w le le' e in
                inr (
                  le,
                  le',
                  (finish ip w).0,
                  (finish ip w).1,
                  w.tot,
                  r,
                  finish-Saved have s nmeta ip mem src off n w f known le' d,
                )
          ]
    ]
