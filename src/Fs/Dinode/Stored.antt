-- ===== src/Fs/Dinode/Stored.antt =====
-- What iupdate of kernel/fs.c writes, and ilock reads.
use mini_os_design.Common.{
  ℕ, ◌+◌, ◌-◌, ◌*◌, ◌/◌, ◌%◌, ◌^◌, ◌<◌, ◌≡◌, ◌≢◌, true, false, ◌==◌, ltb, refl, ◌∙◌, arith, ok,
}
use mini_os_design.Fs.{Fs}
use mini_os_design.Fs.Bmap.{word_at}
use mini_os_design.Fs.Bmap.Contents.{words}
use mini_os_design.Fs.Itable.{Inode}
use mini_os_design.Fs.Dinode.{
  iblock, byte_of, half_at, short_field, dinode_byte, put_dinode, iupdate, read_dinode,
  ilock_locked,
}

-- The values of an inode fit the fields on disk.
pub record Fits (ip : Inode) : Type 0 where
  pub type_fits : ip.type < 2 ^ 16
  pub major_fits : ip.major < 2 ^ 16
  pub minor_fits : ip.minor < 2 ^ 16
  pub nlink_fits : ip.nlink < 2 ^ 16
  pub size_fits : ip.size < 2 ^ 32
  pub addrs_fit : (i : ℕ) → i < 13 → ip.addrs i < 2 ^ 32

put_at :
    (block : ℕ → ℕ) (n o : ℕ) (ip : Inode)
    → o < 64
    → put_dinode block n ip (64 * n + o) ≡ dinode_byte ip o
put_at block n o ip l =
    let q : (64 * n + o) / 64 ≡ n = omega arith in
    let q' : (64 * n + o) % 64 ≡ o = omega arith in
    let k : (n == n) ≡ true = ground arith in rw (q, q', k) refl

short_byte :
    (ip : Inode) (k r : ℕ)
    → k < 4
    → r < 2
    → dinode_byte ip (2 * k + r) ≡ byte_of (short_field ip k) r
short_byte ip k r l m =
    let q : (2 * k + r) / 2 ≡ k = omega arith in
    let q' : (2 * k + r) % 2 ≡ r = omega arith in
    let z : ltb (2 * k + r) 8 ≡ true = ground arith in rw (z, q, q') refl

size_byte : (ip : Inode) (r : ℕ) → r < 4 → dinode_byte ip (8 + r) ≡ byte_of ip.size r
size_byte ip r m =
    let q : (8 + r) % 4 ≡ r = omega arith in
    let z : ltb (8 + r) 8 ≡ false = ground arith in
    let z' : ltb (8 + r) 12 ≡ true = ground arith in rw (z, z', q) refl

addrs_byte :
    (ip : Inode) (i r : ℕ)
    → i < 13
    → r < 4
    → dinode_byte ip (12 + 4 * i + r) ≡ byte_of (ip.addrs i) r
addrs_byte ip i r l m =
    let q : (12 + 4 * i + r) % 4 ≡ r = omega arith in
    let q' : (12 + 4 * i + r - 12) / 4 ≡ i = omega arith in
    let z : ltb (12 + 4 * i + r) 8 ≡ false = ground arith in
    let z' : ltb (12 + 4 * i + r) 12 ≡ false = ground arith in rw (z, z', q, q') refl

half_put :
    (block : ℕ → ℕ) (n k : ℕ) (ip : Inode)
    → k < 4
    → short_field ip k < 2 ^ 16
    → half_at (put_dinode block n ip) (32 * n + k) ≡ short_field ip k
half_put block n k ip l f =
    let w = short_field ip k in
    let q : 2 * (32 * n + k) ≡ 64 * n + (2 * k + 0) = omega arith in
    let q' : 64 * n + (2 * k + 0) + 1 ≡ 64 * n + (2 * k + 1) = omega arith in
    let a : put_dinode block n ip (64 * n + (2 * k + 0)) ≡ w % 2 ^ 8 =
      put_at block n (2 * k + 0) ip (omega arith)
      ∙ short_byte ip k 0 l (omega arith)
      ∙ omega arith in
    let b : put_dinode block n ip (64 * n + (2 * k + 1)) ≡ w / 2 ^ 8 % 2 ^ 8 =
      put_at block n (2 * k + 1) ip (omega arith) ∙ short_byte ip k 1 l (omega arith) in
    rw (q, q', a, b) (omega arith)

-- A word of a struct dinode, from its four bytes.
word_put :
    (block : ℕ → ℕ) (n k w : ℕ) (ip : Inode)
    → k < 16
    → w < 2 ^ 32
    → ((r : ℕ) → r < 4 → dinode_byte ip (4 * k + r) ≡ byte_of w r)
    → word_at (put_dinode block n ip) (16 * n + k) ≡ w
word_put block n k w ip l f h =
    let at : (r : ℕ) → r < 4 → put_dinode block n ip (4 * (16 * n + k) + r) ≡ byte_of w r = λ r m.
      let q : 4 * (16 * n + k) + r ≡ 64 * n + (4 * k + r) = omega arith in
      rw q (put_at block n (4 * k + r) ip (omega arith) ∙ h r m) in
    let z : 4 * (16 * n + k) + 0 ≡ 4 * (16 * n + k) = omega arith in
    let raw : put_dinode block n ip (4 * (16 * n + k)) ≡ byte_of w 0 =
      rw z at (at 0 (omega arith)) in
    let first : put_dinode block n ip (4 * (16 * n + k)) ≡ w % 2 ^ 8 = omega (arith, raw) in
    words (put_dinode block n ip) (16 * n + k) w first (at 1 (omega arith)) (at 2 (omega arith))
      (at 3 (omega arith)) f

-- Two inodes agree on all that is on disk.
pub record SameDinode (ip ip' : Inode) : Type 0 where
  pub same_type : ip'.type ≡ ip.type
  pub same_major : ip'.major ≡ ip.major
  pub same_minor : ip'.minor ≡ ip.minor
  pub same_nlink : ip'.nlink ≡ ip.nlink
  pub same_size : ip'.size ≡ ip.size
  pub same_addrs : (i : ℕ) → i < 13 → ip'.addrs i ≡ ip.addrs i

pub read_dinode-iupdate :
    (s : Fs) (ip jp : Inode)
    → Fits ip
    → jp.inum ≡ ip.inum
    → SameDinode ip (read_dinode (iupdate s ip) jp)
unfolding read_dinode iupdate
read_dinode-iupdate s ip jp f e =
    let n = ip.inum % 16 in
    let b = s.blocks (iblock s ip.inum) in
    let k : (iblock s ip.inum == iblock s ip.inum) ≡ true = ground arith in
    let z : 32 * n + 0 ≡ 32 * n = omega arith in
    record {
      same_type = rw (e, k, ← z) (half_put b n 0 ip (omega arith) f.type_fits);
      same_major = rw (e, k) (half_put b n 1 ip (omega arith) f.major_fits);
      same_minor = rw (e, k) (half_put b n 2 ip (omega arith) f.minor_fits);
      same_nlink = rw (e, k) (half_put b n 3 ip (omega arith) f.nlink_fits);
      same_size =
          rw (e, k) (word_put b n 2 ip.size ip (omega arith) f.size_fits (λ r m. size_byte ip r m));
      same_addrs = λ i l.
          let t : ltb i 13 ≡ true = ground (arith, l) in
          let q : 16 * n + 3 + i ≡ 16 * n + (3 + i) = omega arith in
          rw (e, k, t, q)
            (word_put b n (3 + i) (ip.addrs i) ip (omega arith) (f.addrs_fit i l) (λ r m.
              let q' : 4 * (3 + i) + r ≡ 12 + 4 * i + r = omega arith in
              rw q' (addrs_byte ip i r l m)));
    }

-- An inode of a type other than 0 whose values fit their fields is read back as it was, after
-- iupdate, by ilock of an entry for the same inode that is not valid; the entry is valid then, and
-- keeps its device, number, references and lock.
pub ilock_locked-iupdate :
    (s : Fs) (ip jp : Inode)
    → Fits ip
    → ip.type ≢ 0
    → jp.inum ≡ ip.inum
    → jp.valid ≡ false
    → (jp' : Inode) × (ilock_locked (iupdate s ip) jp ≡ ok jp')
      × SameDinode ip jp'
      × (jp'.valid ≡ true)
      × (jp'.dev ≡ jp.dev)
      × (jp'.inum ≡ jp.inum)
      × (jp'.ref ≡ jp.ref)
      × (jp'.lock ≡ jp.lock)
unfolding ilock_locked read_dinode
ilock_locked-iupdate s ip jp f n e u =
    let d = read_dinode-iupdate s ip jp f e in
    let z : ((read_dinode (iupdate s ip) jp).type == 0) ≡ false = ground (arith, d.same_type, n) in
    (read_dinode (iupdate s ip) jp, rw (ilock_locked, u, z) refl, d, refl, refl, refl, refl, refl)
