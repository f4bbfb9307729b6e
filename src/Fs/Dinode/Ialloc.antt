-- ===== src/Fs/Dinode/Ialloc.antt =====
-- ialloc of kernel/fs.c.
use mini_os_design.Common.{
  ◌>>=◌, ℕ, zero, suc, ◌+◌, ◌-◌, ◌*◌, ◌/◌, ◌%◌, ◌^◌, ◌≤◌, ◌<◌, ◌≡◌, ◌≢◌, false, ◌==◌, if◌then◌else◌,
  refl, arith, Bool-cases, Option-cases, inl, inr, ◌⊎◌, ok, List, Option, none, some, Outcome,
}
use mini_os_design.Locks.{initsleeplock}
use mini_os_design.Fs.{Fs}
use mini_os_design.Fs.Itable.{Inode, iget}
use mini_os_design.Fs.Dinode.{iblock, half_at, iupdate, read_dinode}
use mini_os_design.Fs.Dinode.Stored.{Fits, SameDinode, read_dinode-iupdate}

-- dip->type, for the inode `inum`.
abbrev pub type_on_disk : Fs → ℕ → ℕ
type_on_disk s inum = half_at (s.blocks (iblock s inum)) (32 * (inum % 16))

-- The struct dinode that memset clears, with its type.
abbrev cleared_inode : ℕ → ℕ → Inode
cleared_inode inum type = record {
  dev = 0;
  inum = inum;
  ref = 0;
  lock = initsleeplock;
  valid = false;
  type = type;
  major = 0;
  minor = 0;
  nlink = 0;
  size = 0;
  addrs = λ _. 0;
}

-- The loop of ialloc over the `n` inodes from `inum` on.
unfoldable pub free_inode : Fs → ℕ → ℕ → Option ℕ
free_inode s inum zero = none
free_inode s inum (suc n) =
    let later = free_inode s (inum + 1) n in if type_on_disk s inum == 0 then some inum else later

-- ialloc; its result is `none` for 0.
unfoldable pub ialloc : Fs → List Inode → ℕ → ℕ → Outcome (Fs × List Inode × Option ℕ)
unfolding free_inode
ialloc s t dev type = elim (free_inode s 1 (s.ninodes - 1)) [
  | none ↦ ok (s, t, none)
  | some inum ↦ (do x ← iget t dev inum; ok (iupdate s (cleared_inode inum type), x.0, some x.1))
]

free_inode-some :
    (n : ℕ) (s : Fs) (lo inum : ℕ)
    → free_inode s lo n ≡ some inum
    → (lo ≤ inum)
      × (inum < lo + n)
      × (type_on_disk s inum ≡ 0)
      × ((i : ℕ) → lo ≤ i → i < inum → type_on_disk s i ≢ 0)
unfolding free_inode
free_inode-some zero s lo inum e = cc
free_inode-some (suc n) s lo inum e = elim (Bool-cases (type_on_disk s lo == 0)) [
  | inl h ↦
      let e' : some lo ≡ some inum = rw (free_inode, h) at e in
      let q : lo ≡ inum = cc in
      (
        omega (arith, q),
        omega (arith, q),
        rw (← q) (ground (arith, h)),
        λ i a b. absurd (omega (arith, q)),
      )
  | inr h ↦
      let e' : free_inode s (lo + 1) n ≡ some inum = rw (free_inode, h) at e in
      let (a, b, c, d) = free_inode-some n s (lo + 1) inum e' in
      (
        omega arith,
        omega arith,
        c,
        λ i x y. elim (Bool-cases (lo == i)) [
          | inl k ↦ (let q : i ≡ lo = ground arith in rw q (ground (arith, h)))
          | inr k ↦ d i (ground (arith, k, x)) y
        ],
      )
]

free_inode-none :
    (n : ℕ) (s : Fs) (lo i : ℕ)
    → free_inode s lo n ≡ none
    → lo ≤ i
    → i < lo + n
    → type_on_disk s i ≢ 0
unfolding free_inode
free_inode-none zero s lo i e a b = absurd (omega arith)
free_inode-none (suc n) s lo i e a b = elim (Bool-cases (type_on_disk s lo == 0)) [
  | inl h ↦ (let e' : ◌≡◌ {A = Option ℕ} (some lo) none = rw (free_inode, h) at e in cc)
  | inr h ↦
      let e' : free_inode s (lo + 1) n ≡ none = rw (free_inode, h) at e in
      elim (Bool-cases (lo == i)) [
        | inl k ↦ (let q : i ≡ lo = ground arith in rw q (ground (arith, h)))
        | inr k ↦ free_inode-none n s (lo + 1) i e' (ground (arith, k, a)) (omega arith)
      ]
]

-- `inum` was the first free inode, and is now of the type, with no links, no bytes and no blocks.
pub record Made (s s' : Fs) (inum type : ℕ) : Type 0 where
  pub known : inum < s.ninodes
  pub was_free : type_on_disk s inum ≡ 0
  pub first : (i : ℕ) → 1 ≤ i → i < inum → type_on_disk s i ≢ 0
  pub now : (jp : Inode) → jp.inum ≡ inum → SameDinode (cleared_inode inum type) (read_dinode s' jp)
  pub others :
      (i o : ℕ)
      → i ≢ inum
      → o < 64
      → s'.blocks (iblock s i) (64 * (i % 16) + o) ≡ s.blocks (iblock s i) (64 * (i % 16) + o)

cleared_inode-Fits : (inum type : ℕ) → type < 2 ^ 16 → Fits (cleared_inode inum type)
cleared_inode-Fits inum type l = record {
  type_fits = l;
  major_fits = omega arith;
  minor_fits = omega arith;
  nlink_fits = omega arith;
  size_fits = omega arith;
  addrs_fit = λ i h. omega arith;
}

-- The struct dinode of another inode stays.
other_dinode :
    (s : Fs) (ip : Inode) (i o : ℕ)
    → i ≢ ip.inum
    → o < 64
    → (iupdate s ip).blocks (iblock s i) (64 * (i % 16) + o)
      ≡ s.blocks (iblock s i) (64 * (i % 16) + o)
unfolding iupdate
other_dinode s ip i o n l = elim (Bool-cases (iblock s i == iblock s ip.inum)) [
  | inr h ↦ rw h refl
  | inl h ↦
      let q : iblock s i ≡ iblock s ip.inum = ground arith in
      let z : ((64 * (i % 16) + o) / 64 == ip.inum % 16) ≡ false = ground (arith, q, n, l) in
      rw (h, z, q) refl
]

-- ialloc of a type that a short holds changes nothing and answers 0, and every inode from number 1
-- on is in use; or it takes the first of these that is free, writes it on disk with the type and
-- all else 0, leaves every other inode on disk as it was, and answers what iget answers for it.
pub ialloc-Made :
    (s : Fs) (t : List Inode) (dev type : ℕ)
    → type < 2 ^ 16
    → ((ialloc s t dev type ≡ ok (s, t, none))
        × ((i : ℕ) → 1 ≤ i → i < s.ninodes → type_on_disk s i ≢ 0))
      ⊎ ((s' : Fs) × (inum : ℕ) × Made s s' inum type
          × (ialloc s t dev type ≡ (iget t dev inum >>= λ x. ok (s', x.0, some x.1))))
unfolding ialloc
ialloc-Made s t dev type l = elim (Option-cases (free_inode s 1 (s.ninodes - 1))) [
  | inl e ↦
      inl (rw (ialloc, e) refl, λ i a b. free_inode-none (s.ninodes - 1) s 1 i e a (omega arith))
  | inr (inum, e) ↦
      let (a, b, c, d) = free_inode-some (s.ninodes - 1) s 1 inum e in
      inr (
        iupdate s (cleared_inode inum type),
        inum,
        record {
          known = omega arith;
          was_free = c;
          first = d;
          now = λ jp j.
              read_dinode-iupdate s (cleared_inode inum type) jp (cleared_inode-Fits inum type l) j;
          others = λ i o n h. other_dinode s (cleared_inode inum type) i o n h;
        },
        rw (ialloc, e) refl,
      )
]
