-- ===== src/Fs/Dirs.antt =====
-- The directories of kernel/fs.c, and iput. A name is the bytes of its buffer; a pointer to an inode is its
-- index in the table. The calls of readi and writei are on memory of the kernel, where nothing fails.
pub mod Iput
pub mod Entries
pub mod Vacancy
pub mod Linking
pub mod Linked
pub mod Relookup
pub mod EntryRead
use mini_os_design.Common.{
  ◌>>=◌, ◌>>◌, ℕ, zero, suc, ◌+◌, ◌-◌, ◌/◌, true, false, not, ◌&&◌, ◌==◌, ltb, if◌then◌else◌, Bool,
  Option, none, some, Outcome, ok, panic, panic_if, List, get_or,
}
use mini_os_design.Locks.{releasesleep}
use mini_os_design.Fs.{Fs}
use mini_os_design.Fs.Itable.{Inode, iget, at_inode}
use mini_os_design.Fs.Dinode.{iupdate, half_at, byte_of}
use mini_os_design.Fs.Names.{dirsiz}
use mini_os_design.Fs.Transfer.{readi, writei}
use mini_os_design.Fs.Trunc.{itrunc}

-- T_DIR
abbrev pub t_dir : ℕ
t_dir = 1

-- sizeof(struct dirent)
abbrev pub dirent_size : ℕ
dirent_size = 16

abbrev pub in_full : ℕ → ℕ → ℕ
in_full a n = n

-- namecmp(s, t) == 0, on at most `n` bytes.
unfoldable pub same_name : ℕ → (ℕ → ℕ) → (ℕ → ℕ) → Bool
same_name zero s t = true
same_name (suc n) s t =
    let rest = same_name n (λ i. s (i + 1)) (λ i. t (i + 1)) in
    s 0 == t 0 && (if s 0 == 0 then true else rest)

-- The readi of one entry, and the test of its result.
unfoldable pub read_entry : Bool → Fs → Inode → ℕ → Outcome (Fs × Inode × (ℕ → ℕ))
read_entry linking s dp off = readi in_full s dp (λ _. 0) 0 off dirent_size >>= λ r. elim r.result [
  | none ↦ panic (if linking then "dirlink read" else "dirlookup read")
  | some t ↦
      if t == dirent_size
      then ok (r.fs, record dp { addrs = r.addrs }, r.mem)
      else panic (if linking then "dirlink read" else "dirlookup read")
]

-- The loop of dirlookup from `off` on, with at most `fuel` turns: the inode number and the offset.
unfoldable pub lookup_from : ℕ → Fs → Inode → (ℕ → ℕ) → ℕ → Outcome (Fs × Inode × Option (ℕ × ℕ))
lookup_from zero s dp name off = ok (s, dp, none)
lookup_from (suc fuel) s dp name off =
    let turn : Fs × Inode × (ℕ → ℕ) → Outcome (Fs × Inode × Option (ℕ × ℕ)) = λ r.
      let rest = lookup_from fuel r.0 r.1 name (off + dirent_size) in
      if half_at r.2 0 == 0
      then rest
      else if same_name dirsiz name (λ i. r.2 (i + 2))
      then ok (r.0, r.1, some (half_at r.2 0, off))
      else rest in
    if ltb off dp.size then read_entry false s dp off >>= turn else ok (s, dp, none)

-- dirlookup up to its iget; a directory has at most size/16 + 1 entries.
unfoldable pub find_name : Fs → Inode → (ℕ → ℕ) → Outcome (Fs × Inode × Option (ℕ × ℕ))
find_name s dp name = do
  panic_if (not (dp.type == t_dir)) "dirlookup not DIR"
  lookup_from (dp.size / dirent_size + 1) s dp name 0

-- dirlookup of the directory that the table has at `d`; the change of its inode is stored there.
unfoldable pub dirlookup :
    Fs → List Inode → ℕ → Inode → (ℕ → ℕ) → Outcome (Fs × List Inode × Option (ℕ × ℕ))
dirlookup s t d dp name = do
  r ← find_name s dp name
  let t' = at_inode d (λ p. record p { addrs = r.1.addrs }) t
  elim r.2 [
    | none ↦ ok (r.0, t', none)
    | some found ↦ (do x ← iget t' dp.dev found.0; ok (r.0, x.0, some (x.1, found.1)))
  ]

-- The loop of dirlink that looks for an empty entry, from `off` on.
unfoldable pub empty_from : ℕ → Fs → Inode → ℕ → Outcome (Fs × Inode × ℕ)
empty_from zero s dp off = ok (s, dp, off)
empty_from (suc fuel) s dp off =
    let turn : Fs × Inode × (ℕ → ℕ) → Outcome (Fs × Inode × ℕ) = λ r.
      let rest = empty_from fuel r.0 r.1 (off + dirent_size) in
      if half_at r.2 0 == 0 then ok (r.0, r.1, off) else rest in
    if ltb off dp.size then read_entry true s dp off >>= turn else ok (s, dp, off)

-- The bytes that strncpy makes of a name, after the first `n`: zeros from the first zero on.
unfoldable pub padded : (ℕ → ℕ) → ℕ → ℕ
padded name zero = name 0
padded name (suc i) = let rest = padded (λ j. name (j + 1)) i in if name 0 == 0 then 0 else rest

-- The new entry: de.inum and de.name.
abbrev pub new_entry : ℕ → (ℕ → ℕ) → ℕ → ℕ
new_entry inum name i = if ltb i 2 then byte_of inum i else padded name (i - 2)

-- dirlink after its dirlookup has found nothing; `true` for 0, `false` for -1.
unfoldable pub add_entry : Fs → Inode → (ℕ → ℕ) → ℕ → Outcome (Fs × Inode × Bool)
add_entry s dp name inum = do
  e ← empty_from (dp.size / dirent_size + 1) s dp 0
  w ← writei in_full e.0 e.1 (new_entry inum name) 0 e.2 dirent_size
  elim w.2 [ none ↦ ok (w.0, w.1, false) | some n ↦ ok (w.0, w.1, n == dirent_size) ]

-- iput of an entry with a reference, where its acquiresleep does not sleep.
unfoldable pub iput : Fs → List Inode → ℕ → Inode → Outcome (Fs × List Inode)
iput s t i ip =
    if ip.ref == 1 && ip.valid && ip.nlink == 0
    then (do
      r ← itrunc s ip
      let ip' : Inode = record r.1 { type = 0 }
      let s' = iupdate r.0 ip'
      ok (
        s',
        at_inode i
            (λ p. record ip' { valid = false; lock = releasesleep ip.lock; ref = ip'.ref - 1 }) t,
      ))
    else ok (s, at_inode i (λ p. record p { ref = p.ref - 1 }) t)

-- dirlink of the directory that the table has at `d`; `none_there` stands for an index out of it.
unfoldable pub dirlink :
    Inode → Fs → List Inode → ℕ → Inode → (ℕ → ℕ) → ℕ → Outcome (Fs × List Inode × Bool)
dirlink none_there s t d dp name inum = do
  x ← dirlookup s t d dp name
  elim x.2 [
    | some found ↦ (do
      r ← iput x.0 x.1 found.0 (get_or x.1 found.0 none_there)
      ok (r.0, r.1, false))
    | none ↦ (do
      w ← add_entry x.0 (get_or x.1 d none_there) name inum
      ok (w.0, at_inode d (λ p. record p { addrs = w.1.addrs; size = w.1.size }) x.1, w.2))
  ]
