-- ===== src/Fs/Dirs/Entries.antt =====
-- What the loop of dirlookup of kernel/fs.c finds.
use mini_os_design.Common.{
  ℕ, zero, suc, ◌+◌, ◌*◌, ◌/◌, ◌%◌, ◌≤◌, ◌<◌, ◌≡◌, true, false, not, ◌&&◌, ◌==◌, ltb, Bool, refl,
  ◌∙◌, arith, Bool-cases, inl, inr, ◌⊎◌, ok, panic, none, some, Option, Outcome,
}
use mini_os_design.Fs.{Fs}
use mini_os_design.Fs.Itable.{Inode}
use mini_os_design.Fs.Dinode.{half_at}
use mini_os_design.Fs.Names.{dirsiz}
use mini_os_design.Fs.Slots.{byte, max_bytes, IsSound, Kept}
use mini_os_design.Fs.Slots.Preserved.{Kept-refl, Kept-trans}
use mini_os_design.Fs.Dirs.{t_dir, dirent_size, same_name, lookup_from, find_name}
use mini_os_design.Fs.Dirs.EntryRead.{ShortRead, read_entry_lem}

-- The inode number of the entry `k` of a directory that holds the bytes `c`.
abbrev pub inum_at : (ℕ → ℕ) → ℕ → ℕ
inum_at c k = half_at (λ i. c (16 * k + i)) 0

-- Is the entry `k` in use, for the name?
abbrev pub names : (ℕ → ℕ) → (ℕ → ℕ) → ℕ → Bool
names c name k = not (inum_at c k == 0) && same_name dirsiz name (λ i. c (16 * k + (i + 2)))

-- The first entry for the name, of those from `k` to `n`.
abbrev pub IsFirst : (ℕ → ℕ) → (ℕ → ℕ) → ℕ → ℕ → Option (ℕ × ℕ) → Type 0
IsFirst c name k n found =
    ((found ≡ none) × ((j : ℕ) → k ≤ j → j < n → names c name j ≡ false))
    ⊎ ((j : ℕ) × (k ≤ j)
        × (j < n)
        × (found ≡ some (inum_at c j, 16 * j))
        × (names c name j ≡ true)
        × ((i : ℕ) → k ≤ i → i < j → names c name i ≡ false))

pub same_name_congr :
    (n : ℕ) (s t t' : ℕ → ℕ) → ((i : ℕ) → i < n → t i ≡ t' i) → same_name n s t ≡ same_name n s t'
unfolding same_name
same_name_congr zero s t t' h = refl
same_name_congr (suc n) s t t' h =
    let e = h 0 (omega arith) in
    let r =
      same_name_congr n (λ i. s (i + 1)) (λ i. t (i + 1)) (λ i. t' (i + 1))
        (λ i l. h (i + 1) (omega arith)) in
    rw (same_name, e, r) refl

-- The loop passes over the `j` entries from `k` on, and the read of the next one comes short.
abbrev pub LookupCut : Fs → Inode → (ℕ → ℕ) → ℕ → Type 0
LookupCut s dp name k =
    (j : ℕ) × (s₁ : Fs) × (addrs₁ : ℕ → ℕ) × (k + j < dp.size / 16)
    × (lookup_from j s dp name (16 * k) ≡ ok (s₁, record dp { addrs = addrs₁ }, none))
    × ShortRead s₁ (record dp { addrs = addrs₁ }) (16 * (k + j))

-- What the loop of dirlookup does on a directory that holds the bytes `c` of its size.
abbrev pub Looked :
    Fs → ℕ → Inode → (ℕ → ℕ) → (ℕ → ℕ) → ℕ → Outcome (Fs × Inode × Option (ℕ × ℕ)) → Type 0
Looked s nmeta dp c name k result =
    ((result ≡ panic "dirlookup read") × LookupCut s dp name k)
    ⊎ ((s' : Fs) × (addrs' : ℕ → ℕ) × (found : Option (ℕ × ℕ)) × (result
          ≡ ok (s', record dp { addrs = addrs' }, found))
        × Kept s nmeta dp.addrs s' addrs'
        × IsFirst c name k (dp.size / 16) found)

-- The entry that was read is the entry `k`.
pub names_read :
    (c de name : ℕ → ℕ) (k : ℕ)
    → ((i : ℕ) → i < 16 → de i ≡ c (16 * k + i))
    → (half_at de 0 ≡ inum_at c k)
      × (same_name dirsiz name (λ i. de (i + 2))
          ≡ same_name dirsiz name (λ i. c (16 * k + (i + 2))))
names_read c de name k h = (
  (let a = h 0 (omega arith) in let b = h 1 (omega arith) in rw (a, b) refl),
  same_name_congr dirsiz name (λ i. de (i + 2)) (λ i. c (16 * k + (i + 2)))
      (λ i l. h (i + 2) (omega arith)),
)

from_next :
    (c name : ℕ → ℕ) (k j : ℕ)
    → names c name k ≡ false
    → (k + 1 ≤ j → names c name j ≡ false)
    → k ≤ j
    → names c name j ≡ false
from_next c name k j miss h l = elim (Bool-cases (k == j)) [
  | inl e ↦ (let q : j ≡ k = ground arith in rw q miss)
  | inr e ↦ h (ground (arith, e))
]

-- An entry that is not for the name is passed over.
passed :
    (s s' : Fs) (nmeta : ℕ) (dp : Inode) (addrs' c name : ℕ → ℕ) (k : ℕ)
    (result : Outcome (Fs × Inode × Option (ℕ × ℕ)))
    → Kept s nmeta dp.addrs s' addrs'
    → names c name k ≡ false
    → ((j : ℕ)
        → lookup_from (suc j) s dp name (16 * k)
          ≡ lookup_from j s' (record dp { addrs = addrs' }) name (16 * (k + 1)))
    → Looked s' nmeta (record dp { addrs = addrs' }) c name (k + 1) result
    → Looked s nmeta dp c name k result
passed s s' nmeta dp addrs' c name k result kp miss step (inl (p, (j, t, a, l, e, r))) =
    let q : k + suc j ≡ k + 1 + j = omega arith in
    inl (p, (suc j, t, a, rw q l, step j ∙ e, rw q r))
passed s s' nmeta dp addrs' c name k result kp miss step (inr (t, a, found, e, kp', first)) = inr (
  t,
  a,
  found,
  e,
  Kept-trans s s' t nmeta dp.addrs addrs' a kp kp',
  elim first [
    | inl (n, all) ↦ inl (n, λ j x y. from_next c name k j miss (λ x'. all j x' y) x)
    | inr (j, x, y, q, yes_here, before) ↦ inr (
      j,
      omega arith,
      y,
      q,
      yes_here,
      λ i b b'. from_next c name k i miss (λ x'. before i x' b') b,
    )
  ],
)

-- No entry is left, and nothing was read.
none_left :
    (s : Fs) (nmeta : ℕ) (dp : Inode) (c name : ℕ → ℕ) (k : ℕ)
    → IsSound s nmeta dp.addrs
    → dp.size / 16 ≤ k
    → Looked s nmeta dp c name k (ok (s, dp, none))
none_left s nmeta dp c name k v l = inr (
  s,
  dp.addrs,
  none,
  refl,
  Kept-refl s nmeta dp.addrs v,
  inl (refl, λ j a b. absurd (omega arith)),
)

-- The entry is for the name.
found_here :
    (s s' : Fs) (nmeta : ℕ) (dp : Inode) (addrs' c name : ℕ → ℕ) (k : ℕ)
    → Kept s nmeta dp.addrs s' addrs'
    → names c name k ≡ true
    → k < dp.size / 16
    → Looked s nmeta dp c name k (ok (s', record dp { addrs = addrs' }, some (inum_at c k, 16 * k)))
found_here s s' nmeta dp addrs' c name k kp here l = inr (
  s',
  addrs',
  some (inum_at c k, 16 * k),
  refl,
  kp,
  inr (k, omega arith, l, refl, here, λ i a b. absurd (omega arith)),
)

lookup_from_lem :
    (fuel : ℕ) (s : Fs) (nmeta : ℕ) (dp : Inode) (c name : ℕ → ℕ) (k : ℕ)
    → IsSound s nmeta dp.addrs
    → dp.size ≤ max_bytes
    → dp.size % 16 ≡ 0
    → dp.size / 16 ≤ k + fuel
    → ((x : ℕ) → x < dp.size → byte s dp.addrs x ≡ c x)
    → Looked s nmeta dp c name k (lookup_from fuel s dp name (16 * k))
unfolding lookup_from
lookup_from_lem zero s nmeta dp c name k v l al f h = none_left s nmeta dp c name k v (omega arith)
lookup_from_lem (suc fuel) s nmeta dp c name k v l al f h =
    elim (Bool-cases (ltb (16 * k) dp.size)) [
      | inr z ↦ rw (lookup_from, z) (none_left s nmeta dp c name k v (ground (arith, z)))
      | inl z ↦
          let lt : 16 * k + 16 ≤ dp.size = ground (arith, z, al) in
          elim (read_entry_lem false s nmeta dp (16 * k) v l lt) [
            | inl (e, cut) ↦
                let q : k + 0 ≡ k = omega arith in
                inl
                  (rw (lookup_from, z, e) refl, (0, s, dp.addrs, omega (arith, lt), refl, rw q cut))
            | inr (s', addrs', de, e, kp, m) ↦
                let m' : (i : ℕ) → i < 16 → de i ≡ c (16 * k + i) =
                  λ i li. m i li ∙ h (16 * k + i) (omega arith) in
                let (n₀, n₁) = names_read c de name k m' in
                let dp' : Inode = record dp { addrs = addrs' } in
                let next : 16 * k + dirent_size ≡ 16 * (k + 1) = omega arith in
                let rest =
                  lookup_from_lem fuel s' nmeta dp' c name (k + 1) kp.sound l al (omega arith)
                    (λ x lx. kp.bytes x (omega arith) ∙ h x lx) in
                elim (Bool-cases (half_at de 0 == 0)) [
                  | inl y ↦
                      let miss : names c name k ≡ false = rw (← n₀, y) refl in
                      rw (lookup_from, z, e, y, next)
                        (passed s s' nmeta dp addrs' c name k _ kp miss
                          (λ j. rw (lookup_from, z, e, y, next) refl) rest)
                  | inr y ↦ elim (Bool-cases (same_name dirsiz name (λ i. de (i + 2)))) [
                    | inl w ↦
                        let here : names c name k ≡ true = rw (← n₀, ← n₁, y, w) refl in
                        rw (lookup_from, z, e, y, w, n₀)
                          (found_here s s' nmeta dp addrs' c name k kp here (omega arith))
                    | inr w ↦
                        let miss : names c name k ≡ false = rw (← n₀, ← n₁, y, w) refl in
                        rw (lookup_from, z, e, y, w, next)
                          (passed s s' nmeta dp addrs' c name k _ kp miss
                            (λ j. rw (lookup_from, z, e, y, w, next) refl) rest)
                  ]
                ]
          ]
    ]

-- In a directory of whole entries that is at most as large as a file can be, the loop of dirlookup
-- ends and answers the first entry in use whose name is the same in its first 14 bytes, as its
-- inode number and its offset, or none where there is no such entry, and what the directory holds
-- and all blocks that are not of it stay; or it panics, and it passes over some entries to one in
-- the directory whose read comes short and leaves no block.
pub find_name-Looked :
    (s : Fs) (nmeta : ℕ) (dp : Inode) (name : ℕ → ℕ)
    → dp.type ≡ t_dir
    → IsSound s nmeta dp.addrs
    → dp.size ≤ max_bytes
    → dp.size % 16 ≡ 0
    → Looked s nmeta dp (byte s dp.addrs) name 0 (find_name s dp name)
unfolding find_name
find_name-Looked s nmeta dp name ty v l al =
    let z : (dp.type == t_dir) ≡ true = ground (arith, ty) in
    rw (find_name, z)
      (lookup_from_lem (dp.size / 16 + 1) s nmeta dp (byte s dp.addrs) name 0 v l al (omega arith)
        (λ x lx. refl))
