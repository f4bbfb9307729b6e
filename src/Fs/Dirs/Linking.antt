-- ===== src/Fs/Dirs/Linking.antt =====
-- The new entry that dirlink of kernel/fs.c writes.
use mini_os_design.Common.{
  ℕ, zero, suc, ◌+◌, ◌-◌, ◌*◌, ◌/◌, ◌%◌, ◌^◌, ◌≤◌, ◌<◌, ◌≡◌, true, false, not, ◌&&◌, ◌==◌, leb, ltb,
  if◌then◌else◌, refl, ◌∙◌, arith, Bool-cases, inl, inr,
}
use mini_os_design.Fs.Names.{dirsiz}
use mini_os_design.Fs.Slots.{max_bytes}
use mini_os_design.Fs.Transfer.{put_bytes}
use mini_os_design.Fs.Dirs.{same_name, padded, new_entry}
use mini_os_design.Fs.Dirs.Entries.{inum_at, names, same_name_congr}

padded_next :
    (name : ℕ → ℕ) (i : ℕ)
    → (name 0 == 0) ≡ false
    → padded name (i + 1) ≡ padded (λ j. name (j + 1)) i
unfolding padded
padded_next name i h = let q : i + 1 ≡ suc i = omega arith in rw (q, padded, h) refl

-- A name is compared with a padded name as with the name itself.
same_name-padded : (n : ℕ) (s name : ℕ → ℕ) → same_name n s (padded name) ≡ same_name n s name
unfolding same_name padded
same_name-padded zero s name = refl
same_name-padded (suc n) s name = elim (Bool-cases (s 0 == name 0)) [
  | inr h ↦ rw (same_name, h) refl
  | inl h ↦ elim (Bool-cases (s 0 == 0)) [
    | inl z ↦ rw (same_name, h, z) refl
    | inr z ↦
        let nz : (name 0 == 0) ≡ false = ground (arith, h, z) in
        let r =
          same_name_congr n (λ i. s (i + 1)) (λ i. padded name (i + 1)) (padded (λ j. name (j + 1)))
            (λ i l. padded_next name i nz) in
        rw (same_name, h, z) (r ∙ same_name-padded n (λ i. s (i + 1)) (λ j. name (j + 1)))
  ]
]

-- The directory holds `c` with the entry `j` replaced.
abbrev pub IsReplaced : (ℕ → ℕ) → (ℕ → ℕ) → ℕ → ℕ → (ℕ → ℕ) → Type 0
IsReplaced c c' j inum name =
    (i : ℕ)
    → 16 * i + 16 ≤ max_bytes
    → (inum_at c' i ≡ (if i == j then inum else inum_at c i))
      × ((other : ℕ → ℕ)
          → names c' other i
            ≡ (if i == j then not (inum == 0) && same_name dirsiz other name else names c other i))

module _ (c c' : ℕ → ℕ) (j inum : ℕ) (name : ℕ → ℕ) where
  entry_byte :
      ((x : ℕ)
        → x < max_bytes
        → c' x ≡ put_bytes c (16 * j) (λ i. new_entry inum name (0 + i)) 16 x)
      → (i r : ℕ) → r < 16
      → 16 * i + 16 ≤ max_bytes
      → c' (16 * i + r) ≡ (if i == j then new_entry inum name r else c (16 * i + r))
  entry_byte h i r l m = elim (Bool-cases (i == j)) [
    | inl e ↦
        let q : i ≡ j = ground arith in
        let y : (leb (16 * j) (16 * i + r) && ltb (16 * i + r) (16 * j + 16)) ≡ true =
          ground (arith, q, l) in
        let z : 0 + (16 * i + r - 16 * j) ≡ r = omega (arith, q) in
        h (16 * i + r) (omega arith) ∙ rw (e, y, z) refl
    | inr e ↦
        let y : (leb (16 * j) (16 * i + r) && ltb (16 * i + r) (16 * j + 16)) ≡ false =
          ground (arith, e, l) in
        h (16 * i + r) (omega arith) ∙ rw (e, y) refl
  ]

  pub replaced :
      ((x : ℕ)
        → x < max_bytes
        → c' x ≡ put_bytes c (16 * j) (λ i. new_entry inum name (0 + i)) 16 x)
      → inum < 2 ^ 16
      → IsReplaced c c' j inum name
  replaced h l i m = elim (Bool-cases (i == j)) [
    | inl e ↦
        let b : (r : ℕ) → r < 16 → c' (16 * i + r) ≡ new_entry inum name r =
          λ r lr. entry_byte h i r lr m ∙ rw e refl in
        let b₀ : c' (16 * i + 0) ≡ inum % 2 ^ 8 = b 0 (omega arith) ∙ omega arith in
        let b₁ : c' (16 * i + 1) ≡ inum / 2 ^ 8 % 2 ^ 8 = b 1 (omega arith) in
        let n : inum_at c' i ≡ inum = omega (arith, b₀, b₁, l) in
        (
          n ∙ rw e refl,
          λ other.
              let s : same_name dirsiz other (λ k. c' (16 * i + (k + 2)))
                  ≡ same_name dirsiz other name =
                same_name_congr dirsiz other (λ k. c' (16 * i + (k + 2))) (padded name)
                  (λ k lk. b (k + 2) (omega arith) ∙ name_byte k lk)
                ∙ same_name-padded dirsiz other name in
              rw (n, s, e) refl,
        )
    | inr e ↦
        let b : (r : ℕ) → r < 16 → c' (16 * i + r) ≡ c (16 * i + r) =
          λ r lr. entry_byte h i r lr m ∙ rw e refl in
        let b₀ = b 0 (omega arith) in
        let b₁ = b 1 (omega arith) in
        let n : inum_at c' i ≡ inum_at c i = rw (b₀, b₁) refl in
        (
          n ∙ rw e refl,
          λ other.
              let s =
                same_name_congr dirsiz other (λ k. c' (16 * i + (k + 2)))
                  (λ k. c (16 * i + (k + 2))) (λ k lk. b (k + 2) (omega arith)) in
              rw (n, s, e) refl,
        )
  ]
    where
      name_byte : (k : ℕ) → k < dirsiz → new_entry inum name (k + 2) ≡ padded name k
      name_byte k l =
          let z : ltb (k + 2) 2 ≡ false = ground arith in
          let q : k + 2 - 2 ≡ k = omega arith in rw (z, q) refl
