-- ===== src/Strings/Copying.antt =====
-- memmove of kernel/string.c.
use mini_os_design.Common.{
  ℕ, zero, suc, ◌+◌, ◌-◌, ◌≤◌, ◌<◌, ◌≡◌, ◌≢◌, ◌⊎◌, inl, inr, ◌&&◌, ltb, leb, ◌==◌, if◌then◌else◌,
  ◌∙◌, arith, Bool-cases,
}
use mini_os_design.Strings.{Bytes, poke, copy_up, copy_down, memmove}

-- Memory with the `n` bytes at `dst` as the `n` bytes at `src` were in `m`.
abbrev pub moved : Bytes → ℕ → ℕ → ℕ → Bytes
moved m dst src n j = if leb dst j && ltb j (dst + n) then m (src + (j - dst)) else m j

poke_ne : (m : Bytes) (a b j : ℕ) → j ≢ a → poke m a b j ≡ m j
poke_ne m a b j h = ground arith

copy_up_lem :
    (n : ℕ) (m : Bytes) (d s j : ℕ) → (d ≤ s) ⊎ (s + n ≤ d) → copy_up m d s n j ≡ moved m d s n j
unfolding copy_up
copy_up_lem zero m d s j h = ground arith
copy_up_lem (suc n) m d s j h =
    let r = copy_up_lem n (poke m d (m s)) (d + 1) (s + 1) j (ground arith) in
    r ∙ elim (Bool-cases (leb (d + 1) j && ltb j (d + 1 + n))) [
      | inl a ↦
          let i : s + 1 + (j - (d + 1)) ≡ s + (j - d) = ground arith in
          let q = poke_ne m d (m s) (s + (j - d)) (ground arith) in ground (arith, a, i, q)
      | inr a ↦ elim (Bool-cases (j == d)) [
        | inl b ↦ let i : s + (j - d) ≡ s = ground arith in ground (arith, a, b, i)
        | inr b ↦ ground (arith, a, b)
      ]
    ]

copy_down_lem : (n : ℕ) (m : Bytes) (d s j : ℕ) → s < d → copy_down m d s n j ≡ moved m d s n j
unfolding copy_down
copy_down_lem zero m d s j h = ground arith
copy_down_lem (suc n) m d s j h =
    let r = copy_down_lem n (poke m (d + n) (m (s + n))) d s j h in
    r ∙ elim (Bool-cases (leb d j && ltb j (d + n))) [
      | inl a ↦
          let q = poke_ne m (d + n) (m (s + n)) (s + (j - d)) (ground arith) in ground (arith, a, q)
      | inr a ↦ elim (Bool-cases (j == d + n)) [
        | inl b ↦ let i : s + (j - d) ≡ s + n = ground arith in ground (arith, a, b, i)
        | inr b ↦ ground (arith, a, b)
      ]
    ]

-- After memmove every byte of the n bytes at the destination is the byte that stood at its place of
-- the source before the call, and every other byte is unchanged, however the two ranges overlap.
memmove_lem : (m : Bytes) (dst src n j : ℕ) → memmove m dst src n j ≡ moved m dst src n j
unfolding memmove
memmove_lem m dst src n j = elim (Bool-cases (n == 0)) [
  | inl a ↦ rw (a, memmove) (ground (arith, a))
  | inr a ↦ elim (Bool-cases (ltb src dst && ltb dst (src + n))) [
    | inl b ↦ rw (a, memmove, b) (copy_down_lem n m dst src j (ground arith))
    | inr b ↦ rw (a, memmove, b) (copy_up_lem n m dst src j (ground arith))
  ]
]
