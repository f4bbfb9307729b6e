-- ===== src/Fs/Transfer/Bytes.antt =====
-- The bytes that memmove leaves.
use mini_os_design.Common.{
  ℕ, ◌+◌, ◌-◌, ◌<◌, ◌≡◌, true, false, ◌&&◌, leb, ltb, refl, ◌∙◌, arith, Bool-cases, inl, inr,
}
use mini_os_design.Fs.Transfer.{put_bytes}

put_none : (mem : ℕ → ℕ) (o : ℕ) (src : ℕ → ℕ) (n x : ℕ) → put_bytes mem o src (n - n) x ≡ mem x
put_none mem o src n x = ground arith

-- A store of `m` bytes and one of `k` bytes after it.
pub put_put :
    (mem mem' : ℕ → ℕ) (o m k x : ℕ) (src src' whole : ℕ → ℕ)
    → ((i : ℕ) → i < m → src i ≡ whole i)
    → ((i : ℕ) → i < k → src' i ≡ whole (m + i))
    → mem' x ≡ put_bytes mem o src m x
    → put_bytes mem' (o + m) src' k x ≡ put_bytes mem o whole (m + k) x
put_put mem mem' o m k x src src' whole h h' e =
    elim (Bool-cases (leb (o + m) x && ltb x (o + m + k))) [
      | inl c ↦
          let c' : (leb o x && ltb x (o + (m + k))) ≡ true = ground (arith, c) in
          let z : m + (x - (o + m)) ≡ x - o = ground (arith, c) in
          let w = h' (x - (o + m)) (ground (arith, c)) in rw (c, c', w, z) refl
      | inr c ↦ elim (Bool-cases (leb o x && ltb x (o + m))) [
        | inl d ↦
            let c' : (leb o x && ltb x (o + (m + k))) ≡ true = ground (arith, d) in
            let w = h (x - o) (ground (arith, d)) in
            let e' : mem' x ≡ src (x - o) = e ∙ rw d refl in rw (c, c', e', w) refl
        | inr d ↦
            let c' : (leb o x && ltb x (o + (m + k))) ≡ false = ground (arith, c, d) in
            let e' : mem' x ≡ mem x = e ∙ rw d refl in rw (c, c', e') refl
      ]
    ]
