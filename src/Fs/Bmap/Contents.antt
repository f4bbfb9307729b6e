-- ===== src/Fs/Bmap/Contents.antt =====
-- What bmap of kernel/fs.c does to the blocks of a file.
use mini_os_design.Common.{
  ℕ, ◌+◌, ◌-◌, ◌*◌, ◌/◌, ◌%◌, ◌^◌, ◌≤◌, ◌<◌, ◌≡◌, ◌≢◌, true, false, ◌==◌, ltb, if◌then◌else◌, refl,
  sym, ap, subst, ◌∙◌, arith, Bool-cases, inl, inr, Outcome, ok, panic,
}
use mini_os_design.Fs.{Fs, write_block, balloc}
use mini_os_design.Fs.Bitmap.{balloc_bound}
use mini_os_design.Fs.Bmap.{ndirect, nindirect, word_at, put_word, direct, indirect, bmap}

put_byte :
    (block : ℕ → ℕ) (i j w r : ℕ)
    → r < 4
    → put_word block i w (4 * j + r)
      ≡ (if j == i then w / 2 ^ (8 * r) % 2 ^ 8 else block (4 * j + r))
put_byte block i j w r l =
    let q : (4 * j + r) / 4 ≡ j = omega arith in
    let q' : (4 * j + r) % 4 ≡ r = omega arith in rw (q, q') refl

put_byte₀ :
    (block : ℕ → ℕ) (i j w : ℕ)
    → put_word block i w (4 * j) ≡ (if j == i then w % 2 ^ 8 else block (4 * j))
put_byte₀ block i j w =
    let q : 4 * j / 4 ≡ j = omega arith in
    let q' : 4 * j % 4 ≡ 0 = omega arith in let z : w / 1 ≡ w = omega arith in rw (q, q', z) refl

bytes :
    (f g : ℕ → ℕ) (j : ℕ)
    → f (4 * j) ≡ g (4 * j)
    → f (4 * j + 1) ≡ g (4 * j + 1)
    → f (4 * j + 2) ≡ g (4 * j + 2)
    → f (4 * j + 3) ≡ g (4 * j + 3)
    → word_at f j ≡ word_at g j
bytes f g j a b c d = rw (a, b, c, d) refl

pub words :
    (f : ℕ → ℕ) (j w : ℕ)
    → f (4 * j) ≡ w % 2 ^ 8
    → f (4 * j + 1) ≡ w / 2 ^ 8 % 2 ^ 8
    → f (4 * j + 2) ≡ w / 2 ^ 16 % 2 ^ 8
    → f (4 * j + 3) ≡ w / 2 ^ 24 % 2 ^ 8
    → w < 2 ^ 32
    → word_at f j ≡ w
words f j w a b c d l = omega (arith, a, b, c, d)

pub word_at-put_word :
    (block : ℕ → ℕ) (i j w : ℕ)
    → w < 2 ^ 32
    → word_at (put_word block i w) j ≡ (if j == i then w else word_at block j)
word_at-put_word block i j w l =
    let b₀ : put_word block i w (4 * j) ≡ (if j == i then w % 2 ^ 8 else block (4 * j)) =
      put_byte₀ block i j w in
    let b₁ = put_byte block i j w 1 (omega arith) in
    let b₂ = put_byte block i j w 2 (omega arith) in
    let b₃ = put_byte block i j w 3 (omega arith) in
    elim (Bool-cases (j == i)) [
      | inl e ↦
          let p₀ : put_word block i w (4 * j) ≡ w % 2 ^ 8 = b₀ ∙ rw e refl in
          let p₁ : put_word block i w (4 * j + 1) ≡ w / 2 ^ 8 % 2 ^ 8 = b₁ ∙ rw e refl in
          let p₂ : put_word block i w (4 * j + 2) ≡ w / 2 ^ 16 % 2 ^ 8 = b₂ ∙ rw e refl in
          let p₃ : put_word block i w (4 * j + 3) ≡ w / 2 ^ 24 % 2 ^ 8 = b₃ ∙ rw e refl in
          words (put_word block i w) j w p₀ p₁ p₂ p₃ l ∙ rw e refl
      | inr e ↦
          let p₀ : put_word block i w (4 * j) ≡ block (4 * j) = b₀ ∙ rw e refl in
          let p₁ : put_word block i w (4 * j + 1) ≡ block (4 * j + 1) = b₁ ∙ rw e refl in
          let p₂ : put_word block i w (4 * j + 2) ≡ block (4 * j + 2) = b₂ ∙ rw e refl in
          let p₃ : put_word block i w (4 * j + 3) ≡ block (4 * j + 3) = b₃ ∙ rw e refl in
          bytes (put_word block i w) block j p₀ p₁ p₂ p₃ ∙ rw e refl
    ]

direct_again :
    (s : Fs) (addrs : ℕ → ℕ) (i : ℕ)
    → (direct s addrs i).2 ≢ 0
    → direct (direct s addrs i).0 (direct s addrs i).1 i
      ≡ ((direct s addrs i).0, (direct s addrs i).1, (direct s addrs i).2)
unfolding direct
direct_again s addrs i n = elim (Bool-cases (addrs i == 0)) [
  | inl e ↦ elim (Bool-cases ((balloc s).1 == 0)) [
    | inl z ↦ absurd (n (rw (direct, e, z) refl))
    | inr z ↦ (let k : (i == i) ≡ true = ground arith in rw (direct, e, z, k, z) refl)
  ]
  | inr e ↦ rw (direct, e, e) refl
]

-- An entry that is there is answered, and nothing changes.
again :
    (w : Fs) (b i a : ℕ) → word_at (w.blocks b) i ≡ a → (a == 0) ≡ false → indirect w b i ≡ (w, a)
unfolding indirect
again w b i a r z = rw (indirect, r, z) refl

indirect_again :
    (s : Fs) (b i : ℕ)
    → (balloc s).1 < 2 ^ 32
    → (indirect s b i).1 ≢ 0
    → indirect (indirect s b i).0 b i ≡ ((indirect s b i).0, (indirect s b i).1)
unfolding indirect
indirect_again s b i l n = elim (Bool-cases (word_at (s.blocks b) i == 0)) [
  | inl e ↦ elim (Bool-cases ((balloc s).1 == 0)) [
    | inl z ↦ absurd (n (rw (indirect, e, z) refl))
    | inr z ↦
        let t = (balloc s).0 in
        let a = (balloc s).1 in
        let w : Fs = write_block t b (put_word (t.blocks b) i a) in
        let k : (b == b) ≡ true = ground arith in
        let r : word_at (w.blocks b) i ≡ a = rw k (
          word_at-put_word (t.blocks b) i i a l
          ∙ (let k' : (i == i) ≡ true = ground arith in rw k' refl)) in
        let q : indirect s b i ≡ (w, a) = rw (indirect, e, z) refl in rw q (again w b i a r z)
  ]
  | inr e ↦ rw (indirect, e, e) refl
]

direct_size :
    (s : Fs) (addrs : ℕ → ℕ) (i : ℕ) → s.size ≤ 2 ^ 32 → (direct s addrs i).0.size ≡ s.size
unfolding direct
direct_size s addrs i l = elim (Bool-cases (addrs i == 0)) [
  | inl e ↦ elim (Bool-cases ((balloc s).1 == 0)) [
    | inl z ↦ rw (direct, e, z) (balloc_bound s l).1
    | inr z ↦ rw (direct, e, z) (balloc_bound s l).1
  ]
  | inr e ↦ rw (direct, e) refl
]

direct_filled :
    (s : Fs) (addrs : ℕ → ℕ) (i : ℕ)
    → (direct s addrs i).2 ≢ 0
    → (direct s addrs i).1 i ≡ (direct s addrs i).2
unfolding direct
direct_filled s addrs i n = elim (Bool-cases (addrs i == 0)) [
  | inl e ↦ elim (Bool-cases ((balloc s).1 == 0)) [
    | inl z ↦ absurd (n (rw (direct, e, z) refl))
    | inr z ↦ (let k : (i == i) ≡ true = ground arith in rw (direct, e, z, k) refl)
  ]
  | inr e ↦ rw (direct, e) refl
]

direct_there :
    (s : Fs) (addrs : ℕ → ℕ) (i b : ℕ)
    → addrs i ≡ b
    → (b == 0) ≡ false
    → direct s addrs i ≡ (s, addrs, b)
unfolding direct
direct_there s addrs i b e z = rw (direct, e, z) refl

-- A block that has been mapped is found again.
through_indirect :
    (s s' : Fs) (addrs addrs' : ℕ → ℕ) (bn a b : ℕ)
    → ltb bn ndirect ≡ false
    → ltb (bn - ndirect) nindirect ≡ true
    → addrs' ndirect ≡ b
    → (b == 0) ≡ false
    → indirect s' b (bn - ndirect) ≡ (s', a)
    → bmap s' addrs' bn ≡ ok (s', addrs', a)
unfolding bmap
through_indirect s s' addrs addrs' bn a b h k e z i =
    rw (bmap, h, k, direct_there s' addrs' ndirect b e z, z, i) refl

-- On a disk of at most 2^32 blocks, a bmap that answers a block other than 0 leaves an inode and a
-- disk for which bmap of the same number answers the same block and changes nothing, directly or
-- through the indirect block.
bmap_again :
    (s s' : Fs) (addrs addrs' : ℕ → ℕ) (bn a : ℕ)
    → s.size ≤ 2 ^ 32
    → bmap s addrs bn ≡ ok (s', addrs', a)
    → a ≢ 0
    → bmap s' addrs' bn ≡ ok (s', addrs', a)
unfolding bmap
bmap_again s s' addrs addrs' bn a l e n = elim (Bool-cases (ltb bn ndirect)) [
  | inl h ↦
      let e' : ◌≡◌ {A = Outcome (Fs × (ℕ → ℕ) × ℕ)} (ok (direct s addrs bn)) (ok (s', addrs', a)) =
        rw (bmap, h) at e in
      let q : direct s addrs bn ≡ (s', addrs', a) = cc in
      let m : (direct s addrs bn).2 ≢ 0 = λ y. n (sym (ap (λ r. r.2) q) ∙ y) in
      let d : direct s' addrs' bn ≡ (s', addrs', a) =
        subst (λ r. direct r.0 r.1 bn ≡ r) q (direct_again s addrs bn m) in
      rw (bmap, h, d) refl
  | inr h ↦ elim (Bool-cases (ltb (bn - ndirect) nindirect)) [
    | inl k ↦
        let s₁ : Fs = (direct s addrs ndirect).0 in
        let addrs₁ : ℕ → ℕ = (direct s addrs ndirect).1 in
        let b : ℕ = (direct s addrs ndirect).2 in
        elim (Bool-cases (b == 0)) [
          | inl z ↦
              let e' : ◌≡◌ {A = Outcome (Fs × (ℕ → ℕ) × ℕ)} (ok (s₁, addrs₁, 0))
                  (ok (s', addrs', a)) =
                rw (bmap, h, k, z) at e in
              let q : ◌≡◌ {A = Fs × (ℕ → ℕ) × ℕ} (s₁, addrs₁, 0) (s', addrs', a) = cc in
              absurd (n (sym (ap (λ r. r.2) q)))
          | inr z ↦
              let r : Fs × ℕ = indirect s₁ b (bn - ndirect) in
              let e' : ◌≡◌ {A = Outcome (Fs × (ℕ → ℕ) × ℕ)} (ok (r.0, addrs₁, r.1))
                  (ok (s', addrs', a)) =
                rw (bmap, h, k, z) at e in
              let q : ◌≡◌ {A = Fs × (ℕ → ℕ) × ℕ} (r.0, addrs₁, r.1) (s', addrs', a) = cc in
              let g : s₁.size ≤ 2 ^ 32 = rw (direct_size s addrs ndirect l) l in
              let m : r.1 ≢ 0 = λ y. n (sym (ap (λ x. x.2) q) ∙ y) in
              let i = indirect_again s₁ b (bn - ndirect) (balloc_bound s₁ g).0 m in
              let w = direct_filled s addrs ndirect (ground (arith, z)) in
              subst (λ (x : Fs × (ℕ → ℕ) × ℕ). bmap x.0 x.1 bn ≡ ok x) q
                (through_indirect s r.0 addrs addrs₁ bn r.1 b h k w z i)
        ]
    | inr k ↦
        (let e' : ◌≡◌ {A = Outcome (Fs × (ℕ → ℕ) × ℕ)} (panic "bmap: out of range")
              (ok (s', addrs', a)) =
            rw (bmap, h, k) at e in
          cc)
  ]
]
