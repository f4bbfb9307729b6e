-- ===== src/Bcache/Order.antt =====
-- A change of one buffer in the list of kernel/bio.c, and the shape of the loops that make one.
use mini_os_design.Common.{
  ℕ, ◌≡◌, ◌≢◌, true, false, ◌==◌, if◌then◌else◌, Option, none, some, refl, sym, ap, ◌∙◌, arith,
  Bool-cases, Option-cases, inl, inr, List, [], ◌∷◌, ◌++◌,
}
use mini_os_design.Bcache.{Buf, one_more, is_block, reuse, recycle, change, unlink}

-- `bs'` is `bs` with the buffer `b` replaced by `b'`, or taken out.
pub record Swap (bs bs' : List Buf) (b b' : Buf) : Type 0 where
  pub front : List Buf
  pub back : List Buf
  pub was : bs ≡ front ++ b ∷ back
  pub now : bs' ≡ front ++ b' ∷ back

abbrev pub AllUsed : List Buf → Type 0
AllUsed [] = Unit {0}
AllUsed (b ∷ bs) = (b.refcnt ≢ 0) × AllUsed bs

later-Swap :
    (x : Buf) (bs bs' : List Buf) (b b' : Buf) → Swap bs bs' b b' → Swap (x ∷ bs) (x ∷ bs') b b'
later-Swap x bs bs' b b' s = record {
  front = x ∷ s.front;
  back = s.back;
  was = ap (λ xs. x ∷ xs) s.was;
  now = ap (λ xs. x ∷ xs) s.now;
}

abbrev pub reused : Buf → Buf
reused b = record b { refcnt = one_more b.refcnt }

pub reuse-Swap :
    (bs bs' : List Buf) (dev blockno i : ℕ)
    → reuse dev blockno bs ≡ some (bs', i)
    → (b : Buf) × (is_block dev blockno b ≡ true) × (b.id ≡ i) × Swap bs bs' b (reused b)
unfolding reuse
reuse-Swap [] bs' dev blockno i e = cc
reuse-Swap (b ∷ bs) bs' dev blockno i e = elim (Bool-cases (is_block dev blockno b)) [
  | inl h ↦
      let e' : ◌≡◌ {A = Option (List Buf × ℕ)} (some (reused b ∷ bs, b.id)) (some (bs', i)) =
        rw (reuse, h) at e in
      let q : reused b ∷ bs ≡ bs' = cc in
      let q' : b.id ≡ i = cc in
      (b, h, q', record { front = []; back = bs; was = refl; now = sym q })
  | inr h ↦ elim (Option-cases (reuse dev blockno bs)) [
    | inl z ↦
        (let e' : ◌≡◌ {A = Option (List Buf × ℕ)} none (some (bs', i)) = rw (reuse, h, z) at e in
          cc)
    | inr ((xs, j), z) ↦
        let e' : ◌≡◌ {A = Option (List Buf × ℕ)} (some (b ∷ xs, j)) (some (bs', i)) =
          rw (reuse, h, z) at e in
        let q : b ∷ xs ≡ bs' = cc in
        let q' : j ≡ i = cc in
        let (c, k, m, s) = reuse-Swap bs xs dev blockno j z in
        (c, k, m ∙ q', rw (← q) (later-Swap b bs xs c (reused c) s))
  ]
]

abbrev pub recycled : ℕ → ℕ → Buf → Buf
recycled dev blockno b = record b { dev = dev; blockno = blockno; valid = false; refcnt = 1 }

pub recycle-none : (bs : List Buf) (dev blockno : ℕ) → recycle dev blockno bs ≡ none → AllUsed bs
unfolding recycle
recycle-none [] dev blockno e = tt
recycle-none (b ∷ bs) dev blockno e = elim (Option-cases (recycle dev blockno bs)) [
  | inl z ↦ elim (Bool-cases (b.refcnt == 0)) [
    | inl h ↦
        (let e' : ◌≡◌ {A = Option (List Buf × ℕ)} (some (recycled dev blockno b ∷ bs, b.id)) none =
            rw (recycle, z, h) at e in
          cc)
    | inr h ↦ (ground arith, recycle-none bs dev blockno z)
  ]
  | inr (r, z) ↦
      (let e' : ◌≡◌ {A = Option (List Buf × ℕ)} (some (b ∷ r.0, r.1)) none = rw (recycle, z) at e in
        cc)
]

-- The buffer that is taken is the last one that nobody uses.
pub recycle-Swap :
    (bs bs' : List Buf) (dev blockno i : ℕ)
    → recycle dev blockno bs ≡ some (bs', i)
    → (b : Buf) × (b.refcnt ≡ 0)
      × (b.id ≡ i)
      × (s : Swap bs bs' b (recycled dev blockno b)) × AllUsed s.back
unfolding recycle
recycle-Swap [] bs' dev blockno i e = cc
recycle-Swap (b ∷ bs) bs' dev blockno i e = elim (Option-cases (recycle dev blockno bs)) [
  | inl z ↦ elim (Bool-cases (b.refcnt == 0)) [
    | inl h ↦
        let e' : ◌≡◌ {A = Option (List Buf × ℕ)} (some (recycled dev blockno b ∷ bs, b.id))
            (some (bs', i)) =
          rw (recycle, z, h) at e in
        let q : recycled dev blockno b ∷ bs ≡ bs' = cc in
        let q' : b.id ≡ i = cc in
        (
          b,
          ground arith,
          q',
          record { front = []; back = bs; was = refl; now = sym q },
          recycle-none bs dev blockno z,
        )
    | inr h ↦
        (let e' : ◌≡◌ {A = Option (List Buf × ℕ)} none (some (bs', i)) = rw (recycle, z, h) at e in
          cc)
  ]
  | inr ((xs, j), z) ↦
      let e' : ◌≡◌ {A = Option (List Buf × ℕ)} (some (b ∷ xs, j)) (some (bs', i)) =
        rw (recycle, z) at e in
      let q : b ∷ xs ≡ bs' = cc in
      let q' : j ≡ i = cc in
      let (c, k, m, s, u) = recycle-Swap bs xs dev blockno j z in
      (
        c,
        k,
        m ∙ q',
        record {
          front = b ∷ s.front;
          back = s.back;
          was = ap (λ ys. b ∷ ys) s.was;
          now = sym q ∙ ap (λ ys. b ∷ ys) s.now;
        },
        u,
      )
]

-- The buffer `i`.
unfoldable pub lookup : ℕ → List Buf → Option Buf
lookup i [] = none
lookup i (b ∷ bs) = let later = lookup i bs in if b.id == i then some b else later

pub change-Swap :
    (bs : List Buf) (i : ℕ) (f : Buf → Buf) (b : Buf)
    → lookup i bs ≡ some b
    → (b.id ≡ i) × Swap bs (change i f bs) b (f b)
unfolding lookup change
change-Swap [] i f b e = cc
change-Swap (x ∷ bs) i f b e = elim (Bool-cases (x.id == i)) [
  | inl h ↦
      let e' : some x ≡ some b = rw (lookup, h) at e in
      let q : x ≡ b = cc in
      (
        rw (← q) (ground arith),
        record { front = []; back = bs; was = rw q refl; now = rw (change, h, q) refl },
      )
  | inr h ↦
      let e' : lookup i bs ≡ some b = rw (lookup, h) at e in
      let (m, s) = change-Swap bs i f b e' in
      (m, rw (change, h) (later-Swap x bs (change i f bs) b (f b) s))
]

pub unlink-split :
    (bs : List Buf) (i : ℕ) (b : Buf)
    → lookup i bs ≡ some b
    → (front : List Buf) × (back : List Buf) × (bs ≡ front ++ b ∷ back)
      × (unlink i bs ≡ some (b, front ++ back))
unfolding lookup unlink
unlink-split [] i b e = cc
unlink-split (x ∷ bs) i b e = elim (Bool-cases (x.id == i)) [
  | inl h ↦
      let e' : some x ≡ some b = rw (lookup, h) at e in
      let q : x ≡ b = cc in ([], bs, rw q refl, rw (unlink, h, q) refl)
  | inr h ↦
      let e' : lookup i bs ≡ some b = rw (lookup, h) at e in
      let (f, k, p, q) = unlink-split bs i b e' in
      (x ∷ f, k, ap (λ ys. x ∷ ys) p, rw (unlink, h, q) refl)
]
