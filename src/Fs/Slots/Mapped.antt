-- ===== src/Fs/Slots/Mapped.antt =====
-- bmap of kernel/fs.c, on the blocks of a file.
use mini_os_design.Common.{
  ℕ, ◌+◌, ◌-◌, ◌*◌, ◌≤◌, ◌<◌, ◌≡◌, ◌≢◌, true, false, ◌==◌, leb, ltb, if◌then◌else◌, refl, sym, ◌∙◌,
  arith, Bool-cases, inl, inr, ◌⊎◌, ok,
}
use mini_os_design.Fs.{Fs, bblock, write_block, balloc}
use mini_os_design.Fs.Bitmap.{used, Allocated, balloc_bound}
use mini_os_design.Fs.Bmap.{ndirect, nindirect, update, word_at, put_word, direct, indirect, bmap}
use mini_os_design.Fs.Bmap.Contents.{word_at-put_word}
use mini_os_design.Fs.Slots.{block_of, slots, data_slot, IsSound, Kept}
use mini_os_design.Fs.Slots.Grow.{Grown, Grown-Kept}
use mini_os_design.Fs.Slots.Preserved.{Kept-refl, Kept-trans, balloc_layout, balloc_data}

-- What bmap and its two parts answer for the slot `k`: its block, or 0 where no block is left.
abbrev pub Answered : Fs → (ℕ → ℕ) → ℕ → ℕ → Type 0
Answered s addrs k a =
    ((a ≢ 0) × (block_of s addrs k ≡ a)) ⊎ ((a ≡ 0) × ((c : ℕ) → c < s.size → used s c ≡ true))

module _ (s : Fs) (nmeta : ℕ) (addrs : ℕ → ℕ) (v : IsSound s nmeta addrs) where
  -- The block in a slot is not touched by balloc.
  kept_block :
      (a j : ℕ)
      → j < slots
      → block_of s addrs j ≢ 0
      → Allocated s (balloc s).0 a
      → (balloc s).0.blocks (block_of s addrs j) ≡ s.blocks (block_of s addrs j)
  kept_block a j l n h =
      let (lo, _, u) = v.in_use j l n in
      let m = v.laid.maps a h.within in
      h.rest (block_of s addrs j) (λ e. let c : true ≡ false = sym u ∙ rw e h.free in cc)
        (omega arith)

  zero_word :
      (a j : ℕ)
      → j < slots
      → 13 ≤ j
      → Allocated s (balloc s).0 a
      → word_at ((balloc s).0.blocks a) (j - 13) ≡ 0
  zero_word a j l m h =
      let z₀ = h.zeroed (4 * (j - 13)) (omega arith) in
      let z₁ = h.zeroed (4 * (j - 13) + 1) (omega arith) in
      let z₂ = h.zeroed (4 * (j - 13) + 2) (omega arith) in
      let z₃ = h.zeroed (4 * (j - 13) + 3) (omega arith) in omega arith

  direct_now :
      (k j : ℕ)
      → k < 13
      → addrs k ≡ 0
      → (balloc s).1 ≢ 0
      → Allocated s (balloc s).0 (balloc s).1
      → j < slots
      → block_of (balloc s).0 (update addrs k (balloc s).1) j
        ≡ (if j == k then (balloc s).1 else block_of s addrs j)
  direct_now k j l z n h lj = elim (Bool-cases (leb j ndirect)) [
    | inl p ↦ rw p refl
    | inr p ↦
        let q : (j == k) ≡ false = ground (arith, p) in
        elim (Bool-cases (ndirect == k)) [
          | inl w ↦
              let k' : k ≡ ndirect = ground arith in
              let z' : addrs ndirect ≡ 0 = rw k' at z in
              let a' : ((balloc s).1 == 0) ≡ false = ground (arith, n) in
              let y = zero_word (balloc s).1 j lj (ground (arith, p)) h in
              rw (p, q, w, a', z', y) refl
          | inr w ↦ elim (Bool-cases (addrs ndirect == 0)) [
            | inl y ↦ rw (p, q, w, y) refl
            | inr y ↦
                let e : (balloc s).0.blocks (addrs ndirect) ≡ s.blocks (addrs ndirect) =
                  kept_block (balloc s).1 ndirect (omega arith) (ground (arith, y)) h in
                rw (p, q, w, y, e) refl
          ]
        ]
  ]

  fill_direct :
      (k : ℕ)
      → k < 13
      → addrs k ≡ 0
      → (balloc s).1 ≢ 0
      → Allocated s (balloc s).0 (balloc s).1
      → Grown s (balloc s).0 addrs (update addrs k (balloc s).1) k (balloc s).1
  fill_direct k l z n h = record {
    layout = balloc_layout s;
    within = h.within;
    free = h.free;
    marks = h.marked;
    empty = ground (arith, z);
    now = λ j lj. direct_now k j l z n h lj;
    zeroed = h.zeroed;
    rest = λ c x y w. h.rest c x (λ e. y (balloc s).1 h.within (sym e));
  }

  pub direct_lem :
      (k : ℕ)
      → k < 13
      → Kept s nmeta addrs (direct s addrs k).0 (direct s addrs k).1
        × Answered (direct s addrs k).0 (direct s addrs k).1 k (direct s addrs k).2
  unfolding direct
  direct_lem k l =
      let d : leb k ndirect ≡ true = ground arith in
      elim (Bool-cases (addrs k == 0)) [
        | inl z ↦ elim (balloc_data s nmeta v.laid) [
          | inl (n, h) ↦
              let a' : ((balloc s).1 == 0) ≡ false = ground (arith, n) in
              let k' : (k == k) ≡ true = ground arith in
              let g = fill_direct k l (ground (arith, z)) n h in
              rw (direct, z, a')
                (
                  Grown-Kept s (balloc s).0 nmeta addrs (update addrs k (balloc s).1) k (balloc s).1
                      g v,
                  inl (n, rw (d, k') refl),
                )
          | inr (e, u) ↦ rw (direct, z, e) (Kept-refl s nmeta addrs v, inr (refl, u))
        ]
        | inr z ↦ rw (direct, z) (Kept-refl s nmeta addrs v, inl (ground (arith, z), rw d refl))
      ]

  -- The indirect block after the entry `i` is filled.
  abbrev entered : ℕ → Fs
  entered i =
      let t = (balloc s).0 in
      write_block t (addrs ndirect) (put_word (t.blocks (addrs ndirect)) i (balloc s).1)

  indirect_now :
      (i j : ℕ)
      → (addrs ndirect == 0) ≡ false
      → Allocated s (balloc s).0 (balloc s).1
      → block_of (entered i) addrs j ≡ (if j == 13 + i then (balloc s).1 else block_of s addrs j)
  indirect_now i j z h = elim (Bool-cases (leb j ndirect)) [
    | inl p ↦ (let q : (j == 13 + i) ≡ false = ground (arith, p) in rw (p, q) refl)
    | inr p ↦
        let b = addrs ndirect in
        let k : (b == b) ≡ true = ground arith in
        let e : (balloc s).0.blocks b ≡ s.blocks b =
          kept_block (balloc s).1 ndirect (omega arith) (ground (arith, z)) h in
        let w = (balloc_bound s v.laid.small).0 in
        let r = word_at-put_word ((balloc s).0.blocks b) i (j - 13) (balloc s).1 w in
        let q : (j - 13 == i) ≡ (j == 13 + i) = ground (arith, p) in
        rw (p, z, k) (r ∙ rw (e, q) refl)
  ]

  fill_indirect :
      (i : ℕ)
      → i < nindirect
      → (addrs ndirect == 0) ≡ false
      → word_at (s.blocks (addrs ndirect)) i ≡ 0
      → (balloc s).1 ≢ 0
      → Allocated s (balloc s).0 (balloc s).1
      → Grown s (entered i) addrs addrs (13 + i) (balloc s).1
  fill_indirect i l z y n h =
      let b = addrs ndirect in
      let (lo, _, u) = v.in_use ndirect (omega arith) (ground (arith, z)) in
      let ly = balloc_layout s in
      record {
        layout = ly;
        within = h.within;
        free = h.free;
        marks = λ c lc.
            let m = v.laid.maps c lc in
            let x : (bblock (balloc s).0 c == b) ≡ false = ground (arith, ly.3) in
            rw x (h.marked c lc);
        empty = rw z (ground (arith, y));
        now = λ j lj. indirect_now i j z h;
        zeroed = λ x lx.
            let w : ((balloc s).1 == b) ≡ false = elim (Bool-cases ((balloc s).1 == b)) [
              | inl q ↦
                  let q' : b ≡ (balloc s).1 = ground arith in
                  let c : true ≡ false = sym u ∙ rw q' h.free in cc
              | inr q ↦ q
            ] in
            rw w (h.zeroed x lx);
        rest = λ c x m w.
            let q : (c == b) ≡ false = ground (arith, w) in
            rw q (h.rest c x (λ e. m (balloc s).1 h.within (sym e)));
      }

  pub indirect_lem :
      (i : ℕ)
      → i < nindirect
      → (addrs ndirect == 0) ≡ false
      → Kept s nmeta addrs (indirect s (addrs ndirect) i).0 addrs
        × Answered (indirect s (addrs ndirect) i).0 addrs (13 + i) (indirect s (addrs ndirect) i).1
  unfolding indirect
  indirect_lem i l z =
      let b = addrs ndirect in
      let d : leb (13 + i) ndirect ≡ false = ground arith in
      let d' : 13 + i - 13 ≡ i = omega arith in
      elim (Bool-cases (word_at (s.blocks b) i == 0)) [
        | inl y ↦ elim (balloc_data s nmeta v.laid) [
          | inl (n, h) ↦
              let a' : ((balloc s).1 == 0) ≡ false = ground (arith, n) in
              let g = fill_indirect i l z (ground (arith, y)) n h in
              let k : (13 + i == 13 + i) ≡ true = ground arith in
              rw (indirect, y, a')
                (
                  Grown-Kept s (entered i) nmeta addrs addrs (13 + i) (balloc s).1 g v,
                  inl (n, indirect_now i (13 + i) z h ∙ rw k refl),
                )
          | inr (e, u) ↦ rw (indirect, y, e) (Kept-refl s nmeta addrs v, inr (refl, u))
        ]
        | inr y ↦
            rw (indirect, y)
              (Kept-refl s nmeta addrs v, inl (ground (arith, y), rw (d, z, d') refl))
      ]

-- For a block number below MAXFILE of a file whose blocks are data blocks in use and in no two
-- slots, bmap returns; the file stays so, holds the same bytes, a new block reading as zeros like
-- the hole before it, and all blocks in use that are not of it nor of the free map stay; it answers
-- the block of that number, or 0 where every block is in use.
pub bmap_lem :
    (s : Fs) (nmeta : ℕ) (addrs : ℕ → ℕ) (bn : ℕ)
    → IsSound s nmeta addrs
    → bn < 268
    → (r : Fs × (ℕ → ℕ) × ℕ) × (bmap s addrs bn ≡ ok r)
      × Kept s nmeta addrs r.0 r.1
      × Answered r.0 r.1 (data_slot bn) r.2
unfolding bmap
bmap_lem s nmeta addrs bn v l = elim (Bool-cases (ltb bn ndirect)) [
  | inl h ↦
      let (k, a) = direct_lem s nmeta addrs v bn (ground (arith, h)) in
      (direct s addrs bn, rw (bmap, h) refl, k, rw h a)
  | inr h ↦
      let m : ltb (bn - ndirect) nindirect ≡ true = ground (arith, l) in
      let (k, a) = direct_lem s nmeta addrs v ndirect (omega arith) in
      let s₁ = (direct s addrs ndirect).0 in
      let addrs₁ = (direct s addrs ndirect).1 in
      let b = (direct s addrs ndirect).2 in
      elim a [
        | inl (n, e) ↦
            let z : (b == 0) ≡ false = ground (arith, n) in
            let z' : (addrs₁ ndirect == 0) ≡ false = rw e z in
            let i = bn - ndirect in
            let (k', a') = indirect_lem s₁ nmeta addrs₁ k.sound i (ground (arith, h)) z' in
            let q : 13 + i ≡ bn + 1 = ground (arith, h) in
            (
              ((indirect s₁ b i).0, addrs₁, (indirect s₁ b i).1),
              rw (bmap, h, m, z) refl,
              rw (← e) (Kept-trans s s₁ _ nmeta addrs addrs₁ addrs₁ k k'),
              rw (← e, h, ← q) a',
            )
        | inr (z, u) ↦
            let z' : (b == 0) ≡ true = ground (arith, z) in
            ((s₁, addrs₁, 0), rw (bmap, h, m, z') refl, k, inr (refl, u))
      ]
]
