-- ===== src/Fs/Trunc/FileBlocks.antt =====
-- The blocks of a file, as itrunc of kernel/fs.c frees them.
use mini_os_design.Common.{
  ℕ, ◌+◌, ◌-◌, ◌≤◌, ◌<◌, ◌≡◌, ◌≢◌, true, false, ◌||◌, ◌==◌, leb, ltb, Bool, refl, sym, ◌∙◌, arith,
  Bool-cases, inl, inr, ok,
}
use mini_os_design.Fs.{Fs, bblock, bfree}
use mini_os_design.Fs.Bitmap.{used}
use mini_os_design.Fs.Bmap.{ndirect, nindirect, update, word_at}
use mini_os_design.Fs.Slots.{block_of, slots, IsSound}
use mini_os_design.Fs.Trunc.{free_direct, free_indirect, free_rest}
use mini_os_design.Fs.Trunc.Freed.{
  among, just, Dropped, Dropped-trans, Ready, bfree-Dropped, free_direct_lem, free_indirect_lem,
}
use mini_os_design.Fs.Trunc.Among.{
  among-true, among-false, just_self, just_other, or_assoc, or_last, or_middle,
}

-- The property holds of the blocks of the file, and of no others.
pub record IsBlocks (s : Fs) (addrs : ℕ → ℕ) (gone : ℕ → Bool) : Type 0 where
  pub all : (k : ℕ) → k < slots → block_of s addrs k ≢ 0 → gone (block_of s addrs k) ≡ true
  pub only :
      (c : ℕ)
      → ((k : ℕ) → k < slots → block_of s addrs k ≢ 0 → block_of s addrs k ≢ c)
      → gone c ≡ false

through_rest :
    (s s₂ s₃ : Fs) (addrs : ℕ → ℕ) (b : ℕ)
    → addrs ndirect ≡ b
    → (b == 0) ≡ false
    → free_indirect s b 0 nindirect ≡ ok s₂
    → bfree s₂ b ≡ ok s₃
    → free_rest s addrs ≡ ok (s₃, update addrs ndirect 0)
unfolding free_rest
through_rest s s₂ s₃ addrs b q y e e' = rw (free_rest, q, y, e, e') refl

module _ (s : Fs) (nmeta : ℕ) (addrs : ℕ → ℕ) (v : IsSound s nmeta addrs)
    (some_block : 0 < s.size) where
  slot_direct : (k : ℕ) → k < 13 → block_of s addrs k ≡ addrs k
  slot_direct k l = let z : leb k ndirect ≡ true = ground arith in rw z refl

  entry : ℕ → ℕ
  entry j = block_of s addrs (13 + j)

  inside_slot : (k : ℕ) → k < slots → block_of s addrs k < s.size
  inside_slot k l = elim (Bool-cases (block_of s addrs k == 0)) [
    | inl z ↦ ground (arith, z, some_block)
    | inr z ↦ (v.in_use k l (ground (arith, z))).1
  ]

  Ready-direct : Ready s addrs 0 ndirect
  Ready-direct = record {
    inside = λ k l m. rw (← slot_direct k (omega arith)) (inside_slot k (omega arith));
    marked = λ k l m nz.
        let q = slot_direct k (omega arith) in
        let (_, _, u) = v.in_use k (omega arith) (λ e. nz (sym q ∙ e)) in rw q at u;
    apart = λ i j a b c d e nz.
        let q = slot_direct i (omega arith) in
        let q' = slot_direct j (omega arith) in
        v.apart i j (omega arith) (omega arith) (q ∙ e ∙ sym q') (λ z. nz (sym q ∙ z));
  }

  -- The direct blocks are not among the blocks from slot 12 on.
  not_direct :
      (k : ℕ)
      → k < slots
      → ndirect ≤ k
      → block_of s addrs k ≢ 0
      → among addrs 0 ndirect (block_of s addrs k) ≡ false
  not_direct k l m nz = among-false addrs 0 ndirect (block_of s addrs k) (λ i a b ni e.
      let q = slot_direct i (omega arith) in
      let z = v.apart i k (omega arith) l (q ∙ e) (λ y. ni (sym q ∙ y)) in omega (arith, z))

  Ready-entries : (t : Fs) → Dropped s t (among addrs 0 ndirect) → Ready t entry 0 nindirect
  unfolding entry
  Ready-entries t d =
      let e₀ = d.layout.0 in
      record {
        inside = λ k l m. rw e₀ (inside_slot (13 + k) (omega arith));
        marked = λ k l m nz.
            let (_, _, u) = v.in_use (13 + k) (omega arith) nz in
            d.marks (block_of s addrs (13 + k))
            ∙ rw (u, not_direct (13 + k) (omega arith) (omega arith) nz) refl;
        apart = λ i j a b c e q nz.
            (let z = v.apart (13 + i) (13 + j) (omega arith) (omega arith) q nz in
              omega (arith, z));
      }

  only_direct : addrs ndirect ≡ 0 → IsBlocks s addrs (among addrs 0 ndirect)
  only_direct z = record {
    all = λ k l nz. elim (Bool-cases (ltb k ndirect)) [
      | inl h ↦
          let q = slot_direct k (ground (arith, h)) in
          rw q (among-true addrs 0 ndirect k (omega arith) (ground (arith, h)) (λ e. nz (q ∙ e)))
      | inr h ↦ absurd (nz (beyond k h))
    ];
    only = λ c h. among-false addrs 0 ndirect c (λ i a b ni e.
        let q = slot_direct i (omega arith) in h i (omega arith) (λ y. ni (sym q ∙ y)) (q ∙ e));
  }
    where
      beyond : (k : ℕ) → ltb k ndirect ≡ false → block_of s addrs k ≡ 0
      beyond k h = elim (Bool-cases (leb k ndirect)) [
        | inl y ↦ (let q : k ≡ ndirect = ground (arith, h, y) in rw q z)
        | inr y ↦ (let y' : (addrs ndirect == 0) ≡ true = ground (arith, z) in rw (y, y') refl)
      ]

  abbrev with_entries : ℕ → Bool
  unfolding entry
  with_entries c = among addrs 0 ndirect c || (among entry 0 nindirect c || just (addrs ndirect) c)

  all-IsBlocks : addrs ndirect ≢ 0 → IsBlocks s addrs with_entries
  unfolding with_entries entry
  all-IsBlocks nz = record {
    all = λ k l n. elim (Bool-cases (ltb k ndirect)) [
      | inl h ↦
          let q = slot_direct k (ground (arith, h)) in
          let r = among-true addrs 0 ndirect k (omega arith) (ground (arith, h)) (λ e. n (q ∙ e)) in
          rw (q, r) refl
      | inr h ↦ elim (Bool-cases (k == ndirect)) [
        | inl y ↦
            let k' : k ≡ ndirect = ground arith in
            let q : block_of s addrs k ≡ addrs ndirect =
              rw k' (slot_direct ndirect (omega arith)) in
            let r : just (addrs ndirect) (addrs ndirect) ≡ true = just_self _ nz in
            rw (q, r) (or_last _ _)
        | inr y ↦
            let e : 13 + (k - 13) ≡ k = ground (arith, h, y) in
            let r : among entry 0 nindirect (block_of s addrs (13 + (k - 13))) ≡ true =
              among-true entry 0 nindirect (k - 13) (omega arith) (omega arith) (rw e n) in
            let r' : among entry 0 nindirect (block_of s addrs k) ≡ true = rw e at r in
            rw r' (or_middle _ (just (addrs ndirect) (block_of s addrs k)))
      ]
    ];
    only = λ c h.
        let a = among-false addrs 0 ndirect c (λ i x y ni e.
          let q = slot_direct i (omega arith) in h i (omega arith) (λ w. ni (sym q ∙ w)) (q ∙ e)) in
        let b = among-false entry 0 nindirect c (λ i x y ni e. h (13 + i) (omega arith) ni e) in
        let q = slot_direct ndirect (omega arith) in
        let d = h ndirect (omega arith) (λ w. nz (sym q ∙ w)) in
        let z : just (addrs ndirect) c ≡ false = just_other _ c (λ w. d (q ∙ w)) in
        rw (a, b, z) refl;
  }

  entry_word :
      (k : ℕ) → (addrs ndirect == 0) ≡ false → word_at (s.blocks (addrs ndirect)) k ≡ entry k
  unfolding entry
  entry_word k y =
      let deep : leb (13 + k) ndirect ≡ false = ground arith in
      let q : 13 + k - 13 ≡ k = omega arith in rw (deep, y, q) refl

  freed_rest :
      (s₁ : Fs) (addrs₁ : ℕ → ℕ)
      → addrs₁ ndirect ≡ addrs ndirect
      → addrs ndirect ≢ 0
      → Dropped s s₁ (among addrs 0 ndirect)
      → (t : Fs) × (free_rest s₁ addrs₁ ≡ ok (t, update addrs₁ ndirect 0))
        × Dropped s t with_entries
  unfolding free_rest entry with_entries
  freed_rest s₁ addrs₁ same nz d =
      let b = addrs ndirect in
      let y : (b == 0) ≡ false = ground (arith, nz) in
      let (lo, hi, u) = v.in_use ndirect (omega arith) nz in
      let no_map : (c : ℕ) → c < s.size → bblock s c ≢ b =
        λ c h w. (let m = v.laid.maps c h in omega (arith, w, lo)) in
      let (e₀, _, _, e₃) = d.layout in
      let unchanged : s₁.blocks b ≡ s.blocks b = d.blocks b no_map in
      let (s₂, e, d₂) =
        free_indirect_lem nindirect s₁ entry b 0 (Ready-entries s₁ d)
          (λ c h. rw e₃ (no_map c (rw e₀ at h))) (λ k. rw unchanged (entry_word k y)) in
      let z₁ = not_direct ndirect (omega arith) (omega arith) nz in
      let z₂ : among entry 0 nindirect b ≡ false = among-false entry 0 nindirect b (λ i l m ni w.
        let q = v.apart (13 + i) ndirect (omega arith) (omega arith) w ni in omega (arith, q)) in
      let d' : Dropped s s₂ (λ c. among addrs 0 ndirect c || among entry 0 nindirect c) =
        Dropped-trans s s₁ s₂ (among addrs 0 ndirect) (among entry 0 nindirect) _ (λ c. refl) d
          d₂ in
      let u' : used s₂ b ≡ true = d'.marks b ∙ rw (u, z₁, z₂) refl in
      let (s₃, e', d₃) = bfree-Dropped s₂ b (rw (d'.layout.0) hi) nz u' in
      (
        s₃,
        through_rest s₁ s₂ s₃ addrs₁ b same y e e',
        Dropped-trans s s₂ s₃ (λ c. among addrs 0 ndirect c || among entry 0 nindirect c) (just b)
            with_entries
            (λ c. or_assoc (among addrs 0 ndirect c) (among entry 0 nindirect c) (just b c)) d' d₃,
      )

  no_rest : (s₁ : Fs) (addrs₁ : ℕ → ℕ) → addrs₁ ndirect ≡ 0 → free_rest s₁ addrs₁ ≡ ok (s₁, addrs₁)
  unfolding free_rest
  no_rest s₁ addrs₁ z =
      let y : (addrs₁ ndirect == 0) ≡ true = ground (arith, z) in rw (free_rest, y) refl

  -- Both loops and the free of the indirect block.
  pub free_lem :
      (r : Fs × (ℕ → ℕ)) × (t : Fs × (ℕ → ℕ)) × (gone : ℕ → Bool) × (free_direct s addrs 0 ndirect
        ≡ ok r)
      × (free_rest r.0 r.1 ≡ ok t)
      × Dropped s t.0 gone
      × IsBlocks s addrs gone
      × ((k : ℕ) → k < 13 → t.1 k ≡ 0)
  free_lem =
      let (r, e, d, z) = free_direct_lem ndirect s addrs addrs 0 Ready-direct (λ k l. refl) in
      let same : r.1 ndirect ≡ addrs ndirect = z ndirect in
      elim (Bool-cases (addrs ndirect == 0)) [
        | inl y ↦ (
          r,
          r,
          among addrs 0 ndirect,
          e,
          no_rest r.0 r.1 (same ∙ ground (arith, y)),
          d,
          only_direct (ground (arith, y)),
          λ k l. z k ∙ ground (arith, y, l),
        )
        | inr y ↦
            let nz : addrs ndirect ≢ 0 = ground (arith, y) in
            let (t, e', d') = freed_rest r.0 r.1 same nz d in
            (
              r,
              (t, update r.1 ndirect 0),
              with_entries,
              e,
              e',
              d',
              all-IsBlocks nz,
              λ k l. elim (Bool-cases (k == ndirect)) [
                | inl w ↦ rw w refl
                | inr w ↦ rw w (z k ∙ ground (arith, w, l))
              ],
            )
      ]
