-- ===== src/Fs/Slots/Grow.antt =====
-- A free block becomes a block of a file.
use mini_os_design.Common.{
  ℕ, ◌/◌, ◌%◌, ◌≤◌, ◌<◌, ◌≡◌, ◌≢◌, true, false, ◌||◌, ◌==◌, ltb, if◌then◌else◌, refl, sym, ◌∙◌,
  arith, Bool-cases, inl, inr,
}
use mini_os_design.Fs.{Fs, bsize, bblock}
use mini_os_design.Fs.Bitmap.{used, IsMapUsed}
use mini_os_design.Fs.Bmap.{ndirect}
use mini_os_design.Fs.Slots.{
  block_of, slots, data_slot, max_bytes, byte, IsLaid, IsSound, IsForeign, SameLayout, Kept,
}

-- `a` was free, and is now in the slot `k`, which was empty.
pub record Grown (s s' : Fs) (addrs addrs' : ℕ → ℕ) (k a : ℕ) : Type 0 where
  pub layout : SameLayout s s'
  pub within : a < s.size
  pub free : used s a ≡ false
  pub marks : (b : ℕ) → b < s.size → used s' b ≡ (used s b || b == a)
  pub empty : block_of s addrs k ≡ 0
  pub now : (j : ℕ) → j < slots → block_of s' addrs' j ≡ (if j == k then a else block_of s addrs j)
  pub zeroed : (i : ℕ) → i < bsize → s'.blocks a i ≡ 0
  pub rest :
      (c : ℕ)
      → c ≢ a
      → ((b : ℕ) → b < s.size → bblock s b ≢ c)
      → (c ≢ addrs ndirect)
      → s'.blocks c ≡ s.blocks c

pub IsLaid-IsMapUsed : (s : Fs) (nmeta : ℕ) → IsLaid s nmeta → IsMapUsed s
IsLaid-IsMapUsed s nmeta l b h =
    let m = l.maps b h in let f = l.fits in (omega arith, l.reserved (bblock s b) m)

module _ (s s' : Fs) (nmeta : ℕ) (addrs addrs' : ℕ → ℕ) (k a : ℕ) where
  -- Blocks in use stay in use.
  stays : Grown s s' addrs addrs' k a → (b : ℕ) → b < s.size → used s b ≡ true → used s' b ≡ true
  stays g b l u = g.marks b l ∙ rw u refl

  -- A free block is not below nmeta.
  above : IsLaid s nmeta → used s a ≡ false → nmeta ≤ a
  above l f = elim (Bool-cases (ltb a nmeta)) [
    | inl h ↦ (let c : true ≡ false = sym (l.reserved a (ground (arith, h))) ∙ f in cc)
    | inr h ↦ ground (arith, h)
  ]

  not_map : IsLaid s nmeta → (c : ℕ) → nmeta ≤ c → (b : ℕ) → b < s.size → bblock s b ≢ c
  not_map l c h b i e = let m = l.maps b i in omega (arith, e)

  laid' : Grown s s' addrs addrs' k a → IsLaid s nmeta → IsLaid s' nmeta
  laid' g l =
      let (e₀, e₁, e₂, e₃) = g.layout in
      record {
        maps = λ b h. (let m = l.maps b (rw e₀ at h) in rw e₃ m);
        inodes = λ i h. (let m = l.inodes i (rw e₁ at h) in rw e₂ m);
        disjoint = λ i b h h'. (let m = l.disjoint i b (rw e₁ at h) (rw e₀ at h') in rw (e₂, e₃) m);
        reserved = λ b h. stays g b (let f = l.fits in omega arith) (l.reserved b h);
        fits = rw e₀ l.fits;
        small = rw e₀ l.small;
      }

  sound' : Grown s s' addrs addrs' k a → IsSound s nmeta addrs → IsSound s' nmeta addrs'
  sound' g v =
      let e₀ = g.layout.0 in
      record {
        laid = laid' g v.laid;
        in_use = λ j l n. elim (Bool-cases (j == k)) [
          | inl h ↦
              let q : block_of s' addrs' j ≡ a = g.now j l ∙ rw h refl in
              let z : (a == a) ≡ true = ground arith in
              rw (q, e₀) (above v.laid g.free, g.within, g.marks a g.within ∙ rw z (ground arith))
          | inr h ↦
              let q : block_of s' addrs' j ≡ block_of s addrs j = g.now j l ∙ rw h refl in
              let (x, y, z) = v.in_use j l (λ e. n (q ∙ e)) in
              rw (q, e₀) (x, y, stays g (block_of s addrs j) y z)
        ];
        apart = λ i j l m e n. elim (Bool-cases (i == k)) [
          | inl h ↦ elim (Bool-cases (j == k)) [
            | inl h' ↦ ground (arith, h, h')
            | inr h' ↦
                let q : block_of s' addrs' i ≡ a = g.now i l ∙ rw h refl in
                let q' : block_of s' addrs' j ≡ block_of s addrs j = g.now j m ∙ rw h' refl in
                let w : block_of s addrs j ≡ a = sym q' ∙ sym e ∙ q in
                let (_, _, u) = v.in_use j m (λ z. n (e ∙ q' ∙ z)) in
                let c : true ≡ false = sym u ∙ rw w g.free in cc
          ]
          | inr h ↦ elim (Bool-cases (j == k)) [
            | inl h' ↦
                let q : block_of s' addrs' i ≡ block_of s addrs i = g.now i l ∙ rw h refl in
                let q' : block_of s' addrs' j ≡ a = g.now j m ∙ rw h' refl in
                let w : block_of s addrs i ≡ a = sym q ∙ e ∙ q' in
                let (_, _, u) = v.in_use i l (λ z. n (q ∙ z)) in
                let c : true ≡ false = sym u ∙ rw w g.free in cc
            | inr h' ↦
                let q : block_of s' addrs' i ≡ block_of s addrs i = g.now i l ∙ rw h refl in
                let q' : block_of s' addrs' j ≡ block_of s addrs j = g.now j m ∙ rw h' refl in
                v.apart i j l m (sym q ∙ e ∙ q') (λ z. n (q ∙ z))
          ]
        ];
      }

  not_free : (c : ℕ) → used s c ≡ true → used s a ≡ false → c ≢ a
  not_free c u f e = let z : true ≡ false = sym u ∙ rw e f in cc

  bytes_kept :
      Grown s s' addrs addrs' k a
      → IsSound s nmeta addrs
      → (x : ℕ) → x < max_bytes
      → byte s' addrs' x ≡ byte s addrs x
  bytes_kept g v x l =
      let j = data_slot (x / bsize) in
      let lj : j < slots = ground arith in
      let nj : j ≢ ndirect = ground arith in
      elim (Bool-cases (j == k)) [
        | inl h ↦
            let q : block_of s' addrs' j ≡ a = g.now j lj ∙ rw h refl in
            let j' : j ≡ k = ground arith in
            let q' : block_of s addrs j ≡ 0 = rw j' g.empty in
            let z = g.zeroed (x % bsize) (omega arith) in rw (q, q') (ground (arith, z))
        | inr h ↦
            let q : block_of s' addrs' j ≡ block_of s addrs j = g.now j lj ∙ rw h refl in
            elim (Bool-cases (block_of s addrs j == 0)) [
              | inl z ↦ rw (q, z) refl
              | inr z ↦
                  let n : block_of s addrs j ≢ 0 = ground (arith, z) in
                  let (lo, _, u) = v.in_use j lj n in
                  let d : block_of s addrs j ≢ addrs ndirect =
                    λ e. nj (v.apart j ndirect lj (omega arith) e n) in
                  let w =
                    g.rest (block_of s addrs j) (not_free _ u g.free) (not_map v.laid _ lo) d in
                  rw (q, z, w) refl
            ]
      ]

  IsForeign-kept :
      Grown s s' addrs addrs' k a
      → (c : ℕ) → IsForeign s addrs c
      → IsForeign s' addrs' c × (s'.blocks c ≡ s.blocks c)
  IsForeign-kept g c f =
      let (e₀, _, _, e₃) = g.layout in
      (
        record {
          within = rw e₀ f.within;
          used_here = stays g c f.within f.used_here;
          no_map = λ b l. rw e₃ (f.no_map b (rw e₀ at l));
          no_slot = λ j l. elim (Bool-cases (j == k)) [
            | inl h ↦
                let q : block_of s' addrs' j ≡ a = g.now j l ∙ rw h refl in
                λ e. not_free c f.used_here g.free (sym e ∙ q)
            | inr h ↦
                let q : block_of s' addrs' j ≡ block_of s addrs j = g.now j l ∙ rw h refl in
                λ e. f.no_slot j l (sym q ∙ e)
          ];
        },
        g.rest c (not_free c f.used_here g.free) f.no_map
            (λ e. f.no_slot ndirect (omega arith) (sym e)),
      )

  pub Grown-Kept :
      Grown s s' addrs addrs' k a → IsSound s nmeta addrs → Kept s nmeta addrs s' addrs'
  Grown-Kept g v = record {
    sound = sound' g v;
    layout = g.layout;
    bytes = bytes_kept g v;
    foreign = IsForeign-kept g;
  }
