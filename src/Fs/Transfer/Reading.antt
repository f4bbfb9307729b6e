-- ===== src/Fs/Transfer/Reading.antt =====
-- What readi of kernel/fs.c reads.
use mini_os_design.Common.{
  ℕ, zero, suc, ◌+◌, ◌-◌, ◌/◌, ◌%◌, ◌^◌, ◌≤◌, ◌<◌, ◌≡◌, ◌≢◌, true, false, ◌||◌, ◌==◌, ltb, min,
  refl, sym, ◌∙◌, arith, Bool-cases, inl, inr, ◌⊎◌, ok, none, some,
}
use mini_os_design.Fs.{Fs, bsize}
use mini_os_design.Fs.Bitmap.{used}
use mini_os_design.Fs.Itable.{Inode}
use mini_os_design.Fs.Bmap.{bmap}
use mini_os_design.Fs.Slots.{block_of, data_slot, byte, max_bytes, IsSound, Kept}
use mini_os_design.Fs.Slots.Mapped.{bmap_lem}
use mini_os_design.Fs.Slots.Preserved.{Kept-refl, Kept-trans}
use mini_os_design.Fs.Transfer.{put_bytes, FileRead, read_blocks, readi}
use mini_os_design.Fs.Transfer.Bytes.{put_put}
use mini_os_design.Fs.Transfer.Failed.{FailedAt, FailedAt-here, FailedAt-turn}

-- No block is left.
abbrev pub IsFull : Fs → Type 0
IsFull s = (c : ℕ) → c < s.size → used s c ≡ true

-- A read that began at the byte `tot` of `n`: it stored the bytes of the file at `dst`, all of them or
-- as many as there were blocks for, or some store failed.
abbrev pub Delivered : (ℕ → ℕ → ℕ) → Fs → (ℕ → ℕ) → (ℕ → ℕ) → ℕ → ℕ → ℕ → ℕ → FileRead → Type 0
Delivered room s addrs mem dst off n tot r =
    ((t : ℕ) × (r.result ≡ some t)
      × (tot ≤ t)
      × (t ≤ n)
      × ((x : ℕ) → r.mem x ≡ put_bytes mem dst (λ i. byte s addrs (off + i)) (t - tot) x)
      × ((t ≡ n) ⊎ IsFull r.fs))
    ⊎ ((r.result ≡ none) × (t : ℕ) × FailedAt room dst off n tot t)

module _ (room : ℕ → ℕ → ℕ) (nmeta n : ℕ) where
  -- The bytes of one block of the file.
  pub block_bytes :
      (s s' : Fs) (addrs addrs' : ℕ → ℕ) (off b i : ℕ)
      → Kept s nmeta addrs s' addrs'
      → b ≢ 0
      → block_of s' addrs' (data_slot (off / bsize)) ≡ b
      → off + i < max_bytes
      → i < bsize - off % bsize
      → s'.blocks b (off % bsize + i) ≡ byte s addrs (off + i)
  block_bytes s s' addrs addrs' off b i k nz e l m =
      let q : (off + i) / bsize ≡ off / bsize = omega arith in
      let q' : (off + i) % bsize ≡ off % bsize + i = omega arith in
      let z : (b == 0) ≡ false = ground (arith, nz) in
      sym (sym (k.bytes (off + i) l) ∙ rw (q, q', e, z) refl)

  -- What a turn that goes on adds to what the turns after it deliver.
  after_turn :
      (s s₁ : Fs) (addrs addrs₁ mem : ℕ → ℕ) (dst off tot b : ℕ) (r : FileRead)
      → Kept s nmeta addrs s₁ addrs₁
      → b ≢ 0
      → block_of s₁ addrs₁ (data_slot (off / bsize)) ≡ b
      → tot < n
      → off + (n - tot) ≤ max_bytes
      → room dst (min (n - tot) (bsize - off % bsize)) ≡ min (n - tot) (bsize - off % bsize)
      → Delivered room s₁ addrs₁
          (put_bytes mem dst
            (λ i. s₁.blocks b (off % bsize + i))
            (room dst (min (n - tot) (bsize - off % bsize))))
          (dst + min (n - tot) (bsize - off % bsize))
          (off + min (n - tot) (bsize - off % bsize))
          n
          (tot + min (n - tot) (bsize - off % bsize))
          r
      → Delivered room s addrs mem dst off n tot r
  after_turn s s₁ addrs addrs₁ mem dst off tot b r k nz sl lt w y d =
      let m : ℕ = min (n - tot) (bsize - off % bsize) in
      let src : ℕ → ℕ = λ i. s₁.blocks b (off % bsize + i) in
      elim d [
        | inl (t, e, lo, hi, ms, q) ↦
            let g : t - tot ≡ m + (t - (tot + m)) = omega arith in
            inl (
              t,
              e,
              omega arith,
              hi,
              λ x.
                  ms x
                  ∙ rw g (
                      put_put mem (put_bytes mem dst src (room dst m)) dst m (t - (tot + m)) x src
                        (λ i. byte s₁ addrs₁ (off + m + i)) (λ i. byte s addrs (off + i))
                        (λ i l.
                          block_bytes s s₁ addrs addrs₁ off b i k nz sl (omega arith) (omega arith))
                        (λ i l.
                          let z : off + m + i ≡ off + (m + i) = omega arith in
                          rw z (k.bytes (off + (m + i)) (omega arith)))
                        (rw y refl)),
              q,
            )
        | inr (e, t, f) ↦ inr (e, t, FailedAt-turn room dst off n tot t f)
      ]

  block_number : (off tot : ℕ) → tot < n → off + (n - tot) ≤ max_bytes → off / bsize < 268
  block_number off tot l w = omega arith

  -- What the loop does with `fuel` turns left.
  abbrev Reads : ℕ → Fs → (ℕ → ℕ) → (ℕ → ℕ) → ℕ → ℕ → ℕ → Type 0
  Reads fuel s addrs mem dst off tot =
      (r : FileRead) × (read_blocks fuel room s addrs mem dst off n tot ≡ ok r)
      × Kept s nmeta addrs r.fs r.addrs
      × Delivered room s addrs mem dst off n tot r

  nothing :
      (s s' : Fs) (addrs addrs' mem : ℕ → ℕ) (dst off tot : ℕ)
      → tot ≤ n
      → (tot ≡ n) ⊎ IsFull s'
      → Delivered room s addrs mem dst off n tot
          (record { fs = s'; addrs = addrs'; mem = mem; result = some tot })
  nothing s s' addrs addrs' mem dst off tot l q =
      inl (tot, refl, omega arith, l, λ x. ground arith, q)

  -- A turn for which bmap gives the block `b`; `rest` is about the turns after it.
  read_turn :
      (fuel : ℕ) (s s₁ : Fs) (addrs addrs₁ mem : ℕ → ℕ) (dst off tot b : ℕ)
      → ltb tot n ≡ true
      → off + (n - tot) ≤ max_bytes
      → bmap s addrs (off / bsize) ≡ ok (s₁, addrs₁, b)
      → Kept s nmeta addrs s₁ addrs₁
      → b ≢ 0
      → block_of s₁ addrs₁ (data_slot (off / bsize)) ≡ b
      → ((mem' : ℕ → ℕ) (m : ℕ)
          → m ≡ min (n - tot) (bsize - off % bsize)
          → Reads fuel s₁ addrs₁ mem' (dst + m) (off + m) (tot + m))
      → Reads (suc fuel) s addrs mem dst off tot
  unfolding read_blocks
  read_turn fuel s s₁ addrs addrs₁ mem dst off tot b h w e k nz sl rest =
      let z : (b == 0) ≡ false = ground (arith, nz) in
      let m : ℕ = min (n - tot) (bsize - off % bsize) in
      let mem' : ℕ → ℕ = put_bytes mem dst (λ i. s₁.blocks b (off % bsize + i)) (room dst m) in
      elim (Bool-cases (room dst m == m)) [
        | inr y ↦ (
          record { fs = s₁; addrs = addrs₁; mem = mem'; result = none },
          rw (read_blocks, h, e, z, y) refl,
          k,
          inr (refl, tot, FailedAt-here room dst off n tot (ground (arith, h)) y),
        )
        | inl y ↦
            let (r, e', k', d) = rest mem' m refl in
            (
              r,
              rw (read_blocks, h, e, z, y) e',
              Kept-trans s s₁ r.fs nmeta addrs addrs₁ r.addrs k k',
              after_turn s s₁ addrs addrs₁ mem dst off tot b r k nz sl (ground (arith, h)) w
                  (ground (arith, y)) d,
            )
      ]

  read_blocks_lem :
      (fuel : ℕ) (s : Fs) (addrs mem : ℕ → ℕ) (dst off tot : ℕ)
      → IsSound s nmeta addrs
      → tot ≤ n
      → n ≤ tot + fuel
      → (tot < n → off + (n - tot) ≤ max_bytes)
      → Reads fuel s addrs mem dst off tot
  unfolding read_blocks
  read_blocks_lem zero s addrs mem dst off tot v l f w = (
    record { fs = s; addrs = addrs; mem = mem; result = some tot },
    refl,
    Kept-refl s nmeta addrs v,
    nothing s s addrs addrs mem dst off tot l (inl (omega arith)),
  )
  read_blocks_lem (suc fuel) s addrs mem dst off tot v l f w = elim (Bool-cases (ltb tot n)) [
    | inr h ↦ (
      record { fs = s; addrs = addrs; mem = mem; result = some tot },
      rw (read_blocks, h) refl,
      Kept-refl s nmeta addrs v,
      nothing s s addrs addrs mem dst off tot l (inl (ground (arith, h))),
    )
    | inl h ↦
        let lt : tot < n = ground (arith, h) in
        let w' = w lt in
        let ((s₁, addrs₁, b), e, k, a) =
          bmap_lem s nmeta addrs (off / bsize) v (block_number off tot lt w') in
        elim a [
          | inr (z, u) ↦
              let z' : (b == 0) ≡ true = ground (arith, z) in
              (
                record { fs = s₁; addrs = addrs₁; mem = mem; result = some tot },
                rw (read_blocks, h, e, z') refl,
                k,
                nothing s s₁ addrs addrs₁ mem dst off tot l (inr u),
              )
          | inl (nz, sl) ↦
              read_turn fuel s s₁ addrs addrs₁ mem dst off tot b h w' e k nz sl (λ mem' m em.
                read_blocks_lem fuel s₁ addrs₁ mem' (dst + m) (off + m) (tot + m) k.sound
                  (omega (arith, em)) (omega (arith, em)) (λ q. omega (arith, em)))
        ]
  ]

-- Where a uint holds off + n, readi is its loop on the bytes that the file has.
readi_lem :
    (room : ℕ → ℕ → ℕ) (s : Fs) (ip : Inode) (mem : ℕ → ℕ) (dst off n : ℕ)
    → off + n < 2 ^ 32
    → readi room s ip mem dst off n
      ≡ read_blocks (min n (ip.size - off)) room s ip.addrs mem dst off (min n (ip.size - off)) 0
unfolding readi read_blocks
readi_lem room s ip mem dst off n w =
    let z : (off + n) % 2 ^ 32 ≡ off + n = omega arith in
    elim (Bool-cases (ltb ip.size off || ltb (off + n) off)) [
      | inl h ↦
          let q : min n (ip.size - off) ≡ 0 = ground (arith, h) in
          rw (readi, z, h, q, read_blocks) refl
      | inr h ↦ elim (Bool-cases (ltb ip.size (off + n))) [
        | inl g ↦
            let q : min n (ip.size - off) ≡ ip.size - off = ground (arith, g) in
            rw (readi, z, h, g, q) refl
        | inr g ↦
            let q : min n (ip.size - off) ≡ n = ground (arith, g) in rw (readi, z, h, g, q) refl
      ]
    ]

-- For a file whose size is at most MAXFILE*BSIZE, with off and n whose sum a uint holds, readi
-- returns within as many turns as it reads bytes; what the file holds and all blocks that are not
-- of it stay. It answers the number of the bytes that it stored in order at dst, no more than n and
-- than the file has from off on, and it is all of these or no block is left to fill a hole; or it
-- answers -1, and the store of the bytes that one turn takes from one block, at their place after
-- dst, comes short.
pub readi-Delivered :
    (room : ℕ → ℕ → ℕ) (s : Fs) (nmeta : ℕ) (ip : Inode) (mem : ℕ → ℕ) (dst off n : ℕ)
    → IsSound s nmeta ip.addrs
    → ip.size ≤ max_bytes
    → off + n < 2 ^ 32
    → (r : FileRead) × (readi room s ip mem dst off n ≡ ok r)
      × Kept s nmeta ip.addrs r.fs r.addrs
      × Delivered room s ip.addrs mem dst off (min n (ip.size - off)) 0 r
readi-Delivered room s nmeta ip mem dst off n v l w =
    let k : ℕ = min n (ip.size - off) in
    let (r, e, k', d) =
      read_blocks_lem room nmeta k k s ip.addrs mem dst off 0 v (omega arith) (omega arith)
        (λ q. omega arith) in
    (r, readi_lem room s ip mem dst off n w ∙ e, k', d)
