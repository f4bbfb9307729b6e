-- ===== src/Fs/Transfer/WriteLoop.antt =====
-- The loop of writei of kernel/fs.c.
use mini_os_design.Common.{
  ℕ, zero, suc, ◌+◌, ◌-◌, ◌/◌, ◌%◌, ◌≤◌, ◌<◌, ◌≡◌, ◌≢◌, true, false, ◌==◌, ltb, min, refl, arith,
  Bool-cases, inl, inr, ◌⊎◌, ok,
}
use mini_os_design.Fs.{Fs, bsize, write_block}
use mini_os_design.Fs.Bmap.{bmap}
use mini_os_design.Fs.Slots.{block_of, data_slot, byte, max_bytes, IsSound, Kept, Rewritten}
use mini_os_design.Fs.Slots.Mapped.{bmap_lem}
use mini_os_design.Fs.Slots.Preserved.{Kept-refl}
use mini_os_design.Fs.Slots.Overwrite.{Rewritten-trans}
use mini_os_design.Fs.Transfer.{put_bytes, Written, write_blocks}
use mini_os_design.Fs.Transfer.Reading.{IsFull}
use mini_os_design.Fs.Transfer.Failed.{FailedAt-here, FailedAt-turn}
use mini_os_design.Fs.Transfer.Bytes.{put_put}
use mini_os_design.Fs.Transfer.Writing.{Wrote, Kept-Rewritten, one_block, block_number}

module _ (have : ℕ → ℕ → ℕ) (at_most : (d m : ℕ) → have d m ≤ m) (nmeta n : ℕ) (mem : ℕ → ℕ) where
  nothing :
      (s s' : Fs) (addrs addrs' : ℕ → ℕ) (src off tot : ℕ)
      → tot ≤ n
      → Kept s nmeta addrs s' addrs'
      → (tot ≡ n) ⊎ IsFull s'
      → Wrote have s nmeta addrs mem src off n tot
          (record { fs = s'; addrs = addrs'; off = off; tot = tot })
  nothing s s' addrs addrs' src off tot l k q = record {
    amount = 0;
    held = Kept-Rewritten s s' nmeta addrs addrs' _ k (λ x. ground arith);
    moved = omega arith;
    least = omega arith;
    most = omega arith;
    enough = omega arith;
    stop = inl (omega arith, q);
  }

  -- What a turn that goes on adds to what the turns after it write.
  after_turn :
      (s s₁ : Fs) (addrs addrs₁ : ℕ → ℕ) (src off tot m g : ℕ) (w : Written)
      → Rewritten s nmeta addrs s₁ addrs₁ (put_bytes (byte s addrs) off (λ i. mem (src + i)) g)
      → g ≡ m
      → tot < n
      → m ≡ min (n - tot) (bsize - off % bsize)
      → Wrote have s₁ nmeta addrs₁ mem (src + m) (off + m) n (tot + m) w
      → Wrote have s nmeta addrs mem src off n tot w
  after_turn s s₁ addrs addrs₁ src off tot m g w r₀ q₀ l em h =
      let r : Rewritten s nmeta addrs s₁ addrs₁
          (put_bytes (byte s addrs) off (λ i. mem (src + i)) m) =
        rw q₀ at r₀ in
      let whole : ℕ → ℕ = λ i. mem (src + i) in
      let rest : ℕ → ℕ = λ i. mem (src + m + i) in
      record {
        amount = m + h.amount;
        held =
            Rewritten-trans s s₁ w.fs nmeta addrs addrs₁ w.addrs
              (put_bytes (byte s addrs) off whole m)
              (put_bytes (byte s₁ addrs₁) (off + m) rest h.amount)
              (put_bytes (byte s addrs) off whole (m + h.amount))
              (λ x lx.
                put_put (byte s addrs) (byte s₁ addrs₁) off m h.amount x whole rest whole
                  (λ i li. refl)
                  (λ i li. (let z : src + m + i ≡ src + (m + i) = omega arith in rw z refl))
                  (r.bytes x lx))
              r h.held;
        moved = (let q = h.moved in let q' = h.least in omega arith);
        least = (let q' = h.least in omega arith);
        most = (let q = h.most in omega arith);
        enough = (let q = h.enough in omega arith);
        stop = elim h.stop [
          | inl (q, z) ↦ (let y = h.least in inl (omega (arith, q, y), z))
          | inr z ↦ inr (FailedAt-turn have src off n tot w.tot (rw em at z))
        ];
      }

  -- What the loop does with `fuel` turns left.
  abbrev Writes : ℕ → Fs → (ℕ → ℕ) → ℕ → ℕ → ℕ → Type 0
  Writes fuel s addrs src off tot =
      (w : Written) × (write_blocks fuel have s addrs mem src off n tot ≡ ok w)
      × Wrote have s nmeta addrs mem src off n tot w

  -- A turn for which bmap gives the block `a`; `rest` is about the turns after it.
  write_turn :
      (fuel : ℕ) (s s₁ : Fs) (addrs addrs₁ : ℕ → ℕ) (src off tot a : ℕ)
      → ltb tot n ≡ true
      → bmap s addrs (off / bsize) ≡ ok (s₁, addrs₁, a)
      → Kept s nmeta addrs s₁ addrs₁
      → a ≢ 0
      → block_of s₁ addrs₁ (data_slot (off / bsize)) ≡ a
      → off / bsize < 268
      → ((s₂ : Fs) (m : ℕ)
          → m ≡ min (n - tot) (bsize - off % bsize)
          → IsSound s₂ nmeta addrs₁
          → Writes fuel s₂ addrs₁ (src + m) (off + m) (tot + m))
      → Writes (suc fuel) s addrs src off tot
  unfolding write_blocks
  write_turn fuel s s₁ addrs addrs₁ src off tot a h e k nz sl lb rest =
      let lt : tot < n = ground (arith, h) in
      let z : (a == 0) ≡ false = ground (arith, nz) in
      let m : ℕ = min (n - tot) (bsize - off % bsize) in
      let g : ℕ = have src m in
      let lg = at_most src m in
      let s₂ : Fs =
        write_block s₁ a (put_bytes (s₁.blocks a) (off % bsize) (λ i. mem (src + i)) g) in
      let r : Rewritten s nmeta addrs s₂ addrs₁
          (put_bytes (byte s addrs) off (λ i. mem (src + i)) g) =
        one_block nmeta n mem s s₁ addrs addrs₁ off a g src k nz sl lb (omega (arith, lg)) in
      elim (Bool-cases (g == m)) [
        | inr y ↦ (
          record { fs = s₂; addrs = addrs₁; off = off; tot = tot },
          rw (write_blocks, h, e, z, y) refl,
          record {
            amount = g;
            held = r;
            moved = omega arith;
            least = omega arith;
            most = omega (arith, lg);
            enough = omega arith;
            stop = inr (FailedAt-here have src off n tot lt y);
          },
        )
        | inl y ↦
            let (w, e', d) = rest s₂ m refl r.sound in
            (
              w,
              rw (write_blocks, h, e, z, y) e',
              after_turn s s₂ addrs addrs₁ src off tot m g w r (ground (arith, y)) lt (omega arith)
                  d,
            )
      ]

  write_blocks_lem :
      (fuel : ℕ) (s : Fs) (addrs : ℕ → ℕ) (src off tot : ℕ)
      → IsSound s nmeta addrs
      → tot ≤ n
      → n ≤ tot + fuel
      → (tot < n → off + (n - tot) ≤ max_bytes)
      → Writes fuel s addrs src off tot
  unfolding write_blocks
  write_blocks_lem zero s addrs src off tot v l f b = (
    record { fs = s; addrs = addrs; off = off; tot = tot },
    refl,
    nothing s s addrs addrs src off tot l (Kept-refl s nmeta addrs v) (inl (omega arith)),
  )
  write_blocks_lem (suc fuel) s addrs src off tot v l f b = elim (Bool-cases (ltb tot n)) [
    | inr h ↦ (
      record { fs = s; addrs = addrs; off = off; tot = tot },
      rw (write_blocks, h) refl,
      nothing s s addrs addrs src off tot l (Kept-refl s nmeta addrs v) (inl (ground (arith, h))),
    )
    | inl h ↦
        let lt : tot < n = ground (arith, h) in
        let b' = b lt in
        let lb = block_number nmeta n mem off tot lt b' in
        let ((s₁, addrs₁, a), e, k, q) = bmap_lem s nmeta addrs (off / bsize) v lb in
        elim q [
          | inr (z, u) ↦
              let z' : (a == 0) ≡ true = ground (arith, z) in
              (
                record { fs = s₁; addrs = addrs₁; off = off; tot = tot },
                rw (write_blocks, h, e, z') refl,
                nothing s s₁ addrs addrs₁ src off tot l k (inr u),
              )
          | inl (nz, sl) ↦
              write_turn fuel s s₁ addrs addrs₁ src off tot a h e k nz sl lb (λ s₂ m em v₂.
                write_blocks_lem fuel s₂ addrs₁ (src + m) (off + m) (tot + m) v₂ (omega (arith, em))
                  (omega (arith, em)) (λ q. omega (arith, em)))
        ]
  ]

  pub write_all :
      (s : Fs) (addrs : ℕ → ℕ) (src off : ℕ)
      → IsSound s nmeta addrs
      → off + n ≤ max_bytes
      → (w : Written) × (write_blocks n have s addrs mem src off n 0 ≡ ok w)
        × Wrote have s nmeta addrs mem src off n 0 w
  write_all s addrs src off v l =
      write_blocks_lem n s addrs src off 0 v (omega arith) (omega arith) (λ q. omega (arith, l))
