-- ===== src/Fs/Transfer/Writing.antt =====
-- What writei of kernel/fs.c writes.
use mini_os_design.Common.{
  ℕ, ◌+◌, ◌-◌, ◌/◌, ◌%◌, ◌≤◌, ◌<◌, ◌≡◌, ◌≢◌, true, false, ◌&&◌, ◌==◌, leb, ltb, if◌then◌else◌, refl,
  sym, ◌∙◌, arith, Bool-cases, inl, inr, ◌⊎◌,
}
use mini_os_design.Fs.{Fs, bsize, write_block, bblock}
use mini_os_design.Fs.Bmap.{ndirect}
use mini_os_design.Fs.Slots.{block_of, slots, data_slot, byte, max_bytes, Kept, Rewritten}
use mini_os_design.Fs.Slots.Overwrite.{same-IsSound, same-IsForeign, new_bytes}
use mini_os_design.Fs.Transfer.{put_bytes, Written}
use mini_os_design.Fs.Transfer.Reading.{IsFull}
use mini_os_design.Fs.Transfer.Failed.{FailedAt}

-- A write that began at the byte `tot` of `n`, at `off` of the file: `amount` bytes are in the file, the
-- ones that are counted and, where a load failed, those that it loaded before.
pub record Wrote (have : ℕ → ℕ → ℕ) (s : Fs) (nmeta : ℕ) (addrs mem : ℕ → ℕ) (src off n tot : ℕ)
    (w : Written) : Type 0 where
  pub amount : ℕ
  pub held :
      Rewritten s nmeta addrs w.fs w.addrs
        (put_bytes (byte s addrs) off (λ i. mem (src + i)) amount)
  pub moved : w.off ≡ off + (w.tot - tot)
  pub least : tot ≤ w.tot
  pub most : amount ≤ n - tot
  pub enough : w.tot - tot ≤ amount
  pub stop :
      ((amount ≡ w.tot - tot) × ((w.tot ≡ n) ⊎ IsFull w.fs)) ⊎ FailedAt have src off n tot w.tot

pub Kept-Rewritten :
    (s s' : Fs) (nmeta : ℕ) (addrs addrs' : ℕ → ℕ) (f : ℕ → ℕ)
    → Kept s nmeta addrs s' addrs'
    → ((x : ℕ) → f x ≡ byte s addrs x)
    → Rewritten s nmeta addrs s' addrs' f
Kept-Rewritten s s' nmeta addrs addrs' f k h = record {
  sound = k.sound;
  layout = k.layout;
  bytes = λ x l. k.bytes x l ∙ sym (h x);
  foreign = k.foreign;
}

module _ (nmeta n : ℕ) (mem : ℕ → ℕ) where
  in_block :
      (s s' : Fs) (addrs addrs' : ℕ → ℕ) (off b g src x : ℕ)
      → Kept s nmeta addrs s' addrs'
      → b ≢ 0
      → block_of s' addrs' (data_slot (off / bsize)) ≡ b
      → g ≤ bsize - off % bsize
      → x < max_bytes
      → (if x / bsize == off / bsize
          then put_bytes (s'.blocks b) (off % bsize) (λ i. mem (src + i)) g (x % bsize)
          else byte s' addrs' x)
        ≡ put_bytes (byte s addrs) off (λ i. mem (src + i)) g x
  in_block s s' addrs addrs' off b g src x k nz e m lx =
      elim (Bool-cases (x / bsize == off / bsize)) [
        | inl h ↦
            let h' : x / bsize ≡ off / bsize = ground arith in
            let z : (b == 0) ≡ false = ground (arith, nz) in
            let same : byte s' addrs' x ≡ s'.blocks b (x % bsize) = rw (h', e, z) refl in
            let q : s'.blocks b (x % bsize) ≡ byte s addrs x = sym same ∙ k.bytes x lx in
            elim (Bool-cases (leb off x && ltb x (off + g))) [
              | inl y ↦
                  let y' : (leb (off % bsize) (x % bsize) && ltb (x % bsize) (off % bsize + g))
                      ≡ true =
                    ground (arith, y, h') in
                  let d : x % bsize - off % bsize ≡ x - off = ground (arith, y, h') in
                  rw (h, y, y', d) refl
              | inr y ↦
                  let y' : (leb (off % bsize) (x % bsize) && ltb (x % bsize) (off % bsize + g))
                      ≡ false =
                    ground (arith, y, h') in
                  rw (h, y, y') q
            ]
        | inr h ↦
            let y : (leb off x && ltb x (off + g)) ≡ false = ground (arith, h, m) in
            rw (h, y) (k.bytes x lx)
      ]

  -- One turn puts `g` bytes into the block of `off`.
  pub one_block :
      (s s' : Fs) (addrs addrs' : ℕ → ℕ) (off b g src : ℕ)
      → Kept s nmeta addrs s' addrs'
      → b ≢ 0
      → block_of s' addrs' (data_slot (off / bsize)) ≡ b
      → off / bsize < 268
      → g ≤ bsize - off % bsize
      → Rewritten s nmeta addrs
          (write_block s' b (put_bytes (s'.blocks b) (off % bsize) (λ i. mem (src + i)) g))
          addrs'
          (put_bytes (byte s addrs) off (λ i. mem (src + i)) g)
  one_block s s' addrs addrs' off b g src k nz e l m =
      let w : ℕ → ℕ = put_bytes (s'.blocks b) (off % bsize) (λ i. mem (src + i)) g in
      let j = data_slot (off / bsize) in
      let lj : j < slots = ground (arith, l) in
      let nj : block_of s' addrs' j ≢ 0 = λ z. nz (sym e ∙ z) in
      let (lo, _, _) = k.sound.in_use j lj nj in
      let no_map : (c : ℕ) → c < s'.size → bblock s' c ≢ b =
        λ c h z. (let a = k.sound.laid.maps c h in omega (arith, z, e)) in
      let no_index : addrs' ndirect ≢ 0 → b ≢ addrs' ndirect = λ _ z.
        (let q = k.sound.apart j ndirect lj (omega arith) (e ∙ z) nj in ground (arith, q, l)) in
      record {
        sound = same-IsSound s' nmeta addrs' k.sound b w no_map no_index;
        layout = k.layout;
        bytes = λ x lx.
            new_bytes s' nmeta addrs' k.sound b w no_map no_index (off / bsize) x e nz l lx
            ∙ in_block s s' addrs addrs' off b g src x k nz e m lx;
        foreign = λ c f.
            let (f', q) = k.foreign c f in
            let z : (c == b) ≡ false = ground (arith, f'.no_slot j lj, e) in
            (same-IsForeign s' nmeta addrs' k.sound b w no_map no_index c f', rw z q);
      }

  pub block_number : (off tot : ℕ) → tot < n → off + (n - tot) ≤ max_bytes → off / bsize < 268
  block_number off tot l w = omega arith
