-- ===== src/Fs/Bitmap/Freeing.antt =====
-- bfree of kernel/fs.c, on the free map.
use mini_os_design.Common.{
  ℕ, ◌%◌, ◌<◌, ◌≡◌, ◌≢◌, true, false, not, ◌&&◌, ◌==◌, refl, sym, ap, ◌∙◌, arith, Bool-cases, inl,
  inr, ok, panic,
}
use mini_os_design.Fs.{Fs, bits_per_block, bblock, write_block, clear_bit, balloc, bfree}
use mini_os_design.Fs.Bits.{and_true, is_set-clear_bit}
use mini_os_design.Fs.Bitmap.{used, IsMapUsed, Allocated, balloc-Allocated}

pub bfree_lem :
    (s : Fs) (b : ℕ)
    → (used s b ≡ false → bfree s b ≡ panic "freeing free block")
      × (used s b ≡ true
          → (s' : Fs) × (bfree s b ≡ ok s')
            × (s'.size ≡ s.size)
            × ((c : ℕ) → used s' c ≡ (used s c && not (c == b)))
            × ((c : ℕ) → c ≢ bblock s b → s'.blocks c ≡ s.blocks c))
unfolding bfree
bfree_lem s b = (
  λ f. rw (bfree, f) refl,
  λ u.
      let t = clear_bit (s.blocks (bblock s b)) (b % bits_per_block) in
      let s' = write_block s (bblock s b) t in
      (
        s',
        rw (bfree, u) refl,
        refl,
        freed u,
        λ c n. (let z : (c == bblock s b) ≡ false = ground (arith, n) in rw z refl),
      ),
)
  where
    freed :
        used s b ≡ true
        → (c : ℕ)
        → used
            (write_block s (bblock s b) (clear_bit (s.blocks (bblock s b)) (b % bits_per_block)))
            c
          ≡ (used s c && not (c == b))
    freed u c = elim (Bool-cases (bblock s c == bblock s b)) [
      | inl h ↦
          let q : bblock s c ≡ bblock s b = ground arith in
          let z : (c % bits_per_block == b % bits_per_block) ≡ (c == b) = ground (arith, q) in
          rw h (
            is_set-clear_bit (s.blocks (bblock s b)) (b % bits_per_block) (c % bits_per_block) u
            ∙ rw (z, q) refl)
      | inr h ↦
          let z : (c == b) ≡ false = ground (arith, h) in rw (h, z) (sym (and_true (used s c)))
    ]

-- Where the free map marks its own blocks as in use, a block other than 0 that balloc gives can be
-- freed by bfree, and every mark is then as before.
bfree-balloc :
    (s s' : Fs) (a : ℕ)
    → IsMapUsed s
    → balloc s ≡ (s', a)
    → a ≢ 0
    → (s'' : Fs) × (bfree s' a ≡ ok s'') × ((c : ℕ) → c < s.size → used s'' c ≡ used s c)
bfree-balloc s s' a m e n = elim (balloc-Allocated s m) [
  | inl (t, b, q, h) ↦
      let p : t ≡ s' = ap (λ x. x.0) (sym q ∙ e) in
      let p' : b ≡ a = ap (λ x. x.1) (sym q ∙ e) in
      let h' : Allocated s s' a = rw (p, p') at h in
      let u : used s' a ≡ true = h'.marked a h'.within ∙ ground arith in
      let (s'', r, _, f, _) = (bfree_lem s' a).1 u in
      (s'', r, λ c l. f c ∙ ground (arith, h'.marked c l, h'.free))
  | inr (q, _) ↦ absurd (n (ap (λ x. x.1) (sym e ∙ q)))
]
