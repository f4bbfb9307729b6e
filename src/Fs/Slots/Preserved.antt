-- ===== src/Fs/Slots/Preserved.antt =====
-- What balloc of kernel/fs.c leaves as it was, for the blocks of a file.
use mini_os_design.Common.{
  ℕ, zero, suc, ◌+◌, ◌-◌, ◌/◌, ◌<◌, ◌≡◌, ◌≢◌, true, false, min, refl, sym, ◌∙◌, arith, inl, inr,
  ◌⊎◌, Option-cases,
}
use mini_os_design.Fs.{Fs, bblock, bits_per_block, free_bit, balloc, alloc_from, bzero}
use mini_os_design.Fs.Bitmap.{used, Allocated, balloc-Allocated}
use mini_os_design.Fs.Slots.{IsLaid, IsSound, SameLayout, Kept}
use mini_os_design.Fs.Slots.Grow.{IsLaid-IsMapUsed}

pub Kept-refl :
    (s : Fs) (nmeta : ℕ) (addrs : ℕ → ℕ) → IsSound s nmeta addrs → Kept s nmeta addrs s addrs
Kept-refl s nmeta addrs v = record {
  sound = v;
  layout = (refl, refl, refl, refl);
  bytes = λ x l. refl;
  foreign = λ c f. (f, refl);
}

pub SameLayout-trans : (s t u : Fs) → SameLayout s t → SameLayout t u → SameLayout s u
SameLayout-trans s t u a b = (b.0 ∙ a.0, b.1 ∙ a.1, b.2 ∙ a.2, b.3 ∙ a.3)

pub Kept-trans :
    (s t u : Fs) (nmeta : ℕ) (p q r : ℕ → ℕ)
    → Kept s nmeta p t q
    → Kept t nmeta q u r
    → Kept s nmeta p u r
Kept-trans s t u nmeta p q r a b = record {
  sound = b.sound;
  layout = SameLayout-trans s t u a.layout b.layout;
  bytes = λ x l. b.bytes x l ∙ a.bytes x l;
  foreign = λ c f. let (f', e) = a.foreign c f in let (f'', e') = b.foreign c f' in (f'', e' ∙ e);
}

alloc_from_layout : (n : ℕ) (s : Fs) (b : ℕ) → SameLayout s (alloc_from s b n).0
unfolding alloc_from bzero
alloc_from_layout zero s b = (refl, refl, refl, refl)
alloc_from_layout (suc n) s b =
    elim (Option-cases (free_bit (s.blocks (bblock s b)) 0 (min bits_per_block (s.size - b)))) [
      | inl z ↦ rw (alloc_from, z) (alloc_from_layout n s (b + bits_per_block))
      | inr (bi, z) ↦ rw (alloc_from, z, bzero) (refl, refl, refl, refl)
    ]

pub balloc_layout : (s : Fs) → SameLayout s (balloc s).0
unfolding balloc
balloc_layout s = alloc_from_layout ((s.size + bits_per_block - 1) / bits_per_block) s 0

-- balloc in a file system that is laid out: a data block, or no block is left.
pub balloc_data :
    (s : Fs) (nmeta : ℕ)
    → IsLaid s nmeta
    → (((balloc s).1 ≢ 0) × Allocated s (balloc s).0 (balloc s).1)
      ⊎ ((balloc s ≡ (s, 0)) × ((c : ℕ) → c < s.size → used s c ≡ true))
balloc_data s nmeta l = elim (balloc-Allocated s (IsLaid-IsMapUsed s nmeta l)) [
  | inl (t, a, e, h) ↦
      let n : a ≢ 0 = λ z.
        let w = h.within in
        let m = l.maps a w in
        let r : used s a ≡ true = l.reserved a (omega (arith, z)) in
        (let c : true ≡ false = sym r ∙ h.free in cc) in
      inl (rw e (n, h))
  | inr h ↦ inr h
]
