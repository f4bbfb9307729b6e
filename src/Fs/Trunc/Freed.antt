-- ===== src/Fs/Trunc/Freed.antt =====
-- The loops of itrunc of kernel/fs.c free the blocks that they meet, and nothing else.
use mini_os_design.Common.{
  ℕ, zero, suc, ◌+◌, ◌%◌, ◌≤◌, ◌<◌, ◌≡◌, ◌≢◌, true, false, not, ◌&&◌, ◌||◌, ◌==◌, leb, ltb,
  if◌then◌else◌, Bool, refl, sym, ◌∙◌, arith, Bool-cases, inl, inr, ok, panic, Outcome,
}
use mini_os_design.Fs.{Fs, bblock, bfree, bits_per_block, clear_bit, write_block}
use mini_os_design.Fs.Bitmap.{used}
use mini_os_design.Fs.Bitmap.Freeing.{bfree_lem}
use mini_os_design.Fs.Bmap.{update, word_at}
use mini_os_design.Fs.Slots.{SameLayout}
use mini_os_design.Fs.Slots.Preserved.{SameLayout-trans}
use mini_os_design.Fs.Trunc.{free_if, free_direct, free_indirect}

-- Is `c` one of the blocks that `f` gives for the `n` numbers from `i` on?
unfoldable pub among : (ℕ → ℕ) → ℕ → ℕ → ℕ → Bool
among f i zero c = false
among f i (suc n) c = (not (f i == 0) && c == f i) || among f (i + 1) n c

-- The blocks with the property are free, all other marks and all blocks but the free map are the same.
pub record Dropped (s s' : Fs) (gone : ℕ → Bool) : Type 0 where
  pub layout : SameLayout s s'
  pub marks : (c : ℕ) → used s' c ≡ (used s c && not (gone c))
  pub blocks : (c : ℕ) → ((b : ℕ) → b < s.size → bblock s b ≢ c) → s'.blocks c ≡ s.blocks c

Dropped-none : (s : Fs) (gone : ℕ → Bool) → ((c : ℕ) → gone c ≡ false) → Dropped s s gone
Dropped-none s gone h = record {
  layout = (refl, refl, refl, refl);
  marks = λ c. ground (arith, h c);
  blocks = λ c m. refl;
}

pub Dropped-trans :
    (s t u : Fs) (p q r : ℕ → Bool)
    → ((c : ℕ) → r c ≡ (p c || q c))
    → Dropped s t p
    → Dropped t u q
    → Dropped s u r
Dropped-trans s t u p q r h a b = record {
  layout = SameLayout-trans s t u a.layout b.layout;
  marks = λ c. b.marks c ∙ ground (arith, a.marks c, h c);
  blocks = λ c m.
      let (e₀, _, _, e₃) = a.layout in b.blocks c (λ d l. rw e₃ (m d (rw e₀ at l))) ∙ a.blocks c m;
}

bfree_layout : (s s' : Fs) (b : ℕ) → bfree s b ≡ ok s' → SameLayout s s'
unfolding bfree
bfree_layout s s' b e = elim (Bool-cases (used s b)) [
  | inl u ↦
      let t = clear_bit (s.blocks (bblock s b)) (b % bits_per_block) in
      let e' : ◌≡◌ {A = Outcome Fs} (ok (write_block s (bblock s b) t)) (ok s') =
        rw (bfree, u) at e in
      let q : write_block s (bblock s b) t ≡ s' = cc in rw (← q) (refl, refl, refl, refl)
  | inr u ↦
      (let e' : ◌≡◌ {A = Outcome Fs} (panic "freeing free block") (ok s') = rw (bfree, u) at e in
        cc)
]

-- The block `b`, where it is one.
abbrev pub just : ℕ → ℕ → Bool
just b c = not (b == 0) && c == b

pub bfree-Dropped :
    (s : Fs) (b : ℕ)
    → b < s.size
    → b ≢ 0
    → used s b ≡ true
    → (s' : Fs) × (bfree s b ≡ ok s') × Dropped s s' (just b)
bfree-Dropped s b l n u =
    let (s', e, _, m, k) = (bfree_lem s b).1 u in
    let z : (b == 0) ≡ false = ground (arith, n) in
    (
      s',
      e,
      record {
        layout = bfree_layout s s' b e;
        marks = λ c. m c ∙ rw z refl;
        blocks = λ c h. k c (λ q. h b l (sym q));
      },
    )

free_if_lem :
    (s : Fs) (b : ℕ)
    → b < s.size
    → (b ≢ 0 → used s b ≡ true)
    → (s' : Fs) × (free_if s b ≡ ok s') × Dropped s s' (just b)
free_if_lem s b l u = elim (Bool-cases (b == 0)) [
  | inl z ↦ (s, rw z refl, Dropped-none s (just b) (λ c. rw z refl))
  | inr z ↦
      let n : b ≢ 0 = ground (arith, z) in
      let (s', e, d) = bfree-Dropped s b l n (u n) in (s', rw z e, d)
]

-- The numbers of the `n` slots from `i` on are in use, and no two are the same block.
pub record Ready (s : Fs) (f : ℕ → ℕ) (i n : ℕ) : Type 0 where
  pub inside : (k : ℕ) → i ≤ k → k < i + n → f k < s.size
  pub marked : (k : ℕ) → i ≤ k → k < i + n → f k ≢ 0 → used s (f k) ≡ true
  pub apart : (k l : ℕ) → i ≤ k → k < i + n → i ≤ l → l < i + n → f k ≡ f l → f k ≢ 0 → k ≡ l

next-Ready :
    (s s' : Fs) (f : ℕ → ℕ) (i n : ℕ)
    → Ready s f i (suc n)
    → Dropped s s' (just (f i))
    → Ready s' f (i + 1) n
next-Ready s s' f i n r d =
    let e₀ = d.layout.0 in
    record {
      inside = λ k l m. rw e₀ (r.inside k (omega arith) (omega arith));
      marked = λ k l m nz.
          let u = r.marked k (omega arith) (omega arith) nz in
          let w : f k ≢ f i = λ q.
            (let z = r.apart k i (omega arith) (omega arith) (omega arith) (omega arith) q nz in
              omega (arith, z)) in
          let z : just (f i) (f k) ≡ false = ground (arith, w) in d.marks (f k) ∙ rw (u, z) refl;
      apart = λ k l a b c e q nz.
          r.apart k l (omega arith) (omega arith) (omega arith) (omega arith) q nz;
    }

pub free_direct_lem :
    (n : ℕ) (s : Fs) (addrs f : ℕ → ℕ) (i : ℕ)
    → Ready s f i n
    → ((k : ℕ) → i ≤ k → addrs k ≡ f k)
    → (r : Fs × (ℕ → ℕ)) × (free_direct s addrs i n ≡ ok r)
      × Dropped s r.0 (among f i n)
      × ((k : ℕ) → r.1 k ≡ (if leb i k && ltb k (i + n) then 0 else addrs k))
unfolding free_direct among
free_direct_lem zero s addrs f i r h =
    ((s, addrs), refl, Dropped-none s (among f i zero) (λ c. refl), λ k. ground arith)
free_direct_lem (suc n) s addrs f i r h =
    let q = h i (omega arith) in
    let (s', e, d) =
      free_if_lem s (f i) (r.inside i (omega arith) (omega arith))
        (r.marked i (omega arith) (omega arith)) in
    let (t, e', d', z) =
      free_direct_lem n s' (update addrs i 0) f (i + 1) (next-Ready s s' f i n r d)
        (λ k l. (let y : (k == i) ≡ false = ground (arith, l) in rw y (h k (omega arith)))) in
    (
      t,
      rw (free_direct, q, e) e',
      Dropped-trans s s' t.0 (just (f i)) (among f (i + 1) n) (among f i (suc n)) (λ c. refl) d d',
      λ k. z k ∙ ground arith,
    )

pub free_indirect_lem :
    (n : ℕ) (s : Fs) (f : ℕ → ℕ) (b j : ℕ)
    → Ready s f j n
    → ((c : ℕ) → c < s.size → bblock s c ≢ b)
    → ((k : ℕ) → word_at (s.blocks b) k ≡ f k)
    → (s' : Fs) × (free_indirect s b j n ≡ ok s') × Dropped s s' (among f j n)
unfolding free_indirect among
free_indirect_lem zero s f b j r m h = (s, refl, Dropped-none s (among f j zero) (λ c. refl))
free_indirect_lem (suc n) s f b j r m h =
    let q = h j in
    let (s', e, d) =
      free_if_lem s (f j) (r.inside j (omega arith) (omega arith))
        (r.marked j (omega arith) (omega arith)) in
    let (e₀, _, _, e₃) = d.layout in
    let same : s'.blocks b ≡ s.blocks b = d.blocks b m in
    let (t, e', d') =
      free_indirect_lem n s' f b (j + 1) (next-Ready s s' f j n r d)
        (λ c l. rw e₃ (m c (rw e₀ at l))) (λ k. rw same (h k)) in
    (
      t,
      rw (free_indirect, q, e) e',
      Dropped-trans s s' t (just (f j)) (among f (j + 1) n) (among f j (suc n)) (λ c. refl) d d',
    )
