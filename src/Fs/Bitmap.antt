-- ===== src/Fs/Bitmap.antt =====
-- balloc of kernel/fs.c, on the free map.
pub mod Freeing
use mini_os_design.Common.{
  ℕ, zero, suc, ◌+◌, ◌-◌, ◌*◌, ◌/◌, ◌%◌, ◌^◌, ◌≤◌, ◌<◌, ◌≡◌, ◌≢◌, true, false, not, ◌&&◌, ◌||◌,
  ◌==◌, ltb, min, Bool, Option, none, some, refl, sym, ap, ◌∙◌, arith, Bool-cases, Option-cases,
  inl, inr, ◌⊎◌, ok, panic,
}
use mini_os_design.Fs.{
  Fs, bsize, bits_per_block, bblock, write_block, bzero, is_set, set_bit, clear_bit, free_bit,
  alloc_from, balloc, bfree,
}
use mini_os_design.Fs.Bits.{or_false, and_true, is_set-set_bit, is_set-clear_bit}

-- Is block `b` marked in use?
abbrev pub used : Fs → ℕ → Bool
used s b = is_set (s.blocks (bblock s b)) (b % bits_per_block)

-- The blocks of the free map are marked in use.
abbrev pub IsMapUsed : Fs → Type 0
IsMapUsed s = (b : ℕ) → b < s.size → (bblock s b < s.size) × (used s (bblock s b) ≡ true)

free_bit-some :
    (n : ℕ) (block : ℕ → ℕ) (bi i : ℕ)
    → free_bit block bi n ≡ some i
    → (bi ≤ i)
      × (i < bi + n)
      × (is_set block i ≡ false)
      × ((j : ℕ) → bi ≤ j → j < i → is_set block j ≡ true)
unfolding free_bit
free_bit-some zero block bi i e = cc
free_bit-some (suc n) block bi i e = elim (Bool-cases (is_set block bi)) [
  | inl h ↦
      let e' : free_bit block (bi + 1) n ≡ some i = rw (free_bit, h) at e in
      let (a, b, c, d) = free_bit-some n block (bi + 1) i e' in
      (
        omega arith,
        omega arith,
        c,
        λ j l m. elim (Bool-cases (j == bi)) [
          | inl k ↦ (let k' : j ≡ bi = ground arith in rw k' h)
          | inr k ↦ d j (ground (arith, k)) m
        ],
      )
  | inr h ↦
      let e' : some bi ≡ some i = rw (free_bit, h) at e in
      let q : bi ≡ i = cc in
      (omega (arith, q), omega (arith, q), rw (← q) h, λ j l m. absurd (omega (arith, q)))
]

free_bit-none :
    (n : ℕ) (block : ℕ → ℕ) (bi j : ℕ)
    → free_bit block bi n ≡ none
    → bi ≤ j
    → j < bi + n
    → is_set block j ≡ true
unfolding free_bit
free_bit-none zero block bi j e l m = absurd (omega arith)
free_bit-none (suc n) block bi j e l m = elim (Bool-cases (is_set block bi)) [
  | inl h ↦
      let e' : free_bit block (bi + 1) n ≡ none = rw (free_bit, h) at e in
      elim (Bool-cases (j == bi)) [
        | inl k ↦ (let k' : j ≡ bi = ground arith in rw k' h)
        | inr k ↦ free_bit-none n block (bi + 1) j e' (ground (arith, k)) (omega arith)
      ]
  | inr h ↦ (let e' : ◌≡◌ {A = Option ℕ} (some bi) none = rw (free_bit, h) at e in cc)
]

-- `a` is the first free block: `s'` has it zeroed and marked, and is otherwise `s`.
pub record Allocated (s s' : Fs) (a : ℕ) : Type 0 where
  pub within : a < s.size
  pub free : used s a ≡ false
  pub first : (b : ℕ) → b < a → used s b ≡ true
  pub marked : (b : ℕ) → b < s.size → used s' b ≡ (used s b || b == a)
  pub zeroed : (i : ℕ) → i < bsize → s'.blocks a i ≡ 0
  pub rest : (c : ℕ) → c ≢ a → c ≢ bblock s a → s'.blocks c ≡ s.blocks c

marked_block :
    (s : Fs) (b bi : ℕ)
    → IsMapUsed s
    → b % bits_per_block ≡ 0
    → bi < bits_per_block
    → b + bi < s.size
    → is_set (s.blocks (bblock s b)) bi ≡ false
    → ((c : ℕ) → c < b + bi → used s c ≡ true)
    → Allocated s
        (bzero (write_block s (bblock s b) (set_bit (s.blocks (bblock s b)) bi)) (b + bi))
        (b + bi)
unfolding bzero
marked_block s b bi m al l hi f o =
    let e : bblock s (b + bi) ≡ bblock s b = omega arith in
    let e' : (b + bi) % bits_per_block ≡ bi = omega arith in
    let v : used s (b + bi) ≡ false = rw (e, e') f in
    let t = set_bit (s.blocks (bblock s b)) bi in
    record {
      within = hi;
      free = v;
      first = o;
      marked = λ c w.
          let ne : bblock s c ≢ b + bi =
            λ q. (let k : false ≡ true = sym v ∙ ap (λ x. used s x) (sym q) ∙ (m c w).1 in cc) in
          let k : (bblock s c == b + bi) ≡ false = ground (arith, ne) in
          elim (Bool-cases (bblock s c == bblock s b)) [
            | inl h ↦
                let q : bblock s c ≡ bblock s b = ground arith in
                let z : (c % bits_per_block == bi) ≡ (c == b + bi) = ground (arith, q) in
                rw (bzero, k, h)
                  (is_set-set_bit (s.blocks (bblock s b)) bi (c % bits_per_block) f
                    ∙ rw (z, q) refl)
            | inr h ↦
                let z : (c == b + bi) ≡ false = ground (arith, h) in
                rw (bzero, k, h, z) (sym (or_false (used s c)))
          ];
      zeroed = λ i w. ground arith;
      rest = λ c x y.
          let z : (c == b + bi) ≡ false = ground (arith, x) in
          let z' : (c == bblock s b) ≡ false = ground (arith, y, e) in rw (bzero, z, z') refl;
    }

in_map :
    (s : Fs) (b c : ℕ)
    → b ≤ c
    → c < b + bits_per_block
    → b % bits_per_block ≡ 0
    → is_set (s.blocks (bblock s b)) (c - b) ≡ true
    → used s c ≡ true
in_map s b c l h al u =
    let e : bblock s c ≡ bblock s b = omega arith in
    let e' : c % bits_per_block ≡ c - b = omega arith in rw (e, e') u

alloc_from-Allocated :
    (n : ℕ) (s s' : Fs) (b a : ℕ)
    → IsMapUsed s
    → b % bits_per_block ≡ 0
    → s.size ≤ b + n * bits_per_block
    → ((c : ℕ) → c < b → c < s.size → used s c ≡ true)
    → alloc_from s b n ≡ (s', a)
    → Allocated s s' a ⊎ ((s' ≡ s) × (a ≡ 0) × ((c : ℕ) → c < s.size → used s c ≡ true))
unfolding alloc_from
alloc_from-Allocated zero s s' b a m al big o e =
    let e' : ◌≡◌ {A = Fs × ℕ} (s, 0) (s', a) = e in inr (cc, cc, λ c l. o c (omega arith) l)
alloc_from-Allocated (suc n) s s' b a m al big o e =
    let k = min bits_per_block (s.size - b) in
    elim (Option-cases (free_bit (s.blocks (bblock s b)) 0 k)) [
      | inl z ↦
          let e' : alloc_from s (b + bits_per_block) n ≡ (s', a) = rw (alloc_from, z) at e in
          alloc_from-Allocated n s s' (b + bits_per_block) a m (omega arith) (omega arith)
            (λ c l w. elim (Bool-cases (ltb c b)) [
              | inl h ↦ o c (ground (arith, h)) w
              | inr h ↦ in_map s b c (ground (arith, h)) (omega arith) al (
                  free_bit-none k (s.blocks (bblock s b)) 0 (c - b) z (omega arith)
                    (ground (arith, h)))
            ])
            e'
      | inr (bi, z) ↦
          let (_, l, f, before) = free_bit-some k (s.blocks (bblock s b)) 0 bi z in
          let t : Fs =
            bzero (write_block s (bblock s b) (set_bit (s.blocks (bblock s b)) bi)) (b + bi) in
          let e' : ◌≡◌ {A = Fs × ℕ} (t, b + bi) (s', a) = rw (alloc_from, z) at e in
          let q : t ≡ s' = cc in
          let q' : b + bi ≡ a = cc in
          inl (
            rw (← q, ← q')
              (marked_block s b bi m al (omega arith) (omega arith) f (λ c w.
                elim (Bool-cases (ltb c b)) [
                  | inl h ↦ o c (ground (arith, h)) (omega arith)
                  | inr h ↦
                      in_map s b c (ground (arith, h)) (omega arith) al
                        (before (c - b) (omega arith) (ground (arith, h)))
                ])))
    ]

-- Where the free map marks its own blocks as in use, balloc answers the first block that is not
-- marked: it is marked then and zeroed, and no other mark and no block but it and its block of the
-- free map changes; or it answers 0, every block is marked, and nothing changes.
pub balloc-Allocated :
    (s : Fs)
    → IsMapUsed s
    → ((s' : Fs) × (a : ℕ) × (balloc s ≡ (s', a)) × Allocated s s' a)
      ⊎ ((balloc s ≡ (s, 0)) × ((c : ℕ) → c < s.size → used s c ≡ true))
unfolding balloc
balloc-Allocated s m =
    elim (alloc_from-Allocated ((s.size + bits_per_block - 1) / bits_per_block) s (balloc s).0 0
      (balloc s).1 m refl (omega arith) (λ c l. absurd (omega arith)) refl) [
        | inl h ↦ inl ((balloc s).0, (balloc s).1, refl, h)
        | inr (p, q, h) ↦ inr (ap (λ x. (x, (balloc s).1)) p ∙ ap (λ x. (s, x)) q, h)
      ]

alloc_from_bound :
    (n : ℕ) (s : Fs) (b : ℕ)
    → s.size ≤ 2 ^ 32
    → ((alloc_from s b n).1 < 2 ^ 32) × ((alloc_from s b n).0.size ≡ s.size)
unfolding alloc_from bzero
alloc_from_bound zero s b l = (omega arith, refl)
alloc_from_bound (suc n) s b l =
    let k = min bits_per_block (s.size - b) in
    elim (Option-cases (free_bit (s.blocks (bblock s b)) 0 k)) [
      | inl z ↦ rw (alloc_from, z) (alloc_from_bound n s (b + bits_per_block) l)
      | inr (bi, z) ↦
          let (_, h, _, _) = free_bit-some k (s.blocks (bblock s b)) 0 bi z in
          rw (alloc_from, z, bzero) (omega arith, refl)
    ]

-- A block number is a word.
pub balloc_bound :
    (s : Fs) → s.size ≤ 2 ^ 32 → ((balloc s).1 < 2 ^ 32) × ((balloc s).0.size ≡ s.size)
unfolding balloc
balloc_bound s l = alloc_from_bound ((s.size + bits_per_block - 1) / bits_per_block) s 0 l
