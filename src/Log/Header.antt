-- ===== src/Log/Header.antt =====
-- `struct logheader` of kernel/log.c in a disk block: word 0 is `n`, word 1 + i is `block[i]`.
use mini_os_design.Common.{ℕ, zero, suc, ◌+◌, ◌<◌, ◌≡◌, List, [], ◌∷◌, length, get_or, refl, arith}
use mini_os_design.Log.Store.{DiskBlock}

-- The header over the old contents `hb` of its block.
unfoldable pub encode : DiskBlock → List ℕ → DiskBlock
encode hb bs zero = length bs
encode hb bs (suc i) = get_or bs i (hb (suc i))

-- The `n` block numbers from word `i + 1` on.
pub words : DiskBlock → ℕ → ℕ → List ℕ
words hb i zero = []
words hb i (suc n) = hb (suc i) ∷ words hb (suc i) n

unfoldable pub decode : DiskBlock → List ℕ
unfolding words
decode hb = words hb 0 (hb 0)

words_lem :
    (bs : List ℕ) (f : DiskBlock) (i : ℕ)
    → ((k : ℕ) → k < length bs → f (suc (i + k)) ≡ get_or bs k 0)
    → words f i (length bs) ≡ bs
unfolding words
words_lem [] f i h = refl
words_lem (b ∷ bs) f i h =
    let e : i + 0 ≡ i = omega arith in
    let first : f (suc i) ≡ b = rw e at (h 0 (omega arith)) in
    let rest : words f (suc i) (length bs) ≡ bs =
      words_lem bs f (suc i)
        (λ k l. let q : suc i + k ≡ i + suc k = omega arith in rw q (h (suc k) (omega arith))) in
    cc

get_or_default : (bs : List ℕ) (k d e : ℕ) → k < length bs → get_or bs k d ≡ get_or bs k e
get_or_default [] k d e h = absurd (omega arith)
get_or_default (b ∷ bs) zero d e h = refl
get_or_default (b ∷ bs) (suc k) d e h = get_or_default bs k d e (omega arith)

-- The block numbers that write_head stores in the header block are those that read_head reads from
-- it.
pub decode-encode : (hb : DiskBlock) (bs : List ℕ) → decode (encode hb bs) ≡ bs
unfolding decode encode
decode-encode hb bs =
    words_lem bs (encode hb bs) 0
      (λ k l. let z : 0 + k ≡ k = omega arith in rw z (get_or_default bs k _ 0 l))
