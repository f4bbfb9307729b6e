-- ===== src/Kalloc/RoundTrip.antt =====
-- kalloc and then kfree of kernel/kalloc.c.
use mini_os_design.Common.{
  ℕ, ◌+◌, ◌%◌, ◌≤◌, ◌≡◌, true, false, refl, sym, arith, ok, List, [], ◌∷◌, some,
}
use mini_os_design.Common.Machine.{page_size, phystop, pa2idx, pg_round_up}
use mini_os_design.Kalloc.Blocks.{Block, block_end}
use mini_os_design.Kalloc.Blocks.Shape.{IsChain, covers, covers_below, covers_above}
use mini_os_design.Kalloc.Invariant.{IsValid}
use mini_os_design.Kalloc.Free.{kfree_lem, kfree-IsValid}
use mini_os_design.Kalloc.Alloc.{Allocated, kalloc_contig-Allocated}
use mini_os_design.Kalloc.{Kmem, kfree, kalloc}

covers_first :
    (lo : ℕ) (x : Block) (xs : List Block) → IsChain lo (x ∷ xs) → covers (x ∷ xs) x.addr ≡ true
covers_first lo x xs c = ground arith

covers_gap :
    (lo : ℕ) (x : Block) (xs : List Block)
    → IsChain lo (x ∷ xs)
    → covers (x ∷ xs) (block_end x) ≡ false
covers_gap lo x xs c = ground (arith, covers_below xs (block_end x + 1) (block_end x) c.4)

abbrev SameCover : List Block → List Block → Type 0
SameCover xs ys = (a : ℕ) → covers xs a ≡ covers ys a

first-le :
    (lo : ℕ) (x y : Block) (xs ys : List Block)
    → IsChain lo (x ∷ xs)
    → IsChain lo (y ∷ ys)
    → SameCover (x ∷ xs) (y ∷ ys)
    → y.addr ≤ x.addr
first-le lo x y xs ys c d e =
    ground (arith, e x.addr, covers_first lo x xs c, covers_below ys (block_end y + 1) x.addr d.4)

end-le :
    (lo : ℕ) (x y : Block) (xs ys : List Block)
    → x.addr ≡ y.addr
    → IsChain lo (x ∷ xs)
    → IsChain lo (y ∷ ys)
    → SameCover (x ∷ xs) (y ∷ ys)
    → x.num_pages ≤ y.num_pages
end-le lo x y xs ys p c d e = ground (arith, e (block_end y), covers_gap lo y ys d)

tail_cover :
    (lo : ℕ) (x y : Block) (xs ys : List Block)
    → x ≡ y
    → IsChain lo (x ∷ xs)
    → IsChain lo (y ∷ ys)
    → SameCover (x ∷ xs) (y ∷ ys)
    → SameCover xs ys
tail_cover lo x y xs ys p c d e a =
    ground
      (arith, e a, covers_below xs (block_end x + 1) a c.4, covers_below ys (block_end y + 1) a d.4)

-- Two well-formed lists over the same addresses are one list.
IsChain-unique :
    (xs ys : List Block) (lo : ℕ) → IsChain lo xs → IsChain lo ys → SameCover xs ys → xs ≡ ys
IsChain-unique [] [] lo c d e = refl
IsChain-unique [] (y ∷ ys) lo c d e = absurd (ground (arith, e y.addr, covers_first lo y ys d))
IsChain-unique (x ∷ xs) [] lo c d e = absurd (ground (arith, e x.addr, covers_first lo x xs c))
IsChain-unique (x ∷ xs) (y ∷ ys) lo c d e =
    let p : x.addr ≡ y.addr =
      omega (arith, first-le lo x y xs ys c d e, first-le lo y x ys xs d c (λ a. sym (e a))) in
    let q : x ≡ y =
      ground
        (arith, p, end-le lo x y xs ys p c d e, end-le lo y x ys xs (sym p) d c (λ a. sym (e a))) in
    let t : xs ≡ ys =
      IsChain-unique xs ys (block_end x + 1) c.4 (rw q d.4) (tail_cover lo x y xs ys q c d e) in
    cc

-- What kalloc hands out lies in the memory that the allocator manages.
pub allocated_in_range :
    (base : ℕ) (s : Kmem) (pa : ℕ)
    → IsValid base s
    → covers s.freelist pa ≡ true
    → pa % page_size ≡ 0
    → (base ≤ pa) × (pa + page_size ≤ phystop)
allocated_in_range base s pa v c al = (
  ground (arith, covers_below s.freelist base pa v.chain),
  ground (arith, covers_above s.freelist base pa v.chain),
)

-- In a valid allocator, a page that kalloc returns can be freed by kfree, and afterwards the free
-- list is the list before the allocation and every count is what it was.
pub kfree-kalloc :
    (kernel_end : ℕ) (s s' : Kmem) (pa : ℕ)
    → kernel_end ≤ phystop
    → IsValid (pg_round_up kernel_end) s
    → kalloc s ≡ (s', some pa)
    → (t : Kmem) × (kfree kernel_end s' pa ≡ ok t)
      × (t.freelist ≡ s.freelist)
      × ((i : ℕ) → t.ref_count i ≡ s.ref_count i)
unfolding kalloc
kfree-kalloc kernel_end s s' pa small v h =
    let base : ℕ = pg_round_up kernel_end in
    let (v₀, a₀) = kalloc_contig-Allocated base s 1 (omega arith) v in
    let v' : IsValid base s' = rw h at v₀ in
    let got : Allocated s 1 (s', some pa) = rw h at a₀ in
    let (m, al, large, _, was, left, refs, _, _) = got in
    let free : covers s.freelist pa ≡ true = was pa (ground arith) in
    let (lo, hi) = allocated_in_range base s pa v free al in
    let one : s'.ref_count (pa2idx pa) ≡ 1 = ground (arith, refs (pa2idx pa)) in
    let (t, e, cov, cnt) = (kfree_lem kernel_end small s' pa v' (omega arith) al hi).2 one in
    let w : IsValid base t = kfree-IsValid kernel_end small s' pa t v' e in
    (
      t,
      e,
      IsChain-unique t.freelist s.freelist base w.chain v.chain
          (λ a. ground (arith, cov a, left a, was a)),
      λ i. ground (arith, cnt i, refs i, v.agrees pa lo, free),
    )
