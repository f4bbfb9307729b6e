-- ===== src/Vm/CopyInStr.antt =====
-- copyinstr of kernel/vm.c against the user's view of its memory, a byte at a time.
use mini_os_design.Common.{
  ℕ, zero, suc, ◌+◌, ◌-◌, ◌%◌, ◌≤◌, ◌≡◌, ◌≢◌, true, false, ◌==◌, leb, min, if◌then◌else◌, Bool,
  refl, sym, ap, ◌∙◌, arith, Bool-cases, inl, inr, List, [], ◌∷◌, ◌++◌,
}
use mini_os_design.Common.Machine.{page_size, pg_round_down}
use mini_os_design.Kalloc.{Kmem}
use mini_os_design.Vm.{walkaddr}
use mini_os_design.Vm.Copy.{peek_byte, string_bytes, copyinstr_loop, copyinstr}
use mini_os_design.Vm.CopyIn.{translate}

-- The user's string at `a`, of at most `n` bytes: the bytes up to the 0, the end of the mapped
-- pages or the bound, and whether it is the 0 that ends it.
unfoldable pub user_string : Kmem → ℕ → ℕ → ℕ → List ℕ × Bool
user_string s pagetable a zero = ([], false)
user_string s pagetable a (suc n) =
    let b = peek_byte s.mem (translate s pagetable a) in
    let rest = user_string s pagetable (a + 1) n in
    if walkaddr s pagetable (pg_round_down a) == 0
    then ([], false)
    else (if b == 0 then (0 ∷ [], true) else (b ∷ rest.0, rest.1))

-- What copyinstr makes of the bytes of one page and of the rest.
abbrev joined : List ℕ × Bool → List ℕ × Bool → List ℕ × Bool
joined here rest = if here.1 then here else (here.0 ++ rest.0, rest.1)

joined_cons :
    (b : ℕ) (here rest : List ℕ × Bool)
    → joined (b ∷ here.0, here.1) rest ≡ (b ∷ (joined here rest).0, (joined here rest).1)
joined_cons b (bs, true) rest = refl
joined_cons b (bs, false) rest = refl

user_string_page :
    (s : Kmem) (pagetable va0 off n m : ℕ)
    → va0 % page_size ≡ 0
    → off + n ≤ page_size
    → walkaddr s pagetable va0 ≢ 0
    → user_string s pagetable (va0 + off) (n + m)
      ≡ joined
          (string_bytes s.mem (walkaddr s pagetable va0 + off) n)
          (user_string s pagetable (va0 + off + n) m)
unfolding user_string string_bytes
user_string_page s pagetable va0 off zero m al l w =
    let e : va0 + off + 0 ≡ va0 + off = omega arith in
    let e' : 0 + m ≡ m = omega arith in rw (e, e') refl
user_string_page s pagetable va0 off (suc n) m al l w =
    let d : pg_round_down (va0 + off) ≡ va0 = omega arith in
    let k : (va0 + off) % page_size ≡ off = omega arith in
    let b : (walkaddr s pagetable va0 == 0) ≡ false = ground (arith, w) in
    let e : va0 + off + 1 ≡ va0 + (off + 1) = omega arith in
    let e' : walkaddr s pagetable va0 + off + 1 ≡ walkaddr s pagetable va0 + (off + 1) =
      omega arith in
    let z : suc n + m ≡ suc (n + m) = omega arith in
    let z' : va0 + (off + 1) + n ≡ va0 + off + suc n = omega arith in
    let r = user_string_page s pagetable va0 (off + 1) n m al (omega arith) w in
    elim (Bool-cases (peek_byte s.mem (walkaddr s pagetable va0 + off) == 0)) [
      | inl c ↦ rw (z, user_string, string_bytes, d, k, b, c) refl
      | inr c ↦
          rw (z, user_string, string_bytes, d, k, b, c, e, e', r, z')
            (sym (
              joined_cons (peek_byte s.mem (walkaddr s pagetable va0 + off))
                (string_bytes s.mem (walkaddr s pagetable va0 + (off + 1)) n)
                (user_string s pagetable (va0 + off + suc n) m)))
    ]

copyinstr_loop-user_string :
    (fuel : ℕ) (s : Kmem) (pagetable srcva max : ℕ)
    → max ≤ fuel
    → copyinstr_loop fuel s pagetable srcva max ≡ user_string s pagetable srcva max
unfolding copyinstr_loop user_string
copyinstr_loop-user_string fuel s pagetable srcva zero l = refl
copyinstr_loop-user_string zero s pagetable srcva (suc max) l = absurd (omega arith)
copyinstr_loop-user_string (suc fuel) s pagetable srcva (suc max) l =
    let va0 = pg_round_down srcva in
    let off = srcva - va0 in
    let n = min (page_size - off) (suc max) in
    let r =
      copyinstr_loop-user_string fuel s pagetable (va0 + page_size) (suc max - n) (omega arith) in
    elim (Bool-cases (walkaddr s pagetable va0 == 0)) [
      | inl b ↦ rw (copyinstr_loop, user_string, b) refl
      | inr b ↦
          let p =
            user_string_page s pagetable va0 off n (suc max - n) (omega arith) (omega arith)
              (ground (arith, b)) in
          let e : va0 + off ≡ srcva = omega arith in
          let e' : n + (suc max - n) ≡ suc max = omega arith in
          let rest : user_string s pagetable (va0 + off + n) (suc max - n)
              ≡ user_string s pagetable (va0 + page_size) (suc max - n) =
            elim (Bool-cases (leb (suc max) (page_size - off))) [
              | inl c ↦ (let z : suc max - n ≡ 0 = ground (arith, c) in rw z refl)
              | inr c ↦ (let z : va0 + off + n ≡ va0 + page_size = ground (arith, c) in rw z refl)
            ] in
          let q : user_string s pagetable srcva (suc max)
              ≡ joined (string_bytes s.mem (walkaddr s pagetable va0 + off) n)
                  (user_string s pagetable (va0 + page_size) (suc max - n)) =
            ap (λ x. user_string s pagetable x (suc max)) (sym e)
            ∙ ap (λ x. user_string s pagetable (va0 + off) x) (sym e')
            ∙ p
            ∙ ap (λ x. joined (string_bytes s.mem (walkaddr s pagetable va0 + off) n) x) rest in
          rw (q, copyinstr_loop, b, r) refl
    ]

-- copyinstr, which works page by page, is the walk of the user's memory byte by byte that stops at
-- the first 0, at the first address that is not mapped, or after max bytes.
copyinstr-user_string :
    (s : Kmem) (pagetable srcva max : ℕ)
    → copyinstr s pagetable srcva max ≡ user_string s pagetable srcva max
unfolding copyinstr
copyinstr-user_string s pagetable srcva max =
    copyinstr_loop-user_string max s pagetable srcva max (omega arith)
