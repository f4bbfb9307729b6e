-- ===== src/Vm/CopyIn.antt =====
-- copyin and copyinstr of kernel/vm.c against the user's view of its memory, a byte at a time.
use mini_os_design.Common.{
  ℕ, zero, suc, ◌+◌, ◌-◌, ◌%◌, ◌≤◌, ◌<◌, ◌≡◌, ◌≢◌, true, false, ◌==◌, leb, min, refl, sym, ap, ◌∙◌,
  arith, Bool-cases, inl, inr, ok, ◌>>=◌, List, [], ◌∷◌, ◌++◌,
}
use mini_os_design.Common.Machine.{page_size, pg_round_down}
use mini_os_design.Kalloc.{Kmem}
use mini_os_design.Vm.{walkaddr}
use mini_os_design.Vm.Copy.{peek_byte, peek_bytes, touch_page, copyin_loop, copyin}

-- The physical address of the user's byte at `a`.
abbrev pub translate : Kmem → ℕ → ℕ → ℕ
translate s pagetable a = walkaddr s pagetable (pg_round_down a) + a % page_size

-- The user's `n` bytes from `a` on.
unfoldable pub user_bytes : Kmem → ℕ → ℕ → ℕ → List ℕ
user_bytes s pagetable a zero = []
user_bytes s pagetable a (suc n) =
    peek_byte s.mem (translate s pagetable a) ∷ user_bytes s pagetable (a + 1) n

-- Every page of the `n` bytes from `a` on is mapped for the user.
abbrev pub IsMapped : Kmem → ℕ → ℕ → ℕ → Type 0
IsMapped s pagetable a n = (i : ℕ) → i < n → walkaddr s pagetable (pg_round_down (a + i)) ≢ 0

user_bytes_add :
    (s : Kmem) (pagetable a n m : ℕ)
    → user_bytes s pagetable a (n + m)
      ≡ user_bytes s pagetable a n ++ user_bytes s pagetable (a + n) m
unfolding user_bytes
user_bytes_add s pagetable a zero m =
    let e : a + 0 ≡ a = omega arith in let e' : 0 + m ≡ m = omega arith in rw (e, e') refl
user_bytes_add s pagetable a (suc n) m =
    let e : a + 1 + n ≡ a + suc n = omega arith in
    let k : suc n + m ≡ suc (n + m) = omega arith in
    rw k (
      ap (λ x. peek_byte s.mem (translate s pagetable a) ∷ x)
        (user_bytes_add s pagetable (a + 1) n m ∙ rw e refl))

-- Within a page the user's bytes follow each other in memory.
user_bytes_page :
    (s : Kmem) (pagetable va0 off n : ℕ)
    → va0 % page_size ≡ 0
    → off + n ≤ page_size
    → user_bytes s pagetable (va0 + off) n ≡ peek_bytes s.mem (walkaddr s pagetable va0 + off) n
unfolding user_bytes peek_bytes
user_bytes_page s pagetable va0 off zero al l = refl
user_bytes_page s pagetable va0 off (suc n) al l =
    let d : pg_round_down (va0 + off) ≡ va0 = omega arith in
    let m : (va0 + off) % page_size ≡ off = omega arith in
    let r = user_bytes_page s pagetable va0 (off + 1) n al (omega arith) in
    let e : va0 + off + 1 ≡ va0 + (off + 1) = omega arith in
    let e' : walkaddr s pagetable va0 + off + 1 ≡ walkaddr s pagetable va0 + (off + 1) =
      omega arith in
    rw (d, m, e, r, e') refl

user_bytes_turn :
    (s : Kmem) (pagetable srcva len n : ℕ)
    → n ≡ min (page_size - (srcva - pg_round_down srcva)) len
    → peek_bytes s.mem
          (walkaddr s pagetable (pg_round_down srcva) + (srcva - pg_round_down srcva))
          n
        ++ user_bytes s pagetable (pg_round_down srcva + page_size) (len - n)
      ≡ user_bytes s pagetable srcva len
unfolding user_bytes
user_bytes_turn s pagetable srcva len n h =
    let va0 = pg_round_down srcva in
    let off = srcva - va0 in
    let al : va0 % page_size ≡ 0 = omega arith in
    let p = user_bytes_page s pagetable va0 off n al (omega arith) in
    let a = user_bytes_add s pagetable srcva n (len - n) in
    let e : va0 + off ≡ srcva = omega arith in
    let e' : n + (len - n) ≡ len = omega arith in
    let here : peek_bytes s.mem (walkaddr s pagetable va0 + off) n
        ≡ user_bytes s pagetable srcva n =
      sym p ∙ rw e refl in
    let rest : user_bytes s pagetable (va0 + page_size) (len - n)
        ≡ user_bytes s pagetable (srcva + n) (len - n) =
      elim (Bool-cases (leb len (page_size - off))) [
        | inl b ↦ (let z : len - n ≡ 0 = ground (arith, b) in rw z refl)
        | inr b ↦ (let z : va0 + page_size ≡ srcva + n = ground (arith, b) in rw z refl)
      ] in
    rw (here, rest) (sym a ∙ rw e' refl)

copyin_loop-user_bytes :
    (kernel_end sz fuel : ℕ) (s : Kmem) (pagetable srcva len : ℕ)
    → len ≤ fuel
    → IsMapped s pagetable srcva len
    → copyin_loop kernel_end sz fuel s pagetable srcva len
      ≡ ok (s, user_bytes s pagetable srcva len, true)
unfolding copyin_loop touch_page user_bytes
copyin_loop-user_bytes kernel_end sz fuel s pagetable srcva zero l m = refl
copyin_loop-user_bytes kernel_end sz zero s pagetable srcva (suc len) l m = absurd (omega arith)
copyin_loop-user_bytes kernel_end sz (suc fuel) s pagetable srcva (suc len) l m =
    let b : (walkaddr s pagetable (pg_round_down srcva) == 0) ≡ false = ground (arith, m 0) in
    let n = min (page_size - (srcva - pg_round_down srcva)) (suc len) in
    let r =
      copyin_loop-user_bytes kernel_end sz fuel s pagetable (pg_round_down srcva + page_size)
        (suc len - n) (omega arith) (λ i k. ground (arith, m (n + i))) in
    rw (copyin_loop, touch_page, b, ◌>>=◌, b, r)
      (ap (λ x. ok (s, x, true)) (user_bytes_turn s pagetable srcva (suc len) n refl))

-- Where every page of the range is mapped for the user, copyin ends within as many turns as there
-- are bytes, changes nothing, and delivers all bytes: those that the page table gives at each
-- address, one by one.
pub copyin-user_bytes :
    (kernel_end sz : ℕ) (s : Kmem) (pagetable srcva len : ℕ)
    → IsMapped s pagetable srcva len
    → copyin kernel_end sz s pagetable srcva len ≡ ok (s, user_bytes s pagetable srcva len, true)
unfolding copyin
copyin-user_bytes kernel_end sz s pagetable srcva len m =
    copyin_loop-user_bytes kernel_end sz len s pagetable srcva len (omega arith) m
