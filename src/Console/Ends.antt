-- ===== src/Console/Ends.antt =====
-- What a consoleread of kernel/console.c may leave, and how it ends.
use mini_os_design.Common.{
  ℕ, zero, suc, ◌+◌, ◌%◌, ◌≤◌, ◌<◌, ◌≡◌, ◌≢◌, ◌⊎◌, List, [], ◌∷◌, ◌++◌, Bool, true, false, not,
  ◌&&◌, ◌||◌, ◌==◌, if◌then◌else◌, refl, arith, length,
}
use mini_os_design.Console.{
  Console, ReadEnd, returned, failed, asleep, input_buf_size, uint_range, newline, ctrl_d, consume,
}
use mini_os_design.Console.Editing.{ready, IsValid}

-- The `n` characters of the ring from index `i` on.
abbrev pub chars : (ℕ → ℕ) → ℕ → ℕ → List ℕ
chars buf i zero = []
chars buf i (suc n) = buf (i % input_buf_size) ∷ chars buf ((i + 1) % uint_range) n

-- What consoleread can take.
abbrev pub lines : Console → List ℕ
lines c = chars c.buf c.r (ready c)

abbrev is_nil : List ℕ → Bool
is_nil bs = elim bs [ [] ↦ true | _ ∷ _ ↦ false ]

-- No end of file, and a newline at most at the end.
abbrev is_text : List ℕ → Bool
is_text [] = true
is_text (ch ∷ bs) = not (ch == ctrl_d) && (not (ch == newline) || is_nil bs) && is_text bs

abbrev has_newline : List ℕ → Bool
has_newline [] = false
has_newline (ch ∷ bs) = ch == newline || has_newline bs

-- Fewer than `n` characters, and no whole line.
abbrev pub Unfinished : ℕ → List ℕ → Type 0
Unfinished n d = (length d < n) × (has_newline d ≡ false)

-- How a read of at most `n` characters ends that delivers `d`, the last one as the `k`-th of the call, takes
-- `lost` without delivering it, and leaves `left`: with a full buffer or a whole line; at an end of
-- file that is taken, or saved for the next read; at a failed copy; or where nothing is left.
abbrev pub Ends : Bool → (ℕ → Bool) → ℕ → ℕ → List ℕ → List ℕ → List ℕ → ReadEnd → Type 0
Ends killed copyout n k d lost left end =
    ((end ≡ returned k) × (lost ≡ []) × ((length d ≡ n) ⊎ (has_newline d ≡ true)))
    ⊎ ((end ≡ returned k) × (k ≡ 0) × (lost ≡ ctrl_d ∷ []) × Unfinished n d)
    ⊎ ((end ≡ returned k)
        × (0 < k)
        × (lost ≡ [])
        × Unfinished n d
        × (rest : List ℕ) × (left ≡ ctrl_d ∷ rest))
    ⊎ ((end ≡ returned k)
        × (copyout k ≡ false)
        × Unfinished n d
        × (ch : ℕ) × (lost ≡ ch ∷ [])
        × (ch ≢ ctrl_d))
    ⊎ ((end ≡ (if killed then failed else asleep k)) × (lost ≡ []) × Unfinished n d × (left ≡ []))

-- What a read of at most `n` characters after `i` may leave.
pub record Read (killed : Bool) (copyout : ℕ → Bool) (i n : ℕ) (c : Console)
    (x : Console × List ℕ × ReadEnd) : Type 0 where
  pub valid : IsValid x.0
  pub same_w : x.0.w ≡ c.w
  pub same_e : x.0.e ≡ c.e
  pub lost : List ℕ
  pub parts : lines c ≡ x.1 ++ (lost ++ lines x.0)
  pub size : length x.1 ≤ n
  pub text : is_text x.1 ≡ true
  pub stored : (j : ℕ) → j < length x.1 → copyout (i + j) ≡ true
  pub ends : Ends killed copyout n (i + length x.1) x.1 lost (lines x.0) x.2

pub consume-IsValid :
    (c : Console)
    → IsValid c
    → c.r ≢ c.w
    → IsValid (consume c) × (lines c ≡ c.buf (c.r % input_buf_size) ∷ lines (consume c))
consume-IsValid c v ne =
    let less : ready c ≡ suc (ready (consume c)) = ground (arith, v) in
    (
      record {
        r_word = omega arith;
        w_word = v.w_word;
        e_word = v.e_word;
        fits = omega (arith, v.fits, less);
        one_line = v.one_line;
      },
      rw less refl,
    )
