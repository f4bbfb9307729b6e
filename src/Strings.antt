-- ===== src/Strings.antt =====
-- kernel/string.c over a memory of bytes, a map from addresses. A `char` is its unsigned value, and
-- the difference of two bytes that memcmp and strncmp return is an integer.
pub mod Copying
mod Tests
use mini_os_design.Common.{
  ℕ, zero, suc, ◌+◌, ◌-◌, ◌%◌, ◌^◌, Option, none, some, Bool, not, ◌&&◌, ◌||◌, ltb, ◌==◌,
  if◌then◌else◌,
}
use mini_os_design.Common.Int.{ℤ, pos, ◌-ℤ◌}

abbrev pub Bytes : Type 0
Bytes = ℕ → ℕ

abbrev pub poke : Bytes → ℕ → ℕ → Bytes
poke m a b i = if i == a then b else m i

pub memset : Bytes → ℕ → ℕ → ℕ → Bytes
memset m dst c zero = m
memset m dst c (suc n) = memset (poke m dst (c % 2 ^ 8)) (dst + 1) c n

memcmp : Bytes → ℕ → ℕ → ℕ → ℤ
memcmp m s₁ s₂ zero = pos 0
memcmp m s₁ s₂ (suc n) =
    let rest = memcmp m (s₁ + 1) (s₂ + 1) n in
    if not (m s₁ == m s₂) then pos (m s₁) -ℤ pos (m s₂) else rest

-- while(n-- > 0) *d++ = *s++;
pub copy_up : Bytes → ℕ → ℕ → ℕ → Bytes
copy_up m d s zero = m
copy_up m d s (suc n) = copy_up (poke m d (m s)) (d + 1) (s + 1) n

-- s += n; d += n; while(n-- > 0) *--d = *--s;
pub copy_down : Bytes → ℕ → ℕ → ℕ → Bytes
copy_down m d s zero = m
copy_down m d s (suc n) = copy_down (poke m (d + n) (m (s + n))) d s n

pub memmove : Bytes → ℕ → ℕ → ℕ → Bytes
memmove m dst src n =
    if n == 0
    then m
    else (if ltb src dst && ltb dst (src + n) then copy_down m dst src n else copy_up m dst src n)

memcpy : Bytes → ℕ → ℕ → ℕ → Bytes
memcpy = memmove

strncmp : Bytes → ℕ → ℕ → ℕ → ℤ
strncmp m p q zero = pos 0
strncmp m p q (suc n) =
    let rest = strncmp m (p + 1) (q + 1) n in
    if not (m p == 0) && m p == m q then rest else pos (m p) -ℤ pos (m q)

-- strncpy for n ≥ 0: the string, then zeros up to `n` bytes.
pub strncpy : Bytes → ℕ → ℕ → ℕ → Bytes
strncpy m s t zero = m
strncpy m s t (suc n) =
    let rest = strncpy (poke m s (m t)) (s + 1) (t + 1) n in
    if m t == 0 then memset (poke m s 0) (s + 1) 0 n else rest

-- The loop of safestrcpy with `n` bytes to go, and the final `*s = 0`.
pub copy_string : Bytes → ℕ → ℕ → ℕ → Bytes
copy_string m s t zero = poke m s 0
copy_string m s t (suc n) =
    let rest = copy_string (poke m s (m t)) (s + 1) (t + 1) n in
    if m t == 0 then poke (poke m s 0) (s + 1) 0 else rest

pub safestrcpy : Bytes → ℕ → ℕ → ℕ → Bytes
safestrcpy m s t zero = m
safestrcpy m s t (suc n) = copy_string m s t n

-- strlen, which reads at most `fuel` bytes; `none` where none of them is 0.
pub strlen : ℕ → Bytes → ℕ → Option ℕ
strlen zero m s = none
strlen (suc fuel) m s =
    let rest = strlen fuel m (s + 1) in
    if m s == 0 then some 0 else elim rest [ none ↦ none | some n ↦ some (n + 1) ]
