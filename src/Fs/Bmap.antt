-- ===== src/Fs/Bmap.antt =====
-- bmap of kernel/fs.c: the blocks of a file. `addrs` is ip->addrs; a word of a block is four bytes, the
-- least significant first.
pub mod Contents
use mini_os_design.Common.{
  ℕ, ◌+◌, ◌-◌, ◌*◌, ◌/◌, ◌%◌, ◌^◌, ◌==◌, ltb, if◌then◌else◌, Outcome, ok, panic,
}
use mini_os_design.Fs.{Fs, write_block, balloc}

abbrev pub ndirect : ℕ
ndirect = 12

abbrev pub nindirect : ℕ
nindirect = 256

abbrev pub update : (ℕ → ℕ) → ℕ → ℕ → ℕ → ℕ
update f i v j = if j == i then v else f j

-- a[i]
abbrev pub word_at : (ℕ → ℕ) → ℕ → ℕ
word_at block i =
    block (4 * i)
    + 2 ^ 8 * block (4 * i + 1)
    + 2 ^ 16 * block (4 * i + 2)
    + 2 ^ 24 * block (4 * i + 3)

-- a[i] = w
abbrev pub put_word : (ℕ → ℕ) → ℕ → ℕ → ℕ → ℕ
put_word block i w j = if j / 4 == i then w / 2 ^ (8 * (j % 4)) % 2 ^ 8 else block j

-- The entry `i` of addrs, filled where it is 0: the block, or 0.
unfoldable pub direct : Fs → (ℕ → ℕ) → ℕ → Fs × (ℕ → ℕ) × ℕ
direct s addrs i =
    if addrs i == 0
    then (if (balloc s).1 == 0
        then ((balloc s).0, addrs, 0)
        else ((balloc s).0, update addrs i (balloc s).1, (balloc s).1))
    else (s, addrs, addrs i)

-- The entry `i` of the indirect block `b`, filled where it is 0.
unfoldable pub indirect : Fs → ℕ → ℕ → Fs × ℕ
indirect s b i =
    if word_at (s.blocks b) i == 0
    then (if (balloc s).1 == 0 then ((balloc s).0, 0) else (
      write_block (balloc s).0 b (put_word ((balloc s).0.blocks b) i (balloc s).1),
      (balloc s).1,
    ))
    else (s, word_at (s.blocks b) i)

unfoldable pub bmap : Fs → (ℕ → ℕ) → ℕ → Outcome (Fs × (ℕ → ℕ) × ℕ)
unfolding direct indirect
bmap s addrs bn =
    if ltb bn ndirect
    then ok (direct s addrs bn)
    else if ltb (bn - ndirect) nindirect
    then (let (s₁, addrs₁, b) = direct s addrs ndirect in
        if b == 0
        then ok (s₁, addrs₁, 0)
        else ok ((indirect s₁ b (bn - ndirect)).0, addrs₁, (indirect s₁ b (bn - ndirect)).1))
    else panic "bmap: out of range"
