-- ===== src/Fs/Trunc.antt =====
-- itrunc of kernel/fs.c.
pub mod Freed
pub mod FileBlocks
pub mod Emptied
pub mod Among
use mini_os_design.Common.{◌>>=◌, ℕ, zero, suc, ◌+◌, ◌==◌, if◌then◌else◌, Outcome, ok}
use mini_os_design.Fs.{Fs, bfree}
use mini_os_design.Fs.Bmap.{ndirect, nindirect, update, word_at}
use mini_os_design.Fs.Itable.{Inode}
use mini_os_design.Fs.Dinode.{iupdate}

-- if(b) bfree(ip->dev, b);
abbrev pub free_if : Fs → ℕ → Outcome Fs
free_if s b = if b == 0 then ok s else bfree s b

-- The loop over the `n` direct blocks from `i` on.
unfoldable pub free_direct : Fs → (ℕ → ℕ) → ℕ → ℕ → Outcome (Fs × (ℕ → ℕ))
free_direct s addrs i zero = ok (s, addrs)
free_direct s addrs i (suc n) =
    free_if s (addrs i) >>= λ s'. free_direct s' (update addrs i 0) (i + 1) n

-- The loop over the `n` entries from `j` on of the indirect block `b`.
unfoldable pub free_indirect : Fs → ℕ → ℕ → ℕ → Outcome Fs
free_indirect s b j zero = ok s
free_indirect s b j (suc n) =
    free_if s (word_at (s.blocks b) j) >>= λ s'. free_indirect s' b (j + 1) n

-- The indirect block, with its entries.
unfoldable pub free_rest : Fs → (ℕ → ℕ) → Outcome (Fs × (ℕ → ℕ))
unfolding free_indirect
free_rest s addrs = if addrs ndirect == 0 then ok (s, addrs) else (do
  s₁ ← free_indirect s (addrs ndirect) 0 nindirect
  s₂ ← bfree s₁ (addrs ndirect)
  ok (s₂, update addrs ndirect 0))

unfoldable pub itrunc : Fs → Inode → Outcome (Fs × Inode)
itrunc s ip = do
  r ← free_direct s ip.addrs 0 ndirect
  t ← free_rest r.0 r.1
  let ip' : Inode = record ip { addrs = t.1; size = 0 }
  ok (iupdate t.0 ip', ip')
