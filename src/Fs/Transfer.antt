-- ===== src/Fs/Transfer.antt =====
-- readi, writei and stati of kernel/fs.c. `mem` is the memory by byte on the other side. `room dst n` is how
-- many of `n` bytes either_copyout stores at `dst`, and `have src n` how many either_copyin loads from
-- `src`: all `n` of them where the call succeeds, as it does for an address of the kernel.
pub mod Reading
pub mod Writing
pub mod WriteLoop
pub mod Writei
pub mod ReadBack
pub mod Bytes
pub mod Failed
use mini_os_design.Common.{
  ◌>>=◌, ℕ, zero, suc, ◌+◌, ◌-◌, ◌*◌, ◌/◌, ◌%◌, ◌^◌, ◌&&◌, ◌||◌, ◌==◌, leb, ltb, min, if◌then◌else◌,
  Option, none, some, Outcome, ok,
}
use mini_os_design.Fs.{Fs, bsize, write_block}
use mini_os_design.Fs.Bmap.{bmap}
use mini_os_design.Fs.Itable.{Inode}
use mini_os_design.Fs.Dinode.{iupdate}

-- memmove of `n` bytes from `src` to `o`.
abbrev pub put_bytes : (ℕ → ℕ) → ℕ → (ℕ → ℕ) → ℕ → ℕ → ℕ
put_bytes mem o src n a = if leb o a && ltb a (o + n) then src (a - o) else mem a

-- What readi leaves; `result` is `none` for -1.
pub record FileRead : Type 0 where
  pub fs : Fs
  pub addrs : ℕ → ℕ
  pub mem : ℕ → ℕ
  pub result : Option ℕ

-- The loop of readi, with at most `fuel` turns.
unfoldable pub read_blocks :
    ℕ → (ℕ → ℕ → ℕ) → Fs → (ℕ → ℕ) → (ℕ → ℕ) → ℕ → ℕ → ℕ → ℕ → Outcome FileRead
read_blocks zero room s addrs mem dst off n tot =
    ok (record { fs = s; addrs = addrs; mem = mem; result = some tot })
read_blocks (suc fuel) room s addrs mem dst off n tot =
    let turn : Fs × (ℕ → ℕ) × ℕ → Outcome FileRead = λ r.
      let m = min (n - tot) (bsize - off % bsize) in
      let mem' = put_bytes mem dst (λ i. r.0.blocks r.2 (off % bsize + i)) (room dst m) in
      let rest = read_blocks fuel room r.0 r.1 mem' (dst + m) (off + m) n (tot + m) in
      if r.2 == 0
      then ok (record { fs = r.0; addrs = r.1; mem = mem; result = some tot })
      else if room dst m == m
      then rest
      else ok (record { fs = r.0; addrs = r.1; mem = mem'; result = none }) in
    if ltb tot n
    then bmap s addrs (off / bsize) >>= turn
    else ok (record { fs = s; addrs = addrs; mem = mem; result = some tot })

unfoldable pub readi : (ℕ → ℕ → ℕ) → Fs → Inode → (ℕ → ℕ) → ℕ → ℕ → ℕ → Outcome FileRead
unfolding read_blocks
readi room s ip mem dst off n =
    if ltb ip.size off || ltb ((off + n) % 2 ^ 32) off
    then ok (record { fs = s; addrs = ip.addrs; mem = mem; result = some 0 })
    else (let k = if ltb ip.size ((off + n) % 2 ^ 32) then ip.size - off else n in
        read_blocks k room s ip.addrs mem dst off k 0)

-- What the loop of writei leaves.
pub record Written : Type 0 where
  pub fs : Fs
  pub addrs : ℕ → ℕ
  pub off : ℕ
  pub tot : ℕ

-- The loop of writei, with at most `fuel` turns. What a failed either_copyin has loaded stays in the
-- buffer, but is not logged.
unfoldable pub write_blocks :
    ℕ → (ℕ → ℕ → ℕ) → Fs → (ℕ → ℕ) → (ℕ → ℕ) → ℕ → ℕ → ℕ → ℕ → Outcome Written
write_blocks zero have s addrs mem src off n tot =
    ok (record { fs = s; addrs = addrs; off = off; tot = tot })
write_blocks (suc fuel) have s addrs mem src off n tot =
    let turn : Fs × (ℕ → ℕ) × ℕ → Outcome Written = λ r.
      let m = min (n - tot) (bsize - off % bsize) in
      let s' =
        write_block r.0 r.2
          (put_bytes (r.0.blocks r.2) (off % bsize) (λ i. mem (src + i)) (have src m)) in
      let rest = write_blocks fuel have s' r.1 mem (src + m) (off + m) n (tot + m) in
      if r.2 == 0
      then ok (record { fs = r.0; addrs = r.1; off = off; tot = tot })
      else if have src m == m
      then rest
      else ok (record { fs = s'; addrs = r.1; off = off; tot = tot }) in
    if ltb tot n
    then bmap s addrs (off / bsize) >>= turn
    else ok (record { fs = s; addrs = addrs; off = off; tot = tot })

-- The lines of writei after its loop: the new size, and iupdate.
abbrev pub finish : Inode → Written → Fs × Inode × Option ℕ
finish ip w =
    let ip' : Inode = record ip {
      addrs = w.addrs;
      size = if ltb ip.size w.off then w.off else ip.size;
    } in
    (iupdate w.fs ip', ip', some w.tot)

-- writei; the result is `none` for -1.
unfoldable pub writei :
    (ℕ → ℕ → ℕ) → Fs → Inode → (ℕ → ℕ) → ℕ → ℕ → ℕ → Outcome (Fs × Inode × Option ℕ)
unfolding write_blocks
writei have s ip mem src off n =
    if ltb ip.size off || ltb ((off + n) % 2 ^ 32) off
    then ok (s, ip, none)
    else if ltb (268 * bsize) ((off + n) % 2 ^ 32)
    then ok (s, ip, none)
    else (do w ← write_blocks n have s ip.addrs mem src off n 0; ok (finish ip w))
