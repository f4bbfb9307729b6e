-- ===== src/Fs/Transfer/Failed.antt =====
-- Where either_copyout or either_copyin fails in a readi or writei of kernel/fs.c.
use mini_os_design.Common.{
  ℕ, ◌+◌, ◌-◌, ◌%◌, ◌≤◌, ◌<◌, ◌≡◌, ◌≢◌, false, ◌==◌, min, refl, arith, inl, inr, ◌⊎◌,
}
use mini_os_design.Fs.{bsize}

-- The store of a turn that began at the byte `t` of the call, which began at the byte `tot`, is cut
-- short, and likewise a load; a turn ends at the end of a block, or with the call.
abbrev pub FailedAt : (ℕ → ℕ → ℕ) → ℕ → ℕ → ℕ → ℕ → ℕ → Type 0
FailedAt room at off n tot t =
    (tot ≤ t)
    × (t < n)
    × ((t ≡ tot) ⊎ ((off + (t - tot)) % bsize ≡ 0))
    × (room (at + (t - tot)) (min (n - t) (bsize - (off + (t - tot)) % bsize))
        ≢ min (n - t) (bsize - (off + (t - tot)) % bsize))

-- The turn that begins the call.
pub FailedAt-here :
    (room : ℕ → ℕ → ℕ) (at off n tot : ℕ)
    → tot < n
    → (room at (min (n - tot) (bsize - off % bsize)) == min (n - tot) (bsize - off % bsize)) ≡ false
    → FailedAt room at off n tot tot
FailedAt-here room at off n tot l y =
    let a : at + (tot - tot) ≡ at = omega arith in
    let o : off + (tot - tot) ≡ off = omega arith in
    (omega arith, l, inl refl, rw (a, o) (ground (arith, y)))

-- A turn after it.
pub FailedAt-turn :
    (room : ℕ → ℕ → ℕ) (at off n tot t : ℕ)
    → FailedAt room
        (at + min (n - tot) (bsize - off % bsize))
        (off + min (n - tot) (bsize - off % bsize))
        n
        (tot + min (n - tot) (bsize - off % bsize))
        t
    → FailedAt room at off n tot t
FailedAt-turn room at off n tot t (lo, hi, b, f) =
    let m : ℕ = min (n - tot) (bsize - off % bsize) in
    let a : at + m + (t - (tot + m)) ≡ at + (t - tot) = omega (arith, lo) in
    let o : off + m + (t - (tot + m)) ≡ off + (t - tot) = omega (arith, lo) in
    (
      omega (arith, lo),
      hi,
      inr (elim b [ inl e ↦ omega (arith, e, hi) | inr e ↦ rw o at e ]),
      rw (a, o) at f,
    )
