-- ===== src/Bcache/Get.antt =====
-- bget of kernel/bio.c.
use mini_os_design.Common.{
  ℕ, ◌+◌, ◌^◌, ◌<◌, ◌≡◌, ◌≢◌, true, false, ◌&&◌, none, some, refl, sym, arith, Bool-cases,
  Option-cases, inl, inr, ◌⊎◌, Outcome, ok, panic, List, [], ◌∷◌, ◌++◌,
}
use mini_os_design.Log.Store.{DiskBlock}
use mini_os_design.Bcache.{Buf, is_block, reuse, recycle, bget}
use mini_os_design.Bcache.Order.{
  Swap, AllUsed, reused, recycled, reuse-Swap, recycle-Swap, recycle-none, lookup,
}
use mini_os_design.Bcache.Data.{
  cached, view, Absent, IsClean, IsCoherent, SameView, cached-Absent, reuse-none, Fits,
  IsCoherent-swap, view-swap, lookup-swap,
}

-- The cache `bs'` gives the buffer `i` for the block, and shows all blocks as `bs` does.
pub record Gave (disk : ℕ → ℕ → DiskBlock) (bs bs' : List Buf) (i dev blockno : ℕ) : Type 0 where
  pub coherent : IsCoherent disk bs'
  pub same : SameView disk bs bs'
  pub buffer : Buf
  pub found : lookup i bs' ≡ some buffer
  pub block : is_block dev blockno buffer ≡ true
  pub used : 0 < buffer.refcnt

-- No count of references wraps around.
abbrev Counted : List Buf → Type 0
Counted [] = Unit {0}
Counted (b ∷ bs) = (b.refcnt + 1 < 2 ^ 32) × Counted bs

Counted-mid :
    (front back : List Buf) (b : Buf) → Counted (front ++ b ∷ back) → b.refcnt + 1 < 2 ^ 32
Counted-mid [] back b c = c.0
Counted-mid (x ∷ front) back b c = Counted-mid front back b c.1

Swap-Gave :
    (disk : ℕ → ℕ → DiskBlock) (bs bs' : List Buf) (b b' : Buf) (dev blockno : ℕ)
    → b'.id ≡ b.id
    → (s : Swap bs bs' b b') → Fits bs b b'
    → IsClean disk b'
    → is_block dev blockno b' ≡ true
    → 0 < b'.refcnt
    → ((d n : ℕ) → d ≢ 0 → view disk (b' ∷ s.back) d n ≡ view disk (b ∷ s.back) d n)
    → IsCoherent disk bs
    → Gave disk bs bs' b.id dev blockno
Swap-Gave disk bs bs' b b' dev blockno e s f c k u w h =
    let h' : IsCoherent disk (s.front ++ b ∷ s.back) = rw s.was at h in
    let f' : Fits (s.front ++ b ∷ s.back) b b' = rw s.was at f in
    record {
      coherent = rw s.now (IsCoherent-swap disk s.front s.back b b' e f' c h');
      same = λ d n z. rw (s.now, s.was) (view-swap disk s.front s.back b b' d n (w d n z));
      buffer = b';
      found = rw s.now (lookup-swap disk s.front s.back b b' e h');
      block = k;
      used = u;
    }

pub IsCoherent-mid :
    (disk : ℕ → ℕ → DiskBlock) (front back : List Buf) (b : Buf)
    → IsCoherent disk (front ++ b ∷ back)
    → (b.dev ≢ 0 → Absent back b.dev b.blockno) × IsClean disk b
IsCoherent-mid disk [] back b h = (h.0, h.2)
IsCoherent-mid disk (x ∷ front) back b h = IsCoherent-mid disk front back b h.3

-- An unused buffer that becomes one for a block that is not cached.
recycled-view :
    (disk : ℕ → ℕ → DiskBlock) (back : List Buf) (b : Buf) (dev blockno d n : ℕ)
    → d ≢ 0
    → b.refcnt ≡ 0
    → IsClean disk b
    → (b.dev ≢ 0 → Absent back b.dev b.blockno)
    → view disk (recycled dev blockno b ∷ back) d n ≡ view disk (b ∷ back) d n
unfolding cached
recycled-view disk back b dev blockno d n z r c a =
    let k : (is_block d n (recycled dev blockno b) && false) ≡ false = ground arith in
    elim (Bool-cases (is_block d n b && b.valid)) [
      | inl h ↦
          let e : b.dev ≡ d = ground (arith, h) in
          let e' : b.blockno ≡ n = ground (arith, h) in
          let v : b.valid ≡ true = ground (arith, h) in
          let a' : d ≢ 0 → Absent back d n = rw (e, e') at a in
          let q : cached back d n ≡ none = cached-Absent back d n (a' z) in
          let c' : b.contents ≡ disk d n = rw (e, e') at c v r in rw (cached, k, h, q) (sym c')
      | inr h ↦ rw (cached, k, h) refl
    ]

-- In a coherent cache whose counts do not wrap around, a bget that returns keeps the cache coherent
-- and what readers see of every block of a device, and gives a buffer for the block, with at least
-- one reference.
pub bget-Gave :
    (disk : ℕ → ℕ → DiskBlock) (bs bs' : List Buf) (dev blockno i : ℕ)
    → IsCoherent disk bs
    → Counted bs
    → bget bs dev blockno ≡ ok (bs', i)
    → Gave disk bs bs' i dev blockno
unfolding bget cached
bget-Gave disk bs bs' dev blockno i h k e = elim (Option-cases (reuse dev blockno bs)) [
  | inl z ↦ elim (Option-cases (recycle dev blockno bs)) [
    | inl q ↦
        (let e' : ◌≡◌ {A = Outcome (List Buf × ℕ)} (panic "bget: no buffers") (ok (bs', i)) =
            rw (bget, z, q) at e in
          cc)
    | inr ((xs, j), q) ↦
        let e' : ◌≡◌ {A = Outcome (List Buf × ℕ)} (ok (xs, j)) (ok (bs', i)) =
          rw (bget, z, q) at e in
        let p : xs ≡ bs' = cc in
        let p' : j ≡ i = cc in
        let (b, r, m, s, _) = recycle-Swap bs xs dev blockno j q in
        let (a, c) = IsCoherent-mid disk s.front s.back b (rw s.was at h) in
        rw (← p, ← p', ← m)
          (Swap-Gave disk bs xs b (recycled dev blockno b) dev blockno refl s
            (inr (reuse-none bs dev blockno z)) (λ v. cc) (ground arith) (omega arith)
            (λ d n y. recycled-view disk s.back b dev blockno d n y r c a) h)
  ]
  | inr ((xs, j), z) ↦
      let e' : ◌≡◌ {A = Outcome (List Buf × ℕ)} (ok (xs, j)) (ok (bs', i)) = rw (bget, z) at e in
      let p : xs ≡ bs' = cc in
      let p' : j ≡ i = cc in
      let (b, r, m, s) = reuse-Swap bs xs dev blockno j z in
      let u = Counted-mid s.front s.back b (rw s.was at k) in
      rw (← p, ← p', ← m)
        (Swap-Gave disk bs xs b (reused b) dev blockno refl s (inl (refl, refl))
          (λ v w. absurd (omega (arith, u, w))) r (omega (arith, u)) (λ d n y. refl) h)
]

Absent-reuse :
    (bs : List Buf) (dev blockno : ℕ) → Absent bs dev blockno → reuse dev blockno bs ≡ none
unfolding reuse
Absent-reuse [] dev blockno a = refl
Absent-reuse (b ∷ bs) dev blockno a = rw (reuse, a.0, Absent-reuse bs dev blockno a.1) refl

-- For a block that is not cached, bget panics and every buffer is in use, or takes the last buffer
-- of the list that nobody uses, at its place.
bget-recycles :
    (bs : List Buf) (dev blockno : ℕ)
    → Absent bs dev blockno
    → ((bget bs dev blockno ≡ panic "bget: no buffers") × AllUsed bs)
      ⊎ ((b : Buf) × (bs' : List Buf) × (bget bs dev blockno ≡ ok (bs', b.id))
          × (b.refcnt ≡ 0)
          × (s : Swap bs bs' b (recycled dev blockno b)) × AllUsed s.back)
unfolding bget
bget-recycles bs dev blockno a =
    let z = Absent-reuse bs dev blockno a in
    elim (Option-cases (recycle dev blockno bs)) [
      | inl q ↦ inl (rw (bget, z, q) refl, recycle-none bs dev blockno q)
      | inr ((xs, j), q) ↦
          let (b, r, m, s, u) = recycle-Swap bs xs dev blockno j q in
          inr (b, xs, rw (bget, z, q, m) refl, r, s, u)
    ]
