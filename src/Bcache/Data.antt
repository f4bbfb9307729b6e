-- ===== src/Bcache/Data.antt =====
-- What readers see through the buffer cache of kernel/bio.c.
use mini_os_design.Common.{
  ℕ, ◌≡◌, ◌≢◌, true, false, ◌&&◌, ◌==◌, if◌then◌else◌, Option, none, some, refl, arith, Bool-cases,
  Option-cases, inl, inr, ◌⊎◌, List, [], ◌∷◌, ◌++◌,
}
use mini_os_design.Log.Store.{DiskBlock}
use mini_os_design.Bcache.{Buf, is_block, reuse}
use mini_os_design.Bcache.Order.{reused, lookup}

-- The valid copy of a block in the cache.
unfoldable pub cached : List Buf → ℕ → ℕ → Option DiskBlock
cached [] dev blockno = none
cached (b ∷ bs) dev blockno =
    let later = cached bs dev blockno in
    if is_block dev blockno b && b.valid then some b.contents else later

abbrev pub or_disk : DiskBlock → Option DiskBlock → DiskBlock
or_disk d none = d
or_disk d (some v) = v

-- What a reader of the block gets.
abbrev pub view : (ℕ → ℕ → DiskBlock) → List Buf → ℕ → ℕ → DiskBlock
view disk bs dev blockno = or_disk (disk dev blockno) (cached bs dev blockno)

-- No buffer is for the block, and no buffer is the buffer `i`.
abbrev pub Absent : List Buf → ℕ → ℕ → Type 0
Absent [] dev blockno = Unit {0}
Absent (b ∷ bs) dev blockno = (is_block dev blockno b ≡ false) × Absent bs dev blockno

abbrev pub Missing : List Buf → ℕ → Type 0
Missing [] i = Unit {0}
Missing (b ∷ bs) i = (b.id ≢ i) × Missing bs i

-- A buffer that nobody uses holds nothing that the disk does not.
abbrev pub IsClean : (ℕ → ℕ → DiskBlock) → Buf → Type 0
IsClean disk b = b.valid ≡ true → b.refcnt ≡ 0 → b.contents ≡ disk b.dev b.blockno

-- At most one buffer for a block of a device, whose number is not 0, each buffer once, and all
-- unused buffers clean.
abbrev pub IsCoherent : (ℕ → ℕ → DiskBlock) → List Buf → Type 0
IsCoherent disk [] = Unit {0}
IsCoherent disk (b ∷ bs) =
    (b.dev ≢ 0 → Absent bs b.dev b.blockno) × Missing bs b.id × IsClean disk b × IsCoherent disk bs

-- All blocks of devices look the same.
abbrev pub SameView : (ℕ → ℕ → DiskBlock) → List Buf → List Buf → Type 0
SameView disk bs bs' = (d n : ℕ) → d ≢ 0 → view disk bs' d n ≡ view disk bs d n

pub cached-Absent :
    (bs : List Buf) (dev blockno : ℕ) → Absent bs dev blockno → cached bs dev blockno ≡ none
unfolding cached
cached-Absent [] dev blockno h = refl
cached-Absent (b ∷ bs) dev blockno h = ground (arith, cached-Absent bs dev blockno h.1)

pub reuse-none :
    (bs : List Buf) (dev blockno : ℕ) → reuse dev blockno bs ≡ none → Absent bs dev blockno
unfolding reuse
reuse-none [] dev blockno e = tt
reuse-none (b ∷ bs) dev blockno e = elim (Bool-cases (is_block dev blockno b)) [
  | inl h ↦
      (let e' : ◌≡◌ {A = Option (List Buf × ℕ)} (some (reused b ∷ bs, b.id)) none =
          rw (reuse, h) at e in
        cc)
  | inr h ↦ elim (Option-cases (reuse dev blockno bs)) [
    | inl z ↦ (h, reuse-none bs dev blockno z)
    | inr (r, z) ↦
        (let e' : ◌≡◌ {A = Option (List Buf × ℕ)} (some (b ∷ r.0, r.1)) none =
            rw (reuse, h, z) at e in
          cc)
  ]
]

-- The block that `b'` is for is the one of `b`, or one for which the cache has no buffer.
abbrev pub Fits : List Buf → Buf → Buf → Type 0
Fits bs b b' = ((b'.dev ≡ b.dev) × (b'.blockno ≡ b.blockno)) ⊎ Absent bs b'.dev b'.blockno

pub Absent-mid :
    (front back : List Buf) (b : Buf) (d n : ℕ)
    → Absent (front ++ b ∷ back) d n
    → (is_block d n b ≡ false) × Absent back d n
Absent-mid [] back b d n h = h
Absent-mid (x ∷ front) back b d n h = Absent-mid front back b d n h.1

Absent-swap :
    (front back : List Buf) (b b' : Buf) (d n : ℕ)
    → Absent (front ++ b ∷ back) d n
    → is_block d n b' ≡ false
    → Absent (front ++ b' ∷ back) d n
Absent-swap [] back b b' d n h k = (k, h.1)
Absent-swap (x ∷ front) back b b' d n h k = (h.0, Absent-swap front back b b' d n h.1 k)

Missing-swap :
    (front back : List Buf) (b b' : Buf) (i : ℕ)
    → b'.id ≡ b.id
    → Missing (front ++ b ∷ back) i
    → Missing (front ++ b' ∷ back) i
Missing-swap [] back b b' i e h = (ground (arith, h.0, e), h.1)
Missing-swap (x ∷ front) back b b' i e h = (h.0, Missing-swap front back b b' i e h.1)

Fits-later : (x : Buf) (bs : List Buf) (b b' : Buf) → Fits (x ∷ bs) b b' → Fits bs b b'
Fits-later x bs b b' (inl h) = inl h
Fits-later x bs b b' (inr h) = inr h.1

-- A buffer before the one that changes is for another block than the new one.
Fits-apart :
    (x : Buf) (front back : List Buf) (b b' : Buf)
    → Fits (x ∷ front ++ b ∷ back) b b'
    → Absent (front ++ b ∷ back) x.dev x.blockno
    → is_block x.dev x.blockno b' ≡ false
Fits-apart x front back b b' (inl h) a =
    let (m, _) = Absent-mid front back b x.dev x.blockno a in rw (h.0, h.1) m
Fits-apart x front back b b' (inr h) a = ground (arith, h.0)

pub IsCoherent-swap :
    (disk : ℕ → ℕ → DiskBlock) (front back : List Buf) (b b' : Buf)
    → b'.id ≡ b.id
    → Fits (front ++ b ∷ back) b b'
    → IsClean disk b'
    → IsCoherent disk (front ++ b ∷ back)
    → IsCoherent disk (front ++ b' ∷ back)
IsCoherent-swap disk [] back b b' e (inl f) c h =
    (λ n. rw (f.0, f.1) (h.0 (rw f.0 at n)), rw e h.1, c, h.3)
IsCoherent-swap disk [] back b b' e (inr f) c h = (λ n. f.1, rw e h.1, c, h.3)
IsCoherent-swap disk (x ∷ front) back b b' e f c h = (
  λ n. Absent-swap front back b b' x.dev x.blockno (h.0 n) (Fits-apart x front back b b' f (h.0 n)),
  Missing-swap front back b b' x.id e h.1,
  h.2,
  IsCoherent-swap disk front back b b' e (Fits-later x (front ++ b ∷ back) b b' f) c h.3,
)

-- What the change of one buffer may do to what is read.
cached-swap :
    (front back : List Buf) (b b' : Buf) (d n : ℕ)
    → cached (b' ∷ back) d n ≡ cached (b ∷ back) d n
    → cached (front ++ b' ∷ back) d n ≡ cached (front ++ b ∷ back) d n
unfolding cached
cached-swap [] back b b' d n e = e
cached-swap (x ∷ front) back b b' d n e = ground (arith, cached-swap front back b b' d n e)

pub view-swap :
    (disk : ℕ → ℕ → DiskBlock) (front back : List Buf) (b b' : Buf) (d n : ℕ)
    → view disk (b' ∷ back) d n ≡ view disk (b ∷ back) d n
    → view disk (front ++ b' ∷ back) d n ≡ view disk (front ++ b ∷ back) d n
unfolding cached
view-swap disk [] back b b' d n e = e
view-swap disk (x ∷ front) back b b' d n e = elim (Bool-cases (is_block d n x && x.valid)) [
  | inl h ↦ rw (cached, h) refl
  | inr h ↦ rw (cached, h) (view-swap disk front back b b' d n e)
]

pub lookup-swap :
    (disk : ℕ → ℕ → DiskBlock) (front back : List Buf) (b b' : Buf)
    → b'.id ≡ b.id
    → IsCoherent disk (front ++ b ∷ back)
    → lookup b.id (front ++ b' ∷ back) ≡ some b'
unfolding lookup
lookup-swap disk [] back b b' e h = ground (arith, e)
lookup-swap disk (x ∷ front) back b b' e h =
    let r = lookup-swap disk front back b b' e h.3 in
    let z : (x.id == b.id) ≡ false = ground (arith, mid front h.1) in rw (lookup, z) r
  where
    mid : (xs : List Buf) → Missing (xs ++ b ∷ back) x.id → b.id ≢ x.id
    mid [] m = m.0
    mid (y ∷ xs) m = mid xs m.1
