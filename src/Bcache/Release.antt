-- ===== src/Bcache/Release.antt =====
-- brelse of kernel/bio.c.
use mini_os_design.Common.{
  ℕ, ◌^◌, ◌<◌, ◌≡◌, ◌≢◌, true, false, ◌&&◌, ◌==◌, some, refl, sym, ap, ◌∙◌, arith, Bool-cases, inl,
  inr, ok, List, [], ◌∷◌, ◌++◌,
}
use mini_os_design.Locks.{holdingsleep, releasesleep}
use mini_os_design.Log.Store.{DiskBlock}
use mini_os_design.Bcache.{Buf, one_less, is_block, change, unlink, brelse}
use mini_os_design.Bcache.Order.{lookup, change-Swap, unlink-split}
use mini_os_design.Bcache.Data.{
  cached, or_disk, Absent, Missing, IsCoherent, SameView, IsCoherent-swap, view-swap, Absent-mid,
}

-- Taking a buffer out.
Absent-drop :
    (front back : List Buf) (b : Buf) (d n : ℕ)
    → Absent (front ++ b ∷ back) d n
    → Absent (front ++ back) d n
Absent-drop [] back b d n h = h.1
Absent-drop (x ∷ front) back b d n h = (h.0, Absent-drop front back b d n h.1)

Missing-drop :
    (front back : List Buf) (b : Buf) (i : ℕ)
    → Missing (front ++ b ∷ back) i
    → Missing (front ++ back) i × (b.id ≢ i)
Missing-drop [] back b i h = (h.1, h.0)
Missing-drop (x ∷ front) back b i h = let (m, n) = Missing-drop front back b i h.1 in ((h.0, m), n)

record Apart (disk : ℕ → ℕ → DiskBlock) (front back : List Buf) (b : Buf) : Type 0 where
  absent : b.dev ≢ 0 → Absent (front ++ back) b.dev b.blockno
  missing : Missing (front ++ back) b.id
  others : IsCoherent disk (front ++ back)

apart :
    (disk : ℕ → ℕ → DiskBlock) (front back : List Buf) (b : Buf)
    → IsCoherent disk (front ++ b ∷ back)
    → Apart disk front back b
apart disk [] back b h = record { absent = h.0; missing = h.1; others = h.3 }
apart disk (x ∷ front) back b h =
    let r = apart disk front back b h.3 in
    let (m, n) = Missing-drop front back b x.id h.1 in
    record {
      absent = λ z. (
        elim (Bool-cases (is_block b.dev b.blockno x)) [
          | inl k ↦
              let e : x.dev ≢ 0 = ground (arith, k, z) in
              let (w, _) = Absent-mid front back b x.dev x.blockno (h.0 e) in
              absurd (ground (arith, w, k))
          | inr k ↦ k
        ],
        r.absent z,
      );
      missing = ((λ q. n (sym q)), r.missing);
      others = ((λ z. Absent-drop front back b x.dev x.blockno (h.0 z)), m, h.2, r.others);
    }

cached-moved :
    (disk : ℕ → ℕ → DiskBlock) (front back : List Buf) (b b' : Buf) (d n : ℕ)
    → d ≢ 0
    → (b'.dev ≡ b.dev)
      × (b'.blockno ≡ b.blockno)
      × (b'.valid ≡ b.valid)
      × (b'.contents ≡ b.contents)
    → IsCoherent disk (front ++ b ∷ back)
    → cached (b' ∷ front ++ back) d n ≡ cached (front ++ b ∷ back) d n
unfolding cached
cached-moved disk [] back b b' d n z (p, q, v, c) h = rw (p, q, v, c) refl
cached-moved disk (x ∷ front) back b b' d n z e h =
    let r = cached-moved disk front back b b' d n z e h.3 in
    let (p, q, v, c) = e in
    elim (Bool-cases (is_block d n x && x.valid)) [
      | inl k ↦
          let a : x.dev ≢ 0 = ground (arith, k, z) in
          let (w, _) = Absent-mid front back b x.dev x.blockno (h.0 a) in
          let o : (is_block d n b' && b'.valid) ≡ false = ground (arith, w, k, p, q) in
          rw (cached, o, k) refl
      | inr k ↦ elim (Bool-cases (is_block d n b' && b'.valid)) [
        | inl o ↦
            (let r' : some b'.contents ≡ cached (front ++ b ∷ back) d n = rw (cached, o) at r in
              rw (cached, k, o) r')
        | inr o ↦
            (let r' : cached (front ++ back) d n ≡ cached (front ++ b ∷ back) d n =
                rw (cached, o) at r in
              rw (cached, k, o) r')
      ]
    ]

abbrev pub released : Buf → Buf
released b = record b { lock = releasesleep b.lock; refcnt = one_less b.refcnt }

-- The last user of `b` puts it at the head of the list; another leaves it at its place.
abbrev IsPlaced : List Buf → List Buf → ℕ → Buf → Type 0
IsPlaced bs bs' i b =
    (b.refcnt ≡ 1 → (rest : List Buf) × (bs' ≡ released b ∷ rest) × (unlink i bs ≡ some (b, rest)))
    × (b.refcnt ≢ 1 → bs' ≡ change i (λ _. released b) bs)

last_release :
    (disk : ℕ → ℕ → DiskBlock) (me : ℕ) (bs : List Buf) (i : ℕ) (b : Buf)
    → IsCoherent disk bs
    → lookup i bs ≡ some b
    → holdingsleep me b.lock ≡ true
    → b.refcnt ≡ 1
    → (b.valid ≡ true → b.contents ≡ disk b.dev b.blockno)
    → (bs' : List Buf) × (brelse me bs i ≡ ok bs')
      × IsCoherent disk bs'
      × SameView disk bs bs'
      × IsPlaced bs bs' i b
unfolding brelse
last_release disk me bs i b h l k r c =
    let (front, back, w, u) = unlink-split bs i b l in
    let h' : IsCoherent disk (front ++ b ∷ back) = rw w at h in
    let a = apart disk front back b h' in
    let z : (one_less b.refcnt == 0) ≡ true = ground (arith, r) in
    (
      released b ∷ front ++ back,
      rw (brelse, u, k, z) refl,
      (a.absent, a.missing, (λ v y. c v), a.others),
      (λ d n y.
          ap (λ o. or_disk (disk d n) o)
            (cached-moved disk front back b (released b) d n y (refl, refl, refl, refl) h'
              ∙ ap (λ xs. cached xs d n) (sym w))),
      ((λ y. (front ++ back, refl, u)), (λ y. absurd (y r))),
    )

other_release :
    (disk : ℕ → ℕ → DiskBlock) (me : ℕ) (bs : List Buf) (i : ℕ) (b : Buf)
    → IsCoherent disk bs
    → lookup i bs ≡ some b
    → holdingsleep me b.lock ≡ true
    → 1 < b.refcnt
    → b.refcnt < 2 ^ 32
    → (bs' : List Buf) × (brelse me bs i ≡ ok bs')
      × IsCoherent disk bs'
      × SameView disk bs bs'
      × IsPlaced bs bs' i b
unfolding brelse cached
other_release disk me bs i b h l k r r' =
    let (_, _, _, u) = unlink-split bs i b l in
    let (m, s) = change-Swap bs i (λ _. released b) b l in
    let h' : IsCoherent disk (s.front ++ b ∷ s.back) = rw s.was at h in
    let z : (one_less b.refcnt == 0) ≡ false = ground (arith, r, r') in
    (
      change i (λ _. released b) bs,
      rw (brelse, u, k, z) refl,
      rw s.now (
          IsCoherent-swap disk s.front s.back b (released b) refl (inl (refl, refl))
            (λ v y. absurd (omega (arith, y))) h'),
      (λ d n y. rw (s.now, s.was) (view-swap disk s.front s.back b (released b) d n refl)),
      ((λ y. absurd (omega (arith, y))), (λ y. refl)),
    )

-- In a coherent cache, brelse by the holder of a buffer with at least one reference, whose contents
-- are on the disk if it is the last one, succeeds and keeps the cache coherent and what readers see
-- of every block of a device; the last reference moves the buffer to the head of the list, another
-- one leaves it at its place.
brelse_lem :
    (disk : ℕ → ℕ → DiskBlock) (me : ℕ) (bs : List Buf) (i : ℕ) (b : Buf)
    → IsCoherent disk bs
    → lookup i bs ≡ some b
    → holdingsleep me b.lock ≡ true
    → 0 < b.refcnt
    → b.refcnt < 2 ^ 32
    → (b.refcnt ≡ 1 → b.valid ≡ true → b.contents ≡ disk b.dev b.blockno)
    → (bs' : List Buf) × (brelse me bs i ≡ ok bs')
      × IsCoherent disk bs'
      × SameView disk bs bs'
      × IsPlaced bs bs' i b
brelse_lem disk me bs i b h l k p p' c = elim (Bool-cases (b.refcnt == 1)) [
  | inl e ↦ (let e' : b.refcnt ≡ 1 = ground arith in last_release disk me bs i b h l k e' (c e'))
  | inr e ↦ (let e' : 1 < b.refcnt = ground arith in other_release disk me bs i b h l k e' p')
]
