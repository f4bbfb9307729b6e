-- ===== src/Bcache/Filled.antt =====
-- The rest of bread of kernel/bio.c, once the buffer is locked.
use mini_os_design.Common.{
  ℕ, ◌≡◌, ◌≢◌, true, none, some, refl, sym, ap, ◌∙◌, arith, Bool-cases, inl, inr, List, [], ◌∷◌,
  ◌++◌,
}
use mini_os_design.Log.Store.{DiskBlock}
use mini_os_design.Bcache.{Buf, is_block, with_contents, bread_locked}
use mini_os_design.Bcache.Order.{lookup, change-Swap}
use mini_os_design.Bcache.Data.{
  cached, or_disk, view, Absent, IsClean, IsCoherent, SameView, cached-Absent, IsCoherent-swap,
  view-swap, lookup-swap, Absent-mid,
}
use mini_os_design.Bcache.Get.{IsCoherent-mid}

cached-mid :
    (disk : ℕ → ℕ → DiskBlock) (front back : List Buf) (b : Buf)
    → b.dev ≢ 0
    → b.valid ≡ true
    → IsCoherent disk (front ++ b ∷ back)
    → cached (front ++ b ∷ back) b.dev b.blockno ≡ some b.contents
unfolding cached
cached-mid disk [] back b z v h = ground (arith, v)
cached-mid disk (x ∷ front) back b z v h = elim (Bool-cases (is_block b.dev b.blockno x)) [
  | inl k ↦
      let e : x.dev ≡ b.dev = ground (arith, k) in
      let e' : x.blockno ≡ b.blockno = ground (arith, k) in
      let a : b.dev ≢ 0 → Absent (front ++ b ∷ back) b.dev b.blockno = rw (e, e') at h.0 in
      let (m, _) = Absent-mid front back b b.dev b.blockno (a z) in absurd (ground (arith, m))
  | inr k ↦ rw (cached, k) (cached-mid disk front back b z v h.3)
]

-- The buffer `i` is valid, and shows its block.
pub record Filled (disk : ℕ → ℕ → DiskBlock) (bs bs' : List Buf) (i : ℕ) (b : Buf) : Type 0 where
  pub coherent : IsCoherent disk bs'
  pub same : SameView disk bs bs'
  pub found : lookup i bs' ≡ some (with_contents disk b)
  pub contents : (with_contents disk b).contents ≡ view disk bs b.dev b.blockno

IsClean-with_contents :
    (disk : ℕ → ℕ → DiskBlock) (b : Buf) → IsClean disk b → IsClean disk (with_contents disk b)
IsClean-with_contents disk b c x y = elim (Bool-cases b.valid) [
  | inl v ↦ rw v (c v y)
  | inr v ↦ rw v refl
]

with_contents-view :
    (disk : ℕ → ℕ → DiskBlock) (back : List Buf) (b : Buf) (d n : ℕ)
    → d ≢ 0
    → (b.dev ≢ 0 → Absent back b.dev b.blockno)
    → view disk (with_contents disk b ∷ back) d n ≡ view disk (b ∷ back) d n
unfolding cached
with_contents-view disk back b d n z a = elim (Bool-cases (is_block d n b)) [
  | inl k ↦
      let e : b.dev ≡ d = ground (arith, k) in
      let e' : b.blockno ≡ n = ground (arith, k) in
      let a' : d ≢ 0 → Absent back d n = rw (e, e') at a in
      let q : cached back d n ≡ none = cached-Absent back d n (a' z) in
      elim (Bool-cases b.valid) [
        | inl v ↦ rw (cached, k, v) refl
        | inr v ↦ rw (cached, k, v, q, e, e') refl
      ]
  | inr k ↦ rw (cached, k) refl
]

-- In a coherent cache, the rest of bread on a buffer for a block of a device keeps the cache
-- coherent and what readers see of every block of a device, and leaves the buffer valid with what
-- readers see of its block.
bread_locked-Filled :
    (disk : ℕ → ℕ → DiskBlock) (bs : List Buf) (i : ℕ) (b : Buf)
    → IsCoherent disk bs
    → lookup i bs ≡ some b
    → b.dev ≢ 0
    → Filled disk bs (bread_locked disk bs i) i b
unfolding bread_locked
bread_locked-Filled disk bs i b h l z =
    let (m, s) = change-Swap bs i (with_contents disk) b l in
    let h' : IsCoherent disk (s.front ++ b ∷ s.back) = rw s.was at h in
    let (a, c) = IsCoherent-mid disk s.front s.back b h' in
    let co : IsCoherent disk (s.front ++ with_contents disk b ∷ s.back) =
      IsCoherent-swap disk s.front s.back b (with_contents disk b) refl (inl (refl, refl))
        (IsClean-with_contents disk b c) h' in
    let same : SameView disk bs (bread_locked disk bs i) = λ d n y.
      rw (s.now, s.was)
        (view-swap disk s.front s.back b (with_contents disk b) d n
          (with_contents-view disk s.back b d n y a)) in
    record {
      coherent = rw s.now co;
      same = same;
      found =
          ap (λ k. lookup k (bread_locked disk bs i)) (sym m)
          ∙ ap (λ xs. lookup b.id xs) s.now
          ∙ lookup-swap disk s.front s.back b (with_contents disk b) refl h';
      contents =
          sym (
            ap (λ xs. view disk xs b.dev b.blockno) s.now
            ∙ ap (λ o. or_disk (disk b.dev b.blockno) o)
                (cached-mid disk s.front s.back (with_contents disk b) z refl co))
          ∙ same b.dev b.blockno z;
    }
