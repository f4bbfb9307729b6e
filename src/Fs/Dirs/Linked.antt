-- ===== src/Fs/Dirs/Linked.antt =====
-- What dirlink of kernel/fs.c does once dirlookup has found nothing.
use mini_os_design.Common.{
  ℕ, ◌+◌, ◌*◌, ◌/◌, ◌%◌, ◌^◌, ◌≤◌, ◌<◌, ◌≡◌, ◌≢◌, true, false, ◌==◌, leb, if◌then◌else◌, refl, ap,
  ◌∙◌, arith, Bool-cases, inl, inr, ◌⊎◌, ok, panic,
}
use mini_os_design.Fs.{Fs}
use mini_os_design.Fs.Bmap.{ndirect}
use mini_os_design.Fs.Itable.{Inode}
use mini_os_design.Fs.Dinode.{iblock, read_dinode}
use mini_os_design.Fs.Slots.{block_of, byte, max_bytes, IsSound, IsForeign, SameLayout, Kept}
use mini_os_design.Fs.Slots.Preserved.{SameLayout-trans}
use mini_os_design.Fs.Dinode.Stored.{Fits, SameDinode}
use mini_os_design.Fs.Transfer.{put_bytes}
use mini_os_design.Fs.Transfer.Reading.{IsFull}
use mini_os_design.Fs.Transfer.Writei.{Saved, writei-Saved}
use mini_os_design.Fs.Dirs.{in_full, new_entry, add_entry}
use mini_os_design.Fs.Dirs.Vacancy.{ScanCut, IsVacant, empty_from_lem}
use mini_os_design.Fs.Dirs.Linking.{IsReplaced, replaced}

-- The directory `dp` has become `dp'`, with the entry for the name and the inode number.
pub record Added (s : Fs) (nmeta : ℕ) (dp : Inode) (name : ℕ → ℕ) (inum : ℕ) (s' : Fs) (dp' : Inode)
    : Type 0 where
  pub place : ℕ
  pub vacant : IsVacant (byte s dp.addrs) 0 (dp.size / 16) place
  pub room : 16 * place + 16 ≤ max_bytes
  pub entries : IsReplaced (byte s dp.addrs) (byte s' dp'.addrs) place inum name
  pub sound : IsSound s' nmeta dp'.addrs
  pub layout : SameLayout s s'
  pub length : dp'.size ≡ (if place == dp.size / 16 then dp.size + 16 else dp.size)
  pub same : dp' ≡ record dp { addrs = dp'.addrs; size = dp'.size }
  pub stored : (jp : Inode) → jp.inum ≡ dp.inum → SameDinode dp' (read_dinode s' jp)
  pub foreign :
      (c : ℕ)
      → IsForeign s dp.addrs c
      → c ≢ iblock s dp.inum
      → IsForeign s' dp'.addrs c × (s'.blocks c ≡ s.blocks c)

pub with_addrs-Fits :
    (s : Fs) (nmeta : ℕ) (ip : Inode) (addrs : ℕ → ℕ)
    → Fits ip
    → IsSound s nmeta addrs
    → Fits (record ip { addrs = addrs })
with_addrs-Fits s nmeta ip addrs f v = record {
  type_fits = f.type_fits;
  major_fits = f.major_fits;
  minor_fits = f.minor_fits;
  nlink_fits = f.nlink_fits;
  size_fits = f.size_fits;
  addrs_fit = λ i h. elim (Bool-cases (addrs i == 0)) [
    | inl z ↦ ground (arith, z)
    | inr z ↦
        let d : leb i ndirect ≡ true = ground arith in
        let q : block_of s addrs i ≡ addrs i = rw d refl in
        let n : block_of s addrs i ≢ 0 = ground (arith, z, q) in
        let (_, b, _) = v.in_use i (omega arith) n in let y = v.laid.small in omega (arith, q, b, y)
  ];
}

-- All bytes of the new entry are written.
added :
    (s s₁ : Fs) (nmeta : ℕ) (dp : Inode) (addrs₁ name : ℕ → ℕ) (inum j : ℕ) (s' : Fs) (dp' : Inode)
    → Kept s nmeta dp.addrs s₁ addrs₁
    → dp.size % 16 ≡ 0
    → inum < 2 ^ 16
    → 16 * j + 16 ≤ max_bytes
    → IsVacant (byte s dp.addrs) 0 (dp.size / 16) j
    → (d : Saved in_full s₁ nmeta
        (record dp { addrs = addrs₁ })
        (new_entry inum name)
        0
        (16 * j)
        16
        s'
        dp'
        16)
    → Added s nmeta dp name inum s' dp'
added s s₁ nmeta dp addrs₁ name inum j s' dp' k al li rm va d =
    let a : d.amount ≡ 16 = (let x = d.enough in let y = d.most in omega arith) in
    let whole : ℕ → ℕ = λ i. new_entry inum name (0 + i) in
    let bytes : (x : ℕ)
        → x < max_bytes
        → byte s' dp'.addrs x ≡ put_bytes (byte s dp.addrs) (16 * j) whole 16 x =
      λ x l. d.bytes x l ∙ rw (a, k.bytes x l) refl in
    let ly = d.layout in
    let to = va.to in
    record {
      place = j;
      vacant = va;
      room = rm;
      entries = replaced (byte s dp.addrs) (byte s' dp'.addrs) j inum name bytes li;
      sound = d.sound;
      layout = SameLayout-trans s s₁ s' k.layout ly;
      length = d.length ∙ ground (arith, al, to);
      same = d.same;
      stored = d.stored;
      foreign = λ c f n.
          let (f₁, e) = k.foreign c f in
          let (f₂, e') = d.foreign c f₁ (λ q. n (q ∙ ap (λ x. dp.inum / 16 + x) k.layout.2)) in
          (f₂, e' ∙ e);
    }

-- In a directory of whole entries whose inode fits its fields on disk, the rest of dirlink after
-- its dirlookup has found nothing panics, and its loop passes over some entries to one in the
-- directory whose read comes short and leaves no block; or it answers -1, and the directory is as
-- large as a file can be or no block is left; or it answers 0, and the first empty entry, or a new
-- one at the end, is for the name and the inode number, each other entry is for the names it was
-- for, the inode on disk is the one in memory, and the blocks that are not of the directory, but
-- the inode's, stay.
pub add_entry-Added :
    (s : Fs) (nmeta : ℕ) (dp : Inode) (name : ℕ → ℕ) (inum : ℕ)
    → IsSound s nmeta dp.addrs
    → Fits dp
    → dp.inum < s.ninodes
    → dp.size ≤ max_bytes
    → dp.size % 16 ≡ 0
    → inum < 2 ^ 16
    → ((add_entry s dp name inum ≡ panic "dirlink read") × ScanCut s dp 0)
      ⊎ ((s' : Fs) × (dp' : Inode) × (add_entry s dp name inum ≡ ok (s', dp', false))
          × IsSound s' nmeta dp'.addrs
          × ((dp.size ≡ max_bytes) ⊎ IsFull s'))
      ⊎ ((s' : Fs) × (dp' : Inode) × (add_entry s dp name inum ≡ ok (s', dp', true))
          × Added s nmeta dp name inum s' dp')
unfolding add_entry
add_entry-Added s nmeta dp name inum v f known l al li =
    elim (empty_from_lem (dp.size / 16 + 1) s nmeta dp (byte s dp.addrs) 0 v l al (omega arith)
      (omega arith) (λ x lx. refl)) [
        | inl (e, cut) ↦ inl (rw (add_entry, e) refl, cut)
        | inr (s₁, addrs₁, j, e, k, va) ↦
            let dp₁ : Inode = record dp { addrs = addrs₁ } in
            let to = va.to in
            let known₁ : dp.inum < s₁.ninodes = rw (k.layout.1) known in
            elim (writei-Saved in_full s₁ nmeta dp₁ (new_entry inum name) 0 (16 * j) 16
              (λ d m. omega arith) k.sound (with_addrs-Fits s₁ nmeta dp addrs₁ f k.sound) known₁
              (omega arith)) [
                | inl (w, why) ↦
                    let big : dp.size ≡ max_bytes = elim why [
                      | inl x ↦ absurd (omega (arith, x, to, al))
                      | inr x ↦ omega (arith, x, to, al, l)
                    ] in
                    inr (inl (s₁, dp₁, rw (add_entry, e, w) refl, k.sound, inl big))
                | inr (_, rm, s', dp', tot, w, d) ↦ elim (Bool-cases (tot == 16)) [
                  | inl h ↦
                      let q : tot ≡ 16 = ground arith in
                      inr (
                        inr (
                          s',
                          dp',
                          rw (add_entry, e, w, h) refl,
                          added s s₁ nmeta dp addrs₁ name inum j s' dp' k al li rm va (rw q at d),
                        ))
                  | inr h ↦
                      let fl : IsFull s' = elim d.stop [
                        | inl (_, inl x) ↦ absurd (ground (arith, h, x))
                        | inl (_, inr x) ↦ x
                        | inr (_, _, _, n) ↦ absurd (n refl)
                      ] in
                      inr (inl (s', dp', rw (add_entry, e, w, h) refl, d.sound, inr fl))
                ]
              ]
      ]
