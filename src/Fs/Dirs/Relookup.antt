-- ===== src/Fs/Dirs/Relookup.antt =====
-- dirlookup of kernel/fs.c after dirlink.
use mini_os_design.Common.{
  ℕ, zero, suc, ◌+◌, ◌*◌, ◌/◌, ◌%◌, ◌^◌, ◌≤◌, ◌<◌, ◌≡◌, ◌≢◌, true, false, ◌==◌, Bool, refl, sym, ap,
  ◌∙◌, subst, arith, Bool-cases, inl, inr, ◌⊎◌, ok, panic, none, some, Option, Outcome,
}
use mini_os_design.Fs.{Fs}
use mini_os_design.Fs.Itable.{Inode}
use mini_os_design.Fs.Names.{dirsiz}
use mini_os_design.Fs.Slots.{byte, max_bytes, IsSound, Kept}
use mini_os_design.Fs.Dinode.Stored.{Fits}
use mini_os_design.Fs.Transfer.Reading.{IsFull}
use mini_os_design.Fs.Dirs.{t_dir, same_name, find_name, add_entry}
use mini_os_design.Fs.Dirs.Entries.{
  inum_at, names, IsFirst, Looked, LookupCut, names_read, find_name-Looked,
}
use mini_os_design.Fs.Dirs.Vacancy.{ScanCut}
use mini_os_design.Fs.Dirs.Linked.{Added, add_entry-Added, with_addrs-Fits}

same_name_refl : (n : ℕ) (s : ℕ → ℕ) → same_name n s s ≡ true
unfolding same_name
same_name_refl zero s = refl
same_name_refl (suc n) s =
    let z : (s 0 == s 0) ≡ true = ground arith in
    let r = same_name_refl n (λ i. s (i + 1)) in rw (same_name, z, r) (ground arith)

module _ (s s' : Fs) (nmeta : ℕ) (dp dp' : Inode) (name : ℕ → ℕ) (inum : ℕ)
    (d : Added s nmeta dp name inum s' dp') (small : dp.size ≤ max_bytes) (whole : dp.size % 16 ≡ 0)
    (live : inum ≢ 0)
    (absent : (i : ℕ) → i < dp.size / 16 → names (byte s dp.addrs) name i ≡ false) where
  at_place : names (byte s' dp'.addrs) name d.place ≡ true
  at_place =
      let (_, n) = d.entries d.place d.room in
      let k : (d.place == d.place) ≡ true = ground arith in
      let z : (inum == 0) ≡ false = ground (arith, live) in
      n name ∙ rw (k, z, same_name_refl dirsiz name) refl

  number_there : inum_at (byte s' dp'.addrs) d.place ≡ inum
  number_there =
      let (n, _) = d.entries d.place d.room in
      let k : (d.place == d.place) ≡ true = ground arith in n ∙ rw k refl

  elsewhere : (i : ℕ) → i ≢ d.place → i < dp'.size / 16 → names (byte s' dp'.addrs) name i ≡ false
  elsewhere i ne l =
      let to = d.vacant.to in
      let ln = d.length in
      let li : i < dp.size / 16 = ground (arith, ln, ne, to, whole) in
      let (_, n) = d.entries i (omega (arith, li, small)) in
      let k : (i == d.place) ≡ false = ground (arith, ne) in n name ∙ rw k (absent i li)

  in_new : d.place < dp'.size / 16
  in_new = let to = d.vacant.to in let ln = d.length in ground (arith, ln, to, whole)

  -- The first entry for the name is the new one.
  pub first_is_new :
      (found : Option (ℕ × ℕ))
      → IsFirst (byte s' dp'.addrs) name 0 (dp'.size / 16) found
      → found ≡ some (inum, 16 * d.place)
  first_is_new found (inl (e, all)) =
      let c : true ≡ false = sym at_place ∙ all d.place (omega arith) in_new in cc
  first_is_new found (inr (j, _, l, e, here, before)) = elim (Bool-cases (j == d.place)) [
    | inl h ↦ (let q : j ≡ d.place = ground arith in e ∙ rw (q, number_there) refl)
    | inr h ↦ let c : true ≡ false = sym here ∙ elsewhere j (ground (arith, h)) l in cc
  ]

  new_whole : (dp'.size ≤ max_bytes) × (dp'.size % 16 ≡ 0)
  new_whole =
      let ln = d.length in
      let rm = d.room in
      let to = d.vacant.to in (ground (arith, ln, rm, small, whole), ground (arith, ln, whole))

names_congr :
    (c c' name : ℕ → ℕ) (i : ℕ)
    → ((x : ℕ) → x < max_bytes → c' x ≡ c x)
    → 16 * i + 16 ≤ max_bytes
    → names c' name i ≡ names c name i
names_congr c c' name i h l =
    let (a, b) =
      names_read c (λ r. c' (16 * i + r)) name i (λ r lr. h (16 * i + r) (omega arith)) in
    rw (a, b) refl

-- A lookup of the name in the directory that has the new entry.
lookup-Added :
    (s s' : Fs) (nmeta : ℕ) (dp dp' : Inode) (name : ℕ → ℕ) (inum : ℕ)
    → Added s nmeta dp name inum s' dp'
    → dp.type ≡ t_dir
    → dp.size ≤ max_bytes
    → dp.size % 16 ≡ 0
    → inum ≢ 0
    → ((i : ℕ) → i < dp.size / 16 → names (byte s dp.addrs) name i ≡ false)
    → ((find_name s' dp' name ≡ panic "dirlookup read") × LookupCut s' dp' name 0)
      ⊎ ((t : Fs) × (tp : Inode) × (off : ℕ) × (find_name s' dp' name
            ≡ ok (t, tp, some (inum, off))))
lookup-Added s s' nmeta dp dp' name inum d ty l al live absent =
    let (l', al') = new_whole s s' nmeta dp dp' name inum d l al live absent in
    let ty' : dp'.type ≡ t_dir = ap (λ (p : Inode). p.type) d.same ∙ ty in
    elim (find_name-Looked s' nmeta dp' name ty' d.sound l' al') [
      | inl x ↦ inl x
      | inr (t, a, found, e, _, first) ↦
          let q = first_is_new s s' nmeta dp dp' name inum d l al live absent found first in
          inr (t, record dp' { addrs = a }, 16 * d.place, e ∙ rw q refl)
    ]

-- What a call of find_name that finds nothing says of the directory.
none_found :
    (s s₁ : Fs) (nmeta : ℕ) (dp dp₁ : Inode) (name : ℕ → ℕ)
    → Looked s nmeta dp (byte s dp.addrs) name 0 (ok (s₁, dp₁, none))
    → (addrs₁ : ℕ → ℕ) × (dp₁ ≡ record dp { addrs = addrs₁ })
      × Kept s nmeta dp.addrs s₁ addrs₁
      × ((i : ℕ) → i < dp.size / 16 → names (byte s dp.addrs) name i ≡ false)
none_found s s₁ nmeta dp dp₁ name (inl (e, _)) = cc
none_found s s₁ nmeta dp dp₁ name (inr (t, a, found, e, k, first)) =
    let get : Outcome (Fs × Inode × Option (ℕ × ℕ)) → Fs × Inode × Option (ℕ × ℕ) =
      λ o. elim o [ ok r ↦ r | panic _ ↦ (s₁, dp₁, none) ] in
    let q : ◌≡◌ {A = Fs × Inode × Option (ℕ × ℕ)} (s₁, dp₁, none)
        (t, record dp { addrs = a }, found) =
      ap get e in
    let qs : t ≡ s₁ = sym (ap (λ r. r.0) q) in
    let qf : found ≡ none = sym (ap (λ r. r.2) q) in
    (
      a,
      ap (λ r. r.1) q,
      subst (λ (u : Fs). Kept s nmeta dp.addrs u a) qs k,
      elim first [
        | inl (_, all) ↦ λ i l. all i (omega arith) l
        | inr (j, _, _, x, _, _) ↦
            (let c : ◌≡◌ {A = Option (ℕ × ℕ)} none (some (inum_at (byte s dp.addrs) j, 16 * j)) =
                sym qf ∙ x in
              cc)
      ],
    )

-- What a call of add_entry that answers 0 has done.
was-Added :
    (s s' : Fs) (nmeta : ℕ) (dp dp' : Inode) (name : ℕ → ℕ) (inum : ℕ)
    → add_entry s dp name inum ≡ ok (s', dp', true)
    → ((add_entry s dp name inum ≡ panic "dirlink read") × ScanCut s dp 0)
      ⊎ ((t : Fs) × (tp : Inode) × (add_entry s dp name inum ≡ ok (t, tp, false))
          × IsSound t nmeta tp.addrs
          × ((dp.size ≡ max_bytes) ⊎ IsFull t))
      ⊎ ((t : Fs) × (tp : Inode) × (add_entry s dp name inum ≡ ok (t, tp, true))
          × Added s nmeta dp name inum t tp)
    → Added s nmeta dp name inum s' dp'
was-Added s s' nmeta dp dp' name inum e (inl (x, _)) =
    let c : ◌≡◌ {A = Outcome (Fs × Inode × Bool)} (panic "dirlink read") (ok (s', dp', true)) =
      sym x ∙ e in
    cc
was-Added s s' nmeta dp dp' name inum e (inr (inl (t, tp, x, _, _))) =
    let c : ◌≡◌ {A = Outcome (Fs × Inode × Bool)} (ok (t, tp, false)) (ok (s', dp', true)) =
      sym x ∙ e in
    let q : false ≡ true = cc in cc
was-Added s s' nmeta dp dp' name inum e (inr (inr (t, tp, x, d))) =
    let c : ◌≡◌ {A = Outcome (Fs × Inode × Bool)} (ok (t, tp, true)) (ok (s', dp', true)) =
      sym x ∙ e in
    let q : t ≡ s' = cc in
    let q' : tp ≡ dp' = cc in
    subst (λ (u : Fs). Added s nmeta dp name inum u dp') q
      (subst (λ (p : Inode). Added s nmeta dp name inum t p) q' d)

-- In a directory of whole entries whose inode fits its fields on disk, where the loop of dirlookup
-- finds no entry for a name and dirlink then answers 0 for an inode number other than 0, the loop
-- finds that number for the name; or it panics, and it passes over some entries to one in the
-- directory whose read comes short and leaves no block.
pub find_name-add_entry :
    (s s₁ s₂ : Fs) (nmeta : ℕ) (dp dp₁ dp₂ : Inode) (name : ℕ → ℕ) (inum : ℕ)
    → IsSound s nmeta dp.addrs
    → Fits dp
    → dp.inum < s.ninodes
    → dp.type ≡ t_dir
    → dp.size ≤ max_bytes
    → dp.size % 16 ≡ 0
    → inum < 2 ^ 16
    → inum ≢ 0
    → find_name s dp name ≡ ok (s₁, dp₁, none)
    → add_entry s₁ dp₁ name inum ≡ ok (s₂, dp₂, true)
    → ((find_name s₂ dp₂ name ≡ panic "dirlookup read") × LookupCut s₂ dp₂ name 0)
      ⊎ ((t : Fs) × (tp : Inode) × (off : ℕ) × (find_name s₂ dp₂ name
            ≡ ok (t, tp, some (inum, off))))
find_name-add_entry s s₁ s₂ nmeta dp dp₁ dp₂ name inum v f known ty l al li live e e' =
    let looked =
      subst (Looked s nmeta dp (byte s dp.addrs) name 0) e
        (find_name-Looked s nmeta dp name ty v l al) in
    let (addrs₁, q, k, absent) = none_found s s₁ nmeta dp dp₁ name looked in
    let dp' : Inode = record dp { addrs = addrs₁ } in
    let e'' : add_entry s₁ dp' name inum ≡ ok (s₂, dp₂, true) =
      subst (λ (p : Inode). add_entry s₁ p name inum ≡ ok (s₂, dp₂, true)) q e' in
    let known' : dp.inum < s₁.ninodes = rw (k.layout.1) known in
    let absent' : (i : ℕ) → i < dp.size / 16 → names (byte s₁ addrs₁) name i ≡ false = λ i h.
      names_congr (byte s dp.addrs) (byte s₁ addrs₁) name i k.bytes (omega (arith, h, l))
      ∙ absent i h in
    lookup-Added s₁ s₂ nmeta dp' dp₂ name inum
      (was-Added s₁ s₂ nmeta dp' dp₂ name inum e'' (
        add_entry-Added s₁ nmeta dp' name inum k.sound
          (with_addrs-Fits s₁ nmeta dp addrs₁ f k.sound) known' l al li))
      ty l al live absent'
