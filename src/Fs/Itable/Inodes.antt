-- ===== src/Fs/Itable/Inodes.antt =====
-- What iget of kernel/fs.c does to the table of inodes.
use mini_os_design.Common.{
  ℕ, ◌+◌, ◌<◌, ◌≡◌, ◌≢◌, true, false, ◌==◌, if◌then◌else◌, Option, none, some, refl, sym, ◌∙◌,
  arith, Bool-cases, Option-cases, inl, inr, ◌⊎◌, ok, panic, List, find_from, get_elem?,
}
use mini_os_design.Common.Get.{get-map, map-get, find-some, find-none}
use mini_os_design.Fs.Itable.{Inode, is_inode, is_empty_slot, at_inode, one_ref, iget}

-- No inode has two entries.
abbrev pub IsUnique : List Inode → Type 0
IsUnique t =
    (i j : ℕ) (p q : Inode)
    → get_elem? t i ≡ some p
    → get_elem? t j ≡ some q
    → is_inode q.dev q.inum p ≡ true
    → 0 < q.ref
    → i ≡ j

-- The entry before and after: one more reference to an entry of the inode, or a free entry that is
-- the inode's now, not read yet, and has one reference.
abbrev pub Counted : List Inode → ℕ → ℕ → Inode → Inode → Type 0
Counted t dev inum x p =
    ((is_inode dev inum x ≡ true) × (p ≡ record x { ref = x.ref + 1 }))
    ⊎ ((is_empty_slot x ≡ true)
        × (p.ref ≡ 1)
        × (p.valid ≡ false)
        × ((j : ℕ) (q : Inode) → get_elem? t j ≡ some q → is_inode dev inum q ≡ false))

-- What a caller of iget gets.
pub record Held (t t' : List Inode) (i dev inum : ℕ) : Type 0 where
  pub unique : IsUnique t'
  pub entry : Inode
  pub found : get_elem? t' i ≡ some entry
  pub same : is_inode dev inum entry ≡ true
  pub before : Inode
  pub was : get_elem? t i ≡ some before
  pub counted : Counted t dev inum before entry
  pub others : (j : ℕ) → j ≢ i → get_elem? t' j ≡ get_elem? t j

others_same :
    (t : List Inode) (i : ℕ) (f : Inode → Inode) (j : ℕ)
    → j ≢ i
    → get_elem? (at_inode i f t) j ≡ get_elem? t j
others_same t i f j n = elim (Option-cases (get_elem? t j)) [
  | inl e ↦ elim (Option-cases (get_elem? (at_inode i f t) j)) [
    | inl k ↦ k ∙ sym e
    | inr (q, k) ↦
        let (p, m, _) = get-map (λ k p. if k == i then f p else p) t j k in
        let c : ◌≡◌ {A = Option Inode} none (some p) = sym e ∙ m in cc
  ]
  | inr (p, e) ↦
      let z : (j == i) ≡ false = ground (arith, n) in
      map-get (λ k p. if k == i then f p else p) t j e ∙ rw z (sym e)
]

at_inode-IsUnique :
    (t : List Inode) (i : ℕ) (f : Inode → Inode) (x : Inode)
    → get_elem? t i ≡ some x
    → IsUnique t
    → ((j : ℕ) (p : Inode)
        → get_elem? t j ≡ some p
        → is_inode (f x).dev (f x).inum p ≡ true
        → j ≡ i)
    → IsUnique (at_inode i f t)
at_inode-IsUnique t i f x g u n a b p q ga gb s l =
    let (p', ga', ea) = get-map (λ k p. if k == i then f p else p) t a ga in
    let (q', gb', eb) = get-map (λ k p. if k == i then f p else p) t b gb in
    elim (Bool-cases (a == i)) [
      | inl ha ↦ elim (Bool-cases (b == i)) [
        | inl hb ↦ ground (arith, ha, hb)
        | inr hb ↦
            let ka : a ≡ i = ground arith in
            let xa : x ≡ p' = (let c : some x ≡ some p' = sym g ∙ rw (← ka) ga' in cc) in
            let pe : p ≡ f x = ea ∙ rw (ha, xa) refl in
            let qe : q ≡ q' = eb ∙ rw hb refl in
            let s' : is_inode q'.dev q'.inum (f x) ≡ true = rw (pe, qe) at s in
            let l' : 0 < q'.ref = rw qe at l in
            absurd (ground (arith, hb, n b q' gb' (ground (arith, s', l'))))
      ]
      | inr ha ↦ elim (Bool-cases (b == i)) [
        | inl hb ↦
            let kb : b ≡ i = ground arith in
            let xb : x ≡ q' = (let c : some x ≡ some q' = sym g ∙ rw (← kb) gb' in cc) in
            let pe : p ≡ p' = ea ∙ rw ha refl in
            let qe : q ≡ f x = eb ∙ rw (hb, xb) refl in
            let s' : is_inode (f x).dev (f x).inum p' ≡ true = rw (pe, qe) at s in
            absurd (ground (arith, ha, n a p' ga' s'))
        | inr hb ↦
            let pe : p ≡ p' = ea ∙ rw ha refl in
            let qe : q ≡ q' = eb ∙ rw hb refl in
            let s' : is_inode q'.dev q'.inum p' ≡ true = rw (pe, qe) at s in
            let l' : 0 < q'.ref = rw qe at l in u a b p' q' ga' gb' s' l'
      ]
    ]

changed :
    (t : List Inode) (i : ℕ) (f : Inode → Inode) (x : Inode) (dev inum : ℕ)
    → get_elem? t i ≡ some x
    → IsUnique t
    → is_inode dev inum (f x) ≡ true
    → Counted t dev inum x (f x)
    → ((j : ℕ) (p : Inode) → get_elem? t j ≡ some p → is_inode dev inum p ≡ true → j ≡ i)
    → Held t (at_inode i f t) i dev inum
changed t i f x dev inum g u s b n =
    let e : (f x).dev ≡ dev = ground (arith, s) in
    let e' : (f x).inum ≡ inum = ground (arith, s) in
    let k : (i == i) ≡ true = ground arith in
    record {
      unique = at_inode-IsUnique t i f x g u (λ j p h w. n j p h (rw (e, e') at w));
      entry = f x;
      found = map-get (λ k p. if k == i then f p else p) t i g ∙ rw k refl;
      same = s;
      before = x;
      was = g;
      counted = b;
      others = λ j d. others_same t i f j d;
    }

-- In a table where no inode has two entries, iget panics and no entry is free, or it gives the
-- entry of the inode, changes no other entry, and keeps the table so: an entry that the inode had,
-- with one more reference and all else as it was, or, where it had none, a free entry, which now
-- has one reference and is not valid.
pub iget-Held :
    (t : List Inode) (dev inum : ℕ)
    → IsUnique t
    → ((iget t dev inum ≡ panic "iget: no inodes")
        × ((j : ℕ) (p : Inode) → get_elem? t j ≡ some p → is_empty_slot p ≡ false))
      ⊎ ((t' : List Inode) × (i : ℕ) × (iget t dev inum ≡ ok (t', i)) × Held t t' i dev inum)
unfolding iget
iget-Held t dev inum u = elim (Option-cases (find_from (is_inode dev inum) 0 t)) [
  | inl z ↦ elim (Option-cases (find_from is_empty_slot 0 t)) [
    | inl y ↦ inl (rw (iget, z, y) refl, λ j p g. find-none is_empty_slot t j y g)
    | inr (i, y) ↦
        let f : Inode → Inode = λ p. record p { dev = dev; inum = inum; ref = 1; valid = false } in
        let (x, g, a) = find-some is_empty_slot t i y in
        let none_there : (j : ℕ) (q : Inode)
            → get_elem? t j ≡ some q
            → is_inode dev inum q ≡ false =
          λ j q h. find-none (is_inode dev inum) t j z h in
        inr (
          at_inode i f t,
          i,
          rw (iget, z, y) refl,
          changed t i f x dev inum g u (ground arith) (inr (a, refl, refl, none_there))
              (λ j p h w. (let c : false ≡ true = sym (none_there j p h) ∙ w in cc)),
        )
  ]
  | inr (i, z) ↦
      let (x, g, s) = find-some (is_inode dev inum) t i z in
      let e : x.dev ≡ dev = ground (arith, s) in
      let e' : x.inum ≡ inum = ground (arith, s) in
      inr (
        at_inode i one_ref t,
        i,
        rw (iget, z) refl,
        changed t i one_ref x dev inum g u (ground (arith, s)) (inl (s, refl))
            (λ j p h w. u j i p x h g (rw (e, e') w) (ground (arith, s))),
      )
]
