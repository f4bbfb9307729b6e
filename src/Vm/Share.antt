-- ===== src/Vm/Share.antt =====
-- One page of uvmcopy in kernel/vm.c: parent and child share it.
use mini_os_design.Common.{
  ℕ, zero, suc, ◌+◌, ◌%◌, ◌^◌, ◌<◌, ◌≡◌, ◌≢◌, true, false, ◌==◌, if◌then◌else◌, Bool, refl, sym, ap,
  ◌∙◌, arith, Bool-cases, inl, inr, Outcome, >>=-eq-ok, ok, ◌>>=◌,
}
use mini_os_design.Common.Machine.{page_size, maxva, pa2idx}
use mini_os_design.Kalloc.Invariant.{IsValid}
use mini_os_design.Kalloc.{Kmem, incref}
use mini_os_design.Vm.{
  bit, set_bit, clear_bit, pte_v, pte_u, pte_w, pte_cow, pa2pte, pte2pa, pte_flags, slot, walkaddr,
  mappages,
}
use mini_os_design.Vm.Walk.{Tables, Trail, Trail-Extends}
use mini_os_design.Vm.Map.{entry}
use mini_os_design.Vm.Frame.{entry_lem, walkaddr-Trail, mapped}
use mini_os_design.Vm.Fork.{shared_flags, protect, share_page}
use mini_os_design.Vm.CopyOut.{walk_found}

-- Parent and child both see the page at `pa`, which has one more user; the child's entry is the
-- parent's, neither may be stored through, and both are marked where the parent's was writable.
pub record Shared (s s' : Kmem) (old new i pa p : ℕ) : Type 0 where
  pub parent : walkaddr s' old i ≡ pa
  pub child : walkaddr s' new i ≡ pa
  pub read_only : bit pte_w (s'.mem p) ≡ false
  pub child_entry :
      (p' : ℕ) × Trail s' new i 2 p' × (s'.mem p' ≡ s'.mem p) × (bit pte_w (s'.mem p') ≡ false)
  pub marked : bit pte_w (s.mem p) ≡ true → bit pte_cow (s'.mem p) ≡ true
  pub unmarked : bit pte_w (s.mem p) ≡ false → s'.mem p ≡ s.mem p
  pub count : s'.ref_count (pa2idx pa) ≡ s.ref_count (pa2idx pa) + 1

-- The parent's entry after the turn, where it was writable before and not.
protect_lem :
    (s : Kmem) (p : ℕ)
    → bit pte_v (s.mem p) ≡ true
    → bit pte_u (s.mem p) ≡ true
    → s.mem p < 2 ^ 54
    → (bit pte_v ((protect s p).mem p) ≡ true)
      × (bit pte_u ((protect s p).mem p) ≡ true)
      × (bit pte_w ((protect s p).mem p) ≡ false)
      × (pte2pa ((protect s p).mem p) ≡ pte2pa (s.mem p))
protect_lem s p v u h = elim (Bool-cases (bit pte_w (pte_flags (s.mem p)))) [
  | inl b ↦
      let f = pte_flags (s.mem p) in
      let e : shared_flags f ≡ set_bit pte_cow (clear_bit pte_w f) = rw b refl in
      let c : set_bit pte_cow (clear_bit pte_w f) < 1024 = ground arith in
      let m : (protect s p).mem p
          ≡ pa2pte (pte2pa (s.mem p)) + set_bit pte_cow (clear_bit pte_w f) =
        rw (protect, b) (ground arith) in
      rw m (ground (arith, v), ground (arith, u), ground (arith, b), ground (arith, c))
  | inr b ↦
      let m : (protect s p).mem p ≡ s.mem p = rw (protect, b) refl in
      rw m (v, u, ground arith, refl)
]

-- The entry after the turn is the one that mappages makes for the child.
protect_entry :
    (s : Kmem) (p : ℕ)
    → bit pte_v (s.mem p) ≡ true
    → s.mem p < 2 ^ 54
    → ((protect s p).mem p ≡ entry (pte2pa (s.mem p)) (shared_flags (pte_flags (s.mem p))))
      × (bit pte_w (s.mem p) ≡ true → bit pte_cow ((protect s p).mem p) ≡ true)
      × (bit pte_w (s.mem p) ≡ false → (protect s p).mem p ≡ s.mem p)
protect_entry s p v h = elim (Bool-cases (bit pte_w (pte_flags (s.mem p)))) [
  | inl b ↦
      let f = pte_flags (s.mem p) in
      let m : (protect s p).mem p
          ≡ pa2pte (pte2pa (s.mem p)) + set_bit pte_cow (clear_bit pte_w f) =
        rw (protect, b) (ground arith) in
      rw (m, b) (ground (arith, v), λ _. ground (arith, b), λ e. ground (arith, b, e))
  | inr b ↦
      let m : (protect s p).mem p ≡ s.mem p = rw (protect, b) refl in
      rw (m, b) (ground (arith, v, h), λ e. ground (arith, b, e), λ _. refl)
]

-- The two memories agree on which entries are valid, and on the pages behind them.
record Alike (s t : Kmem) : Type 0 where
  valid : (a : ℕ) → bit pte_v (t.mem a) ≡ bit pte_v (s.mem a)
  page : (a : ℕ) → pte2pa (t.mem a) ≡ pte2pa (s.mem a)
  free : t.freelist ≡ s.freelist

Trail-Alike :
    (level : ℕ) (s t : Kmem) (pagetable va p : ℕ)
    → Alike s t
    → Trail s pagetable va level p
    → Trail t pagetable va level p
Trail-Alike zero s t pagetable va p x h = rw x.free h
Trail-Alike (suc level) s t pagetable va p x ((u, b), h) =
    let a = slot pagetable (suc level) va in
    (
      (rw x.free u, x.valid a ∙ b),
      rw (x.page a) (Trail-Alike level s t (pte2pa (s.mem a)) va p x h),
    )

Tables-Alike :
    (level : ℕ) (s t : Kmem) (pagetable va : ℕ)
    → Alike s t
    → Tables s pagetable va level
    → Tables t pagetable va level
Tables-Alike zero s t pagetable va x h = rw x.free h
Tables-Alike (suc level) s t pagetable va x (u, h) =
    let a = slot pagetable (suc level) va in
    (
      rw x.free u,
      λ b. rw (x.page a) (Tables-Alike level s t (pte2pa (s.mem a)) va x (h (sym (x.valid a) ∙ b))),
    )

protect-rest :
    (s : Kmem) (p : ℕ)
    → ((protect s p).freelist ≡ s.freelist)
      × ((protect s p).ref_count ≡ s.ref_count)
      × ((a : ℕ) → a ≢ p → (protect s p).mem a ≡ s.mem a)
protect-rest s p = elim (Bool-cases (bit pte_w (pte_flags (s.mem p)))) [
  | inl b ↦ rw (protect, b) (refl, refl, λ a n. ground arith)
  | inr b ↦ rw (protect, b) (refl, refl, λ a n. refl)
]

protect-Alike :
    (s : Kmem) (p : ℕ)
    → bit pte_v (s.mem p) ≡ true
    → bit pte_u (s.mem p) ≡ true
    → s.mem p < 2 ^ 54
    → Alike s (protect s p)
protect-Alike s p v u h =
    let (v', _, _, q) = protect_lem s p v u h in
    let (f, _, r) = protect-rest s p in
    record {
      valid = λ a. elim (Bool-cases (a == p)) [
        | inl e ↦ (let k : a ≡ p = ground arith in rw (k, v', v) refl)
        | inr e ↦ ap (λ x. bit pte_v x) (r a (ground arith))
      ];
      page = λ a. elim (Bool-cases (a == p)) [
        | inl e ↦ (let k : a ≡ p = ground arith in rw (k, q) refl)
        | inr e ↦ ap pte2pa (r a (ground arith))
      ];
      free = f;
    }

flags_lem :
    (w : ℕ)
    → bit pte_u w ≡ true
    → (shared_flags (pte_flags w) < 1024) × (bit pte_u (shared_flags (pte_flags w)) ≡ true)
flags_lem w u = elim (Bool-cases (bit pte_w (pte_flags w))) [
  | inl b ↦ rw b (ground (arith, u), ground (arith, u))
  | inr b ↦ rw b (ground (arith, u), ground (arith, u))
]

after_mappages :
    (base : ℕ) (s m : Kmem) (old new i p : ℕ)
    → IsValid base s
    → Tables s new i 2
    → Trail s old i 2 p
    → bit pte_v (s.mem p) ≡ true
    → bit pte_u (s.mem p) ≡ true
    → s.mem p < 2 ^ 54
    → i % page_size ≡ 0
    → s.ref_count (pa2idx (pte2pa (s.mem p))) ≢ 0
    → mappages (protect s p) new i page_size (pte2pa (s.mem p)) (shared_flags (pte_flags (s.mem p)))
      ≡ ok (m, true)
    → Shared s (incref m (pte2pa (s.mem p))) old new i (pte2pa (s.mem p)) p
unfolding incref
after_mappages base s m old new i p w t h v u small al n z =
    let pa = pte2pa (s.mem p) in
    let k = protect s p in
    let x = protect-Alike s p v u small in
    let (v', u', o, q) = protect_lem s p v u small in
    let (same, cow, plain) = protect_entry s p v small in
    let (f, r, _) = protect-rest s p in
    let ((_, y, (p', h', j)), hi) =
      mapped base k m new i pa (shared_flags (pte_flags (s.mem p))) true
        (record { chain = rw f w.chain; agrees = rw (f, r) w.agrees })
        (Tables-Alike 2 s k new i x t) al z in
    let (l, g) = flags_lem (s.mem p) u in
    let kept : m.mem p ≡ k.mem p = y.entries p (rw f h.1.1.1) v' in
    let h'' = Trail-Extends 2 k m old i p y (Trail-Alike 2 s k old i p x h) in
    record {
      parent = walkaddr-Trail (incref m pa) old i p hi h'' ∙ rw (kept, v', u') q;
      child =
          walkaddr-Trail (incref m pa) new i p' hi h'
          ∙ entry_lem (incref m pa) pa (shared_flags (pte_flags (s.mem p))) p' (ground arith)
              (ground arith) l g j;
      read_only = rw kept o;
      child_entry = (p', h', j ∙ sym (kept ∙ same), rw (j ∙ sym same) o);
      marked = λ b. rw kept (cow b);
      unmarked = λ b. kept ∙ plain b;
      count = ground (arith, y.counts (pa2idx pa), r);
    }

-- A turn at a page that the parent has is mappages, and then incref.
share_page_turn :
    (s : Kmem) (old new i p : ℕ)
    → i < maxva
    → Trail s old i 2 p
    → bit pte_v (s.mem p) ≡ true
    → share_page s old new i
      ≡ mappages
          (protect s p)
          new
          i
          page_size
          (pte2pa (s.mem p))
          (shared_flags (pte_flags (s.mem p)))
        >>= λ r. ok (if r.1 then (incref r.0 (pte2pa (s.mem p)), true) else (r.0, false))
unfolding share_page
share_page_turn s old new i p hi h v = rw (share_page, walk_found s old i p hi h, ◌>>=◌, v) refl

-- In a valid allocator, a successful turn of uvmcopy at an aligned address below MAXVA where the
-- parent's page tables lead to a valid user entry of a counted page, and the page tables of the
-- child are in use, ends with parent and child both seeing that page, with the same entry, which is
-- not writable, has PTE_COW where the parent's was writable, and is as before where it was not, and
-- one more reference to the page.
pub share_page-Shared :
    (base : ℕ) (s s' : Kmem) (old new i p : ℕ)
    → IsValid base s
    → Tables s new i 2
    → Trail s old i 2 p
    → bit pte_v (s.mem p) ≡ true
    → bit pte_u (s.mem p) ≡ true
    → s.mem p < 2 ^ 54
    → i % page_size ≡ 0
    → i < maxva
    → s.ref_count (pa2idx (pte2pa (s.mem p))) ≢ 0
    → share_page s old new i ≡ ok (s', true)
    → Shared s s' old new i (pte2pa (s.mem p)) p
share_page-Shared base s s' old new i p w t h v u small al hi n e =
    let pa = pte2pa (s.mem p) in
    let (r, z, g) =
      >>=-eq-ok (mappages (protect s p) new i page_size pa (shared_flags (pte_flags (s.mem p))))
        (λ r. ok (if r.1 then (incref r.0 pa, true) else (r.0, false)))
        (sym (share_page_turn s old new i p hi h v) ∙ e) in
    elim (Bool-cases r.1) [
      | inl b ↦
          let c : ◌≡◌ {A = Outcome (Kmem × Bool)} (ok (incref r.0 pa, true)) (ok (s', true)) =
            rw b at g in
          let c' : incref r.0 pa ≡ s' = cc in
          let z' : mappages (protect s p) new i page_size pa (shared_flags (pte_flags (s.mem p)))
              ≡ ok (r.0, true) =
            z ∙ ap (λ x. ok (r.0, x)) b in
          rw (← c') (after_mappages base s r.0 old new i p w t h v u small al n z')
      | inr b ↦
          (let c : ◌≡◌ {A = Outcome (Kmem × Bool)} (ok (r.0, false)) (ok (s', true)) = rw b at g in
            cc)
    ]
