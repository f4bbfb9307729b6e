-- ===== src/Fs/Dirs/Vacancy.antt =====
-- The empty entry that dirlink of kernel/fs.c finds.
use mini_os_design.Common.{
  ℕ, zero, suc, ◌+◌, ◌*◌, ◌/◌, ◌%◌, ◌≤◌, ◌<◌, ◌≡◌, ◌≢◌, true, ◌==◌, ltb, refl, sym, ◌∙◌, arith,
  Bool-cases, inl, inr, ◌⊎◌, ok, panic, Outcome,
}
use mini_os_design.Fs.{Fs}
use mini_os_design.Fs.Itable.{Inode}
use mini_os_design.Fs.Dinode.{half_at}
use mini_os_design.Fs.Slots.{byte, max_bytes, IsSound, Kept}
use mini_os_design.Fs.Slots.Preserved.{Kept-refl, Kept-trans}
use mini_os_design.Fs.Dirs.{dirent_size, empty_from}
use mini_os_design.Fs.Dirs.Entries.{inum_at}
use mini_os_design.Fs.Dirs.EntryRead.{ShortRead, read_entry_lem}

-- The entry `j` is the first of those from `k` to `n` that is empty, or it is the end.
pub record IsVacant (c : ℕ → ℕ) (k n j : ℕ) : Type 0 where
  pub from : k ≤ j
  pub to : j ≤ n
  pub taken : (i : ℕ) → k ≤ i → i < j → inum_at c i ≢ 0
  pub empty : j < n → inum_at c j ≡ 0

-- The loop passes over the `j` entries from `k` on, and the read of the next one comes short.
abbrev pub ScanCut : Fs → Inode → ℕ → Type 0
ScanCut s dp k =
    (j : ℕ) × (s₁ : Fs) × (addrs₁ : ℕ → ℕ) × (k + j < dp.size / 16)
    × (empty_from j s dp (16 * k) ≡ ok (s₁, record dp { addrs = addrs₁ }, 16 * (k + j)))
    × ShortRead s₁ (record dp { addrs = addrs₁ }) (16 * (k + j))

abbrev pub Vacancy : Fs → ℕ → Inode → (ℕ → ℕ) → ℕ → Outcome (Fs × Inode × ℕ) → Type 0
Vacancy s nmeta dp c k result =
    ((result ≡ panic "dirlink read") × ScanCut s dp k)
    ⊎ ((s' : Fs) × (addrs' : ℕ → ℕ) × (j : ℕ) × (result
          ≡ ok (s', record dp { addrs = addrs' }, 16 * j))
        × Kept s nmeta dp.addrs s' addrs'
        × IsVacant c k (dp.size / 16) j)

IsVacant-here : (c : ℕ → ℕ) (k n : ℕ) → k ≤ n → (k < n → inum_at c k ≡ 0) → IsVacant c k n k
IsVacant-here c k n l e = record {
  from = omega arith;
  to = l;
  taken = λ i x y. absurd (omega arith);
  empty = e;
}

earlier : (c : ℕ → ℕ) (k n j : ℕ) → inum_at c k ≢ 0 → IsVacant c (k + 1) n j → IsVacant c k n j
earlier c k n j nz v = record {
  from = (let f = v.from in omega arith);
  to = v.to;
  taken = λ i a b. elim (Bool-cases (k == i)) [
    | inl e ↦ (let q : i ≡ k = ground arith in rw q nz)
    | inr e ↦ v.taken i (ground (arith, e, a)) b
  ];
  empty = v.empty;
}

-- An entry that is in use is passed over.
passed :
    (s s' : Fs) (nmeta : ℕ) (dp : Inode) (addrs' c : ℕ → ℕ) (k : ℕ)
    (result : Outcome (Fs × Inode × ℕ))
    → Kept s nmeta dp.addrs s' addrs'
    → inum_at c k ≢ 0
    → ((j : ℕ)
        → empty_from (suc j) s dp (16 * k)
          ≡ empty_from j s' (record dp { addrs = addrs' }) (16 * (k + 1)))
    → Vacancy s' nmeta (record dp { addrs = addrs' }) c (k + 1) result
    → Vacancy s nmeta dp c k result
passed s s' nmeta dp addrs' c k result kp nz step (inl (p, (j, t, a, l, e, r))) =
    let q : k + suc j ≡ k + 1 + j = omega arith in
    inl (p, (suc j, t, a, rw q l, step j ∙ rw q e, rw q r))
passed s s' nmeta dp addrs' c k result kp nz step (inr (t, a, j, q, kp', va)) = inr (
  t,
  a,
  j,
  q,
  Kept-trans s s' t nmeta dp.addrs addrs' a kp kp',
  earlier c k (dp.size / 16) j nz va,
)

pub empty_from_lem :
    (fuel : ℕ) (s : Fs) (nmeta : ℕ) (dp : Inode) (c : ℕ → ℕ) (k : ℕ)
    → IsSound s nmeta dp.addrs
    → dp.size ≤ max_bytes
    → dp.size % 16 ≡ 0
    → k ≤ dp.size / 16
    → dp.size / 16 ≤ k + fuel
    → ((x : ℕ) → x < dp.size → byte s dp.addrs x ≡ c x)
    → Vacancy s nmeta dp c k (empty_from fuel s dp (16 * k))
unfolding empty_from
empty_from_lem zero s nmeta dp c k v l al b f h = inr (
  s,
  dp.addrs,
  k,
  refl,
  Kept-refl s nmeta dp.addrs v,
  IsVacant-here c k (dp.size / 16) b (λ x. absurd (omega arith)),
)
empty_from_lem (suc fuel) s nmeta dp c k v l al b f h = elim (Bool-cases (ltb (16 * k) dp.size)) [
  | inr z ↦ inr (
    s,
    dp.addrs,
    k,
    rw (empty_from, z) refl,
    Kept-refl s nmeta dp.addrs v,
    IsVacant-here c k (dp.size / 16) b (λ x. absurd (ground (arith, z, x))),
  )
  | inl z ↦
      let lt : 16 * k + 16 ≤ dp.size = ground (arith, z, al) in
      elim (read_entry_lem true s nmeta dp (16 * k) v l lt) [
        | inl (e, cut) ↦
            let q : k + 0 ≡ k = omega arith in
            inl
              (rw (empty_from, z, e) refl, (0, s, dp.addrs, omega (arith, lt), rw q refl, rw q cut))
        | inr (s', addrs', de, e, kp, m) ↦
            let e₀ = m 0 (omega arith) ∙ h (16 * k + 0) (omega arith) in
            let e₁ = m 1 (omega arith) ∙ h (16 * k + 1) (omega arith) in
            let n₀ : half_at de 0 ≡ inum_at c k = rw (e₀, e₁) refl in
            let dp' : Inode = record dp { addrs = addrs' } in
            let next : 16 * k + dirent_size ≡ 16 * (k + 1) = omega arith in
            elim (Bool-cases (half_at de 0 == 0)) [
              | inl y ↦ inr (
                s',
                addrs',
                k,
                rw (empty_from, z, e, y) refl,
                kp,
                IsVacant-here c k (dp.size / 16) b (λ _. sym n₀ ∙ ground (arith, y)),
              )
              | inr y ↦
                  let nz : inum_at c k ≢ 0 = ground (arith, y, n₀) in
                  rw (empty_from, z, e, y, next)
                    (passed s s' nmeta dp addrs' c k _ kp nz
                      (λ j. rw (empty_from, z, e, y, next) refl)
                      (empty_from_lem fuel s' nmeta dp' c (k + 1) kp.sound l al (omega (arith, lt))
                        (omega arith) (λ x lx. kp.bytes x (omega arith) ∙ h x lx)))
            ]
      ]
]
