-- ===== src/Fs/Dirs/EntryRead.antt =====
-- The reading of one entry of a directory.
use mini_os_design.Common.{
  ℕ, ◌+◌, ◌-◌, ◌≤◌, ◌<◌, ◌≡◌, ◌≢◌, true, ◌&&◌, ◌==◌, leb, ltb, min, if◌then◌else◌, Bool, refl, sym,
  ◌∙◌, arith, Bool-cases, inl, inr, ◌⊎◌, ok, panic, some, Option,
}
use mini_os_design.Fs.{Fs}
use mini_os_design.Fs.Itable.{Inode}
use mini_os_design.Fs.Slots.{byte, max_bytes, IsSound, Kept}
use mini_os_design.Fs.Transfer.{FileRead, readi, put_bytes}
use mini_os_design.Fs.Transfer.Reading.{IsFull, readi-Delivered}
use mini_os_design.Fs.Dirs.{in_full, read_entry}

-- The readi of the entry at `off` comes short, and leaves a file system with no block left.
abbrev pub ShortRead : Fs → Inode → ℕ → Type 0
ShortRead s dp off =
    (r : FileRead) × (readi in_full s dp (λ _. 0) 0 off 16 ≡ ok r)
    × (r.result ≢ some 16)
    × IsFull r.fs

-- The whole entry at `off` is read, or its read comes short.
abbrev pub EntryRead : Bool → Fs → ℕ → Inode → ℕ → Type 0
EntryRead linking s nmeta dp off =
    ((read_entry linking s dp off ≡ panic (if linking then "dirlink read" else "dirlookup read"))
      × ShortRead s dp off)
    ⊎ ((s' : Fs) × (addrs' : ℕ → ℕ) × (de : ℕ → ℕ) × (read_entry linking s dp off
          ≡ ok (s', record dp { addrs = addrs' }, de))
        × Kept s nmeta dp.addrs s' addrs'
        × ((i : ℕ) → i < 16 → de i ≡ byte s dp.addrs (off + i)))

read_result :
    (linking : Bool) (s : Fs) (nmeta : ℕ) (dp : Inode) (off : ℕ) (r : FileRead) (t : ℕ)
    → readi in_full s dp (λ _. 0) 0 off 16 ≡ ok r
    → Kept s nmeta dp.addrs r.fs r.addrs
    → r.result ≡ some t
    → (t ≡ 16) ⊎ IsFull r.fs
    → ((x : ℕ) → r.mem x ≡ put_bytes (λ _. 0) 0 (λ i. byte s dp.addrs (off + i)) (t - 0) x)
    → EntryRead linking s nmeta dp off
unfolding read_entry
read_result linking s nmeta dp off r t e k et stop ms = elim (Bool-cases (t == 16)) [
  | inl h ↦ inr (
    r.fs,
    r.addrs,
    r.mem,
    rw (read_entry, e, et, h) refl,
    k,
    λ i l.
        let y : (leb 0 i && ltb i (0 + (t - 0))) ≡ true = ground (arith, h, l) in
        let y' : i - 0 ≡ i = omega arith in ms i ∙ rw (y, y') refl,
  )
  | inr h ↦ inl (
    rw (read_entry, e, et, h) refl,
    (
      r,
      e,
      λ q.
          (let c : ◌≡◌ {A = Option ℕ} (some t) (some 16) = sym et ∙ q in
            let c' : t ≡ 16 = cc in ground (arith, h, c')),
      elim stop [ inl a ↦ absurd (ground (arith, h, a)) | inr a ↦ a ],
    ),
  )
]

pub read_entry_lem :
    (linking : Bool) (s : Fs) (nmeta : ℕ) (dp : Inode) (off : ℕ)
    → IsSound s nmeta dp.addrs
    → dp.size ≤ max_bytes
    → off + 16 ≤ dp.size
    → EntryRead linking s nmeta dp off
read_entry_lem linking s nmeta dp off v l h =
    let q : min 16 (dp.size - off) ≡ 16 = omega arith in
    let (r, e, k, d) = readi-Delivered in_full s nmeta dp (λ _. 0) 0 off 16 v l (omega arith) in
    elim d [
      | inr (_, _, (_, _, _, n)) ↦ absurd (n refl)
      | inl (t, et, _, hi, ms, stop) ↦
          read_result linking s nmeta dp off r t e k et
            (elim stop [ inl a ↦ inl (a ∙ q) | inr a ↦ inr a ]) ms
    ]
