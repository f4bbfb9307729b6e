-- ===== src/Fs/Transfer/ReadBack.antt =====
-- readi of kernel/fs.c reads what writei wrote.
use mini_os_design.Common.{
  ℕ, ◌+◌, ◌-◌, ◌^◌, ◌≤◌, ◌<◌, ◌≡◌, true, ◌&&◌, leb, ltb, min, refl, sym, ap, ◌∙◌, arith, inl, inr,
  ◌⊎◌, ok, none, some, Outcome, Option, subst,
}
use mini_os_design.Fs.{Fs}
use mini_os_design.Fs.Itable.{Inode}
use mini_os_design.Fs.Slots.{byte, max_bytes, IsSound}
use mini_os_design.Fs.Dinode.Stored.{Fits}
use mini_os_design.Fs.Transfer.{put_bytes, FileRead, writei, readi}
use mini_os_design.Fs.Transfer.Reading.{IsFull, readi-Delivered}
use mini_os_design.Fs.Transfer.Writei.{Saved, writei-Saved}

-- A byte that was written, and then read.
read_byte :
    (s' : Fs) (addrs' mem dest mem' old : ℕ → ℕ) (src dst off amount t i : ℕ)
    → ((x : ℕ) → mem' x ≡ put_bytes dest dst (λ j. byte s' addrs' (off + j)) (t - 0) x)
    → ((x : ℕ) → x < max_bytes → byte s' addrs' x ≡ put_bytes old off (λ j. mem (src + j)) amount x)
    → t ≤ amount
    → off + amount ≤ max_bytes
    → i < t
    → mem' (dst + i) ≡ mem (src + i)
read_byte s' addrs' mem dest mem' old src dst off amount t i ms h l m li =
    let e : dst + i - dst ≡ i = omega arith in
    let e' : off + i - off ≡ i = omega arith in
    let y : (leb dst (dst + i) && ltb (dst + i) (dst + (t - 0))) ≡ true = ground (arith, li) in
    let y' : (leb off (off + i) && ltb (off + i) (off + amount)) ≡ true = ground (arith, li, l) in
    let b : byte s' addrs' (off + i) ≡ mem (src + i) =
      h (off + i) (omega arith) ∙ rw (y', e') refl in
    ms (dst + i) ∙ rw (y, e) b

-- What readi reads back of a file that was written.
read-Saved :
    (have room : ℕ → ℕ → ℕ) (s : Fs) (nmeta : ℕ) (ip : Inode) (mem dest : ℕ → ℕ) (src dst off n : ℕ)
    (s' : Fs) (ip' : Inode) (tot : ℕ)
    → ((d m : ℕ) → room d m ≡ m)
    → ip.size ≤ max_bytes
    → off + n ≤ max_bytes
    → Saved have s nmeta ip mem src off n s' ip' tot
    → (r : FileRead) × (t : ℕ) × (readi room s' ip' dest dst off tot ≡ ok r)
      × (r.result ≡ some t)
      × ((i : ℕ) → i < t → r.mem (dst + i) ≡ mem (src + i))
      × ((t ≡ tot) ⊎ IsFull r.fs)
read-Saved have room s nmeta ip mem dest src dst off n s' ip' tot all sz le d =
    let en = d.enough in
    let mo = d.most in
    let ln = d.length in
    let z : min tot (ip'.size - off) ≡ tot = ground (arith, ln) in
    let small : ip'.size ≤ max_bytes = ground (arith, ln, sz, le, en, mo) in
    let (r, er, _, g) =
      readi-Delivered room s' nmeta ip' dest dst off tot d.sound small (omega arith) in
    elim g [
      | inr (_, _, (_, _, _, ne)) ↦ absurd (ne (all _ _))
      | inl (t, rt, _, hi, ms, q) ↦ (
        r,
        t,
        er,
        rt,
        λ i l.
            read_byte s' ip'.addrs mem dest r.mem (byte s ip.addrs) src dst off d.amount t i ms
              d.bytes (omega (arith, hi, z, en)) (omega arith) l,
        elim q [ inl a ↦ inl (a ∙ z) | inr a ↦ inr a ],
      )
    ]

-- After a writei to a file of at most MAXFILE*BSIZE bytes that does not answer -1, a readi of the
-- bytes that it counted, where no store fails, answers a number of them, and stores the bytes that
-- were written, in order; it is all of them, or no block is left.
pub readi-writei :
    (have room : ℕ → ℕ → ℕ) (s : Fs) (nmeta : ℕ) (ip : Inode) (mem dest : ℕ → ℕ) (src dst off n : ℕ)
    (s' : Fs) (ip' : Inode) (tot : ℕ)
    → ((d m : ℕ) → have d m ≤ m)
    → ((d m : ℕ) → room d m ≡ m)
    → IsSound s nmeta ip.addrs
    → Fits ip
    → ip.inum < s.ninodes
    → ip.size ≤ max_bytes
    → off + n < 2 ^ 32
    → writei have s ip mem src off n ≡ ok (s', ip', some tot)
    → (r : FileRead) × (t : ℕ) × (readi room s' ip' dest dst off tot ≡ ok r)
      × (r.result ≡ some t)
      × ((i : ℕ) → i < t → r.mem (dst + i) ≡ mem (src + i))
      × ((t ≡ tot) ⊎ IsFull r.fs)
readi-writei have room s nmeta ip mem dest src dst off n s' ip' tot am all v f known sz u e =
    elim (writei-Saved have s nmeta ip mem src off n am v f known u) [
      | inl (e', _) ↦
          (let c : ◌≡◌ {A = Outcome (Fs × Inode × Option ℕ)} (ok (s, ip, none))
                (ok (s', ip', some tot)) =
              sym e' ∙ e in
            cc)
      | inr (_, le, s₁, ip₁, tot₁, e', d) ↦
          let c : ◌≡◌ {A = Outcome (Fs × Inode × Option ℕ)} (ok (s₁, ip₁, some tot₁))
              (ok (s', ip', some tot)) =
            sym e' ∙ e in
          let q : ◌≡◌ {A = Fs × Inode × Option ℕ} (s₁, ip₁, some tot₁) (s', ip', some tot) = cc in
          let k : some tot₁ ≡ some tot = ap (λ y. y.2) q in
          let qt : tot₁ ≡ tot = cc in
          let d' : Saved have s nmeta ip mem src off n s' ip' tot =
            subst (λ (y : ℕ). Saved have s nmeta ip mem src off n s' ip' y) qt
              (subst
                (λ (y : Fs × Inode × Option ℕ). Saved have s nmeta ip mem src off n y.0 y.1 tot₁) q
                d) in
          read-Saved have room s nmeta ip mem dest src dst off n s' ip' tot all sz le d'
    ]
