-- ===== src/Log/Copy.antt =====
-- What the copying loops of kernel/log.c do to the view and to the disk, whenever power fails.
use mini_os_design.Common.{
  ℕ, suc, ◌+◌, ◌-◌, ◌≤◌, ◌<◌, ◌≡◌, ◌⊎◌, inl, inr, List, [], ◌∷◌, Bool, true, false, ◌&&◌, ltb, ◌==◌,
  if◌then◌else◌, length, refl, ◌∙◌, arith, Bool-cases,
}
use mini_os_design.Log.Store.{
  Disk, Buffers, view, bread, bwrite, bunpin, view-bread, view-bwrite, disk-bwrite,
}
use mini_os_design.Log.Header.{encode}
use mini_os_design.Log.{write_log, install_trans, write_head, elem}

-- From `a` on, `d` holds the contents that `new` gives the blocks.
abbrev pub Logged : Disk → Disk → ℕ → List ℕ → Type 0
Logged new d a [] = Unit {0}
Logged new d a (b ∷ bs) = (d a ≡ new b) × Logged new d (a + 1) bs

-- No block of the list lies in the `n` blocks from `a` on.
abbrev pub Outside : ℕ → ℕ → List ℕ → Type 0
Outside a n [] = Unit {0}
Outside a n (b ∷ bs) = ((b < a) ⊎ (a + n ≤ b)) × Outside a n bs

pub Logged-same :
    (bs : List ℕ) (new d e : Disk) (a : ℕ)
    → ((c : ℕ) → a ≤ c → c < a + length bs → e c ≡ d c)
    → Logged new d a bs
    → Logged new e a bs
Logged-same [] new d e a h l = tt
Logged-same (b ∷ bs) new d e a h l = (
  h a (omega arith) (omega arith) ∙ l.0,
  Logged-same bs new d e (a + 1) (λ c p q. h c (omega arith) (omega arith)) l.1,
)

Outside-tail : (a n : ℕ) (bs : List ℕ) → Outside a (suc n) bs → Outside (a + 1) n bs
Outside-tail a n [] h = tt
Outside-tail a n (b ∷ bs) h = (omega (arith, h.0), Outside-tail a n bs h.1)

-- One turn of write_log: log block `a` gets the contents of `b`.
abbrev wrote_one : Buffers → ℕ → ℕ → Buffers
wrote_one s a b = bwrite (bread (bread s a) b) a (view (bread (bread s a) b) b)

wrote_one-view :
    (s : Buffers) (a b c : ℕ) → view (wrote_one s a b) c ≡ (if c == a then view s b else view s c)
wrote_one-view s a b c = ground (
  arith,
  view-bwrite (bread (bread s a) b) a (view (bread (bread s a) b) b) c,
  view-bread (bread s a) b c,
  view-bread s a c,
  view-bread (bread s a) b b,
  view-bread s a b,
)

wrote_one-disk :
    (s : Buffers) (a b c : ℕ)
    → (wrote_one s a b).disk c ≡ (if ltb 0 s.power && c == a then view s b else s.disk c)
unfolding bread
wrote_one-disk s a b c = ground (
  arith,
  disk-bwrite (bread (bread s a) b) a (view (bread (bread s a) b) b) c,
  view-bread (bread s a) b b,
  view-bread s a b,
)

wrote_one-power : (s : Buffers) (a b : ℕ) → (wrote_one s a b).power ≡ s.power - 1
unfolding bread bwrite
wrote_one-power s a b = refl

Logged-new :
    (bs : List ℕ) (new new' d : Disk) (a n m : ℕ)
    → ((c : ℕ) → (c < n) ⊎ (n + m ≤ c) → new' c ≡ new c)
    → Outside n m bs
    → Logged new' d a bs
    → Logged new d a bs
Logged-new [] new new' d a n m h o l = tt
Logged-new (b ∷ bs) new new' d a n m h o l =
    (l.0 ∙ h b o.0, Logged-new bs new new' d (a + 1) n m h o.1 l.1)

-- What write_log does to the blocks of the view and of the disk.
pub record WroteLog (s : Buffers) (a : ℕ) (bs : List ℕ) (s' : Buffers) : Type 0 where
  pub left : s'.power ≡ s.power - length bs
  pub rest :
      (c : ℕ) → (c < a) ⊎ (a + length bs ≤ c) → (view s' c ≡ view s c) × (s'.disk c ≡ s.disk c)
  pub in_view : Logged (view s) (view s') a bs
  pub on_disk : length bs ≤ s.power → Logged (view s) s'.disk a bs

pub write_log-WroteLog :
    (bs : List ℕ) (s : Buffers) (a : ℕ)
    → Outside a (length bs) bs
    → WroteLog s a bs (write_log s a bs)
unfolding write_log
write_log-WroteLog [] s a o = record {
  left = omega arith;
  rest = λ c h. (refl, refl);
  in_view = tt;
  on_disk = λ h. tt;
}
write_log-WroteLog (b ∷ bs) s a o =
    let t : Buffers = wrote_one s a b in
    let w : WroteLog t (a + 1) bs (write_log t (a + 1) bs) =
      write_log-WroteLog bs t (a + 1) (Outside-tail a (length bs) bs o.1) in
    record {
      left = omega (arith, w.left, wrote_one-power s a b);
      rest = λ c h. ground (arith, w.rest c, wrote_one-view s a b c, wrote_one-disk s a b c);
      in_view = (
        ground (arith, w.rest a, wrote_one-view s a b a),
        Logged-new bs (view s) (view t) _ (a + 1) a (suc (length bs))
            (λ c h. ground (arith, wrote_one-view s a b c)) o.1 w.in_view,
      );
      on_disk = λ h. (
        ground (arith, w.rest a, wrote_one-disk s a b a),
        Logged-new bs (view s) (view t) _ (a + 1) a (suc (length bs))
            (λ c k. ground (arith, wrote_one-view s a b c)) o.1
            (w.on_disk (omega (arith, wrote_one-power s a b))),
      );
    }

-- One turn of install_trans: home block `b` gets the contents of log block `a`.
abbrev installed_one : Bool → Buffers → ℕ → ℕ → Buffers
installed_one recovering s a b =
    let t : Buffers = bwrite (bread (bread s a) b) b (view (bread (bread s a) b) a) in
    if recovering then t else bunpin t b

installed_one-view :
    (r : Bool) (s : Buffers) (a b c : ℕ)
    → view (installed_one r s a b) c ≡ (if c == b then view s a else view s c)
unfolding bunpin
installed_one-view r s a b c = ground (
  arith,
  view-bwrite (bread (bread s a) b) b (view (bread (bread s a) b) a) c,
  view-bread (bread s a) b c,
  view-bread s a c,
  view-bread (bread s a) b a,
  view-bread s a a,
)

installed_one-disk :
    (r : Bool) (s : Buffers) (a b c : ℕ)
    → (installed_one r s a b).disk c ≡ (if ltb 0 s.power && c == b then view s a else s.disk c)
unfolding bread bunpin
installed_one-disk r s a b c = ground (
  arith,
  disk-bwrite (bread (bread s a) b) b (view (bread (bread s a) b) a) c,
  view-bread (bread s a) b a,
  view-bread s a a,
)

installed_one-power :
    (r : Bool) (s : Buffers) (a b : ℕ) → (installed_one r s a b).power ≡ s.power - 1
unfolding bread bwrite bunpin
installed_one-power true s a b = refl
installed_one-power false s a b = refl

-- What install_trans does, `new` being the contents that the log holds.
pub record Installed (new : Disk) (s : Buffers) (bs : List ℕ) (s' : Buffers) : Type 0 where
  pub left : s'.power ≡ s.power - length bs
  pub rest : (c : ℕ) → elem c bs ≡ false → (view s' c ≡ view s c) × (s'.disk c ≡ s.disk c)
  pub each : (c : ℕ) → elem c bs ≡ true → (s'.disk c ≡ s.disk c) ⊎ (s'.disk c ≡ new c)
  pub every : length bs ≤ s.power → (c : ℕ) → elem c bs ≡ true → s'.disk c ≡ new c
  pub seen : (c : ℕ) → elem c bs ≡ true → view s' c ≡ new c
  pub off : s.power ≡ 0 → (c : ℕ) → s'.disk c ≡ s.disk c

pub Outside-ne : (a n c : ℕ) (bs : List ℕ) → Outside a n bs → a ≤ c → c < a + n → elem c bs ≡ false
Outside-ne a n c [] o l h = refl
Outside-ne a n c (b ∷ bs) o l h = ground (arith, Outside-ne a n c bs o.1)

pub install_trans-Installed :
    (bs : List ℕ) (r : Bool) (new : Disk) (s : Buffers) (a : ℕ)
    → Outside a (length bs) bs
    → Logged new (view s) a bs
    → Installed new s bs (install_trans r s a bs)
unfolding install_trans
install_trans-Installed [] r new s a o l = record {
  left = omega arith;
  rest = λ c h. (refl, refl);
  each = λ c h. cc;
  every = λ p c h. cc;
  seen = λ c h. cc;
  off = λ p c. refl;
}
install_trans-Installed (b ∷ bs) r new s a o l =
    let t : Buffers = installed_one r s a b in
    let u : Buffers = install_trans r t (a + 1) bs in
    let w : Installed new t bs u =
      install_trans-Installed bs r new t (a + 1) (Outside-tail a (length bs) bs o.1) (
        Logged-same bs new (view s) (view t) (a + 1)
          (λ c p q. ground (arith, installed_one-view r s a b c, o.0)) l.1) in
    record {
      left = omega (arith, w.left, installed_one-power r s a b);
      rest = λ c h.
          ground (arith, w.rest c, installed_one-view r s a b c, installed_one-disk r s a b c);
      each = λ c h. elim (Bool-cases (elem c bs)) [
        | inl e ↦ ground (arith, w.each c e, installed_one-disk r s a b c, l.0)
        | inr e ↦ ground (arith, w.rest c e, installed_one-disk r s a b c, l.0)
      ];
      every = λ p c h. elim (Bool-cases (elem c bs)) [
        | inl e ↦ w.every (omega (arith, installed_one-power r s a b)) c e
        | inr e ↦ ground (arith, w.rest c e, installed_one-disk r s a b c, l.0)
      ];
      seen = λ c h. elim (Bool-cases (elem c bs)) [
        | inl e ↦ w.seen c e
        | inr e ↦ ground (arith, w.rest c e, installed_one-view r s a b c, l.0)
      ];
      off = λ p c.
          w.off (omega (arith, installed_one-power r s a b)) c
          ∙ ground (arith, installed_one-disk r s a b c);
    }

-- write_head, which is one disk write.
pub write_head-view :
    (s : Buffers) (start : ℕ) (bs : List ℕ) (c : ℕ)
    → view (write_head s start bs) c ≡ (if c == start then encode (view s start) bs else view s c)
unfolding write_head
write_head-view s start bs c = ground (
  arith,
  view-bwrite (bread s start) start (encode (view (bread s start) start) bs) c,
  view-bread s start c,
  view-bread s start start,
)

pub write_head-disk :
    (s : Buffers) (start : ℕ) (bs : List ℕ) (c : ℕ)
    → (write_head s start bs).disk c
      ≡ (if ltb 0 s.power && c == start then encode (view s start) bs else s.disk c)
unfolding write_head bread
write_head-disk s start bs c = ground (
  arith,
  disk-bwrite (bread s start) start (encode (view (bread s start) start) bs) c,
  view-bread s start start,
)

pub write_head-power :
    (s : Buffers) (start : ℕ) (bs : List ℕ) → (write_head s start bs).power ≡ s.power - 1
unfolding write_head bread bwrite
write_head-power s start bs = refl
