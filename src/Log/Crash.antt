-- ===== src/Log/Crash.antt =====
-- A commit of kernel/log.c that stops after any number of disk writes.
use mini_os_design.Common.{
  ℕ, suc, ◌+◌, ◌*◌, ◌≤◌, ◌<◌, ◌≡◌, ◌⊎◌, inl, inr, List, [], ◌∷◌, false, ltb, length, refl, ◌∙◌, sym,
  ap, arith, Bool-cases,
}
use mini_os_design.Log.Store.{Disk, Buffers, view}
use mini_os_design.Log.Header.{decode, decode-encode}
use mini_os_design.Log.Copy.{
  Logged, Outside, Logged-same, Outside-ne, WroteLog, write_log-WroteLog, Installed,
  install_trans-Installed, write_head-view, write_head-disk, write_head-power,
}
use mini_os_design.Log.{log_blocks, write_log, install_trans, write_head, commit_blocks, elem}

-- A block that is neither the header nor in the log.
abbrev Home : ℕ → ℕ → Type 0
Home start c = (c < start) ⊎ (start + suc log_blocks ≤ c)

-- The log is empty on disk, and the home blocks hold `old`.
pub record Clean (start : ℕ) (old d : Disk) : Type 0 where
  pub empty : decode (d start) ≡ []
  pub homes : (c : ℕ) → Home start c → d c ≡ old c

-- The log on disk holds the blocks `bs` of `new`, and every other home block is as in `new`.
pub record Committed (start : ℕ) (new : Disk) (bs : List ℕ) (d : Disk) : Type 0 where
  pub header : decode (d start) ≡ bs
  pub short : length bs ≤ log_blocks
  pub outside : Outside start (suc log_blocks) bs
  pub logged : Logged new d (start + 1) bs
  pub homes : (c : ℕ) → Home start c → elem c bs ≡ false → d c ≡ new c

-- The state in which a commit starts: a short log of home blocks, none of it on disk, and a cache
-- that differs from the disk in the logged blocks only.
pub record IsReady (start : ℕ) (bs : List ℕ) (s : Buffers) : Type 0 where
  pub short : length bs ≤ log_blocks
  pub outside : Outside start (suc log_blocks) bs
  pub empty : decode (s.disk start) ≡ []
  pub coherent : (c : ℕ) → Home start c → elem c bs ≡ false → view s c ≡ s.disk c

pub Outside-log :
    (start n : ℕ) (bs : List ℕ)
    → n ≤ log_blocks
    → Outside start (suc log_blocks) bs
    → Outside (start + 1) n bs
Outside-log start n [] h o = tt
Outside-log start n (b ∷ bs) h o = (omega (arith, o.0), Outside-log start n bs h o.1)

elem_empty : (bs : List ℕ) (c : ℕ) → length bs ≡ 0 → elem c bs ≡ false
elem_empty [] c h = refl
elem_empty (b ∷ bs) c h = absurd (omega arith)

module _ (start : ℕ) (bs : List ℕ) (s : Buffers) (v : IsReady start bs s) where
  abbrev s₁ : Buffers
  s₁ = write_log s (start + 1) bs

  abbrev s₂ : Buffers
  s₂ = write_head s₁ start bs

  abbrev s₃ : Buffers
  s₃ = install_trans false s₂ (start + 1) bs

  abbrev s₄ : Buffers
  s₄ = write_head s₃ start []

  wrote : WroteLog s (start + 1) bs s₁
  wrote = write_log-WroteLog bs s (start + 1) (Outside-log start (length bs) bs v.short v.outside)

  installed : Installed (view s) s₂ bs s₃
  installed =
      install_trans-Installed bs false (view s) s₂ (start + 1)
        (Outside-log start (length bs) bs v.short v.outside)
        (Logged-same bs (view s) (view s₁) (view s₂) (start + 1)
          (λ c p q. ground (arith, write_head-view s₁ start bs c)) wrote.in_view)

  start_ne : elem start bs ≡ false
  start_ne = Outside-ne start (suc log_blocks) start bs v.outside (omega arith) (omega arith)

  -- Power fails before the header is written.
  crash_early : s.power ≤ length bs → Clean start s.disk s₄.disk
  crash_early h = record {
    empty = ap decode (same start ∙ (wrote.rest start (omega arith)).1) ∙ v.empty;
    homes = λ c k. same c ∙ (wrote.rest c (omega (arith, k, v.short))).1;
  }
    where
      same : (c : ℕ) → s₄.disk c ≡ s₁.disk c
      same c = ground (
        arith,
        write_head-disk s₃ start [] c,
        installed.left,
        write_head-power s₁ start bs,
        wrote.left,
        installed.off,
        write_head-disk s₁ start bs c,
        installed.off (omega (arith, write_head-power s₁ start bs, wrote.left)) c,
      )

  -- Once the header is on disk, so is the transaction.
  installing : length bs < s.power → Committed start (view s) bs s₃.disk
  installing h = record {
    header =
        ap decode (
          (installed.rest start start_ne).1
          ∙ ground (arith, write_head-disk s₁ start bs start, wrote.left))
        ∙ decode-encode (view s₁ start) bs;
    short = v.short;
    outside = v.outside;
    logged =
        Logged-same bs (view s) s₁.disk s₃.disk (start + 1)
          (λ c p q.
            (installed.rest c (
              Outside-ne start (suc log_blocks) c bs v.outside (omega arith)
                (omega (arith, v.short)))).1
            ∙ ground (arith, write_head-disk s₁ start bs c))
          (wrote.on_disk (omega arith));
    homes = λ c k e. ground (
      arith,
      installed.rest c e,
      write_head-disk s₁ start bs c,
      wrote.rest c,
      v.coherent c k e,
      k,
      v.short,
    );
  }

  -- All home blocks are installed before the header is cleared.
  installed_all : 2 * length bs + 1 ≤ s.power → (c : ℕ) → Home start c → s₃.disk c ≡ view s c
  installed_all h c k = elim (Bool-cases (elem c bs)) [
    | inl e ↦ installed.every (omega (arith, write_head-power s₁ start bs, wrote.left)) c e
    | inr e ↦ (installing (omega arith)).homes c k e
  ]

  -- The header is cleared after everything is installed.
  cleared : length bs < s.power → 0 < s₃.power → Clean start (view s) s₄.disk
  cleared h e = record {
    empty =
        ap decode (ground (arith, write_head-disk s₃ start [] start, e))
        ∙ decode-encode (view s₃ start) [];
    homes = λ c k.
        ground (arith, write_head-disk s₃ start [] c, k)
        ∙ installed_all
            (ground (arith, installed.left, write_head-power s₁ start bs, wrote.left, e)) c k;
  }

  crash_late :
      length bs < s.power → Committed start (view s) bs s₄.disk ⊎ Clean start (view s) s₄.disk
  crash_late h = elim (Bool-cases (ltb 0 s₃.power)) [
    | inl e ↦ inr (cleared h (ground (arith, e)))
    | inr e ↦
        let same : ((c : ℕ) → s₄.disk c ≡ s₃.disk c) =
          λ c. ground (arith, write_head-disk s₃ start [] c, e) in
        let t : Committed start (view s) bs s₃.disk = installing h in
        inl (record {
          header = ap decode (same start) ∙ t.header;
          short = t.short;
          outside = t.outside;
          logged = Logged-same bs (view s) s₃.disk s₄.disk (start + 1) (λ c p q. same c) t.logged;
          homes = λ c k n. same c ∙ t.homes c k n;
        })
  ]

  -- Wherever a commit from a ready state stops, the disk has an empty log and the old home blocks,
  -- or a complete log with every other home block in place, or an empty log and the new home
  -- blocks.
  pub commit_blocks-crash :
      let d = (commit_blocks s start bs).disk in
      Clean start s.disk d ⊎ (Committed start (view s) bs d ⊎ Clean start (view s) d)
  unfolding commit_blocks
  commit_blocks-crash = elim (Bool-cases (ltb 0 (length bs))) [
    | inl e ↦ rw e (elim (Bool-cases (ltb (length bs) s.power)) [
      | inl h ↦ inr (crash_late (ground (arith, h)))
      | inr h ↦ inl (crash_early (ground (arith, h)))
    ])
    | inr e ↦ rw e (inl (record { empty = v.empty; homes = λ c k. refl }))
  ]

  -- A commit from a ready state with power for twice the number of logged blocks and two more disk
  -- writes ends with an empty log on disk and the contents of every home block, as readers saw it
  -- before, on disk; readers see the same contents of home blocks as before.
  pub commit_blocks-done :
      2 * length bs + 2 ≤ s.power
      → let t = commit_blocks s start bs in
        Clean start (view s) t.disk × ((c : ℕ) → Home start c → view t c ≡ view s c)
  unfolding commit_blocks
  commit_blocks-done h = elim (Bool-cases (ltb 0 (length bs))) [
    | inl e ↦ rw e (
      cleared (omega arith)
          (omega (arith, installed.left, write_head-power s₁ start bs, wrote.left)),
      seen_home,
    )
    | inr e ↦ rw e (
      record {
        empty = v.empty;
        homes = λ c k. sym (v.coherent c k (none_elem (ground (arith, e)) c));
      },
      λ c k. refl,
    )
  ]
    where
      none_elem : length bs ≡ 0 → (c : ℕ) → elem c bs ≡ false
      none_elem z c = elem_empty bs c z

      seen_home : (c : ℕ) → Home start c → view s₄ c ≡ view s c
      seen_home c k = elim (Bool-cases (elem c bs)) [
        | inl e ↦ ground (arith, write_head-view s₃ start [] c, k, installed.seen c e)
        | inr e ↦ ground (
          arith,
          write_head-view s₃ start [] c,
          k,
          installed.rest c e,
          write_head-view s₁ start bs c,
          wrote.rest c,
          v.short,
        )
      ]
