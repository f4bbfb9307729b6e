-- ===== src/Log/Recovery.antt =====
-- Recovery from the log of kernel/log.c, itself cut short any number of times.
use mini_os_design.Common.{
  ℕ, suc, ◌+◌, ◌≤◌, ◌<◌, ◌≡◌, ◌⊎◌, inl, inr, List, [], ◌∷◌, true, false, ltb, length, refl, ◌∙◌, ap,
  arith, Bool-cases,
}
use mini_os_design.Log.Store.{Disk, Buffers, view, bread, view-bread, reboot}
use mini_os_design.Log.Header.{decode, decode-encode}
use mini_os_design.Log.Copy.{
  Logged-same, Outside-ne, Installed, install_trans-Installed, write_head-disk,
}
use mini_os_design.Log.Crash.{Clean, Committed, IsReady, Outside-log, commit_blocks-crash}
use mini_os_design.Log.{
  log_blocks, install_trans, read_head, write_head, recover_from_log, commit_blocks, elem,
}

-- The disk after a boot whose recovery has power for `power` disk writes.
abbrev pub boot : ℕ → Disk → ℕ → Disk
boot start d power = (recover_from_log (reboot d power) start).disk

-- The state in which recovery installs the blocks, and what it ends with.
abbrev reading : ℕ → Disk → ℕ → Buffers
reading start d power = bread (reboot d power) start

abbrev installing : ℕ → Disk → ℕ → List ℕ → Buffers
installing start d power bs = install_trans true (reading start d power) (start + 1) bs

view-reading : (start : ℕ) (d : Disk) (power c : ℕ) → view (reading start d power) c ≡ d c
unfolding reboot
view-reading start d power c = view-bread (reboot d power) start c

reading_rest :
    (start : ℕ) (d : Disk) (power : ℕ)
    → ((reading start d power).disk ≡ d) × ((reading start d power).power ≡ power)
unfolding reboot bread
reading_rest start d power = (refl, refl)

boot_lem :
    (start : ℕ) (d : Disk) (power : ℕ) (bs : List ℕ)
    → decode (d start) ≡ bs
    → boot start d power ≡ (write_head (installing start d power bs) start []).disk
unfolding recover_from_log read_head
boot_lem start d power bs e =
    ap (λ h. (write_head (installing start d power h) start []).disk)
      (ap decode (view-reading start d power start) ∙ e)

-- Recovery of an empty log changes nothing.
boot-Clean :
    (start : ℕ) (old d : Disk) (power : ℕ)
    → Clean start old d
    → Clean start old (boot start d power)
unfolding install_trans
boot-Clean start old d power v =
    let r : Buffers = reading start d power in
    let e : (boot start d power ≡ (write_head r start []).disk) =
      boot_lem start d power [] v.empty in
    let (f, g) = reading_rest start d power in
    record {
      empty = elim (Bool-cases (ltb 0 r.power)) [
        | inl p ↦
            ap (λ h. decode (h start)) e
            ∙ ap decode (ground (arith, write_head-disk r start [] start, p))
            ∙ decode-encode (view r start) []
        | inr p ↦
            ap (λ h. decode (h start)) e
            ∙ ap decode (ground (arith, write_head-disk r start [] start, p))
            ∙ ap (λ h. decode (h start)) f
            ∙ v.empty
      ];
      homes = λ c k.
          ap (λ h. h c) e
          ∙ ground (arith, write_head-disk r start [] c, k)
          ∙ ap (λ h. h c) f
          ∙ v.homes c k;
    }

module _ (start : ℕ) (new : Disk) (bs : List ℕ) (d : Disk) (power : ℕ)
    (v : Committed start new bs d) where
  abbrev r : Buffers
  r = reading start d power

  abbrev t : Buffers
  t = installing start d power bs

  installed : Installed new r bs t
  installed =
      install_trans-Installed bs true new r (start + 1)
        (Outside-log start (length bs) bs v.short v.outside)
        (Logged-same bs new d (view r) (start + 1) (λ c p q. view-reading start d power c) v.logged)

  start_ne : elem start bs ≡ false
  start_ne = Outside-ne start (suc log_blocks) start bs v.outside (omega arith) (omega arith)

  kept : (c : ℕ) → elem c bs ≡ false → t.disk c ≡ d c
  kept c e = (installed.rest c e).1 ∙ ap (λ h. h c) (reading_rest start d power).0

  booted : (c : ℕ) → boot start d power c ≡ (write_head t start []).disk c
  booted c = ap (λ h. h c) (boot_lem start d power bs v.header)

  -- Power fails before the header is cleared: the log is still whole.
  boot-Committed : power ≤ length bs → Committed start new bs (boot start d power)
  boot-Committed h =
      let same : ((c : ℕ) → boot start d power c ≡ t.disk c) = λ c.
        booted c
        ∙ ground
            (arith, write_head-disk t start [] c, installed.left, (reading_rest start d power).1) in
      record {
        header = ap decode (same start ∙ kept start start_ne) ∙ v.header;
        short = v.short;
        outside = v.outside;
        logged =
            Logged-same bs new d (boot start d power) (start + 1)
              (λ c p q.
                same c
                ∙ kept c (
                    Outside-ne start (suc log_blocks) c bs v.outside (omega arith)
                      (omega (arith, v.short))))
              v.logged;
        homes = λ c k e. same c ∙ kept c e ∙ v.homes c k e;
      }

  boot-installs : length bs < power → Clean start new (boot start d power)
  boot-installs h =
      let on : 0 < t.power = omega (arith, installed.left, (reading_rest start d power).1) in
      record {
        empty =
            ap decode (booted start ∙ ground (arith, write_head-disk t start [] start, on))
            ∙ decode-encode (view t start) [];
        homes = λ c k.
            booted c
            ∙ ground (arith, write_head-disk t start [] c, k)
            ∙ elim (Bool-cases (elem c bs)) [
              | inl e ↦ installed.every (omega (arith, (reading_rest start d power).1)) c e
              | inr e ↦ kept c e ∙ v.homes c k e
            ];
      }

-- Boots that fail at any point, one after the other.
pub boots : ℕ → Disk → List ℕ → Disk
boots start d [] = d
boots start d (p ∷ ps) = boots start (boot start d p) ps

boots-Clean :
    (ps : List ℕ) (start : ℕ) (old d : Disk)
    → Clean start old d
    → Clean start old (boots start d ps)
unfolding boots
boots-Clean [] start old d v = v
boots-Clean (p ∷ ps) start old d v =
    boots-Clean ps start old (boot start d p) (boot-Clean start old d p v)

boots-Committed :
    (ps : List ℕ) (start : ℕ) (new : Disk) (bs : List ℕ) (d : Disk)
    → Committed start new bs d
    → Committed start new bs (boots start d ps) ⊎ Clean start new (boots start d ps)
unfolding boots
boots-Committed [] start new bs d v = inl v
boots-Committed (p ∷ ps) start new bs d v = elim (Bool-cases (ltb (length bs) p)) [
  | inl h ↦ inr (
      boots-Clean ps start new (boot start d p)
        (boot-installs start new bs d p v (ground (arith, h))))
  | inr h ↦
      boots-Committed ps start new bs (boot start d p)
        (boot-Committed start new bs d p v (ground (arith, h)))
]

-- A commit from a ready state that stops after any number of disk writes, then boots whose recovery
-- fails at any point, then one with power for more than LOGBLOCKS disk writes: the log on disk is
-- empty, and the home blocks are all as before the commit, or all as the transaction left them.
pub commit-atomic :
    (start : ℕ) (bs : List ℕ) (s : Buffers) (ps : List ℕ) (p : ℕ)
    → IsReady start bs s
    → log_blocks < p
    → let d = boot start (boots start (commit_blocks s start bs).disk ps) p in
      Clean start s.disk d ⊎ Clean start (view s) d
commit-atomic start bs s ps p v h = elim (commit_blocks-crash start bs s v) [
  | inl c ↦ inl (boot-Clean start s.disk _ p (boots-Clean ps start s.disk _ c))
  | inr (inr c) ↦ inr (boot-Clean start (view s) _ p (boots-Clean ps start (view s) _ c))
  | inr (inl c) ↦ inr (elim (boots-Committed ps start (view s) bs _ c) [
    | inl k ↦ boot-installs start (view s) bs _ p k (omega (arith, v.short))
    | inr k ↦ boot-Clean start (view s) _ p k
  ])
]
