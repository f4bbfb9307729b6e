-- ===== src/Files/Content/ReadWrite.antt =====
-- Writing and reading an in-memory file (kernel/file.c).
use mini_os_design.Common.{
  ℕ, zero, suc, ◌+◌, ◌-◌, ◌≤◌, ◌<◌, ◌≡◌, ◌≢◌, some, true, false, not, ◌||◌, ltb, leb, ◌==◌,
  if◌then◌else◌, refl, ap, ◌∙◌, arith, Bool-cases, inl, inr, get_elem?, get_elem?-set_self, ok,
}
use mini_os_design.Common.Get.{get_length}
use mini_os_design.Common.Int.{ℤ, pos, negsuc, ◌-ℤ◌, ◌≤ℤ◌}
use mini_os_design.Files.{File, MemFile, Files, file_at, set_file, set_memfile}
use mini_os_design.Files.Content.{
  at_most, stored_bytes, bytes_from, memfile_at, with_page, write_bytes, filewrite_mem, read_bytes,
  fileread_mem,
}

-- The slot `m` after a write at `off`: `mf'` is as `mf` but inside the page from `off` on.
abbrev pub Kept : Files → ℕ → MemFile → ℕ → Type 0
Kept s m mf off =
    (mf' : MemFile) × (get_elem? s.memfiles m ≡ some mf')
    × (mf'.size ≤ 4096)
    × (mf'.page ≡ mf.page)
    × ((j : ℕ) → 4096 ≤ j → mf'.bytes j ≡ mf.bytes j)
    × ((j : ℕ) → j < off → mf'.bytes j ≡ mf.bytes j)

write_bytes-Kept :
    (k : ℤ) (s : Files) (i : ℕ) (f : File) (mf : MemFile) (user : ℕ → ℕ) (avail : ℕ)
    → get_elem? s.memfiles f.memf ≡ some mf
    → mf.size ≤ 4096
    → k ≤ℤ pos 4096 -ℤ pos f.off
    → Kept (write_bytes s i f mf user avail k).0 f.memf mf f.off
unfolding write_bytes ◌-ℤ◌
write_bytes-Kept (negsuc k) s i f mf user avail g h b =
    (mf, g, h, refl, (λ j l. refl), (λ j l. refl))
write_bytes-Kept (pos zero) s i f mf user avail g h b =
    (mf, g, h, refl, (λ j l. refl), (λ j l. refl))
write_bytes-Kept (pos (suc k)) s i f mf user avail g h b =
    let z : f.off + suc k ≤ 4096 = ground arith in
    elim (Bool-cases (leb (suc k) avail)) [
      | inl e ↦ rw e (
        _,
        get_elem?-set_self s.memfiles f.memf _ (get_length s.memfiles f.memf g),
        ground arith,
        refl,
        (λ j l. ground arith),
        (λ j l. ground arith),
      )
      | inr e ↦ rw e (
        _,
        get_elem?-set_self s.memfiles f.memf _ (get_length s.memfiles f.memf g),
        h,
        refl,
        (λ j l. ground (arith, e)),
        (λ j l. ground arith),
      )
    ]

at_most-le : (n max : ℤ) → at_most n max ≤ℤ max
at_most-le n max = ground arith

with_page-same : (s : Files) (m : ℕ) (mf : MemFile) → mf.page ≢ 0 → with_page s m mf ≡ (s, some mf)
unfolding with_page
with_page-same s m mf p = let q : mf.page == 0 ≡ false = ground (arith, p) in rw (q, with_page) refl

-- A write to an open, writable file that has a page.
filewrite_mem_open :
    (s : Files) (i : ℕ) (user : ℕ → ℕ) (avail : ℕ) (n : ℤ) (f : File) (mf : MemFile)
    → get_elem? s.file i ≡ some f
    → get_elem? s.memfiles f.memf ≡ some mf
    → mf.page ≢ 0
    → (not f.writable || mf.is_marked_deleted) ≡ false
    → filewrite_mem s i user avail n
      ≡ ok (write_bytes s i f mf user avail (at_most n (pos 4096 -ℤ pos f.off)))
unfolding filewrite_mem
filewrite_mem_open s i user avail n f mf g h p e =
    let w = with_page-same s f.memf mf p in
    let w₁ : (with_page s f.memf mf).1 ≡ some mf = ap (λ x. x.1) w in
    let w₀ : (with_page s f.memf mf).0 ≡ s = ap (λ x. x.0) w in
    rw (g, filewrite_mem, file_at, h, memfile_at, e, w₁)
      (ap (λ t. ok (write_bytes t i f mf user avail (at_most n (pos 4096 -ℤ pos f.off)))) w₀)

-- For an in-memory file that has a page and whose size is within it, filewrite returns for any
-- offset, length and accessible part of the caller's buffer: the file keeps its page, its size
-- stays within it, and no byte past the page or before the offset changes.
filewrite_mem_lem :
    (s : Files) (i : ℕ) (user : ℕ → ℕ) (avail : ℕ) (n : ℤ) (f : File) (mf : MemFile)
    → get_elem? s.file i ≡ some f
    → get_elem? s.memfiles f.memf ≡ some mf
    → mf.page ≢ 0
    → mf.size ≤ 4096
    → (s' : Files) × (r : ℤ) × (filewrite_mem s i user avail n ≡ ok (s', r))
      × Kept s' f.memf mf f.off
unfolding filewrite_mem
filewrite_mem_lem s i user avail n f mf g h p z =
    elim (Bool-cases (not f.writable || mf.is_marked_deleted)) [
      | inl e ↦ (
        s,
        negsuc 0,
        rw (g, filewrite_mem, file_at, h, memfile_at, e) refl,
        (mf, h, z, refl, (λ j l. refl), (λ j l. refl)),
      )
      | inr e ↦
          let k = at_most n (pos 4096 -ℤ pos f.off) in
          (
            (write_bytes s i f mf user avail k).0,
            (write_bytes s i f mf user avail k).1,
            filewrite_mem_open s i user avail n f mf g h p e,
            write_bytes-Kept k s i f mf user avail h z (at_most-le n (pos 4096 -ℤ pos f.off)),
          )
    ]

bytes_from-same :
    (n i : ℕ) (b c : ℕ → ℕ)
    → ((j : ℕ) → i ≤ j → j < i + n → b j ≡ c j)
    → bytes_from b i n ≡ bytes_from c i n
unfolding bytes_from
bytes_from-same zero i b c h = refl
bytes_from-same (suc n) i b c h =
    let e : b i ≡ c i = h i (omega arith) (omega arith) in
    let r : bytes_from b (i + 1) n ≡ bytes_from c (i + 1) n =
      bytes_from-same n (i + 1) b c (λ j l u. h j (omega arith) (omega arith)) in
    cc

-- A read of a whole file of `suc k` bytes.
reads_all :
    (s : Files) (i avail l k : ℕ) (f : File) (mf : MemFile)
    → get_elem? s.file i ≡ some f
    → get_elem? s.memfiles f.memf ≡ some mf
    → (not f.readable || mf.is_marked_deleted) ≡ false
    → mf.page ≢ 0
    → mf.size ≡ suc k
    → suc k ≤ l
    → suc k ≤ avail
    → (s' : Files) × (fileread_mem s i avail (pos l)
        ≡ ok (s', bytes_from mf.bytes 0 (suc k), pos (suc k)))
unfolding fileread_mem read_bytes
reads_all s i avail l k f mf g h e p z m a =
    let q : (mf.page == 0 || mf.size == 0) ≡ false = ground (arith, p) in
    let t : at_most (pos l) (pos mf.size) ≡ pos (suc k) = ground arith in
    let u : leb (suc k) avail ≡ true = ground arith in
    (
      set_file (set_file s i (record f { off = 0 })) i (record f { off = suc k }),
      rw (g, fileread_mem, file_at, h, memfile_at, e, q, t, read_bytes, u) refl,
    )

-- For an open in-memory file that is readable, writable, not deleted, has a page, stands at offset
-- 0 and holds at most as many bytes as are written, filewrite of between 1 and 4096 bytes that the
-- caller can access returns their number, and a fileread of at least as many bytes then delivers
-- exactly them.
pub fileread_mem-filewrite_mem :
    (s : Files) (i : ℕ) (user : ℕ → ℕ) (avail avail' k l : ℕ) (f : File) (mf : MemFile)
    → get_elem? s.file i ≡ some f
    → get_elem? s.memfiles f.memf ≡ some mf
    → f.writable ≡ true
    → f.readable ≡ true
    → f.off ≡ 0
    → mf.is_marked_deleted ≡ false
    → mf.page ≢ 0
    → mf.size ≤ suc k
    → suc k ≤ 4096
    → suc k ≤ avail
    → suc k ≤ l
    → suc k ≤ avail'
    → (s' : Files) × (s'' : Files) × (filewrite_mem s i user avail (pos (suc k))
        ≡ ok (s', pos (suc k)))
      × (fileread_mem s' i avail' (pos l) ≡ ok (s'', bytes_from user 0 (suc k), pos (suc k)))
unfolding write_bytes ◌-ℤ◌
fileread_mem-filewrite_mem s i user avail avail' k l f mf g h w r o d p z b a m a' =
    let t : at_most (pos (suc k)) (pos 4096 -ℤ pos f.off) ≡ pos (suc k) = ground arith in
    let u : leb (suc k) avail ≡ true = ground arith in
    let f' : File = record f { off = f.off + suc k } in
    let mf' : MemFile = record mf {
      bytes = stored_bytes mf.bytes f.off user (suc k);
      size = if ltb mf.size (f.off + suc k) then f.off + suc k else mf.size;
    } in
    let t' : Files = set_file (set_memfile s f.memf mf') i f' in
    let x : write_bytes s i f mf user avail (pos (suc k)) ≡ (t', pos (suc k)) = rw u refl in
    let e = filewrite_mem_open s i user avail (pos (suc k)) f mf g h p (ground arith) in
    let (s'', y) =
      reads_all t' i avail' l k f' mf' (get_elem?-set_self s.file i f' (get_length s.file i g))
        (get_elem?-set_self s.memfiles f.memf mf' (get_length s.memfiles f.memf h)) (ground arith) p
        (ground arith) m a' in
    (
      t',
      s'',
      e ∙ ap (λ v. ok (write_bytes s i f mf user avail v)) t ∙ ap ok x,
      y
          ∙ ap (λ bs. ok (s'', bs, pos (suc k)))
              (bytes_from-same (suc k) 0 mf'.bytes user (λ j c v. ground (arith, o))),
    )

-- A filewrite to a writable in-memory file that is not deleted, has a page, and stands at an offset
-- above 4096 writes nothing and returns 4096 minus the offset.
filewrite_mem_past_page :
    (s : Files) (i : ℕ) (user : ℕ → ℕ) (avail n : ℕ) (f : File) (mf : MemFile)
    → get_elem? s.file i ≡ some f
    → get_elem? s.memfiles f.memf ≡ some mf
    → mf.page ≢ 0
    → f.writable ≡ true
    → mf.is_marked_deleted ≡ false
    → 4096 < f.off
    → filewrite_mem s i user avail (pos n) ≡ ok (s, negsuc (f.off - 4096 - 1))
unfolding write_bytes ◌-ℤ◌
filewrite_mem_past_page s i user avail n f mf g h p w d far =
    let t : at_most (pos n) (pos 4096 -ℤ pos f.off) ≡ negsuc (f.off - 4096 - 1) = ground arith in
    filewrite_mem_open s i user avail (pos n) f mf g h p (ground arith)
    ∙ ap (λ v. ok (write_bytes s i f mf user avail v)) t
