-- ===== src/Files/Memcreate.antt =====
-- sys_memcreate of kernel/sysfile.c, when it succeeds and when memfile_create fails.
use mini_os_design.Common.{
  true, ℕ, ◌≡◌, List, refl, ap, ◌∙◌, Option-cases, inl, inr, ok, panic, Option, none, some,
  find_from, get_elem?, set, get_elem?-set_self,
}
use mini_os_design.Common.Get.{find-some, get_length}
use mini_os_design.Kalloc.{kalloc}
use mini_os_design.Files.{
  File, FileKind, fd_none, fd_pipe, fd_inode, fd_device, fd_mem, Files, Closing, close_last,
  release_memfile, file_at, filealloc, file_at, fileclose, memfile_create, fdalloc, sys_memcreate,
  is_free, is_closed, is_reusable, set_file,
}

filealloc_found :
    (s : Files) (i : ℕ)
    → find_from is_free 0 s.file ≡ some i
    → (f : File) × (filealloc s ≡ (set_file s i (record f { ref = 1 }), some i))
      × (get_elem? (set s.file i (record f { ref = 1 })) i ≡ some (record f { ref = 1 }))
unfolding filealloc
filealloc_found s i e =
    let (f, g, _) = find-some is_free s.file i e in
    (
      f,
      rw (e, filealloc, g) refl,
      get_elem?-set_self s.file i (record f { ref = 1 }) (get_length s.file i g),
    )

-- memfile_create does not touch the table of open files.
memfile_create-file : (s : Files) → (memfile_create s).0.file ≡ s.file
unfolding memfile_create
memfile_create-file s = elim (Option-cases (find_from is_reusable 0 s.memfiles)) [
  | inl e ↦ rw (e, memfile_create) refl
  | inr (i, e) ↦ elim (Option-cases (kalloc s.kmem).1) [
    | inl n ↦ rw (e, memfile_create, n) refl
    | inr (pa, n) ↦ rw (e, memfile_create, n) refl
  ]
]

release_memfile-file : (s : Files) (m : ℕ) → (release_memfile s m).file ≡ s.file
release_memfile-file s m = elim (Option-cases (get_elem? s.memfiles m)) [
  | inl e ↦ rw (e, release_memfile) refl
  | inr (mf, e) ↦ rw (e, release_memfile) refl
]

close_last-file :
    (s : Files) (k : FileKind) (f : File) → f.kind ≡ k → (close_last s f).0.file ≡ s.file
close_last-file s fd_none f e = rw e refl
close_last-file s fd_pipe f e = rw e refl
close_last-file s fd_inode f e = rw e refl
close_last-file s fd_device f e = rw e refl
close_last-file s fd_mem f e = rw e (release_memfile-file s f.memf)

closed_twice :
    (s : Files) (i : ℕ) {f : File}
    → get_elem? s.file i ≡ some f
    → f.ref ≡ 0
    → fileclose s i ≡ panic "fileclose"
unfolding fileclose
closed_twice s i e z = rw (e, fileclose, file_at, z) refl

-- The last reference is closed once, and only once.
close_once :
    (s : Files) (i : ℕ) {f : File}
    → get_elem? s.file i ≡ some f
    → f.ref ≡ 1
    → (s' : Files) × (c : Closing) × (fileclose s i ≡ ok (s', c))
      × (fileclose s' i ≡ panic "fileclose")
unfolding fileclose
close_once s i {f} e z =
    let t = set_file s i (record f { ref = 0; kind = fd_none }) in
    let g = close_last-file t f.kind f refl in
    (
      (close_last t f).0,
      (close_last t f).1,
      rw (e, fileclose, file_at, z) refl,
      closed_twice (close_last t f).0 i
          (ap (λ l. get_elem? l i) g
            ∙ get_elem?-set_self s.file i (record f { ref = 0; kind = fd_none })
                (get_length s.file i e))
          refl,
    )

fdalloc_found :
    (ofile : List (Option ℕ)) (i d : ℕ)
    → find_from is_closed 0 ofile ≡ some d
    → fdalloc ofile i ≡ (set ofile d (some i), some d)
unfolding fdalloc
fdalloc_found ofile i d q = rw (q, fdalloc) refl

-- If a file and a descriptor are free but memfile_create fails, sys_memcreate answers with an
-- error, and the descriptor it took stays installed on the file that it closed: a fileclose of that
-- file panics.
pub memcreate_dangles :
    (s : Files) (ofile : List (Option ℕ)) (i d : ℕ)
    → find_from is_free 0 s.file ≡ some i
    → find_from is_closed 0 ofile ≡ some d
    → (memfile_create (filealloc s).0).1 ≡ none
    → (s' : Files) × (ofile' : List (Option ℕ)) × (sys_memcreate s ofile ≡ ok (s', ofile', none))
      × (get_elem? ofile' d ≡ some (some i))
      × (fileclose s' i ≡ panic "fileclose")
unfolding sys_memcreate
memcreate_dangles s ofile i d p q r =
    let (f, a, g) = filealloc_found s i p in
    let y : (filealloc s).1 ≡ some i = rw a refl in
    let z = fdalloc_found ofile i d q in
    let z₀ : (fdalloc ofile i).0 ≡ set ofile d (some i) = ap (λ o. o.0) z in
    let t = (memfile_create (filealloc s).0).0 in
    let h : get_elem? t.file i ≡ some (record f { ref = 1 }) =
      ap (λ l. get_elem? l i) (memfile_create-file (filealloc s).0) ∙ rw a g in
    let (s', c, v, w) = close_once t i h refl in
    let (x, k, _) = find-some is_closed ofile d q in
    (
      s',
      set ofile d (some i),
      rw (y, sys_memcreate, z, r, v) (ap (λ o. ok (s', o, none)) z₀),
      get_elem?-set_self ofile d (some i) (get_length ofile d k),
      w,
    )

-- If a file and a descriptor are free and memfile_create gives a slot, sys_memcreate installs the
-- file in the first free descriptor and returns it; the file is a readable and writable in-memory
-- file on that slot with one reference, and all else of it, its offset included, is as its last use
-- left it.
sys_memcreate_lem :
    (s : Files) (ofile : List (Option ℕ)) (i d m : ℕ) (f : File)
    → find_from is_free 0 s.file ≡ some i
    → get_elem? s.file i ≡ some f
    → find_from is_closed 0 ofile ≡ some d
    → (memfile_create (filealloc s).0).1 ≡ some m
    → (s' : Files) × (sys_memcreate s ofile ≡ ok (s', set ofile d (some i), some d))
      × (get_elem? s'.file i
          ≡ some (record f { ref = 1; kind = fd_mem; memf = m; readable = true; writable = true }))
      × (s'.memfiles ≡ (memfile_create (filealloc s).0).0.memfiles)
unfolding sys_memcreate filealloc
sys_memcreate_lem s ofile i d m f p g o c =
    let a : filealloc s ≡ (set_file s i (record f { ref = 1 }), some i) =
      rw (p, filealloc, g) refl in
    let y : (filealloc s).1 ≡ some i = ap (λ x. x.1) a in
    let t = (memfile_create (filealloc s).0).0 in
    let w : t.file ≡ set s.file i (record f { ref = 1 }) =
      memfile_create-file (filealloc s).0 ∙ ap (λ x. x.0.file) a in
    let h : get_elem? t.file i ≡ some (record f { ref = 1 }) =
      ap (λ x. get_elem? x i) w
      ∙ get_elem?-set_self s.file i (record f { ref = 1 }) (get_length s.file i g) in
    let new : File = record f {
      ref = 1;
      kind = fd_mem;
      memf = m;
      readable = true;
      writable = true;
    } in
    let z = fdalloc_found ofile i d o in
    let z₀ : (fdalloc ofile i).0 ≡ set ofile d (some i) = ap (λ x. x.0) z in
    (
      set_file t i new,
      rw (y, sys_memcreate, z, c, file_at, h) (ap (λ x. ok (set_file t i new, x, some d)) z₀),
      get_elem?-set_self t.file i new (get_length t.file i h),
      refl,
    )
