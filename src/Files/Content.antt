-- ===== src/Files/Content.antt =====
-- The FD_MEM branches of fileread and filewrite of kernel/file.c. What copyin and copyout meet in
-- the caller's memory is an argument: `user` holds its bytes, and the first `avail` of them can be
-- accessed. An offset is below 2 ^ 31, so `4096 - f->off` does not leave the range of `int`.
pub mod ReadWrite
use mini_os_design.Common.{
  ℕ, zero, suc, ◌+◌, ◌-◌, List, [], ◌∷◌, Option, none, some, Bool, not, ◌&&◌, ◌||◌, ltb, leb, ◌==◌,
  if◌then◌else◌, get_elem?, Outcome, ok, panic, ◌>>=◌,
}
use mini_os_design.Common.Int.{ℤ, pos, negsuc, ◌-ℤ◌, ltb_ℤ}
use mini_os_design.Kalloc.{kalloc}
use mini_os_design.Files.{File, MemFile, Files, file_at, set_file, set_memfile}

-- if(n > max) n = max;
abbrev pub at_most : ℤ → ℤ → ℤ
at_most n max = if ltb_ℤ max n then max else n

-- The page after `n` bytes from `user` are stored from `off` on.
abbrev pub stored_bytes : (ℕ → ℕ) → ℕ → (ℕ → ℕ) → ℕ → ℕ → ℕ
stored_bytes bytes off user n j = if leb off j && ltb j (off + n) then user (j - off) else bytes j

-- The `n` bytes from `i` on.
pub bytes_from : (ℕ → ℕ) → ℕ → ℕ → List ℕ
bytes_from bytes i zero = []
bytes_from bytes i (suc n) = bytes i ∷ bytes_from bytes (i + 1) n

-- What a memfile pointer reads; there is a slot behind every pointer of the kernel.
abbrev pub memfile_at : Files → ℕ → Outcome MemFile
memfile_at s m = elim (get_elem? s.memfiles m) [ none ↦ panic "no such file" | some mf ↦ ok mf ]

-- Give the file a page where it has none; `none` with no memory.
pub with_page : Files → ℕ → MemFile → Files × Option MemFile
with_page s m mf = if not (mf.page == 0) then (s, some mf) else elim (kalloc s.kmem).1 [
  | none ↦ (record s { kmem = (kalloc s.kmem).0 }, none)
  | some pa ↦
      let mf' = record mf { page = pa; bytes = λ _. 5 } in
      (set_memfile (record s { kmem = (kalloc s.kmem).0 }) m mf', some mf')
]

-- From `if(n > 0)` on, with `n` cut to the room in the page: the return value is the last part.
pub write_bytes : Files → ℕ → File → MemFile → (ℕ → ℕ) → ℕ → ℤ → Files × ℤ
write_bytes s i f mf user avail (negsuc k) = (s, negsuc k)
write_bytes s i f mf user avail (pos zero) = (s, pos 0)
write_bytes s i f mf user avail (pos (suc k)) =
    if leb (suc k) avail
    then (
      set_file
          (set_memfile s f.memf (record mf {
            bytes = stored_bytes mf.bytes f.off user (suc k);
            size = if ltb mf.size (f.off + suc k) then f.off + suc k else mf.size;
          }))
          i (record f { off = f.off + suc k }),
      pos (suc k),
    )
    else (
      set_memfile s f.memf (record mf { bytes = stored_bytes mf.bytes f.off user avail }),
      negsuc 0,
    )

-- filewrite of the in-memory file behind the open file `i`.
pub filewrite_mem : Files → ℕ → (ℕ → ℕ) → ℕ → ℤ → Outcome (Files × ℤ)
filewrite_mem s i user avail n = do
  f ← file_at s i
  mf ← memfile_at s f.memf
  ok (
      if not f.writable || mf.is_marked_deleted
      then (s, negsuc 0)
      else elim (with_page s f.memf mf).1 [
        | none ↦ ((with_page s f.memf mf).0, negsuc 0)
        | some mf' ↦
            write_bytes (with_page s f.memf mf).0 i f mf' user avail
              (at_most n (pos 4096 -ℤ pos f.off))
      ])

-- From `if(n > 0)` on, with `n` cut to the size and the offset reset: the bytes that reach the
-- caller, and the return value.
pub read_bytes : Files → ℕ → File → MemFile → ℕ → ℤ → Files × List ℕ × ℤ
read_bytes s i f mf avail (negsuc k) = (s, [], negsuc k)
read_bytes s i f mf avail (pos zero) = (s, [], pos 0)
read_bytes s i f mf avail (pos (suc k)) =
    if leb (suc k) avail
    then (set_file s i (record f { off = suc k }), bytes_from mf.bytes 0 (suc k), pos (suc k))
    else (s, bytes_from mf.bytes 0 avail, negsuc 0)

-- fileread of the in-memory file behind the open file `i`.
pub fileread_mem : Files → ℕ → ℕ → ℤ → Outcome (Files × List ℕ × ℤ)
fileread_mem s i avail n = do
  f ← file_at s i
  mf ← memfile_at s f.memf
  let s₀ = set_file s i (record f { off = 0 })
  ok (
      if not f.readable || mf.is_marked_deleted
      then (s, [], negsuc 0)
      else (if mf.page == 0 || mf.size == 0
          then (s₀, [], pos 0)
          else read_bytes s₀ i f mf avail (at_most n (pos mf.size))))
