-- ===== src/Files.antt =====
-- kernel/file.c, kernel/gc.c and the in-memory file calls of kernel/sysfile.c: the table of open
-- files, the table of in-memory files with their pages, and the collector. A pointer into a table
-- is an index; the pipe and the inode of a file are named by numbers.
pub mod Collect
pub mod Memcreate
pub mod Content
pub mod Calls
mod Tests
use mini_os_design.Common.{
  ℕ, ◌+◌, ◌-◌, ◌%◌, ◌^◌, List, [], ◌∷◌, Option, none, some, Bool, true, false, not, ◌&&◌, ◌||◌, ltb,
  leb, ◌==◌, if◌then◌else◌, map_from, find_from, get_elem?, set, Outcome, ok, panic, ◌>>=◌, ◌>>◌,
  panic_if,
}
use mini_os_design.Kalloc.{Kmem, kalloc, kfree}

pub data FileKind : Type 0 where
  fd_none fd_pipe fd_inode fd_device fd_mem : FileKind

-- `struct file`.
pub record File : Type 0 where
  pub kind : FileKind
  pub ref : ℕ
  pub readable : Bool
  pub writable : Bool
  pub pipe : ℕ
  pub ip : ℕ
  pub memf : ℕ
  pub off : ℕ
  pub major : ℕ

-- `struct memfile`: `page` is its pointer `data`, 0 for none, and `bytes` what the page holds.
pub record MemFile : Type 0 where
  pub ref_count : ℕ
  pub size : ℕ
  pub page : ℕ
  pub bytes : ℕ → ℕ
  pub is_marked_deleted : Bool

pub record Files : Type 0 where
  pub file : List File
  pub memfiles : List MemFile
  pub kmem : Kmem

abbrev pub is_free : File → Bool
is_free f = f.ref == 0

abbrev pub set_file : Files → ℕ → File → Files
set_file s i f = record s { file = set s.file i f }

abbrev pub set_memfile : Files → ℕ → MemFile → Files
set_memfile s i m = record s { memfiles = set s.memfiles i m }

pub filealloc : Files → Files × Option ℕ
filealloc s = elim (find_from is_free 0 s.file) [
  | none ↦ (s, none)
  | some i ↦ elim (get_elem? s.file i) [
    | none ↦ (s, none)
    | some f ↦ (set_file s i (record f { ref = 1 }), some i)
  ]
]

-- What a pointer to a file reads; there is a file behind every pointer of the kernel.
abbrev pub file_at : Files → ℕ → Outcome File
file_at s i = elim (get_elem? s.file i) [ none ↦ panic "no such file" | some f ↦ ok f ]

pub filedup : Files → ℕ → Outcome Files
filedup s i = do
  f ← file_at s i
  panic_if (ltb f.ref 1) "filedup"
  ok (set_file s i (record f { ref = f.ref + 1 }))

-- What is left to do once the last reference to a file is closed.
pub data Closing : Type 0 where
  nothing : Closing
  close_pipe : ℕ → Bool → Closing
  put_inode : ℕ → Closing

-- `ff.memf->ref_count--` on a `uint`.
abbrev pub release_memfile : Files → ℕ → Files
release_memfile s m = elim (get_elem? s.memfiles m) [
  | none ↦ s
  | some mf ↦ set_memfile s m (record mf { ref_count = (mf.ref_count + 2 ^ 32 - 1) % 2 ^ 32 })
]

abbrev pub close_last : Files → File → Files × Closing
close_last s f = elim f.kind [
  | fd_none ↦ (s, nothing)
  | fd_pipe ↦ (s, close_pipe f.pipe f.writable)
  | fd_inode ↦ (s, put_inode f.ip)
  | fd_device ↦ (s, put_inode f.ip)
  | fd_mem ↦ (release_memfile s f.memf, nothing)
]

pub fileclose : Files → ℕ → Outcome (Files × Closing)
fileclose s i = do
  f ← file_at s i
  panic_if (ltb f.ref 1) "fileclose"
  ok (
      if ltb 0 (f.ref - 1)
      then (set_file s i (record f { ref = f.ref - 1 }), nothing)
      else close_last (set_file s i (record f { ref = 0; kind = fd_none })) f)

abbrev pub is_reusable : MemFile → Bool
is_reusable m = (m.ref_count == 0) && not m.is_marked_deleted

-- memfile_create: the index of the new file, or `none` with no free slot or no memory.
pub memfile_create : Files → Files × Option ℕ
memfile_create s = elim (find_from is_reusable 0 s.memfiles) [
  | none ↦ (s, none)
  | some i ↦
      let (kmem, page) = kalloc s.kmem in
      elim page [
        | none ↦ (
          record s {
            memfiles =
                map_from
                  (λ j m.
                    if j == i
                    then record m { ref_count = 0; size = 0; is_marked_deleted = false; page = 0 }
                    else m)
                  0 s.memfiles;
            kmem = kmem;
          },
          none,
        )
        | some pa ↦ (
          record s {
            memfiles =
                map_from
                  (λ j m.
                    if j == i
                    then record {
                      ref_count = 1;
                      size = 0;
                      page = pa;
                      bytes = λ _. 5;
                      is_marked_deleted = false;
                    }
                    else m)
                  0 s.memfiles;
            kmem = kmem;
          },
          some i,
        )
      ]
]

-- memfile_delete of a file in the table: whether it succeeds.
pub memfile_delete : Files → ℕ → Files × Bool
memfile_delete s m = elim (get_elem? s.memfiles m) [
  | none ↦ (s, false)
  | some mf ↦
      if ltb mf.ref_count 1
      then (s, false)
      else (set_memfile s m (record mf { is_marked_deleted = true }), true)
]

abbrev pub is_garbage : MemFile → Bool
is_garbage m = m.is_marked_deleted && m.ref_count == 0

-- The slot that the collector leaves.
abbrev pub collected : MemFile → MemFile
collected m = record m { ref_count = 0; size = 0; page = 0; is_marked_deleted = false }

-- The loop of garbage_collect.
pub collect : ℕ → Kmem → List MemFile → Outcome (Kmem × List MemFile)
collect kernel_end kmem [] = ok (kmem, [])
collect kernel_end kmem (m ∷ ms) = do
  kmem' ← (if is_garbage m && not (m.page == 0) then kfree kernel_end kmem m.page else ok kmem)
  (kmem'', rest) ← collect kernel_end kmem' ms
  ok (kmem'', (if is_garbage m then collected m else m) ∷ rest)

pub garbage_collect : ℕ → Files → Outcome Files
garbage_collect kernel_end s = do
  (kmem, ms) ← collect kernel_end s.kmem s.memfiles
  ok (record s { kmem = kmem; memfiles = ms })

-- fdalloc: the first free descriptor of the process takes the file.
abbrev pub is_closed : Option ℕ → Bool
is_closed none = true
is_closed (some _) = false

pub fdalloc : List (Option ℕ) → ℕ → List (Option ℕ) × Option ℕ
fdalloc ofile f = elim (find_from is_closed 0 ofile) [
  | none ↦ (ofile, none)
  | some fd ↦ (set ofile fd (some f), some fd)
]

-- sys_memcreate over the descriptors `ofile` of the process: the descriptor, or `none` for -1.
pub sys_memcreate : Files → List (Option ℕ) → Outcome (Files × List (Option ℕ) × Option ℕ)
sys_memcreate s ofile = elim (filealloc s).1 [
  | none ↦ ok (s, ofile, none)
  | some i ↦
      let s₁ = (filealloc s).0 in
      let (ofile', fd) = fdalloc ofile i in
      elim fd [
        | none ↦ do (s₂, _) ← fileclose s₁ i; ok (s₂, ofile', none)
        | some d ↦
            let (s₂, mf) = memfile_create s₁ in
            elim mf [
              | none ↦ do (s₃, _) ← fileclose s₂ i; ok (s₃, ofile', none)
              | some m ↦ do
                f ← file_at s₂ i
                ok (
                  set_file s₂ i
                      (record f { kind = fd_mem; memf = m; readable = true; writable = true }),
                  ofile',
                  some d,
                )
            ]
      ]
]
