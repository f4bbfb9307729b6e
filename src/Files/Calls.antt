-- ===== src/Files/Calls.antt =====
-- The calls on descriptors of kernel/sysfile.c, and pipealloc of kernel/pipe.c, over the table of
-- open files. `ofile` is the array of the process, with an entry for each descriptor. A free entry
-- of the file table has the type FD_NONE, so a call that gives up on it has no more to close.
use mini_os_design.Common.{
  ℕ, List, Option, none, some, Bool, true, false, if◌then◌else◌, get_elem?, set, Outcome, ok, ◌>>=◌,
}
use mini_os_design.Common.Int.{ℤ, pos, negsuc}
use mini_os_design.Kalloc.{kalloc}
use mini_os_design.Files.{
  File, fd_pipe, fd_mem, Files, Closing, file_at, set_file, filealloc, filedup, fileclose, fdalloc,
  memfile_delete,
}

-- The descriptor that a system call was given, and its file.
argfd : List (Option ℕ) → ℤ → Option (ℕ × ℕ)
argfd ofile (negsuc k) = none
argfd ofile (pos fd) = elim (get_elem? ofile fd) [
  | none ↦ none
  | some entry ↦ elim entry [ none ↦ none | some f ↦ some (fd, f) ]
]

sys_dup : Files → List (Option ℕ) → ℤ → Outcome (Files × List (Option ℕ) × Option ℕ)
sys_dup s ofile fd = elim (argfd ofile fd) [
  | none ↦ ok (s, ofile, none)
  | some (_, f) ↦ elim (fdalloc ofile f).1 [
    | none ↦ ok (s, ofile, none)
    | some d ↦ do s' ← filedup s f; ok (s', (fdalloc ofile f).0, some d)
  ]
]

-- sys_close: what is left to close, or `none` for -1.
sys_close : Files → List (Option ℕ) → ℤ → Outcome (Files × List (Option ℕ) × Option Closing)
sys_close s ofile fd = elim (argfd ofile fd) [
  | none ↦ ok (s, ofile, none)
  | some (d, f) ↦ do (s', closing) ← fileclose s f; ok (s', set ofile d none, some closing)
]

abbrev is_mem : File → Bool
is_mem f = elim f.kind [ fd_mem ↦ true | _ ↦ false ]

-- sys_memdelete: whether it succeeds. (An open FD_MEM file has a memf.)
sys_memdelete : Files → List (Option ℕ) → ℤ → Outcome (Files × Bool)
sys_memdelete s ofile fd = elim (argfd ofile fd) [
  | none ↦ ok (s, false)
  | some (_, i) ↦ do f ← file_at s i; ok (if is_mem f then memfile_delete s f.memf else (s, false))
]

-- Both ends of a pipe in the page at `pa`.
pipe_ends : Files → ℕ → ℕ → ℕ → Outcome (Files × Option (ℕ × ℕ × ℕ))
pipe_ends s i j pa = do
  f ← file_at s i
  let s₁ = set_file s i (record f { kind = fd_pipe; readable = true; writable = false; pipe = pa })
  g ← file_at s₁ j
  ok (
    set_file s₁ j (record g { kind = fd_pipe; readable = false; writable = true; pipe = pa }),
    some (i, j, pa),
  )

-- pipealloc: the two files and the page of the pipe, or `none` for -1.
pipealloc : Files → Outcome (Files × Option (ℕ × ℕ × ℕ))
pipealloc s = elim (filealloc s).1 [
  | none ↦ ok (s, none)
  | some i ↦
      let s₁ = (filealloc s).0 in
      elim (filealloc s₁).1 [
        | none ↦ do (s₂, _) ← fileclose s₁ i; ok (s₂, none)
        | some j ↦
            let s₂ = (filealloc s₁).0 in
            let s₃ = record s₂ { kmem = (kalloc s₂.kmem).0 } in
            elim (kalloc s₂.kmem).1 [
              | none ↦ do (s₄, _) ← fileclose s₃ i; (s₅, _) ← fileclose s₄ j; ok (s₅, none)
              | some pa ↦ pipe_ends s₃ i j pa
            ]
      ]
]
