-- ===== src/Files/Tests.antt =====
-- Concrete runs of kernel/gc.c and of sys_memcreate.
use mini_os_design.Common.{
  ℕ, ◌≡◌, List, [], ◌∷◌, Option, none, some, true, false, get_elem?, refl, arith, ok, panic,
}
use mini_os_design.Common.Machine.{pa2idx}
use mini_os_design.Common.Int.{pos}
use mini_os_design.Kalloc.{Kmem, no_rmap, update}
use mini_os_design.Kalloc.Invariant.{IsValid}
use mini_os_design.Files.{
  fd_mem, File, fd_none, MemFile, Files, sys_memcreate, fileclose, filealloc, memfile_create,
}
use mini_os_design.Files.Collect.{Owned}
use mini_os_design.Files.Memcreate.{memcreate_dangles}
use mini_os_design.Files.Content.{filewrite_mem, fileread_mem, bytes_from}
use mini_os_design.Files.Content.ReadWrite.{fileread_mem-filewrite_mem}

abbrev first_page : ℕ
first_page = 0x87ff_e000

-- Of the last two pages of memory, the first is in use.
abbrev one_used : Kmem
one_used = record {
  use_lock = true;
  freelist = record { addr = 0x87ff_f000; num_pages = 1 } ∷ [];
  ref_count = update (λ _. 0) (pa2idx first_page) 1;
  reverse_map = λ _. no_rmap;
  mem = λ _. 0;
}

one_used-IsValid : IsValid first_page one_used
one_used-IsValid = record {
  chain = (omega arith, refl, omega arith, omega arith, tt);
  agrees = λ a lo hi. ground arith;
}

-- A file with a page, deleted and closed.
abbrev dead_file : MemFile
dead_file = record {
  ref_count = 0;
  size = 3;
  page = first_page;
  bytes = λ _. 5;
  is_marked_deleted = true;
}

abbrev free_entry : File
free_entry = record {
  kind = fd_none;
  ref = 0;
  readable = false;
  writable = false;
  pipe = 0;
  ip = 0;
  memf = 0;
  off = 0;
  major = 0;
}

-- No slot for an in-memory file can be reused before the next collection.
abbrev littered : Files
littered = record { file = free_entry ∷ []; memfiles = dead_file ∷ []; kmem = one_used }

littered-Owned : Owned first_page one_used.ref_count littered.memfiles
littered-Owned = (λ h. (omega arith, refl, omega arith, refl, tt), tt)

memcreate_dangles_example :
    (s' : Files) × (ofile' : List (Option ℕ)) × (sys_memcreate littered (none ∷ [])
      ≡ ok (s', ofile', none))
    × (get_elem? ofile' 0 ≡ some (some 0))
    × (fileclose s' 0 ≡ panic "fileclose")
unfolding filealloc memfile_create
memcreate_dangles_example = memcreate_dangles littered (none ∷ []) 0 0 refl refl refl

-- An open in-memory file with an empty page.
abbrev open_file : File
open_file = record free_entry { kind = fd_mem; ref = 1; readable = true; writable = true }

abbrev empty_file : MemFile
empty_file = record dead_file { ref_count = 1; size = 0; is_marked_deleted = false }

abbrev opened : Files
opened = record { file = open_file ∷ []; memfiles = empty_file ∷ []; kmem = one_used }

fileread_mem-filewrite_mem_example :
    (s' : Files) × (s'' : Files) × (filewrite_mem opened 0 (λ j. j) 9 (pos 3) ≡ ok (s', pos 3))
    × (fileread_mem s' 0 8 (pos 7) ≡ ok (s'', bytes_from (λ j. j) 0 3, pos 3))
fileread_mem-filewrite_mem_example =
    fileread_mem-filewrite_mem opened 0 (λ j. j) 9 8 2 7 open_file empty_file refl refl refl refl
      refl refl (λ e. cc) (omega arith) (omega arith) (omega arith) (omega arith) (omega arith)

-- The entry was last used at an offset past the page.
abbrev stale_file : File
stale_file = record open_file { off = 5000 }

-- A free entry with the offset of its last use, and a free slot.
abbrev before_create : Files
before_create = record {
  file = record free_entry { off = 5000 } ∷ [];
  memfiles = record dead_file { page = 0; is_marked_deleted = false } ∷ [];
  kmem = one_used;
}
