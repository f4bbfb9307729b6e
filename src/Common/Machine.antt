-- ===== src/Common/Machine.antt =====
-- kernel/memlayout.h and kernel/riscv.h: the constants, and physical memory. A memory maps the byte
-- address of each 64-bit word, a multiple of 8, to the word; page contents and page-table entries
-- are only moved and filled a word at a time.
use mini_os_design.Common.{
  ℕ, ◌+◌, ◌-◌, ◌*◌, ◌/◌, ◌%◌, ◌^◌, Bool, ◌&&◌, leb, ltb, ◌==◌, if◌then◌else◌,
}

abbrev pub page_size : ℕ
page_size = 4096

abbrev pub kernbase : ℕ
kernbase = 0x8000_0000

-- KERNBASE + 128*1024*1024
abbrev pub phystop : ℕ
phystop = 0x8800_0000

-- 1L << (9 + 9 + 9 + 12 - 1)
abbrev pub maxva : ℕ
maxva = 2 ^ 38

-- PGROUNDUP on a `uint64`: & ~(PGSIZE-1) clears the low twelve bits.
abbrev pub pg_round_up : ℕ → ℕ
pg_round_up sz = (sz + page_size - 1) % 2 ^ 64 / page_size * page_size

abbrev pub pg_round_down : ℕ → ℕ
pg_round_down a = a / page_size * page_size

abbrev pub pa2idx : ℕ → ℕ
pa2idx pa = pa / page_size

abbrev pub Memory : Type 0
Memory = ℕ → ℕ

-- Is `a` one of the `len` bytes from `lo` on?
abbrev pub within : ℕ → ℕ → ℕ → Bool
within lo len a = leb lo a && ltb a (lo + len)

-- memset over whole words, each of which becomes `word`.
unfoldable pub fill : Memory → ℕ → ℕ → ℕ → Memory
fill mem pa len word a = if within pa len a then word else mem a

-- memmove of `len` bytes between two ranges that do not overlap.
unfoldable pub copy : Memory → ℕ → ℕ → ℕ → Memory
copy mem dst src len a = if within dst len a then mem (src + (a - dst)) else mem a

-- The store of one word.
abbrev pub store : Memory → ℕ → ℕ → Memory
store mem p w a = if a == p then w else mem a
