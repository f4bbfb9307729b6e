-- ===== src/Fs/Itable.antt =====
-- iget and idup of kernel/fs.c: the table of inodes in use.
pub mod Inodes
use mini_os_design.Common.{
  ℕ, ◌+◌, false, ◌&&◌, ◌==◌, ltb, if◌then◌else◌, Bool, none, some, Outcome, ok, panic, List,
  find_from, map_from,
}
use mini_os_design.Locks.{Sleeplock}

pub record Inode : Type 0 where
  pub dev : ℕ
  pub inum : ℕ
  pub ref : ℕ
  pub lock : Sleeplock
  pub valid : Bool
  pub type : ℕ
  pub major : ℕ
  pub minor : ℕ
  pub nlink : ℕ
  pub size : ℕ
  pub addrs : ℕ → ℕ

abbrev pub is_inode : ℕ → ℕ → Inode → Bool
is_inode dev inum p = ltb 0 p.ref && p.dev == dev && p.inum == inum

abbrev pub is_empty_slot : Inode → Bool
is_empty_slot p = p.ref == 0

-- A change of the entry `i`.
abbrev pub at_inode : ℕ → (Inode → Inode) → List Inode → List Inode
at_inode i f t = map_from (λ j p. if j == i then f p else p) 0 t

abbrev pub one_ref : Inode → Inode
one_ref p = record p { ref = p.ref + 1 }

-- The loop of iget, and its last lines, on the first empty entry that the loop remembers.
unfoldable pub iget : List Inode → ℕ → ℕ → Outcome (List Inode × ℕ)
iget t dev inum = elim (find_from (is_inode dev inum) 0 t) [
  | some i ↦ ok (at_inode i one_ref t, i)
  | none ↦ elim (find_from is_empty_slot 0 t) [
    | none ↦ panic "iget: no inodes"
    | some i ↦
        ok (at_inode i (λ p. record p { dev = dev; inum = inum; ref = 1; valid = false }) t, i)
  ]
]

idup : List Inode → ℕ → List Inode
idup t i = at_inode i one_ref t
