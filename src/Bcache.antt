-- ===== src/Bcache.antt =====
-- kernel/bio.c and kernel/buf.h: the buffer cache. The list that `head` closes is a list of buffers,
-- the most recently used first; `id` is a buffer's index in `bcache.buf`. A critical section is one
-- step. `disk` is what virtio_disk_rw reads, by device and block.
pub mod Data
pub mod Order
pub mod Get
pub mod Release
pub mod Filled
mod Tests
use mini_os_design.Common.{
  ◌>>=◌, ◌>>◌, ℕ, zero, suc, ◌+◌, ◌-◌, ◌%◌, ◌^◌, true, false, not, ◌&&◌, ◌==◌, if◌then◌else◌, Bool,
  Option, none, some, Outcome, ok, panic, panic_if, List, [], ◌∷◌,
}
use mini_os_design.Locks.{Sleeplock, initsleeplock, acquiresleep, releasesleep, holdingsleep}
use mini_os_design.Log.Store.{DiskBlock}

pub record Buf : Type 0 where
  pub id : ℕ
  pub valid : Bool
  pub dev : ℕ
  pub blockno : ℕ
  pub lock : Sleeplock
  pub refcnt : ℕ
  pub contents : DiskBlock

-- `refcnt` is a `uint`.
abbrev pub one_more : ℕ → ℕ
one_more n = (n + 1) % 2 ^ 32

abbrev pub one_less : ℕ → ℕ
one_less n = (n + 2 ^ 32 - 1) % 2 ^ 32

-- The loop of binit after `n` buffers of a zeroed array.
binit : ℕ → List Buf
binit zero = []
binit (suc n) =
    record {
      id = n;
      valid = false;
      dev = 0;
      blockno = 0;
      lock = initsleeplock;
      refcnt = 0;
      contents = λ _. 0;
    }
    ∷ binit n

abbrev pub is_block : ℕ → ℕ → Buf → Bool
is_block dev blockno b = b.dev == dev && b.blockno == blockno

-- A buffer put before the rest that a loop leaves.
abbrev put_before : Buf → Option (List Buf × ℕ) → Option (List Buf × ℕ)
put_before b none = none
put_before b (some (bs, i)) = some (b ∷ bs, i)

-- The first loop of bget: the cache and the buffer that it finds.
unfoldable pub reuse : ℕ → ℕ → List Buf → Option (List Buf × ℕ)
reuse dev blockno [] = none
reuse dev blockno (b ∷ bs) =
    let later = reuse dev blockno bs in
    if is_block dev blockno b
    then some (record b { refcnt = one_more b.refcnt } ∷ bs, b.id)
    else put_before b later

-- The second loop, which starts at the end of the list.
unfoldable pub recycle : ℕ → ℕ → List Buf → Option (List Buf × ℕ)
recycle dev blockno [] = none
recycle dev blockno (b ∷ bs) = elim (recycle dev blockno bs) [
  | some (bs', i) ↦ some (b ∷ bs', i)
  | none ↦
      if b.refcnt == 0
      then some (record b { dev = dev; blockno = blockno; valid = false; refcnt = 1 } ∷ bs, b.id)
      else none
]

-- bget up to its acquiresleep.
unfoldable pub bget : List Buf → ℕ → ℕ → Outcome (List Buf × ℕ)
unfolding reuse recycle
bget bs dev blockno = elim (reuse dev blockno bs) [
  | some r ↦ ok r
  | none ↦ elim (recycle dev blockno bs) [ some r ↦ ok r | none ↦ panic "bget: no buffers" ]
]

-- A change of the buffer `i`.
unfoldable pub change : ℕ → (Buf → Buf) → List Buf → List Buf
change i f [] = []
change i f (b ∷ bs) = if b.id == i then f b ∷ bs else b ∷ change i f bs

-- bread once it holds the lock of the buffer.
abbrev pub with_contents : (ℕ → ℕ → DiskBlock) → Buf → Buf
with_contents disk b = record b {
  contents = if b.valid then b.contents else disk b.dev b.blockno;
  valid = true;
}

unfoldable pub bread_locked : (ℕ → ℕ → DiskBlock) → List Buf → ℕ → List Buf
unfolding change
bread_locked disk bs i = change i (λ b. with_contents disk b) bs

-- What bwrite, by the process `me`, leaves on the disk.
pub bwrite : (ℕ → ℕ → DiskBlock) → ℕ → Buf → Outcome (ℕ → ℕ → DiskBlock)
bwrite disk me b = do
  panic_if (not (holdingsleep me b.lock)) "bwrite"
  ok (λ dev blockno. if is_block dev blockno b then b.contents else disk dev blockno)

-- The buffer `i` and the list without it.
unfoldable pub unlink : ℕ → List Buf → Option (Buf × List Buf)
unlink i [] = none
unlink i (b ∷ bs) =
    let later = unlink i bs in
    if b.id == i then some (b, bs) else elim later [ none ↦ none | some (x, xs) ↦ some (x, b ∷ xs) ]

-- brelse by the process `me` of a buffer of the cache.
unfoldable pub brelse : ℕ → List Buf → ℕ → Outcome (List Buf)
unfolding unlink change
brelse me bs i = elim (unlink i bs) [
  | none ↦ panic "not a buffer"
  | some (b, rest) ↦
      let b' = record b { lock = releasesleep b.lock; refcnt = one_less b.refcnt } in
      if not (holdingsleep me b.lock)
      then panic "brelse"
      else ok (if b'.refcnt == 0 then b' ∷ rest else change i (λ _. b') bs)
]

pub bpin : List Buf → ℕ → List Buf
unfolding change
bpin bs i = change i (λ b. record b { refcnt = one_more b.refcnt }) bs

pub bunpin : List Buf → ℕ → List Buf
unfolding change
bunpin bs i = change i (λ b. record b { refcnt = one_less b.refcnt }) bs
