-- ===== src/Bcache/Tests.antt =====
-- Concrete runs of kernel/bio.c on a cache of two buffers.
use mini_os_design.Common.{ℕ, ◌+◌, ◌*◌, ◌≡◌, true, refl, arith, ok, List, [], ◌∷◌}
use mini_os_design.Locks.{holdingsleep, releasesleep}
use mini_os_design.Log.Store.{DiskBlock}
use mini_os_design.Bcache.{Buf, reuse, recycle, bget, unlink, brelse}
use mini_os_design.Bcache.Order.{recycled}
use mini_os_design.Bcache.Data.{IsCoherent}
use mini_os_design.Bcache.Get.{Gave, bget-Gave}
use mini_os_design.Locks.{initsleeplock}

-- A disk on which the blocks differ.
abbrev disk : ℕ → ℕ → DiskBlock
disk dev blockno word = 1000 * dev + blockno

-- Block 7 is in use by the process 3, block 5 by none.
abbrev busy_buf : Buf
busy_buf = record {
  id = 0;
  valid = true;
  dev = 1;
  blockno = 7;
  lock = record { locked = true; pid = 3 };
  refcnt = 1;
  contents = disk 1 7;
}

abbrev idle_buf : Buf
idle_buf = record {
  id = 1;
  valid = true;
  dev = 1;
  blockno = 5;
  lock = initsleeplock;
  refcnt = 0;
  contents = disk 1 5;
}

abbrev two : List Buf
two = idle_buf ∷ busy_buf ∷ []

two-IsCoherent : IsCoherent disk two
two-IsCoherent =
    ((λ n. (refl, tt)), ((omega arith), tt), (λ v r. refl), ((λ n. tt), tt, (λ v r. refl), tt))

-- Block 9 takes the place of block 5.
abbrev with_9 : List Buf
with_9 = recycled 1 9 idle_buf ∷ busy_buf ∷ []

bget_run : bget two 1 9 ≡ ok (with_9, 1)
unfolding bget reuse recycle
bget_run = refl

bget-Gave_example : Gave disk two with_9 1 1 9
bget-Gave_example =
    bget-Gave disk two with_9 1 9 1 two-IsCoherent (omega arith, (omega arith, tt)) bget_run

with_9-IsCoherent : IsCoherent disk with_9
with_9-IsCoherent =
    ((λ n. (refl, tt)), ((omega arith), tt), (λ v r. cc), ((λ n. tt), tt, (λ v r. refl), tt))

brelse_run :
    brelse 3 two 0 ≡ ok (record busy_buf { lock = initsleeplock; refcnt = 0 } ∷ idle_buf ∷ [])
unfolding brelse unlink holdingsleep releasesleep
brelse_run = refl
