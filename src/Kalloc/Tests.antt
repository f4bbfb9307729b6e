-- ===== src/Kalloc/Tests.antt =====
-- Concrete runs of kernel/kalloc.c on the last two pages of memory.
use mini_os_design.Common.{
  ℕ, ◌-◌, ◌/◌, ◌<◌, ◌≡◌, ◌||◌, [], ◌∷◌, some, true, ◌==◌, if◌then◌else◌, refl, arith, ok, panic,
}
use mini_os_design.Common.Machine.{page_size, pa2idx, within, pg_round_up}
use mini_os_design.Kalloc.{Kmem, no_rmap, update, kalloc, kalloc_contig, kfree, kfree_insert}
use mini_os_design.Kalloc.Blocks.{Fit, best_fit}
use mini_os_design.Kalloc.Blocks.Shape.{covers}
use mini_os_design.Kalloc.Invariant.{IsValid}
use mini_os_design.Kalloc.Alloc.{Allocated, kalloc_contig-Allocated}
use mini_os_design.Kalloc.Free.{kfree_lem}
use mini_os_design.Kalloc.Init.{kinit-IsValid}
use mini_os_design.Kalloc.Compact.{compact_memory, compact_from}
use mini_os_design.Kalloc.Reach.{Reachable, Reachable-inv, LowZero, allocated, booted}
use mini_os_design.Kalloc.RoundTrip.{kfree-kalloc}

abbrev first_page : ℕ
first_page = 0x87ff_e000

abbrev last_page : ℕ
last_page = 0x87ff_f000

-- Both pages are free.
abbrev two_free : Kmem
two_free = record {
  use_lock = true;
  freelist = record { addr = first_page; num_pages = 2 } ∷ [];
  ref_count = λ _. 0;
  reverse_map = λ _. no_rmap;
  mem = λ _. 0;
}

-- The first of them is in use.
abbrev one_used : Kmem
one_used = record {
  use_lock = true;
  freelist = record { addr = last_page; num_pages = 1 } ∷ [];
  ref_count = update (λ _. 0) (pa2idx first_page) 1;
  reverse_map = λ _. no_rmap;
  mem = λ _. 0;
}

two_free-IsValid : IsValid first_page two_free
two_free-IsValid = record {
  chain = (omega arith, refl, omega arith, omega arith, tt);
  agrees = λ a lo hi. ground arith;
}

one_used-IsValid : IsValid first_page one_used
one_used-IsValid = record {
  chain = (omega arith, refl, omega arith, omega arith, tt);
  agrees = λ a lo hi. ground arith;
}

kalloc_run : (kalloc two_free).1 ≡ some first_page
unfolding kalloc kalloc_contig best_fit
kalloc_run = refl

kfree-kalloc_example :
    (t : Kmem) × (kfree first_page (kalloc two_free).0 first_page ≡ ok t)
    × (t.freelist ≡ two_free.freelist)
    × ((i : ℕ) → t.ref_count i ≡ two_free.ref_count i)
unfolding kalloc kalloc_contig best_fit
kfree-kalloc_example =
    kfree-kalloc first_page two_free (kalloc two_free).0 first_page (omega arith) two_free-IsValid
      refl

kalloc_contig-Allocated_example :
    IsValid first_page (kalloc_contig two_free 2).0
    × Allocated two_free 2 (kalloc_contig two_free 2)
kalloc_contig-Allocated_example =
    kalloc_contig-Allocated first_page two_free 2 (omega arith) two_free-IsValid

kfree_lem_example :
    (one_used.ref_count (pa2idx first_page) ≡ 0
      → kfree first_page one_used first_page ≡ panic "kfree_contig: ref_count already zero")
    × (1 < one_used.ref_count (pa2idx first_page)
        → kfree first_page one_used first_page
          ≡ ok (record one_used {
            ref_count =
                update one_used.ref_count
                  (pa2idx first_page)
                  (one_used.ref_count (pa2idx first_page) - 1);
          }))
    × (one_used.ref_count (pa2idx first_page) ≡ 1
        → (s' : Kmem) × (kfree first_page one_used first_page ≡ ok s')
          × ((a : ℕ)
              → covers s'.freelist a
                ≡ (within first_page page_size a || covers one_used.freelist a))
          × ((i : ℕ)
              → s'.ref_count i ≡ (if i == pa2idx first_page then 0 else one_used.ref_count i)))
kfree_lem_example =
    kfree_lem first_page (omega arith) one_used first_page one_used-IsValid (omega arith) refl
      (omega arith)

-- Freeing the page in use gives the first section's counts to the second.
abbrev page_freed : Kmem
page_freed =
    kfree_insert (record one_used { ref_count = update one_used.ref_count (pa2idx first_page) 0 })
      first_page 1

abbrev whole_fit : Fit
whole_fit = record { before = []; block = record { addr = first_page; num_pages = 2 }; after = [] }

-- The state after boot.
abbrev booted_state : Kmem
booted_state = (kinit-IsValid 0x8002_1234 (λ _. 7) (omega arith)).0

booted_state-Reachable : Reachable 0x8002_1234 booted_state
booted_state-Reachable =
    booted (λ _. 7) booted_state (kinit-IsValid 0x8002_1234 (λ _. 7) (omega arith)).1

-- Also after a call of kalloc.
Reachable-inv_example :
    IsValid (pg_round_up 0x8002_1234) (kalloc_contig booted_state 1).0
    × LowZero (kalloc_contig booted_state 1).0.ref_count
Reachable-inv_example =
    Reachable-inv 0x8002_1234 (kalloc_contig booted_state 1).0 (omega arith) (omega arith)
      (allocated booted_state 1 (omega arith) booted_state-Reachable)

-- Where the count that is read were the page's own, the page behind the hole would be moved.
compact_memory_run :
    compact_memory (record two_free {
      freelist = record { addr = first_page; num_pages = 1 } ∷ [];
      ref_count = update (λ _. 0) ((last_page - 0x8000_0000) / page_size) 1;
      reverse_map = λ _. record { pagetable = first_page; va = 0 };
    })
    ≡ some (first_page, last_page)
unfolding compact_memory compact_from
compact_memory_run = refl
