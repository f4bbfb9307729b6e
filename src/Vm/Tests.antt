-- ===== src/Vm/Tests.antt =====
-- Concrete runs of kernel/vm.c: one process whose page 0 is mapped.
use mini_os_design.Common.{
  ℕ, ◌+◌, ◌≡◌, true, false, ◌==◌, if◌then◌else◌, Bool, none, refl, arith, ◌⊎◌, Outcome, ok, panic,
  [], ◌∷◌,
}
use mini_os_design.Common.Machine.{page_size, pa2idx, pg_round_down, fill}
use mini_os_design.Kalloc.Blocks.{best_fit, take_fit}
use mini_os_design.Kalloc.Invariant.{IsValid}
use mini_os_design.Kalloc.{Kmem, no_rmap, update, getref, kalloc, kalloc_contig}
use mini_os_design.Vm.{pa2pte, walkaddr, mappages, map_pages, map_page, walk, walk_from}
use mini_os_design.Vm.Walk.{Tables, Trail}
use mini_os_design.Vm.Frame.{mappages-walkaddr}
use mini_os_design.Vm.Fault.{user_flags, cow_fault, vmfault}
use mini_os_design.Vm.CopyOnWrite.{Copied, cow_fault-Copied}
use mini_os_design.Vm.Copy.{copyin, copyout}
use mini_os_design.Vm.CopyIn.{user_bytes, IsMapped, copyin-user_bytes}
use mini_os_design.Vm.CopyInStr.{user_string}
use mini_os_design.Vm.CopyOut.{copyout-cow}
use mini_os_design.Vm.Fork.{share_page}
use mini_os_design.Vm.Share.{Shared, share_page-Shared}

-- The three page tables of the process, its page, another page, and an empty page table.
abbrev root : ℕ
root = 0x87ff_0000

abbrev middle : ℕ
middle = 0x87ff_1000

abbrev leaves : ℕ
leaves = 0x87ff_2000

abbrev data_page : ℕ
data_page = 0x87ff_3000

abbrev other_page : ℕ
other_page = 0x87ff_4000

abbrev free_page : ℕ
free_page = 0x87ff_e000

-- The tables, with the word `e` as the entry of page 0; two pages are free, and `n` processes use
-- the page.
abbrev process : ℕ → ℕ → Kmem
process e n = record {
  use_lock = true;
  freelist = record { addr = free_page; num_pages = 2 } ∷ [];
  ref_count = update (λ _. 0) (pa2idx data_page) n;
  reverse_map = λ _. no_rmap;
  mem = λ a.
      if a == root
      then pa2pte middle + 1
      else if a == middle
      then pa2pte leaves + 1
      else if a == leaves
      then e
      else if a == data_page
      then 0x0068_6968
      else 0;
}

-- The entries of a page of its own, and of a shared one: PTE_V|PTE_R|PTE_U, with PTE_W or PTE_COW.
abbrev own_entry : ℕ
own_entry = pa2pte data_page + 23

abbrev cow_entry : ℕ
cow_entry = pa2pte data_page + 275

process-IsValid : (e n : ℕ) → IsValid free_page (process e n)
process-IsValid e n = record {
  chain = (omega arith, refl, omega arith, omega arith, tt);
  agrees = λ a lo hi. ground arith;
}

-- Page 1 is not mapped yet.
page_1-Tables : Tables (process own_entry 1) root 4096 2
page_1-Tables = (refl, λ _. (refl, λ _. refl))

page_0-Trail : (e n : ℕ) → Trail (process e n) root 0 2 leaves
page_0-Trail e n = ((refl, refl), ((refl, refl), (refl, refl)))

-- The state that a call leaves; the process as it was where it stops the machine.
abbrev left : Outcome (Kmem × Bool) → Kmem
left (panic message) = process own_entry 1
left (ok r) = r.0

mappages_run :
    mappages (process own_entry 1) root 4096 page_size other_page user_flags
    ≡ ok (left (mappages (process own_entry 1) root 4096 page_size other_page user_flags), true)
unfolding mappages map_pages map_page walk walk_from
mappages_run = refl

mappages-walkaddr_example :
    walkaddr
      (left (mappages (process own_entry 1) root 4096 page_size other_page user_flags))
      root
      4096
    ≡ other_page
mappages-walkaddr_example =
    mappages-walkaddr free_page (process own_entry 1)
      (left (mappages (process own_entry 1) root 4096 page_size other_page user_flags)) root 4096
      other_page user_flags (process-IsValid own_entry 1) page_1-Tables refl refl (omega arith)
      (omega arith) refl mappages_run

cow_fault-Copied_example :
    ((cow_fault (process cow_entry 2) root 0 leaves ≡ ok (process cow_entry 2, 0))
      × ((kalloc (process cow_entry 2)).1 ≡ none))
    ⊎ ((s' : Kmem) × (page : ℕ) × (cow_fault (process cow_entry 2) root 0 leaves ≡ ok (s', page))
        × Copied (process cow_entry 2) s' leaves page)
unfolding getref
cow_fault-Copied_example =
    cow_fault-Copied free_page (process cow_entry 2) root 0 leaves (process-IsValid cow_entry 2)
      refl (λ i l. ground arith) (omega arith)

page_0-IsMapped : IsMapped (process own_entry 1) root 0 3
unfolding walkaddr walk_from
page_0-IsMapped i l =
    let e : pg_round_down (0 + i) ≡ 0 = omega arith in rw e (λ q. omega (arith, q))

copyin-user_bytes_example :
    copyin 0x8002_1234 4096 (process own_entry 1) root 0 3
    ≡ ok (process own_entry 1, user_bytes (process own_entry 1) root 0 3, true)
copyin-user_bytes_example =
    copyin-user_bytes 0x8002_1234 4096 (process own_entry 1) root 0 3 page_0-IsMapped

copyin_run : user_bytes (process own_entry 1) root 0 3 ≡ 0x68 ∷ 0x69 ∷ 0x68 ∷ []
unfolding user_bytes walkaddr walk_from
copyin_run = refl

copyinstr_run : user_string (process own_entry 1) root 0 5 ≡ (0x68 ∷ 0x69 ∷ 0x68 ∷ 0 ∷ [], true)
unfolding user_string walkaddr walk_from
copyinstr_run = refl

copyout-cow_example :
    (copyout 0x8002_1234 4096 (process cow_entry 1) root 0 (7 ∷ [])
      ≡ ok (process cow_entry 1, false))
    × (vmfault 0x8002_1234 (process cow_entry 1) 4096 root 0
        ≡ cow_fault (process cow_entry 1) root 0 leaves)
copyout-cow_example =
    copyout-cow 0x8002_1234 4096 (process cow_entry 1) root 0 leaves 7 [] (omega arith)
      (omega arith) (page_0-Trail cow_entry 1) refl refl refl refl (omega arith)

share_page_run :
    share_page (process own_entry 1) root other_page 0
    ≡ ok (left (share_page (process own_entry 1) root other_page 0), true)
unfolding share_page mappages map_pages map_page walk walk_from kalloc kalloc_contig best_fit fill
    take_fit
share_page_run = refl

share_page-Shared_example :
    Shared
      (process own_entry 1)
      (left (share_page (process own_entry 1) root other_page 0))
      root
      other_page
      0
      data_page
      leaves
share_page-Shared_example =
    share_page-Shared free_page (process own_entry 1)
      (left (share_page (process own_entry 1) root other_page 0)) root other_page 0 leaves
      (process-IsValid own_entry 1) (refl, λ b. absurd (ground (arith, b)))
      (page_0-Trail own_entry 1) refl refl (omega arith) refl (omega arith) (omega arith)
      share_page_run
