-- ===== src/Vm/CopyOut.antt =====
-- copyout of kernel/vm.c, and a user's store to the same page.
use mini_os_design.Common.{
  ℕ, ◌<◌, ◌≡◌, ◌≢◌, true, false, ◌==◌, leb, some, refl, ◌∙◌, arith, ok, ◌>>=◌, List, ◌∷◌,
}
use mini_os_design.Common.Machine.{maxva, pg_round_down}
use mini_os_design.Kalloc.{Kmem}
use mini_os_design.Vm.{bit, pte_v, pte_u, pte_w, pte_cow, pte2pa, walk, walkaddr}
use mini_os_design.Vm.Walk.{Trail, Trail-found}
use mini_os_design.Vm.Frame.{walkaddr-Trail}
use mini_os_design.Vm.Fault.{cow_fault, vmfault}
use mini_os_design.Vm.Copy.{touch_page, writable_page, copyout_loop, copyout}

pub walk_found :
    (s : Kmem) (pagetable va p : ℕ)
    → va < maxva
    → Trail s pagetable va 2 p
    → walk s pagetable va false ≡ ok (s, some p)
unfolding walk
walk_found s pagetable va p l h =
    let b : leb maxva va ≡ false = ground arith in
    rw (walk, b, Trail-found 2 s pagetable va p false h) refl

vmfault-cow :
    (kernel_end sz : ℕ) (s : Kmem) (pagetable va p : ℕ)
    → va < sz
    → va < maxva
    → Trail s pagetable (pg_round_down va) 2 p
    → bit pte_v (s.mem p) ≡ true
    → bit pte_w (s.mem p) ≡ false
    → bit pte_cow (s.mem p) ≡ true
    → vmfault kernel_end s sz pagetable va ≡ cow_fault s pagetable (pg_round_down va) p
unfolding vmfault
vmfault-cow kernel_end sz s pagetable va p l hi h v w c =
    let b : leb sz va ≡ false = ground arith in
    rw (vmfault, b, walk_found s pagetable (pg_round_down va) p (omega arith) h, v, c, w) refl

-- At an address below the size of the process and MAXVA whose valid user entry has PTE_COW and not
-- PTE_W, copyout of at least one byte fails and changes nothing, while a fault there runs the copy-
-- on-write case.
pub copyout-cow :
    (kernel_end sz : ℕ) (s : Kmem) (pagetable va p b : ℕ) (bs : List ℕ)
    → va < sz
    → va < maxva
    → Trail s pagetable (pg_round_down va) 2 p
    → bit pte_v (s.mem p) ≡ true
    → bit pte_u (s.mem p) ≡ true
    → bit pte_w (s.mem p) ≡ false
    → bit pte_cow (s.mem p) ≡ true
    → pte2pa (s.mem p) ≢ 0
    → (copyout kernel_end sz s pagetable va (b ∷ bs) ≡ ok (s, false))
      × (vmfault kernel_end s sz pagetable va ≡ cow_fault s pagetable (pg_round_down va) p)
unfolding copyout copyout_loop writable_page touch_page
copyout-cow kernel_end sz s pagetable va p b bs l hi h v u w c n =
    let a : walkaddr s pagetable (pg_round_down va) ≡ pte2pa (s.mem p) =
      walkaddr-Trail s pagetable (pg_round_down va) p (omega arith) h ∙ rw (v, u) refl in
    let z : (pte2pa (s.mem p) == 0) ≡ false = ground (arith, n) in
    let k : leb maxva (pg_round_down va) ≡ false = ground arith in
    (
      rw
          (
            copyout,
            copyout_loop,
            writable_page,
            touch_page,
            k,
            a,
            z,
            ◌>>=◌,
            z,
            walk_found s pagetable (pg_round_down va) p (omega arith) h,
            w,
          )
          refl,
      vmfault-cow kernel_end sz s pagetable va p l hi h v w c,
    )
