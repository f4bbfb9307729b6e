-- ===== src/Locks/Tests.antt =====
-- Concrete runs of kernel/spinlock.c.
use mini_os_design.Common.{ℕ, ◌≡◌, true, false, some, refl, ok}
use mini_os_design.Locks.{Cpu, Spinlock, initlock, acquire, push_off, holding}
use mini_os_design.Locks.Exclusion.{start, enter, flag, Run-exclusive}

-- A processor that runs with interrupts on.
abbrev running : Cpu
running = record { noff = 0; intena = false; sie = true }

acquire_run :
    acquire 4 running initlock
    ≡ ok (push_off running, some (record { locked = true; cpu = some 4 }))
unfolding acquire holding
acquire_run = refl

-- The lock that processor 4 has taken.
abbrev taken : Spinlock
taken = record { locked = true; cpu = some 4 }

Run-exclusive_example :
    (taken.locked ≡ true)
    × (taken.cpu ≡ some 4)
    × ((b : ℕ) → flag (λ _. false) 4 true b ≡ true → b ≡ 4)
Run-exclusive_example =
    Run-exclusive taken (flag (λ _. false) 4 true) 4
      (enter initlock taken (λ _. false) 4 running (push_off running) acquire_run start) refl
