-- ===== src/Log/Tests.antt =====
-- Concrete runs of kernel/log.c with a log that starts at block 2 and two logged blocks.
use mini_os_design.Common.{
  ℕ, ◌<◌, ◌≢◌, ◌⊎◌, inr, List, [], ◌∷◌, none, some, false, ◌==◌, ◌||◌, if◌then◌else◌, refl, arith,
  panic,
}
use mini_os_design.Log.Store.{Buffers, view}
use mini_os_design.Log.Header.{decode}
use mini_os_design.Log.{Log, max_op_blocks, commit_blocks, log_write, begin_op, end_op_enter}
use mini_os_design.Log.Crash.{Clean, IsReady}
use mini_os_design.Log.Recovery.{boot, boots, commit-atomic}
use mini_os_design.Log.Space.{Calls, begins, HasRoom, Step-HasRoom, HasRoom-no_panic}

abbrev changed : List ℕ
changed = 40 ∷ 41 ∷ []

-- The disk is all zero; the transaction filled two blocks with ones.
abbrev dirty : ℕ → Buffers
dirty power = record {
  cached = λ c. if c == 40 || c == 41 then some (λ _. 1) else none;
  pins = λ _. 1;
  disk = λ _ _. 0;
  power = power;
}

dirty-IsReady : (power : ℕ) → IsReady 2 changed (dirty power)
unfolding decode
dirty-IsReady power = record {
  short = omega arith;
  outside = (inr (omega arith), (inr (omega arith), tt));
  empty = refl;
  coherent = λ c h e. ground arith;
}

commit-atomic_example :
    (let d = boot 2 (boots 2 (commit_blocks (dirty 4) 2 changed).disk (0 ∷ 2 ∷ [])) 31 in
      Clean 2 (λ _ _. 0) d ⊎ Clean 2 (view (dirty 4)) d)
commit-atomic_example =
    commit-atomic 2 changed (dirty 4) (0 ∷ 2 ∷ []) 31 (dirty-IsReady 4) (omega arith)

-- One call runs, and has logged block 40.
abbrev one_logged : Log
one_logged = record { start = 2; outstanding = 1; committing = false; blocks = 40 ∷ [] }

abbrev one_call : Calls
one_call = record { log = one_logged; used = 1 ∷ [] }

abbrev two_calls : Calls
two_calls = record { log = record one_logged { outstanding = 2 }; used = 0 ∷ 1 ∷ [] }

one_call-HasRoom : HasRoom one_call
one_call-HasRoom = record {
  counted = refl;
  limits = (omega arith, tt);
  alone = λ k. cc;
  room = omega arith;
  distinct = (refl, tt);
}

Step-HasRoom_example : HasRoom two_calls
unfolding begin_op
Step-HasRoom_example =
    Step-HasRoom {x = one_call} (begins (record one_logged { outstanding = 2 }) refl refl)
      one_call-HasRoom

HasRoom-no_panic_example :
    (1 < max_op_blocks → log_write one_logged (dirty 9) 41 ≢ panic "too big a transaction")
    × (end_op_enter one_logged ≢ panic "too big a transaction")
HasRoom-no_panic_example =
    HasRoom-no_panic one_call [] [] 1 41 (dirty 9) "too big a transaction" one_call-HasRoom refl
