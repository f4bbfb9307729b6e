-- ===== src/Log/Space.antt =====
-- Log space in kernel/log.c: what begin_op reserves, log_write uses, and end_op gives back, for any
-- interleaving of file-system calls.
use mini_os_design.Common.{
  ℕ, suc, ◌+◌, ◌-◌, ◌*◌, ◌≤◌, ◌<◌, ◌≡◌, ◌≢◌, List, [], ◌∷◌, ◌++◌, Bool, true, false, length,
  length-append, refl, ◌∙◌, sym, ap, arith, ok, panic,
}
use Prim.Native.String.{String}
use mini_os_design.Log.Store.{Buffers}
use mini_os_design.Log.{Log, max_op_blocks, log_blocks, commit, begin_op, end_op_enter, log_write}
use mini_os_design.Log.Absorbed.{Distinct, log_write_lem}

-- No block is logged twice.
pub record Calls : Type 0 where
  pub log : Log
  pub used : List ℕ

-- What the running calls may still log.
abbrev pub reserved : List ℕ → ℕ
reserved [] = 0
reserved (u ∷ us) = (max_op_blocks - u) + reserved us

abbrev Within : List ℕ → Type 0
Within [] = Unit {0}
Within (u ∷ us) = (u ≤ max_op_blocks) × Within us

-- A step of some call: it gets in, logs a block while it has logged fewer than MAXOPBLOCKS, ends
-- with others running, or ends as the last and commits.
pub data Step (x y : Calls) : Type 0 where
  begins :
      (l : Log) → begin_op x.log ≡ (l, true) → y ≡ record { log = l; used = 0 ∷ x.used } → Step x y
  writes :
      (us vs : List ℕ) (u b : ℕ) (s s' : Buffers) (l : Log)
      → x.used ≡ us ++ (u ∷ vs)
      → u < max_op_blocks
      → log_write x.log s b ≡ ok (l, s')
      → y ≡ record { log = l; used = us ++ ((u + 1) ∷ vs) }
      → Step x y
  ends :
      (us vs : List ℕ) (u : ℕ) (l : Log)
      → x.used ≡ us ++ (u ∷ vs)
      → end_op_enter x.log ≡ ok (l, false)
      → y ≡ record { log = l; used = us ++ vs }
      → Step x y
  last_ends :
      (us vs : List ℕ) (u : ℕ) (l : Log)
      → x.used ≡ us ++ (u ∷ vs)
      → end_op_enter x.log ≡ ok (l, true)
      → y ≡ record { log = l; used = us ++ vs }
      → Step x y
  committed :
      (s : Buffers)
      → x.log.committing ≡ true
      → y ≡ record x { log = record (commit x.log s).0 { committing = false } }
      → Step x y

-- The calls in the log are those counted, none runs during a commit, and the log has room for all
-- that they may still write.
pub record HasRoom (x : Calls) : Type 0 where
  pub counted : x.log.outstanding ≡ length x.used
  pub limits : Within x.used
  pub alone : x.log.committing ≡ true → x.used ≡ []
  pub room : length x.log.blocks + reserved x.used ≤ log_blocks
  pub distinct : Distinct x.log.blocks

reserved-append : (us vs : List ℕ) → reserved (us ++ vs) ≡ reserved us + reserved vs
reserved-append [] vs = omega arith
reserved-append (u ∷ us) vs = omega (arith, reserved-append us vs)

Within-append : (us vs : List ℕ) → Within us → Within vs → Within (us ++ vs)
Within-append [] vs a b = b
Within-append (u ∷ us) vs a b = (a.0, Within-append us vs a.1 b)

Within-split : (us vs : List ℕ) → Within (us ++ vs) → Within us × Within vs
Within-split [] vs a = (tt, a)
Within-split (u ∷ us) vs a = let (l, r) = Within-split us vs a.1 in ((a.0, l), r)

reserved-le : (us : List ℕ) → reserved us ≤ length us * max_op_blocks
reserved-le [] = omega arith
reserved-le (u ∷ us) = omega (arith, reserved-le us)

nil_of_length : (us : List ℕ) → length us ≡ 0 → us ≡ []
nil_of_length [] h = refl
nil_of_length (u ∷ us) h = absurd (omega arith)

not_nil {ℓ} : {A : Type ℓ} (us vs : List A) (u : A) → us ++ (u ∷ vs) ≢ []
not_nil [] vs u e = cc
not_nil (x ∷ us) vs u e = cc

begin_op_lem :
    (l l' : Log)
    → begin_op l ≡ (l', true)
    → (l' ≡ record l { outstanding = l.outstanding + 1 })
      × (l.committing ≡ false)
      × (length l.blocks + (l.outstanding + 1) * max_op_blocks ≤ log_blocks)
unfolding begin_op
begin_op_lem l l' h = ground arith

end_op_enter_lem :
    (l l' : Log) (last : Bool)
    → end_op_enter l ≡ ok (l', last)
    → (l.committing ≡ false)
      × (l'.blocks ≡ l.blocks)
      × (l'.outstanding ≡ l.outstanding - 1)
      × (l'.committing ≡ last)
      × (last ≡ true → l'.outstanding ≡ 0)
unfolding end_op_enter
end_op_enter_lem l l' last h = ground arith

length_middle : (us vs : List ℕ) (u : ℕ) → length (us ++ (u ∷ vs)) ≡ suc (length (us ++ vs))
length_middle us vs u = omega (arith, length-append us (u ∷ vs), length-append us vs)

reserved_middle :
    (us vs : List ℕ) (u : ℕ) → reserved (us ++ (u ∷ vs)) ≡ (max_op_blocks - u) + reserved (us ++ vs)
reserved_middle us vs u = omega (arith, reserved-append us (u ∷ vs), reserved-append us vs)

begins-HasRoom :
    (x : Calls) (l : Log)
    → begin_op x.log ≡ (l, true)
    → HasRoom x
    → HasRoom (record { log = l; used = 0 ∷ x.used })
begins-HasRoom x l e h =
    let (a, b, c) = begin_op_lem x.log l e in
    rw a (record {
      counted = omega (arith, h.counted);
      limits = (omega arith, h.limits);
      alone = λ k. cc;
      room = omega (arith, h.room, h.counted, c, reserved-le x.used);
      distinct = h.distinct;
    })

writes-HasRoom :
    (x : Calls) (us vs : List ℕ) (u b : ℕ) (s s' : Buffers) (l : Log)
    → x.used ≡ us ++ (u ∷ vs)
    → u < max_op_blocks
    → log_write x.log s b ≡ ok (l, s')
    → HasRoom x
    → HasRoom (record { log = l; used = us ++ ((u + 1) ∷ vs) })
writes-HasRoom x us vs u b s s' l p lt e h =
    let (d, _, _, n, _, o, c) = log_write_lem x.log l s s' b h.distinct e in
    let (wl, wr) = Within-split us (u ∷ vs) (rw p at h.limits) in
    record {
      counted =
          o ∙ h.counted ∙ ap length p ∙ length_middle us vs u ∙ sym (length_middle us vs (u + 1));
      limits = Within-append us ((u + 1) ∷ vs) wl (omega arith, wr.1);
      alone = λ k. absurd (not_nil us vs u (sym p ∙ h.alone (sym c ∙ k)));
      room =
          omega (
            arith,
            h.room,
            n,
            ap reserved p,
            reserved_middle us vs u,
            reserved_middle us vs (u + 1),
          );
      distinct = d;
    }

ends-HasRoom :
    (x : Calls) (us vs : List ℕ) (u : ℕ) (l : Log) (last : Bool)
    → x.used ≡ us ++ (u ∷ vs)
    → end_op_enter x.log ≡ ok (l, last)
    → HasRoom x
    → HasRoom (record { log = l; used = us ++ vs })
ends-HasRoom x us vs u l last p e h =
    let (_, bl, o, c, z) = end_op_enter_lem x.log l last e in
    let (wl, wr) = Within-split us (u ∷ vs) (rw p at h.limits) in
    let n : l.outstanding ≡ length (us ++ vs) =
      omega (arith, o, h.counted, ap length p, length_middle us vs u) in
    record {
      counted = n;
      limits = Within-append us vs wl wr.1;
      alone = λ k. nil_of_length (us ++ vs) (sym n ∙ z (sym c ∙ k));
      room = omega (arith, h.room, ap length bl, ap reserved p, reserved_middle us vs u);
      distinct = rw bl h.distinct;
    }

-- A call that gets through begin_op, a log_write of a call below MAXOPBLOCKS blocks, an end_op with
-- or without others running, and the end of a commit, each keep the log state in order: outstanding
-- counts the running calls, none runs during a commit, the logged blocks are distinct, and they
-- together with what the running calls may still log fit into LOGBLOCKS.
pub Step-HasRoom : {x y : Calls} → Step x y → HasRoom x → HasRoom y
unfolding commit
Step-HasRoom {x} (begins l e q) h = rw q (begins-HasRoom x l e h)
Step-HasRoom {x} (writes us vs u b s s' l p lt e q) h =
    rw q (writes-HasRoom x us vs u b s s' l p lt e h)
Step-HasRoom {x} (ends us vs u l p e q) h = rw q (ends-HasRoom x us vs u l false p e h)
Step-HasRoom {x} (last_ends us vs u l p e q) h = rw q (ends-HasRoom x us vs u l true p e h)
Step-HasRoom {x} (committed s e q) h = rw q (record {
  counted = h.counted;
  limits = h.limits;
  alone = λ k. cc;
  room = omega (arith, h.room);
  distinct = tt;
})

-- In such a log state, log_write by a running call that has logged fewer than MAXOPBLOCKS blocks
-- does not panic, and neither does the first section of end_op of a running call.
pub HasRoom-no_panic :
    (x : Calls) (us vs : List ℕ) (u b : ℕ) (s : Buffers) (e : String)
    → HasRoom x
    → x.used ≡ us ++ (u ∷ vs)
    → (u < max_op_blocks → log_write x.log s b ≢ panic e) × (end_op_enter x.log ≢ panic e)
unfolding log_write end_op_enter
HasRoom-no_panic x us vs u b s e h p =
    let n : length x.log.blocks + (max_op_blocks - u) ≤ log_blocks =
      omega (arith, h.room, ap reserved p, reserved_middle us vs u) in
    let o : 1 ≤ x.log.outstanding = omega (arith, h.counted, ap length p, length_middle us vs u) in
    let c : x.log.committing ≢ true = λ k. not_nil us vs u (sym p ∙ h.alone k) in
    (λ lt k. ground (arith, n, o), λ k. ground (arith, c))
