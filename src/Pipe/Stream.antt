-- ===== src/Pipe/Stream.antt =====
-- The calls pipewrite and piperead of kernel/pipe.c on the queue of the pipe, and any sequence of
-- such calls, by any processes.
use mini_os_design.Common.{
  ℕ, zero, suc, ◌+◌, ◌≡◌, List, [], ◌∷◌, ◌++◌, Option, none, some, Bool, true, false, not, ◌&&◌,
  ◌||◌, ◌==◌, if◌then◌else◌, refl, sym, ap, ◌∙◌, arith, length, Bool-cases, Option-cases, ◌⊎◌, inl,
  inr,
}
use mathlib.Core.List.{append-nil, append_assoc}
use mini_os_design.Pipe.{
  Pipe, pipe_size, put, peek, advance, is_full, is_empty, Ended, returned, failed, asleep,
  write_loop, pipewrite, read_loop, piperead,
}
use mini_os_design.Pipe.Queue.{IsValid, contents, put_lem, advance_lem, is_full_lem}

-- The bytes are those of the caller's memory from offset `i` on.
abbrev FromSource : (ℕ → Option ℕ) → ℕ → List ℕ → Type 0
FromSource copyin i [] = Unit {0}
FromSource copyin i (b ∷ bs) = (copyin i ≡ some b) × FromSource copyin (i + 1) bs

-- What a write of `n` bytes from offset `i` may end with, `out` being stored.
abbrev WriteEnds : Bool → (ℕ → Option ℕ) → ℕ → ℕ → Pipe → List ℕ → Ended → Type 0
WriteEnds killed copyin i n q out (returned j) =
    (j ≡ i + length out) × ((length out ≡ n) ⊎ (copyin j ≡ none))
WriteEnds killed copyin i n q out failed = (q.readopen ≡ false) ⊎ (killed ≡ true)
WriteEnds killed copyin i n q out (asleep j) =
    (j ≡ i + length out) × (length (contents q) ≡ pipe_size)

abbrev pub Wrote : Bool → (ℕ → Option ℕ) → ℕ → ℕ → Pipe → Pipe × List ℕ × Ended → Type 0
Wrote killed copyin i n p (q, out, e) =
    IsValid q
    × (contents q ≡ contents p ++ out)
    × FromSource copyin i out
    × WriteEnds killed copyin i n q out e

WriteEnds-cons :
    (killed : Bool) (copyin : ℕ → Option ℕ) (i n ch : ℕ) (q : Pipe) (out : List ℕ) (e : Ended)
    → WriteEnds killed copyin (i + 1) n q out e
    → WriteEnds killed copyin i (suc n) q (ch ∷ out) e
WriteEnds-cons killed copyin i n ch q out (returned j) w = (omega arith, ground arith)
WriteEnds-cons killed copyin i n ch q out failed w = w
WriteEnds-cons killed copyin i n ch q out (asleep j) w = (omega arith, w.1)

Wrote-cons :
    (killed : Bool) (copyin : ℕ → Option ℕ) (i n ch : ℕ) (p : Pipe) (r : Pipe × List ℕ × Ended)
    → copyin i ≡ some ch
    → contents (put p ch) ≡ contents p ++ (ch ∷ [])
    → Wrote killed copyin (i + 1) n (put p ch) r
    → Wrote killed copyin i (suc n) p (r.0, ch ∷ r.1, r.2)
Wrote-cons killed copyin i n ch p (q, out, e) c a (x, b, s, t) = (
  x,
  b ∙ ap (λ l. l ++ out) a ∙ append_assoc (contents p) (ch ∷ []) out,
  (c, s),
  WriteEnds-cons killed copyin i n ch q out e t,
)

write_loop-Wrote :
    (n : ℕ) (killed : Bool) (copyin : ℕ → Option ℕ) (i : ℕ) (p : Pipe)
    → IsValid p
    → Wrote killed copyin i n p (write_loop killed copyin i n p)
unfolding write_loop
write_loop-Wrote zero killed copyin i p v =
    (v, sym (append-nil (contents p)), tt, (omega arith, inl refl))
write_loop-Wrote (suc n) killed copyin i p v = elim (Bool-cases (not p.readopen || killed)) [
  | inl e ↦ rw e (v, sym (append-nil (contents p)), tt, ground arith)
  | inr e ↦ rw e (elim (Bool-cases (is_full p)) [
    | inl f ↦ rw f (v, sym (append-nil (contents p)), tt, (omega arith, (is_full_lem p v).0 f))
    | inr f ↦ rw f (elim (Option-cases (copyin i)) [
      | inl c ↦ rw c (v, sym (append-nil (contents p)), tt, (omega arith, inr c))
      | inr (ch, c) ↦
          let (w, a) = put_lem p ch v f in
          rw c (
            Wrote-cons killed copyin i n ch p _ c a
              (write_loop-Wrote n killed copyin (i + 1) (put p ch) w))
    ])
  ])
]

abbrev ReadEnds : ℕ → ℕ → Pipe → (ℕ → Bool) → List ℕ → Ended → Type 0
ReadEnds i n q copyout out (returned j) =
    (j ≡ i + length out) × ((length out ≡ n) ⊎ ((contents q ≡ []) ⊎ (copyout j ≡ false)))
ReadEnds i n q copyout out failed = (out ≡ []) × (i ≡ 0) × (copyout 0 ≡ false)
ReadEnds i n q copyout out (asleep j) = ⊥

abbrev Took : ℕ → ℕ → (ℕ → Bool) → Pipe → Pipe × List ℕ × Ended → Type 0
Took i n copyout p (q, out, e) =
    IsValid q × (contents p ≡ out ++ contents q) × ReadEnds i n q copyout out e

ReadEnds-cons :
    (i n ch : ℕ) (q : Pipe) (copyout : ℕ → Bool) (out : List ℕ) (e : Ended)
    → ReadEnds (i + 1) n q copyout out e
    → ReadEnds i (suc n) q copyout (ch ∷ out) e
ReadEnds-cons i n ch q copyout out (returned j) w = (omega arith, ground arith)
ReadEnds-cons i n ch q copyout out failed w = absurd (omega arith)
ReadEnds-cons i n ch q copyout out (asleep j) w = w

Took-cons :
    (i n : ℕ) (copyout : ℕ → Bool) (p : Pipe) (r : Pipe × List ℕ × Ended)
    → contents p ≡ peek p ∷ contents (advance p)
    → Took (i + 1) n copyout (advance p) r
    → Took i (suc n) copyout p (r.0, peek p ∷ r.1, r.2)
Took-cons i n copyout p (q, out, e) a (x, b, t) =
    (x, a ∙ ap (λ l. peek p ∷ l) b, ReadEnds-cons i n (peek p) q copyout out e t)

ReadEnds-fault :
    (i n : ℕ) (p : Pipe) (copyout : ℕ → Bool)
    → copyout i ≡ false
    → ReadEnds i (suc n) p copyout [] (if i == 0 then failed else returned i)
ReadEnds-fault zero n p copyout c = (refl, refl, c)
ReadEnds-fault (suc i) n p copyout c =
    let z : (suc i == 0) ≡ false = ground arith in rw z (omega arith, inr (inr c))

read_loop-Took :
    (n : ℕ) (copyout : ℕ → Bool) (i : ℕ) (p : Pipe)
    → IsValid p
    → Took i n copyout p (read_loop copyout i n p)
unfolding read_loop
read_loop-Took zero copyout i p v = (v, refl, (omega arith, inl refl))
read_loop-Took (suc n) copyout i p v = elim (Bool-cases (is_empty p)) [
  | inl e ↦ rw e (v, refl, (omega arith, inr (inl ((is_full_lem p v).1 e))))
  | inr e ↦ rw e (elim (Bool-cases (copyout i)) [
    | inl c ↦
        let (w, a) = advance_lem p v e in
        rw c (Took-cons i n copyout p _ a (read_loop-Took n copyout (i + 1) (advance p) w))
    | inr c ↦ rw c (v, refl, ReadEnds-fault i n p copyout c)
  ])
]

-- On a valid pipe, pipewrite stores a prefix of the caller's bytes, in order, behind what the pipe
-- held, and keeps the pipe valid. It returns their number at the end of the buffer or at a bad
-- address, fails only where nobody can read or the process is killed, and sleeps only on a full
-- pipe.
pipewrite_lem :
    (killed : Bool) (copyin : ℕ → Option ℕ) (n : ℕ) (p : Pipe)
    → IsValid p
    → Wrote killed copyin 0 n p (pipewrite killed copyin n p)
unfolding pipewrite
pipewrite_lem killed copyin n p v = write_loop-Wrote n killed copyin 0 p v

-- What piperead does on an empty pipe that can still be written: it takes nothing.
abbrev Waits : Bool → Pipe → Pipe × List ℕ × Ended → Type 0
Waits killed p (q, out, e) =
    (q ≡ p)
    × (out ≡ [])
    × (contents p ≡ [])
    × (p.writeopen ≡ true)
    × (e ≡ (if killed then failed else asleep 0))

-- On a valid pipe, piperead of an empty pipe that is open for writing takes nothing: it fails if
-- the process is killed, and sleeps otherwise. Else it delivers the oldest bytes, in order, and
-- leaves the rest; it returns their number when it has enough, when the pipe is empty or at a bad
-- address, and fails where the first address is bad.
piperead_lem :
    (killed : Bool) (copyout : ℕ → Bool) (n : ℕ) (p : Pipe)
    → IsValid p
    → Waits killed p (piperead killed copyout n p)
      ⊎ Took 0 n copyout p (piperead killed copyout n p)
unfolding piperead
piperead_lem killed copyout n p v = elim (Bool-cases (is_empty p && p.writeopen)) [
  | inl e ↦ rw e (inl (waits killed e))
  | inr e ↦ rw e (inr (read_loop-Took n copyout 0 p v))
]
  where
    waits :
        (k : Bool)
        → (is_empty p && p.writeopen) ≡ true
        → Waits k p (if k then (p, [], failed) else (p, [], asleep 0))
    waits true e = (refl, refl, (is_full_lem p v).1 (ground (arith, e)), ground (arith, e), refl)
    waits false e = (refl, refl, (is_full_lem p v).1 (ground (arith, e)), ground (arith, e), refl)

-- A call of some process on the pipe.
pub data Call : Type 0 where
  writes : Bool → (ℕ → Option ℕ) → ℕ → Call
  reads : Bool → (ℕ → Bool) → ℕ → Call

-- The pipe after the calls, the bytes that they stored, and the bytes that they delivered.
pub run : List Call → Pipe → Pipe × List ℕ × List ℕ
run [] p = (p, [], [])
run (writes killed copyin n ∷ cs) p =
    let (q, out, _) = pipewrite killed copyin n p in let (r, w, d) = run cs q in (r, out ++ w, d)
run (reads killed copyout n ∷ cs) p =
    let (q, out, _) = piperead killed copyout n p in let (r, w, d) = run cs q in (r, w, out ++ d)

-- The stream law of a valid pipe for some calls.
abbrev pub Streams : Pipe → Pipe × List ℕ × List ℕ → Type 0
Streams p (r, w, d) = IsValid r × (contents p ++ w ≡ d ++ contents r)

Read_takes :
    (killed : Bool) (p : Pipe) (n : ℕ) (copyout : ℕ → Bool) (r : Pipe × List ℕ × Ended)
    → IsValid p
    → Waits killed p r ⊎ Took 0 n copyout p r
    → IsValid r.0 × (contents p ≡ r.1 ++ contents r.0)
Read_takes killed p n copyout (q, out, e) v (inl (a, b, c, d, f)) = (rw a v, rw (a, b) refl)
Read_takes killed p n copyout (q, out, e) v (inr (a, b, c)) = (a, b)

stored : (c out d w t e : List ℕ) → d ≡ c ++ out → d ++ w ≡ t ++ e → c ++ (out ++ w) ≡ t ++ e
stored c out d w t e p q = sym (append_assoc c out w) ∙ (rw (← p) q)

delivered : (c out d w t e : List ℕ) → c ≡ out ++ d → d ++ w ≡ t ++ e → c ++ w ≡ (out ++ t) ++ e
delivered c out d w t e p q =
    rw (p, append_assoc out d w, append_assoc out t e) (ap (λ l. out ++ l) q)

-- After any sequence of calls of pipewrite and piperead on a valid pipe, with any results of
-- copyin, copyout and killed, the pipe is valid, and what it held followed by the bytes stored is
-- the bytes delivered followed by what it holds.
pub run-Streams : (cs : List Call) (p : Pipe) → IsValid p → Streams p (run cs p)
unfolding run
run-Streams [] p v = (v, append-nil (contents p))
run-Streams (writes killed copyin n ∷ cs) p v =
    let (a, b, _, _) = pipewrite_lem killed copyin n p v in
    let (c, d) = run-Streams cs _ a in
    let (q, out, _) = pipewrite killed copyin n p in
    let (r, t, u) = run cs q in (c, stored (contents p) out (contents q) t u (contents r) b d)
run-Streams (reads killed copyout n ∷ cs) p v =
    let (a, b) = Read_takes killed p n copyout _ v (piperead_lem killed copyout n p v) in
    let (c, d) = run-Streams cs _ a in
    let (q, out, _) = piperead killed copyout n p in
    let (r, t, u) = run cs q in (c, delivered (contents p) out (contents q) t u (contents r) b d)
