-- ===== src/Console/Reading.antt =====
-- consoleread of kernel/console.c on the characters that the line editor has handed over.
use mini_os_design.Common.{
  ℕ, zero, suc, ◌+◌, ◌-◌, ◌%◌, ◌≡◌, ◌≢◌, List, [], ◌∷◌, ◌++◌, Bool, true, false, ltb, ◌==◌,
  if◌then◌else◌, refl, ap, ◌∙◌, arith, Bool-cases, inl, inr, length,
}
use mini_os_design.Console.{
  Console, ReadEnd, returned, failed, asleep, input_buf_size, newline, ctrl_d, consume, read_line,
  consoleread,
}
use mini_os_design.Console.Editing.{ready, IsValid}
use mini_os_design.Console.Ends.{Read, chars, lines, Unfinished, Ends, consume-IsValid}

module _ (killed : Bool) (copyout : ℕ → Bool) where
  -- Nothing more is delivered.
  none-Read :
      (i n : ℕ) (c c' : Console) (lost : List ℕ) (end : ReadEnd)
      → IsValid c'
      → c'.w ≡ c.w
      → c'.e ≡ c.e
      → lines c ≡ lost ++ lines c'
      → Ends killed copyout n i [] lost (lines c') end
      → Read killed copyout i n c (c', [], end)
  none-Read i n c c' lost end v w e l x =
      let z : i + 0 ≡ i = omega arith in
      record {
        valid = v;
        same_w = w;
        same_e = e;
        lost = lost;
        parts = l;
        size = omega arith;
        text = refl;
        stored = λ j h. absurd (omega arith);
        ends = rw z x;
      }

  full-Read : (i : ℕ) (c : Console) → IsValid c → Read killed copyout i 0 c (c, [], returned i)
  full-Read i c v = none-Read i 0 c c [] (returned i) v refl refl refl (inl (refl, refl, inl refl))

  empty-Read :
      (i n : ℕ) (c : Console)
      → IsValid c
      → c.r ≡ c.w
      → Read killed copyout i (suc n) c (c, [], (if killed then failed else asleep i))
  empty-Read i n c v q =
      let none : ready c ≡ 0 = ground (arith, v) in
      let e : lines c ≡ [] = ap (chars c.buf c.r) none in
      none-Read i (suc n) c c [] _ v refl refl refl
        (inr (inr (inr (inr (refl, refl, (omega arith, refl), e)))))

  -- An end of file is saved after some characters, and taken before any.
  end-Read :
      (i n : ℕ) (c : Console)
      → IsValid c
      → c.r ≢ c.w
      → c.buf (c.r % input_buf_size) ≡ ctrl_d
      → Read killed copyout i (suc n) c ((if ltb 0 i then c else consume c), [], returned i)
  end-Read i n c v ne b =
      let (v', first) = consume-IsValid c v ne in
      let first' : lines c ≡ ctrl_d ∷ lines (consume c) = first ∙ rw b refl in
      elim (Bool-cases (ltb 0 i)) [
        | inl d ↦ rw d (
            none-Read i (suc n) c c [] (returned i) v refl refl refl (
              inr (
                inr (
                  inl (
                    refl,
                    ground (arith, d),
                    refl,
                    (omega arith, refl),
                    lines (consume c),
                    first',
                  )))))
        | inr d ↦ rw d (
            none-Read i (suc n) c (consume c) (ctrl_d ∷ []) (returned i) v' refl refl first'
              (inr (inl (refl, ground (arith, d), refl, (omega arith, refl)))))
      ]

  -- The copy of a character fails.
  failed-Read :
      (i n : ℕ) (c : Console)
      → IsValid c
      → c.r ≢ c.w
      → c.buf (c.r % input_buf_size) ≢ ctrl_d
      → copyout i ≡ false
      → Read killed copyout i (suc n) c (consume c, [], returned i)
  failed-Read i n c v ne b f =
      let (v', first) = consume-IsValid c v ne in
      let ch = c.buf (c.r % input_buf_size) in
      none-Read i (suc n) c (consume c) (ch ∷ []) (returned i) v' refl refl first
        (inr (inr (inr (inl (refl, f, (omega arith, refl), ch, refl, b)))))

  Unfinished-cons :
      (n ch : ℕ) (d : List ℕ)
      → (ch == newline) ≡ false
      → Unfinished n d
      → Unfinished (suc n) (ch ∷ d)
  Unfinished-cons n ch d b (l, h) = (ground (arith, l), ground (arith, b, h))

  Ends-cons :
      (n k ch : ℕ) (d lost left : List ℕ) (end : ReadEnd)
      → (ch == newline) ≡ false
      → Ends killed copyout n k d lost left end
      → Ends killed copyout (suc n) k (ch ∷ d) lost left end
  Ends-cons n k ch d lost left end b (inl (e, l, q)) =
      inl (e, l, elim q [ inl z ↦ inl (ground (arith, z)) | inr z ↦ inr (ground (arith, z)) ])
  Ends-cons n k ch d lost left end b (inr (inl (e, z, l, u))) =
      inr (inl (e, z, l, Unfinished-cons n ch d b u))
  Ends-cons n k ch d lost left end b (inr (inr (inl (e, z, l, u, r, t)))) =
      inr (inr (inl (e, z, l, Unfinished-cons n ch d b u, r, t)))
  Ends-cons n k ch d lost left end b (inr (inr (inr (inl (e, f, u, r, t, t'))))) =
      inr (inr (inr (inl (e, f, Unfinished-cons n ch d b u, r, t, t'))))
  Ends-cons n k ch d lost left end b (inr (inr (inr (inr (e, l, u, t))))) =
      inr (inr (inr (inr (e, l, Unfinished-cons n ch d b u, t))))

  -- The character at the read index is delivered, and `x` is what the rest of the call does.
  cons-Read :
      (i n : ℕ) (c : Console) (x : Console × List ℕ × ReadEnd)
      → IsValid c
      → c.r ≢ c.w
      → (c.buf (c.r % input_buf_size) == ctrl_d) ≡ false
      → (c.buf (c.r % input_buf_size) == newline) ≡ false
      → copyout i ≡ true
      → Read killed copyout (i + 1) n (consume c) x
      → Read killed copyout i (suc n) c (x.0, c.buf (c.r % input_buf_size) ∷ x.1, x.2)
  cons-Read i n c x v ne b f s h =
      let (v', first) = consume-IsValid c v ne in
      let ch = c.buf (c.r % input_buf_size) in
      let k : i + length (ch ∷ x.1) ≡ i + 1 + length x.1 = ground arith in
      let size = h.size in
      record {
        valid = h.valid;
        same_w = h.same_w;
        same_e = h.same_e;
        lost = h.lost;
        parts = first ∙ ap (λ l. ch ∷ l) h.parts;
        size = ground (arith, size);
        text = rw (b, f) h.text;
        stored = λ j l. elim (Bool-cases (j == 0)) [
          | inl z ↦ (let q : i + j ≡ i = ground (arith, z) in rw q s)
          | inr z ↦
              let q : i + 1 + (j - 1) ≡ i + j = ground (arith, z) in
              let r = h.stored (j - 1) (ground (arith, z, l)) in rw q at r
        ];
        ends = rw k (Ends-cons n (i + 1 + length x.1) ch x.1 h.lost (lines x.0) x.2 f h.ends);
      }

  -- A newline is delivered, and ends the call.
  line-Read :
      (i n : ℕ) (c : Console)
      → IsValid c
      → c.r ≢ c.w
      → c.buf (c.r % input_buf_size) ≡ newline
      → copyout i ≡ true
      → Read killed copyout i
          (suc n)
          c
          (consume c, c.buf (c.r % input_buf_size) ∷ [], returned (i + 1))
  line-Read i n c v ne f s =
      let (v', first) = consume-IsValid c v ne in
      record {
        valid = v';
        same_w = refl;
        same_e = refl;
        lost = [];
        parts = first;
        size = ground arith;
        text = rw f refl;
        stored = λ j l. (let q : i + j ≡ i = ground (arith, l) in rw q s);
        ends = inl (ground arith, refl, inr (rw f refl));
      }

  read_line-Read :
      (n i : ℕ) (c : Console)
      → IsValid c
      → Read killed copyout i n c (read_line killed copyout i n c)
  unfolding read_line
  read_line-Read zero i c v = full-Read i c v
  read_line-Read (suc n) i c v = elim (Bool-cases (c.r == c.w)) [
    | inl a ↦ rw (a, read_line) (empty-Read i n c v (ground arith))
    | inr a ↦
        let ne : c.r ≢ c.w = ground arith in
        let ch = c.buf (c.r % input_buf_size) in
        let (v', _) = consume-IsValid c v ne in
        elim (Bool-cases (ch == ctrl_d)) [
          | inl b ↦ rw (a, read_line, b) (end-Read i n c v ne (ground (arith, b)))
          | inr b ↦ elim (Bool-cases (copyout i)) [
            | inl d ↦ elim (Bool-cases (ch == newline)) [
              | inl f ↦ rw (a, read_line, b, d, f) (line-Read i n c v ne (ground (arith, f)) d)
              | inr f ↦
                  rw (a, read_line, b, d, f)
                    (cons-Read i n c (read_line killed copyout (i + 1) n (consume c)) v ne b f d
                      (read_line-Read n (i + 1) (consume c) v'))
            ]
            | inr d ↦ rw (a, read_line, b, d) (failed-Read i n c v ne (ground (arith, b)) d)
          ]
        ]
  ]

-- In a valid console, consoleread leaves the editor's two indices and a valid console. The
-- characters that were ready are those it delivers, then at most one that is lost, then those still
-- ready. Those delivered are at most n, all copied, without an end of file, and with a newline at
-- most at the end. It returns their number, with n of them or a whole line and none lost; or,
-- before that, 0 at an end of file, which is lost; or more than 0 before an end of file, which
-- stays ready; or where the copy of the next character, which is lost, fails; or nothing is ready
-- any more, none is lost, and it fails where the process is killed and else sleeps.
pub consoleread-Read :
    (killed : Bool) (copyout : ℕ → Bool) (n : ℕ) (c : Console)
    → IsValid c
    → Read killed copyout 0 n c (consoleread killed copyout n c)
unfolding consoleread
consoleread-Read killed copyout n c v = read_line-Read killed copyout n 0 c v
