-- ===== src/Console/Editing.antt =====
-- The three indices of the console's ring (kernel/console.c) and the line being edited.
use mini_os_design.Common.{
  ℕ, zero, suc, ◌+◌, ◌-◌, ◌%◌, ◌≤◌, ◌<◌, ◌≡◌, ◌≢◌, true, not, ◌&&◌, ◌||◌, ltb, ◌==◌, ap, arith,
  Bool-cases, inl, inr, length,
}
use mini_os_design.Console.{
  Console, input_buf_size, uint_range, newline, ctrl_d, ctrl_u, ctrl_h, ctrl_p, delete_key,
  last_index, erase, kill_line, type_char, typed, consoleintr,
}

-- The number of characters that consoleread may take, and of those still being edited.
abbrev pub ready : Console → ℕ
ready c = (c.w + uint_range - c.r) % uint_range

abbrev pending : Console → ℕ
pending c = (c.e + uint_range - c.w) % uint_range

-- The indices are words in order, within one turn of the ring; the line being edited has no newline.
pub record IsValid (c : Console) : Type 0 where
  pub r_word : c.r < uint_range
  pub w_word : c.w < uint_range
  pub e_word : c.e < uint_range
  pub fits : ready c + pending c ≤ input_buf_size
  pub one_line : (j : ℕ) → j < pending c → c.buf ((c.w + j) % uint_range % input_buf_size) ≢ newline

erase-IsValid :
    (c : Console)
    → IsValid c
    → c.e ≢ c.w
    → IsValid (erase c) × (pending c ≡ suc (pending (erase c)))
erase-IsValid c v ne =
    let less : pending c ≡ suc (pending (erase c)) = ground (arith, v) in
    (
      record {
        r_word = v.r_word;
        w_word = v.w_word;
        e_word = omega arith;
        fits = omega (arith, v.fits, less);
        one_line = λ j h. v.one_line j (omega (arith, less));
      },
      less,
    )

-- Nothing is left to erase.
settled : (c : Console) → c.e ≡ c.w → c ≡ record c { e = c.w }
settled c q = ap (λ x. record c { e = x }) q

kill_line_lem :
    (fuel : ℕ) (c : Console)
    → IsValid c
    → pending c ≤ fuel
    → ((kill_line fuel c).0 ≡ record c { e = c.w }) × (length (kill_line fuel c).1 ≡ pending c)
unfolding kill_line
kill_line_lem zero c v h = (settled c (ground (arith, v)), omega arith)
kill_line_lem (suc fuel) c v h = elim (Bool-cases (c.e == c.w)) [
  | inl t ↦
      let q : c.e ≡ c.w = ground arith in rw (kill_line, t) (settled c q, ground (arith, q, v))
  | inr t ↦
      let (v', less) = erase-IsValid c v (ground arith) in
      let (a, b) = kill_line_lem fuel (erase c) v' (omega (arith, less)) in
      let at : (c.w + pending (erase c)) % uint_range ≡ last_index c = ground (arith, v, less) in
      let line : c.buf (last_index c % input_buf_size) ≢ newline =
        rw at at (v.one_line (pending (erase c)) (omega (arith, less))) in
      let z : (not (c.e == c.w) && not (c.buf (last_index c % input_buf_size) == newline)) ≡ true =
        ground (arith, t, line) in
      rw (kill_line, z) (a, omega (arith, b, less))
]

-- In a valid console the kill-line key erases exactly the line being edited: it moves the edit
-- index back to the write index, changes nothing else, and sends one backspace for each character
-- of the line.
kill_line_key :
    (c : Console)
    → IsValid c
    → ((consoleintr c ctrl_u).0 ≡ record c { e = c.w })
      × (length (consoleintr c ctrl_u).1 ≡ pending c)
unfolding consoleintr
kill_line_key c v = kill_line_lem input_buf_size c v (omega (arith, v.fits))

-- The slot that the next character takes holds no character of the line.
slot_free :
    (w n e j : ℕ)
    → w < uint_range
    → e ≡ (w + n) % uint_range
    → n < input_buf_size
    → j < n
    → (w + j) % uint_range % input_buf_size ≢ e % input_buf_size
slot_free w n e j h q l k z = ground arith

type_char-IsValid :
    (c : Console) (ch : ℕ)
    → IsValid c
    → (c.e + uint_range - c.r) % uint_range < input_buf_size
    → IsValid (type_char c ch)
unfolding type_char
type_char-IsValid c ch v h =
    let total : (c.e + uint_range - c.r) % uint_range ≡ ready c + pending c = ground (arith, v) in
    let e' : ℕ = (c.e + 1) % uint_range in
    let more : (e' + uint_range - c.r) % uint_range ≡ suc (ready c + pending c) =
      ground (arith, v, total) in
    let wide : (e' + uint_range - c.w) % uint_range ≡ suc (pending c) = ground (arith, v, total) in
    let here : c.e ≡ (c.w + pending c) % uint_range = ground (arith, v) in
    let none : (e' + uint_range - e') % uint_range ≡ 0 = omega arith in
    elim (Bool-cases
      (ch == newline || ch == ctrl_d || (e' + uint_range - c.r) % uint_range == input_buf_size)) [
        | inl t ↦ rw t (record {
          r_word = v.r_word;
          w_word = omega arith;
          e_word = omega arith;
          fits = omega (arith, more, none, h, total);
          one_line = λ j l. absurd (omega (arith, none));
        })
        | inr t ↦ rw t (record {
          r_word = v.r_word;
          w_word = v.w_word;
          e_word = omega arith;
          fits = omega (arith, wide, h, total);
          one_line = λ j l. elim (Bool-cases (j == pending c)) [
            | inl s ↦ let q : j ≡ pending c = ground arith in rw (q, ← here) (ground (arith, t))
            | inr s ↦
                let k : j < pending c = ground (arith, wide) in
                let ne =
                  slot_free c.w (pending c) c.e j v.w_word here (omega (arith, h, total)) k in
                ground (arith, ne, v.one_line j k)
          ];
        })
      ]

line_gone : (c : Console) → IsValid c → IsValid (record c { e = c.w })
line_gone c v =
    let none : (c.w + uint_range - c.w) % uint_range ≡ 0 = ground (arith, v) in
    record {
      r_word = v.r_word;
      w_word = v.w_word;
      e_word = v.w_word;
      fits = omega (arith, none, v.fits);
      one_line = λ j l. absurd (omega (arith, none));
    }

-- Any key keeps the console valid: the three indices stay in order within one turn of the ring, and
-- the line being edited has no newline.
pub consoleintr-IsValid : (c : Console) (ch : ℕ) → IsValid c → IsValid (consoleintr c ch).0
unfolding consoleintr
consoleintr-IsValid c ch v = elim (Bool-cases (ch == ctrl_p)) [
  | inl a ↦ rw (a, consoleintr) v
  | inr a ↦ elim (Bool-cases (ch == ctrl_u)) [
    | inl b ↦
        rw (a, consoleintr, b, (kill_line_lem input_buf_size c v (omega (arith, v.fits))).0)
          (line_gone c v)
    | inr b ↦ elim (Bool-cases (ch == ctrl_h || ch == delete_key)) [
      | inl d ↦ elim (Bool-cases (c.e == c.w)) [
        | inl q ↦ rw (a, consoleintr, b, d, q) v
        | inr q ↦ rw (a, consoleintr, b, d, q) (erase-IsValid c v (ground arith)).0
      ]
      | inr d ↦
          elim (Bool-cases
            (not (ch == 0) && ltb ((c.e + uint_range - c.r) % uint_range) input_buf_size)) [
              | inl q ↦
                  rw (a, consoleintr, b, d, q) (type_char-IsValid c (typed ch) v (ground arith))
              | inr q ↦ rw (a, consoleintr, b, d, q) v
            ]
    ]
  ]
]
