-- ===== src/Fs/Slots/Overwrite.antt =====
-- A block of a file is overwritten, or a block that is not of the file.
use mini_os_design.Common.{
  ℕ, ◌/◌, ◌%◌, ◌<◌, ◌≡◌, ◌≢◌, true, false, ◌==◌, if◌then◌else◌, refl, sym, ◌∙◌, arith, Bool-cases,
  inl, inr,
}
use mini_os_design.Fs.{Fs, bsize, bblock, write_block}
use mini_os_design.Fs.Bitmap.{used}
use mini_os_design.Fs.Bmap.{ndirect}
use mini_os_design.Fs.Slots.{
  block_of, slots, data_slot, byte, max_bytes, IsLaid, IsSound, IsForeign, Rewritten,
}

pub Rewritten-trans :
    (s t u : Fs) (nmeta : ℕ) (p q r e f g : ℕ → ℕ)
    → ((x : ℕ) → x < max_bytes → f x ≡ g x)
    → Rewritten s nmeta p t q e
    → Rewritten t nmeta q u r f
    → Rewritten s nmeta p u r g
Rewritten-trans s t u nmeta p q r e f g h a b = record {
  sound = b.sound;
  layout = (
    b.layout.0 ∙ a.layout.0,
    b.layout.1 ∙ a.layout.1,
    b.layout.2 ∙ a.layout.2,
    b.layout.3 ∙ a.layout.3,
  );
  bytes = λ x l. b.bytes x l ∙ h x l;
  foreign = λ c f'. let (f₁, d) = a.foreign c f' in let (f₂, d') = b.foreign c f₁ in (f₂, d' ∙ d);
}

module _ (s : Fs) (nmeta : ℕ) (addrs : ℕ → ℕ) (v : IsSound s nmeta addrs) (b : ℕ) (w : ℕ → ℕ) where
  module _ (no_map : (c : ℕ) → c < s.size → bblock s c ≢ b)
      (no_index : addrs ndirect ≢ 0 → b ≢ addrs ndirect) where
    pub same_used : (c : ℕ) → c < s.size → used (write_block s b w) c ≡ used s c
    same_used c l = let z : (bblock s c == b) ≡ false = ground (arith, no_map c l) in rw z refl

    pub same_slot : (j : ℕ) → block_of (write_block s b w) addrs j ≡ block_of s addrs j
    same_slot j = elim (Bool-cases (addrs ndirect == 0)) [
      | inl h ↦ rw h refl
      | inr h ↦
          let n : addrs ndirect ≢ 0 = ground (arith, h) in
          let z : (addrs ndirect == b) ≡ false = ground (arith, no_index n) in rw z refl
    ]

    same-IsLaid : IsLaid (write_block s b w) nmeta
    same-IsLaid =
        let l = v.laid in
        record {
          maps = l.maps;
          inodes = l.inodes;
          disjoint = l.disjoint;
          reserved = λ c h. (let f = l.fits in same_used c (omega arith) ∙ l.reserved c h);
          fits = l.fits;
          small = l.small;
        }

    pub same-IsSound : IsSound (write_block s b w) nmeta addrs
    same-IsSound = record {
      laid = same-IsLaid;
      in_use = λ k l n.
          let q = same_slot k in
          let (x, y, z) = v.in_use k l (λ e. n (q ∙ e)) in
          rw q (x, y, same_used (block_of s addrs k) y ∙ z);
      apart = λ i j l m e n.
          v.apart i j l m (sym (same_slot i) ∙ e ∙ same_slot j) (λ z. n (same_slot i ∙ z));
    }

    pub same-IsForeign : (c : ℕ) → IsForeign s addrs c → IsForeign (write_block s b w) addrs c
    same-IsForeign c f = record {
      within = f.within;
      used_here = same_used c f.within ∙ f.used_here;
      no_map = f.no_map;
      no_slot = λ j l e. f.no_slot j l (sym (same_slot j) ∙ e);
    }

    -- The bytes of a file after one of its blocks is overwritten.
    pub new_bytes :
        (bn x : ℕ)
        → block_of s addrs (data_slot bn) ≡ b
        → b ≢ 0
        → bn < 268
        → x < max_bytes
        → byte (write_block s b w) addrs x
          ≡ (if x / bsize == bn then w (x % bsize) else byte s addrs x)
    new_bytes bn x e n l m =
        let j = data_slot (x / bsize) in
        let q = same_slot j in
        elim (Bool-cases (x / bsize == bn)) [
          | inl h ↦
              let h' : x / bsize ≡ bn = ground arith in
              let e' : block_of s addrs j ≡ b = rw h' e in
              let z : (b == 0) ≡ false = ground (arith, n) in
              let k : (b == b) ≡ true = ground arith in rw (q, h, e', z, k) refl
          | inr h ↦
              let d : block_of s addrs j ≢ b = λ y.
                (let g =
                    v.apart j (data_slot bn) (ground arith) (ground (arith, l)) (y ∙ sym e)
                      (λ g. n (sym y ∙ g)) in
                  ground (arith, g, h)) in
              let z : (block_of s addrs j == b) ≡ false = ground (arith, d) in rw (q, h, z) refl
        ]

    -- The bytes of a file after a block that is not of it is overwritten.
    pub same_bytes :
        ((j : ℕ) → j < slots → block_of s addrs j ≢ 0 → block_of s addrs j ≢ b)
        → (x : ℕ) → x < max_bytes
        → byte (write_block s b w) addrs x ≡ byte s addrs x
    same_bytes out x l =
        let j = data_slot (x / bsize) in
        let q = same_slot j in
        elim (Bool-cases (block_of s addrs j == 0)) [
          | inl h ↦ rw (q, h) refl
          | inr h ↦
              let d = out j (ground (arith, l)) (ground (arith, h)) in
              let z : (block_of s addrs j == b) ≡ false = ground (arith, d) in rw (q, h, z) refl
        ]
