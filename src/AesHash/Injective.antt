-- ===== src/AesHash/Injective.antt =====
-- The hashes of lib/aes_hash.hpp for a round of AES in its documented form.
use contreap.Prelude.{◌≡◌, ap, ◌∙◌, sym}
use contreap.AesHash.{Column, Block, Word64, set1_epi64x, set1_epi32, hash64, hash32}

abbrev pub on_bytes : {B : Type 0} → (B → B) → Column B → Column B
on_bytes f c = record { b0 = f c.b0; b1 = f c.b1; b2 = f c.b2; b3 = f c.b3 }

abbrev pub xor_bytes : {B : Type 0} → (B → B → B) → Column B → Column B → Column B
xor_bytes xor c k = record {
  b0 = xor c.b0 k.b0;
  b1 = xor c.b1 k.b1;
  b2 = xor c.b2 k.b2;
  b3 = xor c.b3 k.b3;
}

-- The rows are shifted to the left, each by its number.
abbrev pub shift_rows : {B : Type 0} → Block B → Block B
shift_rows s = record {
  c0 = record { b0 = s.c0.b0; b1 = s.c1.b1; b2 = s.c2.b2; b3 = s.c3.b3 };
  c1 = record { b0 = s.c1.b0; b1 = s.c2.b1; b2 = s.c3.b2; b3 = s.c0.b3 };
  c2 = record { b0 = s.c2.b0; b1 = s.c3.b1; b2 = s.c0.b2; b3 = s.c1.b3 };
  c3 = record { b0 = s.c3.b0; b1 = s.c0.b1; b2 = s.c1.b2; b3 = s.c2.b3 };
}

abbrev pub round_by :
    {B : Type 0} → (B → B) → (Column B → Column B) → (B → B → B) → Block B → Block B → Block B
round_by sub mix xor s k =
    let t = shift_rows s in
    record {
      c0 = xor_bytes xor (mix (on_bytes sub t.c0)) k.c0;
      c1 = xor_bytes xor (mix (on_bytes sub t.c1)) k.c1;
      c2 = xor_bytes xor (mix (on_bytes sub t.c2)) k.c2;
      c3 = xor_bytes xor (mix (on_bytes sub t.c3)) k.c3;
    }

-- The documented round of AES: the rows are shifted, each byte is substituted, each column is mixed,
-- and the key is added. Substitution and mixing can be undone, and so can the addition of a key.
pub record IsRound {B : Type 0} (aesenc : Block B → Block B → Block B) : Type 0 where
  pub sub : B → B
  pub mix : Column B → Column B
  pub xor : B → B → B
  pub sub_injective : (a b : B) → sub a ≡ sub b → a ≡ b
  pub mix_injective : (c d : Column B) → mix c ≡ mix d → c ≡ d
  pub xor_injective : (a b k : B) → xor a k ≡ xor b k → a ≡ b
  pub round : (s k : Block B) → aesenc s k ≡ round_by sub mix xor s k

Column-ext :
    {B : Type 0} (c d : Column B) → c.b0 ≡ d.b0 → c.b1 ≡ d.b1 → c.b2 ≡ d.b2 → c.b3 ≡ d.b3 → c ≡ d
Column-ext c d e0 e1 e2 e3 i = record { b0 = e0 i; b1 = e1 i; b2 = e2 i; b3 = e3 i }

module _ {B : Type 0} (aesenc : Block B → Block B → Block B) (r : IsRound aesenc) where
  -- A column of the result determines the bytes that go into it.
  on_bytes-injective : (c d : Column B) → on_bytes r.sub c ≡ on_bytes r.sub d → c ≡ d
  on_bytes-injective c d e =
      Column-ext c d (r.sub_injective c.b0 d.b0 (ap (λ x. x.b0) e))
        (r.sub_injective c.b1 d.b1 (ap (λ x. x.b1) e))
        (r.sub_injective c.b2 d.b2 (ap (λ x. x.b2) e))
        (r.sub_injective c.b3 d.b3 (ap (λ x. x.b3) e))

  xor_bytes-injective : (c d k : Column B) → xor_bytes r.xor c k ≡ xor_bytes r.xor d k → c ≡ d
  xor_bytes-injective c d k e =
      Column-ext c d (r.xor_injective c.b0 d.b0 k.b0 (ap (λ x. x.b0) e))
        (r.xor_injective c.b1 d.b1 k.b1 (ap (λ x. x.b1) e))
        (r.xor_injective c.b2 d.b2 k.b2 (ap (λ x. x.b2) e))
        (r.xor_injective c.b3 d.b3 k.b3 (ap (λ x. x.b3) e))

  column-injective :
      (c d k : Column B)
      → xor_bytes r.xor (r.mix (on_bytes r.sub c)) k ≡ xor_bytes r.xor (r.mix (on_bytes r.sub d)) k
      → c ≡ d
  column-injective c d k e = on_bytes-injective c d (
      r.mix_injective (on_bytes r.sub c) (on_bytes r.sub d)
        (xor_bytes-injective (r.mix (on_bytes r.sub c)) (r.mix (on_bytes r.sub d)) k e))

  -- The first two columns of a round determine the bytes that are shifted into them.
  first_columns :
      (s t k : Block B)
      → (aesenc s k).c0 ≡ (aesenc t k).c0
      → (aesenc s k).c1 ≡ (aesenc t k).c1
      → ((shift_rows s).c0 ≡ (shift_rows t).c0) × ((shift_rows s).c1 ≡ (shift_rows t).c1)
  first_columns s t k e0 e1 = (
    column-injective (shift_rows s).c0 (shift_rows t).c0 k.c0
        (sym (ap (λ x. x.c0) (r.round s k)) ∙ e0 ∙ ap (λ x. x.c0) (r.round t k)),
    column-injective (shift_rows s).c1 (shift_rows t).c1 k.c1
        (sym (ap (λ x. x.c1) (r.round s k)) ∙ e1 ∙ ap (λ x. x.c1) (r.round t k)),
  )

  -- A part of a round, with its definition in place.
  part :
      {C : Type 0} (pick : Block B → C) (s t k : Block B)
      → pick (aesenc s k) ≡ pick (aesenc t k)
      → pick (round_by r.sub r.mix r.xor s k) ≡ pick (round_by r.sub r.mix r.xor t k)
  part pick s t k e = sym (ap pick (r.round s k)) ∙ e ∙ ap pick (r.round t k)

  -- The columns that the first round mixes, for a word that stands in both halves of the block.
  abbrev even : Word64 B → Column B
  even x = (shift_rows (set1_epi64x x)).c0

  abbrev odd : Word64 B → Column B
  odd x = (shift_rows (set1_epi64x x)).c1

  mixed-injective : (c d : Column B) → r.mix (on_bytes r.sub c) ≡ r.mix (on_bytes r.sub d) → c ≡ d
  mixed-injective c d e =
      on_bytes-injective c d (r.mix_injective (on_bytes r.sub c) (on_bytes r.sub d) e)

  -- Where the instruction is a round of AES: different 64-bit integers have different hashes under the
  -- same two keys, although only half of the second round is kept.
  pub hash64-injective :
      (key key64 : Block B) (x y : Word64 B)
      → hash64 aesenc key key64 x ≡ hash64 aesenc key key64 y
      → x ≡ y
  unfolding hash64
  hash64-injective key key64 x y e =
      let s = set1_epi64x x in
      let t = set1_epi64x y in
      let (first, second) =
        first_columns (aesenc s key) (aesenc t key) key64 (ap (λ w. w.low) e)
          (ap (λ w. w.high) e) in
      let even0 =
        r.xor_injective _ _ key.c0.b0 (part (λ u. u.c0.b0) s t key (ap (λ c. c.b0) first)) in
      let odd1 =
        r.xor_injective _ _ key.c1.b1 (part (λ u. u.c1.b1) s t key (ap (λ c. c.b1) first)) in
      let even2 =
        r.xor_injective _ _ key.c2.b2 (part (λ u. u.c2.b2) s t key (ap (λ c. c.b2) first)) in
      let odd3 =
        r.xor_injective _ _ key.c3.b3 (part (λ u. u.c3.b3) s t key (ap (λ c. c.b3) first)) in
      let odd0 =
        r.xor_injective _ _ key.c1.b0 (part (λ u. u.c1.b0) s t key (ap (λ c. c.b0) second)) in
      let even1 =
        r.xor_injective _ _ key.c2.b1 (part (λ u. u.c2.b1) s t key (ap (λ c. c.b1) second)) in
      let odd2 =
        r.xor_injective _ _ key.c3.b2 (part (λ u. u.c3.b2) s t key (ap (λ c. c.b2) second)) in
      let even3 =
        r.xor_injective _ _ key.c0.b3 (part (λ u. u.c0.b3) s t key (ap (λ c. c.b3) second)) in
      let evens : even x ≡ even y =
        mixed-injective (even x) (even y) (Column-ext _ _ even0 even1 even2 even3) in
      let odds : odd x ≡ odd y =
        mixed-injective (odd x) (odd y) (Column-ext _ _ odd0 odd1 odd2 odd3) in
      λ i. record {
        low = record { b0 = (evens i).b0; b1 = (odds i).b1; b2 = (evens i).b2; b3 = (odds i).b3 };
        high = record { b0 = (odds i).b0; b1 = (evens i).b1; b2 = (odds i).b2; b3 = (evens i).b3 };
      }

  -- Where the instruction is a round of AES: different 32-bit integers have different hashes under the
  -- same key.
  pub hash32-injective :
      (key : Block B) (x y : Column B) → hash32 aesenc key x ≡ hash32 aesenc key y → x ≡ y
  unfolding hash32
  hash32-injective key x y e =
      column-injective x y key.c0 (part (λ u. u.c0) (set1_epi32 x) (set1_epi32 y) key e)
