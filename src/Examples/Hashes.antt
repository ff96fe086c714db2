-- ===== src/Examples/Hashes.antt =====
-- Tests of lib/aes_hash.hpp, with bytes of one bit, a substitution that inverts them and a mixing that
-- turns a column.
use contreap.Prelude.{◌≡◌, refl, sym, Bool, true, false, not}
use contreap.AesHash.{
  Column, Block, Word64, int8, int64, aes_keygen, set_epi32, hash, hash64, hash8,
}
use contreap.AesHash.Injective.{IsRound, round_by, hash64-injective, hash32-injective}

abbrev turn : Column Bool → Column Bool
turn c = record { b0 = c.b1; b1 = c.b2; b2 = c.b3; b3 = c.b0 }

abbrev xor : Bool → Bool → Bool
xor true k = not k
xor false k = k

abbrev aesenc : Block Bool → Block Bool → Block Bool
aesenc = round_by not turn xor

not_injective : (a b : Bool) → not a ≡ not b → a ≡ b
not_injective true true e = refl
not_injective true false e = sym e
not_injective false true e = sym e
not_injective false false e = refl

xor_injective : (a b k : Bool) → xor a k ≡ xor b k → a ≡ b
xor_injective true true k e = refl
xor_injective true false true e = sym e
xor_injective true false false e = e
xor_injective false true true e = sym e
xor_injective false true false e = e
xor_injective false false k e = refl

aesenc-IsRound : IsRound aesenc
aesenc-IsRound = record {
  sub = not;
  mix = turn;
  xor = xor;
  sub_injective = not_injective;
  mix_injective = λ c d e i. record { b0 = (e i).b3; b1 = (e i).b0; b2 = (e i).b1; b3 = (e i).b2 };
  xor_injective = xor_injective;
  round = λ s k. refl;
}

abbrev ones : Column Bool
ones = record { b0 = true; b1 = true; b2 = true; b3 = true }

abbrev mixed : Column Bool
mixed = record { b0 = true; b1 = false; b2 = false; b3 = true }

abbrev key : Block Bool
key = aes_keygen mixed ones ones mixed

abbrev word : Word64 Bool
word = record { low = mixed; high = ones }

-- The widths are hashed each in its own way.
hash_dispatch : hash aesenc key key key key key (int64 word) ≡ int64 (hash64 aesenc key key word)
unfolding hash
hash_dispatch = refl

hash8_true : hash aesenc key key key key key (int8 true) ≡ int8 true
unfolding hash hash8 aes_keygen set_epi32
hash8_true = refl

hash64-injective_example : word ≡ record { low = mixed; high = ones }
hash64-injective_example = hash64-injective aesenc aesenc-IsRound key key word word refl

equal_words : mixed ≡ record { b0 = true; b1 = false; b2 = false; b3 = true }
equal_words = hash32-injective aesenc aesenc-IsRound key mixed mixed refl
