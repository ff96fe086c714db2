-- ===== src/AesHash.antt =====
-- lib/aes_hash.hpp. An integer is its bytes from the lowest on, and `__m128i` is four columns of four
-- bytes. `aesenc` stands for the instruction, and the two keys for the static constants.
pub mod Injective

pub record Column (B : Type 0) : Type 0 where
  pub b0 : B
  pub b1 : B
  pub b2 : B
  pub b3 : B

-- `__m128i`
pub record Block (B : Type 0) : Type 0 where
  pub c0 : Column B
  pub c1 : Column B
  pub c2 : Column B
  pub c3 : Column B

-- `uint64_t`
pub record Word64 (B : Type 0) : Type 0 where
  pub low : Column B
  pub high : Column B

-- `uint16_t`
pub record Word16 (B : Type 0) : Type 0 where
  pub low : B
  pub high : B

-- The integers that `hash` takes, signed or not.
pub data Integer (B : Type 0) : Type 0 where
  int8 : B → Integer B
  int16 : Word16 B → Integer B
  int32 : Column B → Integer B
  int64 : Word64 B → Integer B

module _ {B : Type 0} where
  -- `_mm_set_epi32`, whose first argument is the highest.
  unfoldable pub set_epi32 : Column B → Column B → Column B → Column B → Block B
  set_epi32 e3 e2 e1 e0 = record { c0 = e0; c1 = e1; c2 = e2; c3 = e3 }

  -- `aes_keygen` with the four numbers that `_rand` gives.
  unfoldable pub aes_keygen : Column B → Column B → Column B → Column B → Block B
  unfolding set_epi32
  aes_keygen r3 r2 r1 r0 = set_epi32 r3 r2 r1 r0

  -- `_mm_set1_epi64x`, `_mm_set1_epi32`, `_mm_set1_epi16` and `_mm_set1_epi8`
  abbrev pub set1_epi64x : Word64 B → Block B
  set1_epi64x x = record { c0 = x.low; c1 = x.high; c2 = x.low; c3 = x.high }

  abbrev pub set1_epi32 : Column B → Block B
  set1_epi32 x = record { c0 = x; c1 = x; c2 = x; c3 = x }

  abbrev pub set1_epi16 : Word16 B → Block B
  set1_epi16 x = set1_epi32 (record { b0 = x.low; b1 = x.high; b2 = x.low; b3 = x.high })

  abbrev pub set1_epi8 : B → Block B
  set1_epi8 x = set1_epi32 (record { b0 = x; b1 = x; b2 = x; b3 = x })

  module _ (aesenc : Block B → Block B → Block B) where
    unfoldable pub hash64 : Block B → Block B → Word64 B → Word64 B
    hash64 key key64 x =
        let r = aesenc (aesenc (set1_epi64x x) key) key64 in record { low = r.c0; high = r.c1 }

    unfoldable pub hash32 : Block B → Column B → Column B
    hash32 key x = (aesenc (set1_epi32 x) key).c0

    unfoldable pub hash16 : Block B → Word16 B → Word16 B
    hash16 key x = let r = aesenc (set1_epi16 x) key in record { low = r.c0.b0; high = r.c0.b1 }

    unfoldable pub hash8 : Block B → B → B
    hash8 key x = (aesenc (set1_epi8 x) key).c0.b0

    -- Each width has its own keys; `hash64` has two.
    unfoldable pub hash : (k8 k16 k32 k64 k64' : Block B) → Integer B → Integer B
    hash k8 k16 k32 k64 k64' (int8 x) = int8 (hash8 k8 x)
    hash k8 k16 k32 k64 k64' (int16 x) = int16 (hash16 k16 x)
    hash k8 k16 k32 k64 k64' (int32 x) = int32 (hash32 k32 x)
    hash k8 k16 k32 k64 k64' (int64 x) = int64 (hash64 k64 k64' x)
