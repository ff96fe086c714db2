-- ===== src/Workload/Bytes.antt =====
-- The bytes of machine words, as `fstream` writes and reads them on a little-endian machine.
use contreap.Prelude.{
  ℕ, zero, suc, ◌+◌, ◌*◌, ◌/◌, ◌%◌, ◌≡◌, ◌<◌, refl, ap, arith, Option, none, some, List, [], ◌∷◌,
  ◌++◌, length, ◌>>=◌, u64_mod,
}
use mathlib.Core.Path.{subst}
use mathlib.Core.List.{append_assoc}

unfoldable pub bytes_of : ℕ → ℕ → List ℕ
bytes_of zero n = []
bytes_of (suc k) n = (n % 256) ∷ bytes_of k (n / 256)

unfoldable pub value_of : List ℕ → ℕ
value_of [] = 0
value_of (b ∷ bs) = b + 256 * value_of bs

-- A read of so many bytes. A short file leaves memory that was never written.
unfoldable pub read_bytes : ℕ → List ℕ → Option (List ℕ × List ℕ)
read_bytes zero file = some ([], file)
read_bytes (suc k) [] = none
read_bytes (suc k) (b ∷ file) = do (bs, rest) ← read_bytes k file; some (b ∷ bs, rest)

-- `uint64_t` and `size_t`
unfoldable pub word_bytes : ℕ → List ℕ
word_bytes n = bytes_of 8 n

unfoldable pub read_word : List ℕ → Option (ℕ × List ℕ)
read_word file = do (bs, rest) ← read_bytes 8 file; some (value_of bs, rest)

-- An array of values.
unfoldable pub read_many {ℓ} :
    {A : Type ℓ} → (List ℕ → Option (A × List ℕ)) → ℕ → List ℕ → Option (List A × List ℕ)
read_many read zero file = some ([], file)
read_many read (suc n) file = do
  (x, rest) ← read file
  (xs, rest') ← read_many read n rest
  some (x ∷ xs, rest')

-- One more than the largest value of so many bytes.
abbrev capacity : ℕ → ℕ
capacity zero = 1
capacity (suc k) = 256 * capacity k

value_of-bytes_of : (k n : ℕ) → n < capacity k → value_of (bytes_of k n) ≡ n
unfolding value_of bytes_of
value_of-bytes_of zero n lt = omega arith
value_of-bytes_of (suc k) n lt =
    let rest = value_of-bytes_of k (n / 256) (omega arith) in omega (arith, rest)

length-bytes_of : (k n : ℕ) → length (bytes_of k n) ≡ k
unfolding bytes_of
length-bytes_of zero n = refl
length-bytes_of (suc k) n = ap suc (length-bytes_of k (n / 256))

pub read_bytes-append : (bs rest : List ℕ) → read_bytes (length bs) (bs ++ rest) ≡ some (bs, rest)
unfolding read_bytes
read_bytes-append [] rest = refl
read_bytes-append (b ∷ bs) rest = rw (read_bytes-append bs rest)

-- What has been written as a word is read as this word.
pub read_word-append :
    (n : ℕ) (rest : List ℕ) → n < u64_mod → read_word (word_bytes n ++ rest) ≡ some (n, rest)
unfolding read_word word_bytes
read_word-append n rest lt =
    let bs = bytes_of 8 n in
    let found : read_bytes 8 (bs ++ rest) ≡ some (bs, rest) =
      subst (λ k. read_bytes k (bs ++ rest) ≡ some (bs, rest)) (length-bytes_of 8 n)
        (read_bytes-append bs rest) in
    rw (found, value_of-bytes_of 8 n (omega arith)) refl

pub value_of-byte : (b : ℕ) → value_of (b ∷ []) ≡ b
unfolding value_of
value_of-byte b = omega arith

-- Bytes from which a read gets these values, one after the other.
pub data Encoded {ℓ} {A : Type ℓ} (read : List ℕ → Option (A × List ℕ))
    : List A → List ℕ → Type ℓ where
  nothing : Encoded read [] []
  value :
      (x : A) (xs : List A) (bs cs : List ℕ)
      → ((rest : List ℕ) → read (bs ++ rest) ≡ some (x, rest))
      → Encoded read xs cs
      → Encoded read (x ∷ xs) (bs ++ cs)

pub read_many-Encoded {ℓ} :
    {A : Type ℓ} {read : List ℕ → Option (A × List ℕ)} {xs : List A} {bs : List ℕ} (rest : List ℕ)
    → Encoded read xs bs
    → read_many read (length xs) (bs ++ rest) ≡ some (xs, rest)
unfolding read_many
read_many-Encoded rest nothing = refl
read_many-Encoded rest (value x xs bs cs back others) =
    rw (append_assoc, back (cs ++ rest), read_many-Encoded rest others) refl
