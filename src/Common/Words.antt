-- ===== src/Common/Words.antt =====
-- Fixed-width integers in byte sequences: `encoding/binary` of Go's standard library.
use ews.Common.Lists.{length, All}
use ews.Common.Bits.{bit_xor-fields_byte, bit_xor-lt}
use Prim.Native.Nat.{ℕ, zero, suc, ◌+◌, ◌*◌, ◌/◌, ◌%◌, ◌^◌, ◌<◌, bit_xor}
use mathlib.Core.Path.{◌≡◌, refl, ap, ◌∙◌}
use mathlib.Core.List.{List, [], ◌∷◌}
use native.Mathlib.Omega.{arith}

-- A byte sequence.
abbrev pub IsBytes : List ℕ → Type 0
IsBytes = All (λ b. b < 256)

-- `binary.LittleEndian.Uint32` and `Uint64` of all the bytes given.
unfoldable pub le_word : List ℕ → ℕ
le_word [] = 0
le_word (b ∷ bs) = b + 256 * le_word bs

-- `binary.LittleEndian.PutUint64` and its narrower forms, into `n` bytes.
unfoldable pub put_le : ℕ → ℕ → List ℕ
put_le zero w = []
put_le (suc n) w = (w % 256) ∷ put_le n (w / 256)

-- `binary.BigEndian.Uint16` and `Uint64` of all the bytes given.
unfoldable pub be_word_from : ℕ → List ℕ → ℕ
be_word_from acc [] = acc
be_word_from acc (b ∷ bs) = be_word_from (acc * 256 + b) bs

-- `binary.BigEndian.PutUint16` and `PutUint64`, into `n` bytes.
unfoldable pub put_be : ℕ → ℕ → List ℕ
put_be zero w = []
put_be (suc n) w = ((w / 256 ^ n) % 256) ∷ put_be n w

unfoldable pub xor_bytes : List ℕ → List ℕ → List ℕ
xor_bytes [] ks = []
xor_bytes (x ∷ xs) [] = []
xor_bytes (x ∷ xs) (k ∷ ks) = bit_xor x k ∷ xor_bytes xs ks

pub length-put_le : (n w : ℕ) → length (put_le n w) ≡ n
unfolding put_le
length-put_le zero w = refl
length-put_le (suc n) w = ap suc (length-put_le n (w / 256))

pub put_le-le_word : (n : ℕ) (bs : List ℕ) → length bs ≡ n → IsBytes bs → put_le n (le_word bs) ≡ bs
unfolding put_le le_word
put_le-le_word zero [] e h = refl
put_le-le_word zero (b ∷ bs) e h = absurd (omega arith)
put_le-le_word (suc n) [] e h = absurd (omega arith)
put_le-le_word (suc n) (b ∷ bs) e h =
    let low : (b + 256 * le_word bs) % 256 ≡ b = omega arith in
    let rest : (b + 256 * le_word bs) / 256 ≡ le_word bs = omega arith in
    rw (low, rest) (ap (λ t. b ∷ t) (put_le-le_word n bs (omega arith) h.1))

-- `^` of two words is `^` of their bytes.
pub bit_xor-le_word :
    (xs ks : List ℕ)
    → length xs ≡ length ks
    → IsBytes xs
    → IsBytes ks
    → bit_xor (le_word xs) (le_word ks) ≡ le_word (xor_bytes xs ks)
unfolding le_word xor_bytes
bit_xor-le_word [] [] e p q = refl
bit_xor-le_word [] (k ∷ ks) e p q = absurd (omega arith)
bit_xor-le_word (x ∷ xs) [] e p q = absurd (omega arith)
bit_xor-le_word (x ∷ xs) (k ∷ ks) e p q =
    bit_xor-fields_byte x (le_word xs) k (le_word ks) p.0 q.0
    ∙ ap (λ t. bit_xor x k + 256 * t) (bit_xor-le_word xs ks (omega arith) p.1 q.1)

pub xor_bytes-IsBytes : (xs ks : List ℕ) → IsBytes xs → IsBytes ks → IsBytes (xor_bytes xs ks)
unfolding xor_bytes
xor_bytes-IsBytes [] ks p q = tt
xor_bytes-IsBytes (x ∷ xs) [] p q = tt
xor_bytes-IsBytes (x ∷ xs) (k ∷ ks) p q = (bit_xor-lt x k p.0 q.0, xor_bytes-IsBytes xs ks p.1 q.1)

pub length-xor_bytes :
    (xs ks : List ℕ) → length xs ≡ length ks → length (xor_bytes xs ks) ≡ length xs
unfolding xor_bytes
length-xor_bytes [] ks e = refl
length-xor_bytes (x ∷ xs) [] e = absurd (omega arith)
length-xor_bytes (x ∷ xs) (k ∷ ks) e = ap suc (length-xor_bytes xs ks (omega arith))

-- A word-wide `^`, stored, is the bytewise `^`.
pub put_le-bit_xor :
    (n : ℕ) (xs ks : List ℕ)
    → length xs ≡ n
    → length ks ≡ n
    → IsBytes xs
    → IsBytes ks
    → put_le n (bit_xor (le_word xs) (le_word ks)) ≡ xor_bytes xs ks
put_le-bit_xor n xs ks ex ek p q =
    let same : length xs ≡ length ks = omega arith in
    ap (put_le n) (bit_xor-le_word xs ks same p q)
    ∙ put_le-le_word n (xor_bytes xs ks) (omega (arith, length-xor_bytes xs ks same))
        (xor_bytes-IsBytes xs ks p q)

pub length-put_be : (n w : ℕ) → length (put_be n w) ≡ n
unfolding put_be
length-put_be zero w = refl
length-put_be (suc n) w = ap suc (length-put_be n w)

pub put_be-IsBytes : (n w : ℕ) → IsBytes (put_be n w)
unfolding put_be
put_be-IsBytes zero w = tt
put_be-IsBytes (suc n) w = (omega arith, put_be-IsBytes n w)

unfoldable pub be_word : List ℕ → ℕ
unfolding be_word_from
be_word = be_word_from 0

pub be_word-put_be_2 : (w : ℕ) → w < 2 ^ 16 → be_word (put_be 2 w) ≡ w
unfolding be_word be_word_from put_be
be_word-put_be_2 w h = omega arith

pub be_word-put_be_8 : (w : ℕ) → w < 2 ^ 64 → be_word (put_be 8 w) ≡ w
unfolding be_word be_word_from put_be
be_word-put_be_8 w h = omega arith
