-- ===== src/Bufpool.antt =====
-- internal/bufpool/bufpool.go. A `Buffer` is the content and the capacity of its slice; an array of
-- `sync.Pool` is the buffers that each class holds. A pool may give any buffer that it holds, or none:
-- which one is an argument.
pub mod Classes
pub mod Pools
mod Tests
use ews.Common.{
  ℕ, zero, suc, ◌+◌, ◌-◌, ◌/◌, ◌%◌, ◌^◌, Bool, true, false, not, ◌||◌, Option, none, some, List, [],
  ◌∷◌, ◌++◌, ltb, ◌==◌, if◌then◌else◌, max, bit_and,
}

abbrev pub min_bits : ℕ
min_bits = 10

abbrev pub max_bits : ℕ
max_bits = 26

pub record Buffer : Type 0 where
  pub bytes : List ℕ
  pub cap : ℕ

-- The buffers of each class.
abbrev pub Classes : Type 0
Classes = ℕ → List Buffer

-- `bits.Len` of a word: the fuel is the word's 64 bits.
unfoldable pub bit_len : ℕ → ℕ → ℕ
bit_len zero n = 0
bit_len (suc fuel) n = let rest = bit_len fuel (n / 2) in if n == 0 then 0 else suc rest

-- `class`, with the conversion of `n-1` to `uint`.
unfoldable pub class : ℕ → ℕ
class n = max min_bits (bit_len 64 ((n + (2 ^ 64 - 1)) % 2 ^ 64))

-- The buffer that a pool gives, by its place, and what it then holds.
unfoldable pub take_at : Option ℕ → List Buffer → Option Buffer × List Buffer
take_at none bs = (none, bs)
take_at (some i) [] = (none, [])
take_at (some zero) (b ∷ bs) = (some b, bs)
take_at (some (suc i)) (b ∷ bs) = let r = take_at (some i) bs in (r.0, b ∷ r.1)

abbrev pub with_class : ℕ → List Buffer → Classes → Classes
with_class c bs pools = λ d. if d == c then bs else pools d

-- `Get`; `none` is the panic of an index that the array does not have.
unfoldable pub get : ℕ → Option ℕ → Classes → Option (Classes × Buffer)
unfolding take_at
get n place pools =
    if ltb (2 ^ max_bits) n
    then some (pools, record { bytes = []; cap = n })
    else if ltb max_bits (class n)
    then none
    else (let (found, rest) = take_at place (pools (class n)) in
        some (
          with_class (class n) rest pools,
          elim found [
            | some b ↦ record b { bytes = [] }
            | none ↦ record { bytes = []; cap = 2 ^ class n }
          ],
        ))

-- `Put` of a buffer or of nil, which is `none`; the result `none` is the panic of an index that the
-- array does not have, -1 included.
unfoldable pub put : Option Buffer → Classes → Option Classes
put none pools = some pools
put (some b) pools =
    if ltb b.cap (2 ^ min_bits)
      || (ltb (2 ^ max_bits) b.cap || not (bit_and b.cap (b.cap - 1) == 0))
    then some pools
    else (let c = bit_len 64 b.cap - 1 in
        if bit_len 64 b.cap == 0 || ltb max_bits c
        then none
        else some (with_class c (record b { bytes = [] } ∷ pools c) pools))
