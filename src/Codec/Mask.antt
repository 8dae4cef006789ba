-- ===== src/Codec/Mask.antt =====
-- codec/mask.go and its three builds mask_swar.go, mask_swar_generic.go and mask_simd.go.
-- A slice is the list of its bytes. `dst` is an output: every build stores at an index only after
-- it has loaded `src` there, so the result is the same when the two slices are one.
pub mod Reference
pub mod Wide
pub mod Builds
pub mod Simd
pub mod Chunks
pub mod Size
use ews.Common.{
  ℕ, zero, suc, ◌+◌, ◌-◌, ◌*◌, ◌%◌, ◌^◌, Bool, true, false, List, [], ◌∷◌, ◌++◌, bit_and, bit_or,
  bit_xor, leb, ◌==◌, if◌then◌else◌, length, take, drop,
}
use ews.Common.Words.{le_word, put_le, xor_bytes}

-- `[4]byte`
pub record MaskKey : Type 0 where
  pub k0 : ℕ
  pub k1 : ℕ
  pub k2 : ℕ
  pub k3 : ℕ

unfoldable pub key_bytes : MaskKey → List ℕ
key_bytes k = k.k0 ∷ k.k1 ∷ k.k2 ∷ k.k3 ∷ []

-- `key[i]` for `i` below 4
unfoldable pub key_at : MaskKey → ℕ → ℕ
key_at k zero = k.k0
key_at k (suc zero) = k.k1
key_at k (suc (suc zero)) = k.k2
key_at k _ = k.k3

-- The key that starts at `offset`, for an offset below 4.
unfoldable pub rotate_by : MaskKey → ℕ → MaskKey
rotate_by key offset = if offset == 0 then key else record {
  k0 = key_at key offset;
  k1 = key_at key (bit_and (offset + 1) 3);
  k2 = key_at key (bit_and (offset + 2) 3);
  k3 = key_at key (bit_and (offset + 3) 3);
}

-- `offset &= 3` and the rotation
unfoldable pub rotate_mask_key : MaskKey → ℕ → MaskKey
unfolding rotate_by
rotate_mask_key key offset = rotate_by key (bit_and offset 3)

-- `uint64(k32) | uint64(k32)<<32`
unfoldable pub key_word : MaskKey → ℕ
unfolding key_bytes le_word
key_word key = let k32 = le_word (key_bytes key) in bit_or k32 (k32 * 2 ^ 32 % 2 ^ 64)

-- `n` words of 8 bytes, loaded, xored with the key word and stored.
unfoldable pub xor_words : ℕ → ℕ → List ℕ → List ℕ
xor_words zero k64 s = []
xor_words (suc n) k64 s = put_le 8 (bit_xor (le_word (take 8 s)) k64) ++ xor_words n k64 (drop 8 s)

-- `for ; i < n; i++` over the last bytes, `key[i&3]`
unfoldable pub mask_tail : MaskKey → ℕ → List ℕ → List ℕ
mask_tail key i [] = []
mask_tail key i (b ∷ bs) = bit_xor b (key_at key (bit_and i 3)) ∷ mask_tail key (i + 1) bs

-- The steps for 32, 16, 8 and 4 bytes and the last loop; `i` is the index reached.
unfoldable pub mask_4 : MaskKey → ℕ → List ℕ → List ℕ
mask_4 key i s =
    if leb 4 (length s)
    then put_le 4 (bit_xor (le_word (take 4 s)) (le_word (key_bytes key)))
      ++ mask_tail key (i + 4) (drop 4 s)
    else mask_tail key i s

unfoldable pub mask_8 : MaskKey → ℕ → List ℕ → List ℕ
mask_8 key i s =
    if leb 8 (length s)
    then xor_words 1 (key_word key) s ++ mask_4 key (i + 8) (drop 8 s)
    else mask_4 key i s

unfoldable pub mask_16 : MaskKey → ℕ → List ℕ → List ℕ
mask_16 key i s =
    if leb 16 (length s)
    then xor_words 2 (key_word key) s ++ mask_8 key (i + 16) (drop 16 s)
    else mask_8 key i s

unfoldable pub mask_32 : MaskKey → ℕ → List ℕ → List ℕ
mask_32 key i s =
    if leb 32 (length s)
    then xor_words 4 (key_word key) s ++ mask_16 key (i + 32) (drop 32 s)
    else mask_16 key i s

-- `for n-i >= 64`; the fuel is the number of bytes left at most.
unfoldable pub mask_64 : ℕ → MaskKey → ℕ → List ℕ → List ℕ
mask_64 zero key i s = mask_32 key i s
mask_64 (suc f) key i s = elim (leb 64 (length s)) [
  | true ↦ xor_words 8 (key_word key) s ++ mask_64 f key (i + 64) (drop 64 s)
  | false ↦ mask_32 key i s
]

-- mask_swar.go
unfoldable pub mask_swar : List ℕ → MaskKey → ℕ → List ℕ
unfolding mask_64 mask_32 mask_16 mask_8 mask_4 mask_tail xor_words key_word key_at rotate_mask_key
mask_swar src key offset = mask_64 (length src) (rotate_mask_key key offset) 0 src

-- mask_swar_generic.go has the same steps and ends in a loop of its own: `dst[i] = v ^ key[i]`
-- over the fewer than four bytes that are left.
unfoldable pub mask_last : MaskKey → ℕ → List ℕ → List ℕ
mask_last key i [] = []
mask_last key i (v ∷ vs) = bit_xor v (key_at key i) ∷ mask_last key (i + 1) vs

unfoldable pub generic_4 : MaskKey → List ℕ → List ℕ
generic_4 key s =
    if leb 4 (length s)
    then put_le 4 (bit_xor (le_word (take 4 s)) (le_word (key_bytes key)))
      ++ mask_last key 0 (drop 4 s)
    else mask_last key 0 s

-- A step of `n` words, taken if the slice is long enough, and what follows it.
unfoldable pub generic_words : ℕ → (List ℕ → List ℕ) → MaskKey → List ℕ → List ℕ
generic_words n after key s =
    if leb (8 * n) (length s)
    then xor_words n (key_word key) s ++ after (drop (8 * n) s)
    else after s

unfoldable pub generic_32 : MaskKey → List ℕ → List ℕ
unfolding generic_words generic_4 mask_last
generic_32 key = generic_words 4 (generic_words 2 (generic_words 1 (generic_4 key) key) key) key

unfoldable pub generic_64 : ℕ → MaskKey → List ℕ → List ℕ
generic_64 zero key s = generic_32 key s
generic_64 (suc f) key s = elim (leb 64 (length s)) [
  | true ↦ xor_words 8 (key_word key) s ++ generic_64 f key (drop 64 s)
  | false ↦ generic_32 key s
]

unfoldable pub mask_generic : List ℕ → MaskKey → ℕ → List ℕ
unfolding generic_64 generic_32 xor_words key_word key_at rotate_mask_key
mask_generic src key offset = generic_64 (length src) (rotate_mask_key key offset) src

-- mask_simd.go: from 1024 bytes on, vectors of 16 lanes with the key word twice.
abbrev pub simd_min : ℕ
simd_min = 1024

-- The 16 bytes of `[2]uint64{k64, k64}`.
unfoldable pub vector_key : MaskKey → List ℕ
vector_key key = put_le 8 (key_word key) ++ put_le 8 (key_word key)

unfoldable pub xor_vectors : ℕ → List ℕ → List ℕ → List ℕ
xor_vectors zero vkey s = []
xor_vectors (suc n) vkey s = xor_bytes (take 16 s) vkey ++ xor_vectors n vkey (drop 16 s)

-- The vector loop; what it leaves goes through the word loops.
unfoldable pub simd_64 : ℕ → MaskKey → ℕ → List ℕ → List ℕ
simd_64 zero key i s = mask_64 (length s) key i s
simd_64 (suc f) key i s = elim (leb 64 (length s)) [
  | true ↦ xor_vectors 4 (vector_key key) s ++ simd_64 f key (i + 64) (drop 64 s)
  | false ↦ mask_64 (length s) key i s
]

unfoldable pub mask_simd : List ℕ → MaskKey → ℕ → List ℕ
unfolding simd_64 mask_64 mask_32 mask_16 mask_8 mask_4 mask_tail xor_words key_word key_at
    rotate_mask_key
mask_simd src key offset =
    let key' = rotate_mask_key key offset in
    if leb simd_min (length src)
    then simd_64 (length src) key' 0 src
    else mask_64 (length src) key' 0 src

-- `Mask`: the masked payload and the next offset. The offset is a `uint8`.
unfoldable pub mask : List ℕ → MaskKey → ℕ → List ℕ × ℕ
mask payload key offset =
    (mask_swar payload key offset, bit_and ((offset + bit_and (length payload) 3) % 256) 3)
