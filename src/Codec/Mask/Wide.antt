-- ===== src/Codec/Mask/Wide.antt =====
-- The wide steps against the bytewise definition.
use ews.Common.{
  ℕ, zero, suc, ◌+◌, ◌*◌, ◌%◌, ◌^◌, ◌≤◌, ◌<◌, ◌≡◌, refl, sym, ap, ap₂, ◌∙◌, List, [], ◌∷◌, ◌++◌,
  bit_or, bit_xor, arith, length, take, drop, length-take, length-drop, take-append-drop, All-take,
  All-drop, append_assoc, drop-drop,
}
use ews.Common.Words.{IsBytes, xor_bytes, le_word, put_le, put_le-bit_xor, put_le-le_word}
use ews.Common.Bits.{bit_or-high_half}
use ews.Codec.Mask.{MaskKey, key_at, key_bytes, key_word, xor_words, vector_key}
use ews.Codec.Mask.Reference.{IsKey, mask_bytes, mask_bytes-append, mask_bytes-mod}

-- The key, repeated: the bytes of the key word.
key_twice : MaskKey → List ℕ
key_twice key = key_bytes key ++ key_bytes key

key_word-eq : (key : MaskKey) → IsKey key → key_word key ≡ le_word (key_twice key)
unfolding key_word key_twice key_bytes le_word
key_word-eq key h =
    let small : le_word (key_bytes key) < 2 ^ 32 = omega arith in
    let fits : le_word (key_bytes key) * 2 ^ 32 % 2 ^ 64 ≡ le_word (key_bytes key) * 2 ^ 32 =
      omega arith in
    ap (bit_or (le_word (key_bytes key))) fits
    ∙ bit_or-high_half (le_word (key_bytes key)) (le_word (key_bytes key)) small
    ∙ omega arith

xor_bytes-key :
    (key : MaskKey) (s : List ℕ) → length s ≡ 4 → xor_bytes s (key_bytes key) ≡ mask_bytes key 0 s
unfolding xor_bytes key_bytes mask_bytes key_at
xor_bytes-key key (a ∷ b ∷ c ∷ d ∷ []) h = refl
xor_bytes-key key _ h = absurd (omega arith)

xor_bytes-key_twice :
    (key : MaskKey) (s : List ℕ) → length s ≡ 8 → xor_bytes s (key_twice key) ≡ mask_bytes key 0 s
unfolding xor_bytes key_twice key_bytes mask_bytes key_at
xor_bytes-key_twice key (a ∷ b ∷ c ∷ d ∷ e ∷ f ∷ g ∷ i ∷ []) h = refl
xor_bytes-key_twice key _ h = absurd (omega arith)

key_bytes-IsBytes : (key : MaskKey) → IsKey key → IsBytes (key_bytes key)
unfolding key_bytes
key_bytes-IsBytes key h = omega arith

key_twice-IsBytes : (key : MaskKey) → IsKey key → IsBytes (key_twice key)
unfolding key_twice key_bytes
key_twice-IsBytes key h = omega arith

-- One word of 4 bytes, and one of 8.
pub xor_word_4 :
    (key : MaskKey) (s : List ℕ)
    → IsKey key
    → IsBytes s
    → length s ≡ 4
    → put_le 4 (bit_xor (le_word s) (le_word (key_bytes key))) ≡ mask_bytes key 0 s
unfolding key_bytes
xor_word_4 key s k h e =
    put_le-bit_xor 4 s (key_bytes key) e refl h (key_bytes-IsBytes key k) ∙ xor_bytes-key key s e

pub xor_word_8 :
    (key : MaskKey) (s : List ℕ)
    → IsKey key
    → IsBytes s
    → length s ≡ 8
    → put_le 8 (bit_xor (le_word s) (key_word key)) ≡ mask_bytes key 0 s
unfolding key_twice key_bytes
xor_word_8 key s k h e =
    ap (λ w. put_le 8 (bit_xor (le_word s) w)) (key_word-eq key k)
    ∙ put_le-bit_xor 8 s (key_twice key) e refl h (key_twice-IsBytes key k)
    ∙ xor_bytes-key_twice key s e

-- A prefix of a length divisible by 4 and the rest are masked alike, each from index 0.
pub mask_bytes-split :
    (key : MaskKey) (n : ℕ) (s : List ℕ)
    → n ≤ length s
    → n % 4 ≡ 0
    → mask_bytes key 0 (take n s) ++ mask_bytes key 0 (drop n s) ≡ mask_bytes key 0 s
mask_bytes-split key n s h m =
    let l : (0 + length (take n s)) % 4 ≡ 0 % 4 = omega (arith, length-take n s) in
    ap (λ t. mask_bytes key 0 (take n s) ++ t)
      (sym (mask_bytes-mod key (0 + length (take n s)) 0 (drop n s) l))
    ∙ sym (mask_bytes-append key 0 (take n s) (drop n s))
    ∙ ap (mask_bytes key 0) (take-append-drop n s)

-- `n` words mask the first `8 * n` bytes.
pub xor_words_lem :
    (key : MaskKey) (n : ℕ) (s : List ℕ)
    → IsKey key
    → IsBytes s
    → 8 * n ≤ length s
    → xor_words n (key_word key) s ++ mask_bytes key 0 (drop (8 * n) s) ≡ mask_bytes key 0 s
unfolding xor_words
xor_words_lem key zero s k h e = refl
xor_words_lem key (suc n) s k h e =
    let more : 8 + 8 * n ≡ 8 * suc n = omega arith in
    append_assoc (put_le 8 (bit_xor (le_word (take 8 s)) (key_word key))) _ _
    ∙ ap₂ (λ u t. u ++ t)
        (xor_word_8 key (take 8 s) k (All-take _ 8 s h) (omega (arith, length-take 8 s)))
        (ap (λ t. xor_words n (key_word key) (drop 8 s) ++ mask_bytes key 0 t)
            (ap (λ i. drop i s) (sym more) ∙ sym (drop-drop (8 * n) 8 s))
          ∙ xor_words_lem key n (drop 8 s) k (All-drop _ 8 s h) (omega (arith, length-drop 8 s)))
    ∙ mask_bytes-split key 8 s (omega arith) refl

put_le-key_word : (key : MaskKey) → IsKey key → put_le 8 (key_word key) ≡ key_twice key
unfolding key_twice key_bytes
put_le-key_word key k =
    ap (put_le 8) (key_word-eq key k)
    ∙ put_le-le_word 8 (key_twice key) refl (key_twice-IsBytes key k)

xor_bytes-key_four :
    (key : MaskKey) (s : List ℕ)
    → length s ≡ 16
    → xor_bytes s (key_twice key ++ key_twice key) ≡ mask_bytes key 0 s
unfolding xor_bytes key_twice key_bytes mask_bytes key_at
xor_bytes-key_four key (a ∷ b ∷ c ∷ d ∷ e ∷ f ∷ g ∷ i ∷ j ∷ k ∷ l ∷ m ∷ n ∷ o ∷ p ∷ q ∷ []) h = refl
xor_bytes-key_four key _ h = absurd (omega arith)

-- One vector of 16 lanes.
pub xor_bytes-vector_key :
    (key : MaskKey) (s : List ℕ)
    → IsKey key
    → length s ≡ 16
    → xor_bytes s (vector_key key) ≡ mask_bytes key 0 s
unfolding vector_key
xor_bytes-vector_key key s k e =
    ap₂ (λ u t. xor_bytes s (u ++ t)) (put_le-key_word key k) (put_le-key_word key k)
    ∙ xor_bytes-key_four key s e
