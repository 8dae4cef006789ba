-- ===== src/Codec/Mask/Builds.antt =====
-- The word loops of mask_swar.go and mask_swar_generic.go against the bytewise definition.
use ews.Common.{
  ℕ, zero, suc, ◌+◌, ◌*◌, ◌%◌, ◌≤◌, ◌<◌, ◌≡◌, refl, ap, ap₂, ◌∙◌, List, [], ◌∷◌, ◌++◌, bit_xor,
  arith, length, take, drop, leb, length-take, length-drop, All-take, All-drop, Bool-cases, inl,
  inr, leb→le,
}
use ews.Common.Words.{IsBytes}
use ews.Common.Bits.{bit_and-3}
use ews.Codec.Mask.{
  MaskKey, key_at, key_word, rotate_mask_key, xor_words, mask_tail, mask_4, mask_8, mask_16,
  mask_32, mask_64, mask_swar, mask_last, generic_4, generic_words, generic_32, generic_64,
  mask_generic,
}
use ews.Codec.Mask.Reference.{
  IsKey, mask_bytes, mask_bytes-mod, mask_bytes-rotate_mask_key, rotate_mask_key-IsKey,
}
use ews.Codec.Mask.Wide.{xor_word_4, mask_bytes-split, xor_words_lem}

mask_tail-eq : (key : MaskKey) (i : ℕ) (s : List ℕ) → mask_tail key i s ≡ mask_bytes key i s
unfolding mask_tail mask_bytes
mask_tail-eq key i [] = refl
mask_tail-eq key i (b ∷ bs) =
    let e : i + 1 ≡ suc i = omega arith in
    rw (bit_and-3 i, e) (ap (λ t. bit_xor b (key_at key (i % 4)) ∷ t) (mask_tail-eq key (suc i) bs))

module _ (key : MaskKey) (k : IsKey key) where
  -- From a multiple of four on, masking starts afresh.
  mask_tail_afresh : (i : ℕ) (s : List ℕ) → i % 4 ≡ 0 → mask_tail key i s ≡ mask_bytes key 0 s
  mask_tail_afresh i s m = mask_tail-eq key i s ∙ mask_bytes-mod key i 0 s m

  mask_4-eq : (i : ℕ) (s : List ℕ) → IsBytes s → i % 4 ≡ 0 → mask_4 key i s ≡ mask_bytes key 0 s
  unfolding mask_4
  mask_4-eq i s h m = elim (Bool-cases (leb 4 (length s))) [
    | inl e ↦
        let four : 4 ≤ length s = leb→le 4 (length s) e in
        rw e (
          ap₂ (λ u t. u ++ t)
            (xor_word_4 key (take 4 s) k (All-take _ 4 s h) (omega (arith, length-take 4 s)))
            (mask_tail_afresh (i + 4) (drop 4 s) (omega arith))
          ∙ mask_bytes-split key 4 s four refl)
    | inr e ↦ rw e (mask_tail_afresh i s m)
  ]

  mask_8-eq : (i : ℕ) (s : List ℕ) → IsBytes s → i % 4 ≡ 0 → mask_8 key i s ≡ mask_bytes key 0 s
  unfolding mask_8
  mask_8-eq i s h m = elim (Bool-cases (leb 8 (length s))) [
    | inl e ↦ rw e (
        ap (λ t. xor_words 1 (key_word key) s ++ t)
          (mask_4-eq (i + 8) (drop 8 s) (All-drop _ 8 s h) (omega arith))
        ∙ xor_words_lem key 1 s k h (leb→le 8 (length s) e))
    | inr e ↦ rw e (mask_4-eq i s h m)
  ]

  mask_16-eq : (i : ℕ) (s : List ℕ) → IsBytes s → i % 4 ≡ 0 → mask_16 key i s ≡ mask_bytes key 0 s
  unfolding mask_16
  mask_16-eq i s h m = elim (Bool-cases (leb 16 (length s))) [
    | inl e ↦ rw e (
        ap (λ t. xor_words 2 (key_word key) s ++ t)
          (mask_8-eq (i + 16) (drop 16 s) (All-drop _ 16 s h) (omega arith))
        ∙ xor_words_lem key 2 s k h (leb→le 16 (length s) e))
    | inr e ↦ rw e (mask_8-eq i s h m)
  ]

  mask_32-eq : (i : ℕ) (s : List ℕ) → IsBytes s → i % 4 ≡ 0 → mask_32 key i s ≡ mask_bytes key 0 s
  unfolding mask_32
  mask_32-eq i s h m = elim (Bool-cases (leb 32 (length s))) [
    | inl e ↦ rw e (
        ap (λ t. xor_words 4 (key_word key) s ++ t)
          (mask_16-eq (i + 32) (drop 32 s) (All-drop _ 32 s h) (omega arith))
        ∙ xor_words_lem key 4 s k h (leb→le 32 (length s) e))
    | inr e ↦ rw e (mask_16-eq i s h m)
  ]

  pub mask_64-eq :
      (f i : ℕ) (s : List ℕ) → IsBytes s → i % 4 ≡ 0 → mask_64 f key i s ≡ mask_bytes key 0 s
  unfolding mask_64
  mask_64-eq zero i s h m = mask_32-eq i s h m
  mask_64-eq (suc f) i s h m = elim (Bool-cases (leb 64 (length s))) [
    | inl e ↦
        rw (e, mask_64)
          (ap (λ t. xor_words 8 (key_word key) s ++ t)
              (mask_64-eq f (i + 64) (drop 64 s) (All-drop _ 64 s h) (omega arith))
            ∙ xor_words_lem key 8 s k h (leb→le 64 (length s) e))
    | inr e ↦ rw (e, mask_64) (mask_32-eq i s h m)
  ]

  mask_last-eq : (i : ℕ) (s : List ℕ) → i + length s ≤ 4 → mask_last key i s ≡ mask_bytes key i s
  unfolding mask_last mask_bytes
  mask_last-eq i [] h = refl
  mask_last-eq i (v ∷ vs) h =
      let low : i % 4 ≡ i = omega arith in
      let e : i + 1 ≡ suc i = omega arith in
      rw (low, e) (ap (λ t. bit_xor v (key_at key i) ∷ t) (mask_last-eq (suc i) vs (omega arith)))

  generic_4-eq : (s : List ℕ) → IsBytes s → length s < 8 → generic_4 key s ≡ mask_bytes key 0 s
  unfolding generic_4
  generic_4-eq s h b = elim (Bool-cases (leb 4 (length s))) [
    | inl e ↦ rw e (
        ap₂ (λ u t. u ++ t)
          (xor_word_4 key (take 4 s) k (All-take _ 4 s h)
            (omega (arith, length-take 4 s, leb→le 4 (length s) e)))
          (mask_last-eq 0 (drop 4 s) (omega (arith, length-drop 4 s)))
        ∙ mask_bytes-split key 4 s (leb→le 4 (length s) e) refl)
    | inr e ↦ rw e (mask_last-eq 0 s (ground arith))
  ]

  -- A step of `n` words in front of code that masks what is shorter.
  generic_words-eq :
      (n : ℕ) (after : List ℕ → List ℕ)
      → ((s : List ℕ) → IsBytes s → length s < 8 * n → after s ≡ mask_bytes key 0 s)
      → (s : List ℕ) → IsBytes s
      → length s < 16 * n
      → generic_words n after key s ≡ mask_bytes key 0 s
  unfolding generic_words
  generic_words-eq n after ok s h b = elim (Bool-cases (leb (8 * n) (length s))) [
    | inl e ↦ rw e (
        ap (λ t. xor_words n (key_word key) s ++ t)
          (ok (drop (8 * n) s) (All-drop _ (8 * n) s h) (omega (arith, length-drop (8 * n) s)))
        ∙ xor_words_lem key n s k h (leb→le (8 * n) (length s) e))
    | inr e ↦ rw e (ok s h (ground arith))
  ]

  generic_32-eq : (s : List ℕ) → IsBytes s → length s < 64 → generic_32 key s ≡ mask_bytes key 0 s
  unfolding generic_32
  generic_32-eq = generic_words-eq 4 _ (generic_words-eq 2 _ (generic_words-eq 1 _ generic_4-eq))

  generic_64-eq :
      (f : ℕ) (s : List ℕ)
      → IsBytes s
      → length s < 64 + 64 * f
      → generic_64 f key s ≡ mask_bytes key 0 s
  unfolding generic_64
  generic_64-eq zero s h b = generic_32-eq s h b
  generic_64-eq (suc f) s h b = elim (Bool-cases (leb 64 (length s))) [
    | inl e ↦
        rw (e, generic_64)
          (ap (λ t. xor_words 8 (key_word key) s ++ t)
              (generic_64-eq f (drop 64 s) (All-drop _ 64 s h) (omega (arith, length-drop 64 s)))
            ∙ xor_words_lem key 8 s k h (leb→le 64 (length s) e))
    | inr e ↦ rw (e, generic_64) (generic_32-eq s h (ground arith))
  ]

-- On a payload of bytes and a key of bytes the word-wide masking of mask_swar.go, with the key
-- rotated by the offset, gives at each index `i` the byte `payload[i] ^ key[(offset + i) mod 4]`.
pub mask_swar-eq-mask_bytes :
    (src : List ℕ) (key : MaskKey) (offset : ℕ)
    → IsKey key
    → IsBytes src
    → mask_swar src key offset ≡ mask_bytes key offset src
unfolding mask_swar
mask_swar-eq-mask_bytes src key offset k h =
    mask_64-eq (rotate_mask_key key offset) (rotate_mask_key-IsKey key offset k) (length src) 0 src
      h refl
    ∙ mask_bytes-rotate_mask_key key offset 0 src
    ∙ mask_bytes-mod key (offset + 0) offset src (omega arith)

-- On a payload of bytes and a key of bytes the portable masking of mask_swar_generic.go, with the
-- key rotated by the offset, gives at each index `i` the byte `payload[i] ^ key[(offset + i) mod 4]`.
pub mask_generic-eq-mask_bytes :
    (src : List ℕ) (key : MaskKey) (offset : ℕ)
    → IsKey key
    → IsBytes src
    → mask_generic src key offset ≡ mask_bytes key offset src
unfolding mask_generic
mask_generic-eq-mask_bytes src key offset k h =
    generic_64-eq (rotate_mask_key key offset) (rotate_mask_key-IsKey key offset k) (length src) src
      h (omega arith)
    ∙ mask_bytes-rotate_mask_key key offset 0 src
    ∙ mask_bytes-mod key (offset + 0) offset src (omega arith)
