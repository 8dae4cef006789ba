-- ===== src/Codec/Mask/Size.antt =====
-- The length of a masked payload, for any numbers.
use ews.Common.{
  ℕ, zero, suc, ◌+◌, ◌*◌, ◌%◌, ◌≤◌, ◌<◌, ◌≡◌, refl, ap, List, [], ◌∷◌, ◌++◌, bit_xor, bit_and,
  arith, length, take, drop, leb, length-append, length-drop, Bool-cases, inl, inr, leb→le,
}
use ews.Common.Words.{le_word, put_le, length-put_le}
use ews.Common.Bits.{bit_and-3}
use ews.Codec.Mask.{
  MaskKey, key_bytes, key_word, xor_words, mask_tail, mask_4, mask_8, mask_16, mask_32, mask_64,
  mask_swar, mask, rotate_mask_key,
}

length-xor_words : (n k : ℕ) (s : List ℕ) → length (xor_words n k s) ≡ 8 * n
unfolding xor_words
length-xor_words zero k s = refl
length-xor_words (suc n) k s =
    let w = put_le 8 (bit_xor (le_word (take 8 s)) k) in
    omega (
      arith,
      length-append {0} w (xor_words n k (drop 8 s)),
      length-put_le 8 (bit_xor (le_word (take 8 s)) k),
      length-xor_words n k (drop 8 s),
    )

length-mask_tail : (key : MaskKey) (i : ℕ) (s : List ℕ) → length (mask_tail key i s) ≡ length s
unfolding mask_tail
length-mask_tail key i [] = refl
length-mask_tail key i (b ∷ s) = ap suc (length-mask_tail key (i + 1) s)

-- A step that masks `n` words in front of the rest.
length_step :
    (n k : ℕ) (s rest : List ℕ)
    → 8 * n ≤ length s
    → length rest ≡ length (drop (8 * n) s)
    → length (xor_words n k s ++ rest) ≡ length s
length_step n k s rest h e = omega (
  arith,
  length-append {0} (xor_words n k s) rest,
  length-xor_words n k s,
  length-drop {0} (8 * n) s,
)

module _ (key : MaskKey) where
  length-mask_4 : (i : ℕ) (s : List ℕ) → length (mask_4 key i s) ≡ length s
  unfolding mask_4
  length-mask_4 i s =
      let w : ℕ = bit_xor (le_word (take 4 s)) (le_word (key_bytes key)) in
      ground (
        arith,
        length-append (put_le 4 w) (mask_tail key (i + 4) (drop 4 s)),
        length-put_le 4 w,
        length-mask_tail key (i + 4) (drop 4 s),
        length-mask_tail key i s,
        length-drop 4 s,
      )

  length-mask_8 : (i : ℕ) (s : List ℕ) → length (mask_8 key i s) ≡ length s
  unfolding mask_8
  length-mask_8 i s = elim (Bool-cases (leb 8 (length s))) [
    | inr e ↦ rw e (length-mask_4 i s)
    | inl e ↦ rw e (
        length_step 1 (key_word key) s _ (leb→le 8 (length s) e) (length-mask_4 (i + 8) (drop 8 s)))
  ]

  length-mask_16 : (i : ℕ) (s : List ℕ) → length (mask_16 key i s) ≡ length s
  unfolding mask_16
  length-mask_16 i s = elim (Bool-cases (leb 16 (length s))) [
    | inr e ↦ rw e (length-mask_8 i s)
    | inl e ↦ rw e (
        length_step 2 (key_word key) s _ (leb→le 16 (length s) e)
          (length-mask_8 (i + 16) (drop 16 s)))
  ]

  length-mask_32 : (i : ℕ) (s : List ℕ) → length (mask_32 key i s) ≡ length s
  unfolding mask_32
  length-mask_32 i s = elim (Bool-cases (leb 32 (length s))) [
    | inr e ↦ rw e (length-mask_16 i s)
    | inl e ↦ rw e (
        length_step 4 (key_word key) s _ (leb→le 32 (length s) e)
          (length-mask_16 (i + 32) (drop 32 s)))
  ]

  length-mask_64 : (f i : ℕ) (s : List ℕ) → length (mask_64 f key i s) ≡ length s
  unfolding mask_64
  length-mask_64 zero i s = length-mask_32 i s
  length-mask_64 (suc f) i s = elim (Bool-cases (leb 64 (length s))) [
    | inr e ↦ rw (e, mask_64) (length-mask_32 i s)
    | inl e ↦
        rw (e, mask_64)
          (length_step 8 (key_word key) s _ (leb→le 64 (length s) e)
            (length-mask_64 f (i + 64) (drop 64 s)))
  ]

pub length-mask :
    (s : List ℕ) (key : MaskKey) (o : ℕ)
    → (length (mask s key o).0 ≡ length s) × ((mask s key o).1 < 4)
unfolding mask mask_swar
length-mask s key o = (
  length-mask_64 (rotate_mask_key key o) (length s) 0 s,
  rw (bit_and-3 ((o + bit_and (length s) 3) % 256)) (omega arith),
)
