-- ===== src/Codec/Mask/Simd.antt =====
-- The vector loop of mask_simd.go.
use ews.Common.{
  ℕ, zero, suc, ◌+◌, ◌*◌, ◌%◌, ◌≤◌, ◌≡◌, refl, sym, ap, ap₂, ◌∙◌, List, ◌++◌, arith, length, take,
  drop, leb, length-take, length-drop, All-drop, Bool-cases, inl, inr, leb→le, append_assoc,
  drop-drop,
}
use ews.Common.Words.{IsBytes, xor_bytes}
use ews.Codec.Mask.{MaskKey, rotate_mask_key, vector_key, xor_vectors, simd_64, simd_min, mask_simd}
use ews.Codec.Mask.Reference.{
  IsKey, mask_bytes, mask_bytes-mod, mask_bytes-rotate_mask_key, rotate_mask_key-IsKey,
}
use ews.Codec.Mask.Wide.{mask_bytes-split, xor_bytes-vector_key}
use ews.Codec.Mask.Builds.{mask_64-eq}

module _ (key : MaskKey) (k : IsKey key) where
  xor_vectors_lem :
      (n : ℕ) (s : List ℕ)
      → IsBytes s
      → 16 * n ≤ length s
      → xor_vectors n (vector_key key) s ++ mask_bytes key 0 (drop (16 * n) s) ≡ mask_bytes key 0 s
  unfolding xor_vectors
  xor_vectors_lem zero s h e = refl
  xor_vectors_lem (suc n) s h e =
      let more : 16 + 16 * n ≡ 16 * suc n = omega arith in
      append_assoc (xor_bytes (take 16 s) (vector_key key)) _ _
      ∙ ap₂ (λ u t. u ++ t)
          (xor_bytes-vector_key key (take 16 s) k (omega (arith, length-take 16 s)))
          (ap (λ t. xor_vectors n (vector_key key) (drop 16 s) ++ mask_bytes key 0 t)
              (ap (λ i. drop i s) (sym more) ∙ sym (drop-drop (16 * n) 16 s))
            ∙ xor_vectors_lem n (drop 16 s) (All-drop _ 16 s h) (omega (arith, length-drop 16 s)))
      ∙ mask_bytes-split key 16 s (omega arith) refl

  simd_64-eq :
      (f i : ℕ) (s : List ℕ) → IsBytes s → i % 4 ≡ 0 → simd_64 f key i s ≡ mask_bytes key 0 s
  unfolding simd_64
  simd_64-eq zero i s h m = mask_64-eq key k (length s) i s h m
  simd_64-eq (suc f) i s h m = elim (Bool-cases (leb 64 (length s))) [
    | inl e ↦
        rw (e, simd_64)
          (ap (λ t. xor_vectors 4 (vector_key key) s ++ t)
              (simd_64-eq f (i + 64) (drop 64 s) (All-drop _ 64 s h) (omega arith))
            ∙ xor_vectors_lem 4 s h (leb→le 64 (length s) e))
    | inr e ↦ rw (e, simd_64) (mask_64-eq key k (length s) i s h m)
  ]

-- On a payload of bytes and a key of bytes the SIMD build gives at each index `i` the byte
-- `payload[i] ^ key[(offset + i) mod 4]`, with and without its vector loop.
pub mask_simd-eq-mask_bytes :
    (src : List ℕ) (key : MaskKey) (offset : ℕ)
    → IsKey key
    → IsBytes src
    → mask_simd src key offset ≡ mask_bytes key offset src
unfolding mask_simd
mask_simd-eq-mask_bytes src key offset k h =
    let key' = rotate_mask_key key offset in
    let k' = rotate_mask_key-IsKey key offset k in
    let tail : mask_bytes key' 0 src ≡ mask_bytes key offset src =
      mask_bytes-rotate_mask_key key offset 0 src
      ∙ mask_bytes-mod key (offset + 0) offset src (omega arith) in
    elim (Bool-cases (leb simd_min (length src))) [
      | inl e ↦ rw e (simd_64-eq key' k' (length src) 0 src h refl ∙ tail)
      | inr e ↦ rw e (mask_64-eq key' k' (length src) 0 src h refl ∙ tail)
    ]
