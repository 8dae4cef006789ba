-- ===== src/Codec/Mask/Reference.antt =====
-- The bytewise definition of masking in RFC 6455, section 5.3, and its laws.
use ews.Common.{
  ℕ, zero, suc, ◌+◌, ◌%◌, ◌<◌, ◌≡◌, refl, ap, ap₂, ◌∙◌, List, [], ◌∷◌, ◌++◌, bit_and, bit_xor,
  arith, length, ◌==◌, Bool-cases, inl, inr,
}
use ews.Common.Words.{IsBytes}
use ews.Common.Bits.{bit_and-3, bit_xor-bit_xor, bit_xor-lt}
use ews.Codec.Mask.{MaskKey, key_at, rotate_by, rotate_mask_key}

-- Byte `j` of the payload, at distance `i` from the frame's start, meets byte `i mod 4` of the key.
unfoldable pub mask_bytes : MaskKey → ℕ → List ℕ → List ℕ
mask_bytes key i [] = []
mask_bytes key i (b ∷ bs) = bit_xor b (key_at key (i % 4)) ∷ mask_bytes key (suc i) bs

pub length-mask_bytes :
    (key : MaskKey) (i : ℕ) (s : List ℕ) → length (mask_bytes key i s) ≡ length s
unfolding mask_bytes
length-mask_bytes key i [] = refl
length-mask_bytes key i (b ∷ bs) = ap suc (length-mask_bytes key (suc i) bs)

pub mask_bytes-append :
    (key : MaskKey) (i : ℕ) (xs ys : List ℕ)
    → mask_bytes key i (xs ++ ys) ≡ mask_bytes key i xs ++ mask_bytes key (i + length xs) ys
unfolding mask_bytes
mask_bytes-append key i [] ys = let e : i + 0 ≡ i = omega arith in rw e
mask_bytes-append key i (x ∷ xs) ys =
    let e : i + suc (length xs) ≡ suc i + length xs = omega arith in
    rw e (ap (λ t. bit_xor x (key_at key (i % 4)) ∷ t) (mask_bytes-append key (suc i) xs ys))

-- Only the index modulo 4 counts.
pub mask_bytes-mod :
    (key : MaskKey) (i j : ℕ) (s : List ℕ) → i % 4 ≡ j % 4 → mask_bytes key i s ≡ mask_bytes key j s
unfolding mask_bytes
mask_bytes-mod key i j [] e = refl
mask_bytes-mod key i j (b ∷ bs) e = rw (e, mask_bytes-mod key (suc i) (suc j) bs (omega arith))

pub mask_bytes-mask_bytes :
    (key : MaskKey) (i : ℕ) (s : List ℕ) → mask_bytes key i (mask_bytes key i s) ≡ s
unfolding mask_bytes
mask_bytes-mask_bytes key i [] = refl
mask_bytes-mask_bytes key i (b ∷ bs) =
    rw (bit_xor-bit_xor b (key_at key (i % 4)), mask_bytes-mask_bytes key (suc i) bs)

abbrev pub IsKey : MaskKey → Type 0
IsKey k = (k.k0 < 256) × (k.k1 < 256) × (k.k2 < 256) × (k.k3 < 256)

-- Every residue modulo 4.
below_four {ℓ} : (P : ℕ → Type ℓ) → P 0 → P 1 → P 2 → P 3 → (o : ℕ) → o < 4 → P o
below_four P a b c d zero h = a
below_four P a b c d (suc zero) h = b
below_four P a b c d (suc (suc zero)) h = c
below_four P a b c d (suc (suc (suc zero))) h = d
below_four P a b c d (suc (suc (suc (suc o)))) h = absurd (omega arith)

key_at-rotate_by :
    (key : MaskKey) (o : ℕ)
    → o < 4
    → (i : ℕ) → i < 4
    → key_at (rotate_by key o) i ≡ key_at key ((o + i) % 4)
unfolding key_at rotate_by
key_at-rotate_by key =
    below_four (λ o. (i : ℕ) → i < 4 → key_at (rotate_by key o) i ≡ key_at key ((o + i) % 4))
      (below_four (λ i. key_at (rotate_by key 0) i ≡ key_at key ((0 + i) % 4)) refl refl refl refl)
      (below_four (λ i. key_at (rotate_by key 1) i ≡ key_at key ((1 + i) % 4)) refl refl refl refl)
      (below_four (λ i. key_at (rotate_by key 2) i ≡ key_at key ((2 + i) % 4)) refl refl refl refl)
      (below_four (λ i. key_at (rotate_by key 3) i ≡ key_at key ((3 + i) % 4)) refl refl refl refl)

-- The rotated key at `i` is the key at `offset + i`.
key_at-rotate_mask_key :
    (key : MaskKey) (o i : ℕ) → key_at (rotate_mask_key key o) (i % 4) ≡ key_at key ((o + i) % 4)
unfolding rotate_mask_key
key_at-rotate_mask_key key o i =
    let e : (o % 4 + i % 4) % 4 ≡ (o + i) % 4 = omega arith in
    rw (bit_and-3 o, key_at-rotate_by key (o % 4) (omega arith) (i % 4) (omega arith), e)

-- Masking from the start with the rotated key is masking from the offset.
pub mask_bytes-rotate_mask_key :
    (key : MaskKey) (o i : ℕ) (s : List ℕ)
    → mask_bytes (rotate_mask_key key o) i s ≡ mask_bytes key (o + i) s
unfolding mask_bytes
mask_bytes-rotate_mask_key key o i [] = refl
mask_bytes-rotate_mask_key key o i (b ∷ bs) =
    let e : o + suc i ≡ suc (o + i) = omega arith in
    ap₂ (λ k t. bit_xor b k ∷ t) (key_at-rotate_mask_key key o i)
      (mask_bytes-rotate_mask_key key o (suc i) bs ∙ ap (λ k. mask_bytes key k bs) e)

key_at-lt : (key : MaskKey) (i : ℕ) → IsKey key → key_at key i < 256
unfolding key_at
key_at-lt key zero h = h.0
key_at-lt key (suc zero) h = h.1
key_at-lt key (suc (suc zero)) h = h.2
key_at-lt key (suc (suc (suc i))) h = h.3

pub rotate_mask_key-IsKey : (key : MaskKey) (o : ℕ) → IsKey key → IsKey (rotate_mask_key key o)
unfolding rotate_mask_key rotate_by
rotate_mask_key-IsKey key o h = elim (Bool-cases (bit_and o 3 == 0)) [
  | inl e ↦ rw e h
  | inr e ↦ rw e (key_at-lt key _ h, key_at-lt key _ h, key_at-lt key _ h, key_at-lt key _ h)
]

pub mask_bytes-IsBytes :
    (key : MaskKey) (i : ℕ) (s : List ℕ) → IsKey key → IsBytes s → IsBytes (mask_bytes key i s)
unfolding mask_bytes
mask_bytes-IsBytes key i [] k h = tt
mask_bytes-IsBytes key i (b ∷ bs) k h = (
  bit_xor-lt b (key_at key (i % 4)) h.0 (key_at-lt key (i % 4) k),
  mask_bytes-IsBytes key (suc i) bs k h.1,
)
