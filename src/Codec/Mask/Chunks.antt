-- ===== src/Codec/Mask/Chunks.antt =====
-- `Mask` over a frame that arrives in chunks.
use ews.Common.{
  All-append, ℕ, ◌+◌, ◌%◌, ◌<◌, ◌≡◌, ap, ap₂, sym, ◌∙◌, List, ◌++◌, arith, length, length-append,
}
use ews.Common.Words.{IsBytes}
use ews.Common.Bits.{bit_and-3}
use ews.Codec.Mask.{MaskKey, mask}
use ews.Codec.Mask.Reference.{
  IsKey, mask_bytes, mask_bytes-append, mask_bytes-mod, mask_bytes-mask_bytes, mask_bytes-IsBytes,
}
use ews.Codec.Mask.Builds.{mask_swar-eq-mask_bytes}

pub mask-eq :
    (s : List ℕ) (key : MaskKey) (o : ℕ)
    → IsKey key
    → IsBytes s
    → ((mask s key o).0 ≡ mask_bytes key o s) × ((mask s key o).1 ≡ (o + length s) % 256 % 4)
unfolding mask
mask-eq s key o k h = (
  mask_swar-eq-mask_bytes s key o k h,
  bit_and-3 _ ∙ ap (λ t. (o + t) % 256 % 4) (bit_and-3 (length s)) ∙ omega arith,
)

-- On a key and chunks of bytes, masking two chunks of a frame one after the other, the second from
-- the offset that the first call returned, gives the masked whole and the whole's next offset.
pub mask-append :
    (xs ys : List ℕ) (key : MaskKey) (o : ℕ)
    → IsKey key
    → IsBytes xs
    → IsBytes ys
    → ((mask xs key o).0 ++ (mask ys key (mask xs key o).1).0 ≡ (mask (xs ++ ys) key o).0)
      × ((mask ys key (mask xs key o).1).1 ≡ (mask (xs ++ ys) key o).1)
mask-append xs ys key o k hx hy =
    let (ex, ox) = mask-eq xs key o k hx in
    let (ey, oy) = mask-eq ys key (mask xs key o).1 k hy in
    let (ea, oa) = mask-eq (xs ++ ys) key o k (All-append (λ b. b < 256) xs ys hx hy) in
    (
      ap₂ (λ u t. u ++ t) ex
            (ey ∙ mask_bytes-mod key (mask xs key o).1 (o + length xs) ys (omega (arith, ox)))
          ∙ sym (mask_bytes-append key o xs ys)
          ∙ sym ea,
      omega (arith, oy, ox, oa, length-append {0} xs ys),
    )

-- On a key and a payload of bytes, masking again with the same key and offset gives the payload
-- back.
pub mask-mask :
    (s : List ℕ) (key : MaskKey) (o : ℕ)
    → IsKey key
    → IsBytes s
    → (mask (mask s key o).0 key o).0 ≡ s
mask-mask s key o k h =
    let e = (mask-eq s key o k h).0 in
    ap (λ t. (mask t key o).0) e
    ∙ (mask-eq (mask_bytes key o s) key o k (mask_bytes-IsBytes key o s k h)).0
    ∙ mask_bytes-mask_bytes key o s
