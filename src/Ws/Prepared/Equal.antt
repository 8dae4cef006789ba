-- ===== src/Ws/Prepared/Equal.antt =====
-- The two ways to prepare a message, and the cache of its compressed frames.
use ews.Common.{
  ℕ, ◌+◌, ◌-◌, ◌≤◌, ◌≡◌, refl, sym, ap, ap₂, ◌∙◌, true, false, not, ◌&&◌, Option, none, some, List,
  [], ◌∷◌, ◌++◌, arith, ltb, ◌==◌, length, take, drop, replicate, length-append, drop-length-append,
  length-take, All, All-append, ==_iff, Bool-cases, Option-cases, inl, inr,
}
use ews.Common.Int.{ℤ, pos, negsuc, ltb_ℤ}
use ews.Common.Words.{put_be}
use ews.Codec.Opcode.{Opcode, text, binary}
use ews.Codec.Header.{bytes}
use ews.Codec.Wire.{wire_header, extension, key_part, frame_header-wire}
use ews.Codec.RoundTrip.{encode-some, check_frame-opcode}
use ews.Codec.Encoder.{Encoder, EncodeError, copy_at, header_bytes}
use ews.Codec.Encoder
use ews.Ws.Prepared.{
  CompressKey, Variant, Prepared, made, framed, prepare, framed_in, prepare_append, same_key,
  find_variant, variant_frame, compressed_for,
}

-- The header of a frame without a key has at most ten bytes.
length-header :
    (op : Opcode) (payload : List ℕ) (e e' : Encoder)
    → Encoder.encode true op payload none e ≡ (e', none)
    → length (header_bytes e') ≤ 14
unfolding header_bytes wire_header extension key_part put_be
length-header op payload e e' h =
    let (checked, header, body) = encode-some true op payload none e e' h in
    let wire =
      ap bytes header
      ∙ frame_header-wire true op (length payload) none
          (check_frame-opcode true op payload checked) in
    rw wire (ground arith)

-- A header of at most as many bytes as the room before the payload.
framed_room :
    (header room payload : List ℕ)
    → length header ≤ length room
    → drop
        (length room - length header)
        (copy_at (length room - length header) header (room ++ payload))
      ≡ header ++ payload
unfolding copy_at
framed_room header room payload fits =
    let s = length room - length header in
    let t = take s (room ++ payload) in
    let rest = header ++ drop (s + length header) (room ++ payload) in
    let size : length t ≡ s =
      omega (arith, length-take {0} s (room ++ payload), length-append {0} room payload) in
    let back : s + length header ≡ length room = omega arith in
    ap (λ k. drop k (t ++ rest)) (sym size)
    ∙ drop-length-append t rest
    ∙ ap (λ k. header ++ drop k (room ++ payload)) back
    ∙ ap (λ u. header ++ u) (drop-length-append room payload)

framed_in-framed :
    (op : Opcode) (room payload : List ℕ) (x : Encoder × Option EncodeError)
    → length room ≡ 14
    → Encoder.encode true op payload none Encoder.new ≡ x
    → framed_in op (room ++ payload) x ≡ framed op payload x
unfolding framed_in framed
framed_in-framed op room payload (enc, some err) size e = refl
framed_in-framed op room payload (enc, none) size e =
    let header = header_bytes enc in
    let short = length-header op payload Encoder.new enc e in
    let same =
      ap (λ k. drop (k - length header) (copy_at (k - length header) header (room ++ payload)))
        (sym size)
      ∙ framed_room header room payload (omega arith) in
    ap₂ (λ f q. made (record { op = op; frame = f; payload = q; variants = [] })) same
      (ap (drop (length header)) same ∙ drop-length-append header payload)

-- A `fill` that appends the payload behind the 14 bytes that it is given, whatever it leaves in them,
-- makes `PrepareAppend` prepare what `Prepare` does with the payload: the same frame, or the same
-- error.
pub prepare_append-prepare :
    (op : Opcode) (fill : List ℕ → Option (List ℕ)) (room payload : List ℕ)
    → fill (replicate 14 0) ≡ some (room ++ payload)
    → length room ≡ 14
    → prepare_append op fill ≡ prepare op payload
unfolding prepare_append prepare
prepare_append-prepare op fill room payload filled size =
    elim (Bool-cases (not (op == text) && not (op == binary))) [
      | inl e ↦ rw e refl
      | inr e ↦
          let long : ltb (length (room ++ payload)) 14 ≡ false =
            ground (arith, length-append {0} room payload, size) in
          let rest : drop 14 (room ++ payload) ≡ payload =
            ap (λ k. drop k (room ++ payload)) (sym size) ∙ drop-length-append room payload in
          rw (e, filled)
            (rw (long, rest)
              (framed_in-framed op room payload (Encoder.encode true op payload none Encoder.new)
                size refl))
    ]

same_ℤ-eq : (a b : ℤ) → not (ltb_ℤ a b) && not (ltb_ℤ b a) ≡ true → a ≡ b
same_ℤ-eq (pos m) (pos n) h = ap pos (ground (arith, h))
same_ℤ-eq (pos m) (negsuc n) h = absurd (ground (arith, h))
same_ℤ-eq (negsuc m) (pos n) h = absurd (ground (arith, h))
same_ℤ-eq (negsuc m) (negsuc n) h = ap negsuc (ground (arith, h))

same_key-eq : (k l : CompressKey) → same_key k l ≡ true → k ≡ l
same_key-eq k l h =
    ap₂ (λ level bits. let key : CompressKey = record { level = level; bits = bits } in key)
      (same_ℤ-eq k.level l.level (ground (arith, h))) ((==_iff k.bits l.bits).0 (ground (arith, h)))

module _ (shrink : CompressKey → List ℕ → Option (List ℕ)) where
  -- Each variant is the frame of its configuration.
  abbrev pub IsCached : Prepared → Type 0
  IsCached p = All (λ (v : Variant). v.frame ≡ variant_frame shrink v.key p) p.variants

  find_variant-found :
      (key : CompressKey) (p : Prepared) (vs : List Variant) (frame : List ℕ)
      → All (λ (v : Variant). v.frame ≡ variant_frame shrink v.key p) vs
      → find_variant key vs ≡ some frame
      → frame ≡ variant_frame shrink key p
  unfolding find_variant
  find_variant-found key p [] frame ok h = absurd (ground (arith, h))
  find_variant-found key p (v ∷ vs) frame (first, ok) h = elim (Bool-cases (same_key v.key key)) [
    | inl e ↦
        some_eq frame v.frame (sym h ∙ rw e refl)
        ∙ first
        ∙ ap (λ k. variant_frame shrink k p) (same_key-eq v.key key e)
    | inr e ↦ find_variant-found key p vs frame ok (sym (rw e refl) ∙ h)
  ]
    where
      some_eq : (x y : List ℕ) → some x ≡ some y → x ≡ y
      some_eq x y q = ground arith

  -- The cache cannot be seen: from a message whose variants are each the frame of their configuration,
  -- such as a new one, the frame for a configuration is the one made afresh, whichever configurations
  -- came before, and the message stays so, with its content unchanged.
  pub compressed_for-IsCached :
      (key : CompressKey) (p : Prepared)
      → IsCached p
      → let r = compressed_for shrink key p in
        (r.1 ≡ variant_frame shrink key p)
        × IsCached r.0
        × (r.0.frame ≡ p.frame)
        × (r.0.payload ≡ p.payload)
  unfolding compressed_for
  compressed_for-IsCached key p ok = elim (Option-cases (find_variant key p.variants)) [
    | inl e ↦
        simp (e, compressed_for)
          (
            refl,
            All-append (λ (v : Variant). v.frame ≡ variant_frame shrink v.key p) p.variants
                (record { key = key; frame = variant_frame shrink key p } ∷ []) ok (refl, tt),
            refl,
            refl,
          )
    | inr (frame, e) ↦
        simp (e, compressed_for) (find_variant-found key p p.variants frame ok e, ok, refl, refl)
  ]
