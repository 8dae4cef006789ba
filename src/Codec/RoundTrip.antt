-- ===== src/Codec/RoundTrip.antt =====
-- The encoder and the decoder together: codec/encoder.go and codec/decoder.go.
use ews.Common.{
  ℕ, suc, ◌+◌, ◌-◌, ◌^◌, ◌≤◌, ◌<◌, ◌≡◌, refl, sym, subst, ap, ◌∙◌, Bool, true, false, Option, none,
  some, List, [], ◌∷◌, ◌++◌, arith, length, drop, get_or, bit_and, append_assoc, length-append,
  take-length-append, drop-length-append, ltb, le→ltb, min, suc-==-zero,
}
use mathlib.Core.Option
use ews.Common.Words.{IsBytes}
use ews.Codec.Opcode.{Opcode, is_data, is_control}
use ews.Codec.Mask.{MaskKey, key_bytes, mask, mask_swar}
use ews.Codec.Mask.Reference.{IsKey, length-mask_bytes, mask_bytes-IsBytes}
use ews.Codec.Mask.Builds.{mask_swar-eq-mask_bytes}
use ews.Codec.Mask.Chunks.{mask-mask}
use ews.Codec.Header.{
  Header, payload_len, is_final, rsv1, rsv2, rsv3, opcode, masked, mask_key, slice, bytes,
}
use ews.Codec.Header.Fields.{
  first_byte_fields, second_byte_fields, header_size-second_byte, bad_length-second_byte,
}
use ews.Codec.Wire.{
  is_masked, first_byte, second_byte, extension, key_part, wire_header, frame_header-wire,
}
use ews.Codec.Decoder.{Decoder, next_header_into, payload_n, header_size, bad_length}
use ews.Codec.Encoder.{
  Encoder, encode, header_bytes, payload_bytes, check_frame, frame_header, put_payload,
}

-- The header that the decoder makes of wire bytes; behind them the array keeps what it held.
unfoldable pub decoded : List ℕ → Header → Header
decoded w h = record { raw = w ++ drop (length w) h.raw; len = length w }

-- A complete header with a proper length is taken off the input.
pub next_header_into_complete :
    (d : Decoder) (h : Header) (w rest : List ℕ) (k : ℕ)
    → d.remaining ≡ 0
    → d.pending ≡ w ++ rest
    → 2 ≤ length w
    → header_size (get_or (w ++ rest) 1 0) ≡ length w
    → payload_len (decoded w h) ≡ k
    → bad_length (bit_and (get_or (w ++ rest) 1 0) 0x7f) k ≡ false
    → next_header_into d h ≡ (record d { pending = rest; remaining = k }, decoded w h, true, none)
unfolding next_header_into decoded
next_header_into_complete d h w rest k r p two size l good =
    let total : length (w ++ rest) ≡ length w + length rest = length-append w rest in
    let long : ltb (length (w ++ rest)) 2 ≡ false = le→ltb _ 2 (omega arith) in
    let full : ltb (length (w ++ rest)) (length w) ≡ false = le→ltb _ (length w) (omega arith) in
    rw (r, p, long, size, full, take-length-append w rest, drop-length-append w rest, l, good)

module _ (final compressed : Bool) (op : Opcode) (n : ℕ) (key : Option MaskKey) (small : op < 16)
    (fits : n < 2 ^ 63) where
  -- The accessors on a decoded header.
  pub decoded_fields :
      (h : Header)
      → let h' = decoded (wire_header final compressed op n key) h in
        (is_final h' ≡ final)
        × (rsv1 h' ≡ compressed)
        × (rsv2 h' ≡ false)
        × (rsv3 h' ≡ false)
        × (opcode h' ≡ op)
        × (payload_len h' ≡ n)
        × (masked h' ≡ is_masked key)
  unfolding decoded wire_header
  decoded_fields h =
      let len = suc (suc (length (extension n ++ key_part key))) in
      let tail = drop len h.raw in
      let rest = second_byte n (is_masked key) ∷ (extension n ++ key_part key) ++ tail in
      let (f, r1, r2, r3, o) = first_byte_fields final compressed op rest len small in
      let (l, m) =
        second_byte_fields (first_byte final compressed op) n (is_masked key) (key_part key ++ tail)
          len fits in
      let assoc = append_assoc (extension n) (key_part key) tail in
      (f, r1, r2, r3, o, rw assoc l, rw assoc m)

  pub next_header_into-wire :
      (d : Decoder) (h : Header) (rest : List ℕ)
      → d.remaining ≡ 0
      → d.pending ≡ wire_header final compressed op n key ++ rest
      → next_header_into d h ≡ (
        record d { pending = rest; remaining = n },
        decoded (wire_header final compressed op n key) h,
        true,
        none,
      )
  next_header_into-wire d h rest r p =
      next_header_into_complete d h (wire_header final compressed op n key) rest n r p
        (unfold wire_header in omega arith)
        (unfold wire_header in header_size-second_byte n key fits) (decoded_fields h).5
        (unfold wire_header in bad_length-second_byte n (is_masked key) fits)

-- The last four bytes of the header.
slice_last :
    (u v t : List ℕ) (len : ℕ)
    → length v ≡ 4
    → len ≡ length u + 4
    → slice ((u ++ v) ++ t) (len - 4) len ≡ v
slice_last u v t len four e =
    let start : len - 4 ≡ length u = omega arith in
    let width : length u + 4 - length u ≡ length v = omega arith in
    rw (append_assoc u v t, e)
      (let start' : length u + 4 - 4 ≡ length u = omega arith in
        rw (start', drop-length-append u (v ++ t), width) (take-length-append v t))

pub decoded-mask_key :
    (final compressed : Bool) (op : Opcode) (n : ℕ) (key : Option MaskKey) (h : Header)
    → op < 16
    → n < 2 ^ 63
    → mask_key (decoded (wire_header final compressed op n key) h) ≡ Option.map key_bytes key
unfolding mask_key
decoded-mask_key final compressed op n none h small fits =
    rw ((decoded_fields final compressed op n none small fits h).6)
decoded-mask_key final compressed op n (some key) h small fits =
    rw ((decoded_fields final compressed op n (some key) small fits h).6) (
      ap some (
        unfold decoded wire_header key_part key_bytes in
        slice_last (first_byte final compressed op ∷ second_byte n true ∷ extension n)
          (key_bytes key) (drop (length (wire_header final compressed op n (some key))) h.raw)
          (length (wire_header final compressed op n (some key))) refl
          (omega (arith, length-append {0} (extension n) (key_bytes key)))))

-- What a successful `Encode` has checked and leaves.
abbrev pub apply_key : Option MaskKey → List ℕ → List ℕ
apply_key none s = s
apply_key (some key) s = mask_swar s key 0

pub encode-some :
    (final : Bool) (op : Opcode) (payload : List ℕ) (key : Option MaskKey) (e e' : Encoder)
    → encode final op payload key e ≡ (e', none)
    → (check_frame final op payload ≡ none)
      × (e'.h ≡ frame_header final op (length payload) key)
      × (e'.payload ≡ apply_key key payload)
unfolding encode put_payload
encode-some final op payload none e e' h = ground arith
encode-some final op payload (some key) e e' h = ground arith

pub check_frame-opcode :
    (final : Bool) (op : Opcode) (payload : List ℕ) → check_frame final op payload ≡ none → op < 16
unfolding check_frame is_data is_control
check_frame-opcode final op payload h = ground arith

abbrev pub IsKeyOption : Option MaskKey → Type 0
IsKeyOption none = Unit
IsKeyOption (some key) = IsKey key

-- `Mask` from offset 0 with the frame's key, if it has one.
unfoldable pub unmask : Option MaskKey → List ℕ → List ℕ
unmask none s = s
unmask (some key) s = (mask s key 0).0

pub length-apply_key :
    (key : Option MaskKey) (s : List ℕ)
    → IsKeyOption key
    → IsBytes s
    → length (apply_key key s) ≡ length s
length-apply_key none s k h = refl
length-apply_key (some key) s k h =
    ap length (mask_swar-eq-mask_bytes s key 0 k h) ∙ length-mask_bytes key 0 s

pub apply_key-IsBytes :
    (key : Option MaskKey) (s : List ℕ) → IsKeyOption key → IsBytes s → IsBytes (apply_key key s)
apply_key-IsBytes none s k h = h
apply_key-IsBytes (some key) s k h =
    subst IsBytes (sym (mask_swar-eq-mask_bytes s key 0 k h)) (mask_bytes-IsBytes key 0 s k h)

pub unmask-apply_key :
    (key : Option MaskKey) (s : List ℕ)
    → IsKeyOption key
    → IsBytes s
    → unmask key (apply_key key s) ≡ s
unfolding unmask mask
unmask-apply_key none s k h = refl
unmask-apply_key (some key) s k h = mask-mask s key 0 k h

payload_n-all :
    (d : Decoder) (s rest : List ℕ)
    → d.pending ≡ s ++ rest
    → d.remaining ≡ length s
    → payload_n (length s) d ≡ (record d { pending = rest; remaining = 0 }, s, true)
unfolding payload_n
payload_n-all d [] rest p r = rw (p, r)
payload_n-all d (x ∷ s) rest p r =
    let total : length (s ++ rest) ≡ length s + length rest = length-append s rest in
    let k : min (min (suc (length s)) (suc (length (s ++ rest)))) (suc (length s))
        ≡ suc (length s) =
      omega arith in
    let left : suc (length s) - suc (length s) ≡ 0 = omega arith in
    rw (
      p,
      r,
      suc-==-zero (length s),
      suc-==-zero (length (s ++ rest)),
      k,
      left,
      take-length-append s rest,
      drop-length-append s rest,
    )

-- On a payload and a key of bytes, the payload shorter than 2^63: a frame that `Encode` accepts,
-- behind it any other input, is read back by a decoder that has no payload left to read: the header
-- comes complete with the same FIN, opcode and length, RSV bits clear and the key's bytes, and is
-- taken off the input; then `PayloadN` gives exactly the frame's payload, which unmasks to the
-- original, and leaves the rest.
pub decode-encode :
    (final : Bool) (op : Opcode) (payload : List ℕ) (key : Option MaskKey) (e e' : Encoder)
    (d : Decoder) (h : Header) (rest : List ℕ)
    → encode final op payload key e ≡ (e', none)
    → IsBytes payload
    → IsKeyOption key
    → length payload < 2 ^ 63
    → d.remaining ≡ 0
    → d.pending ≡ header_bytes e' ++ (payload_bytes e' ++ rest)
    → let d' = record d { pending = payload_bytes e' ++ rest; remaining = length payload } in
      (h' : Header) × (next_header_into d h ≡ (d', h', true, none))
      × (is_final h' ≡ final)
      × (opcode h' ≡ op)
      × (rsv1 h' ≡ false)
      × (rsv2 h' ≡ false)
      × (rsv3 h' ≡ false)
      × (payload_len h' ≡ length payload)
      × (masked h' ≡ is_masked key)
      × (mask_key h' ≡ Option.map key_bytes key)
      × (payload_n (length payload) d'
          ≡ (record d' { pending = rest; remaining = 0 }, payload_bytes e', true))
      × (length (payload_bytes e') ≡ length payload)
      × (unmask key (payload_bytes e') ≡ payload)
unfolding header_bytes payload_bytes
decode-encode final op payload key e e' d h rest ok bytes_ok key_ok short r p =
    let (checked, header, body) = encode-some final op payload key e e' ok in
    let n : ℕ = length payload in
    let small = check_frame-opcode final op payload checked in
    let wire = ap bytes header ∙ frame_header-wire final op n key small in
    let (f, r1, r2, r3, o, l, m) = decoded_fields final false op n key small short h in
    let d' : Decoder = record d { pending = e'.payload ++ rest; remaining = n } in
    let size : length e'.payload ≡ length payload =
      ap length body ∙ length-apply_key key payload key_ok bytes_ok in
    (
      decoded (wire_header final false op n key) h,
      next_header_into-wire final false op n key small short d h (e'.payload ++ rest) r
          (p ∙ ap (λ w. w ++ (e'.payload ++ rest)) wire),
      f,
      o,
      r1,
      r2,
      r3,
      l,
      m,
      decoded-mask_key final false op n key h small short,
      ap (λ k. payload_n k d') (sym size) ∙ payload_n-all d' e'.payload rest refl (sym size),
      size,
      ap (unmask key) body ∙ unmask-apply_key key payload key_ok bytes_ok,
    )
