-- ===== src/Codec/Header/Fields.antt =====
-- What the accessors read in a header whose bytes are the wire format.
use ews.Common.{
  ℕ, suc, ◌+◌, ◌^◌, ◌<◌, ◌≡◌, Bool, true, false, Option, none, some, List, ◌∷◌, ◌++◌, arith, length,
  bit_and,
}
use ews.Common.Words.{be_word, put_be}
use ews.Common.Bits.{
  bit_and-0x80, bit_and-0x40, bit_and-0x20, bit_and-0x10, bit_and-0x0f, bit_and-0x7f,
}
use ews.Codec.Opcode.{Opcode}
use ews.Codec.Mask.{MaskKey, key_bytes}
use ews.Codec.Header.{Header, payload_len, is_final, rsv1, rsv2, rsv3, opcode, masked}
use ews.Codec.Wire.{is_masked, first_byte, second_byte, extension, key_part}
use ews.Codec.Decoder.{header_size, bad_length}

-- The first byte, whatever follows it.
pub first_byte_fields :
    (final compressed : Bool) (op : Opcode) (rest : List ℕ) (len : ℕ)
    → op < 16
    → let h : Header = record { raw = first_byte final compressed op ∷ rest; len = len } in
      (is_final h ≡ final)
      × (rsv1 h ≡ compressed)
      × (rsv2 h ≡ false)
      × (rsv3 h ≡ false)
      × (opcode h ≡ op)
unfolding is_final rsv1 rsv2 rsv3 opcode first_byte
first_byte_fields true true op rest len h =
    let b : ℕ = first_byte true true op in
    ground (arith, bit_and-0x80 b, bit_and-0x40 b, bit_and-0x20 b, bit_and-0x10 b, bit_and-0x0f b)
first_byte_fields true false op rest len h =
    let b : ℕ = first_byte true false op in
    ground (arith, bit_and-0x80 b, bit_and-0x40 b, bit_and-0x20 b, bit_and-0x10 b, bit_and-0x0f b)
first_byte_fields false true op rest len h =
    let b : ℕ = first_byte false true op in
    ground (arith, bit_and-0x80 b, bit_and-0x40 b, bit_and-0x20 b, bit_and-0x10 b, bit_and-0x0f b)
first_byte_fields false false op rest len h =
    let b : ℕ = first_byte false false op in
    ground (arith, bit_and-0x80 b, bit_and-0x40 b, bit_and-0x20 b, bit_and-0x10 b, bit_and-0x0f b)

-- The second byte and the extended length.
pub second_byte_fields :
    (b n : ℕ) (m : Bool) (rest : List ℕ) (len : ℕ)
    → n < 2 ^ 63
    → let h : Header = record { raw = b ∷ second_byte n m ∷ extension n ++ rest; len = len } in
      (payload_len h ≡ n) × (masked h ≡ m)
unfolding payload_len masked second_byte extension put_be be_word
second_byte_fields b n true rest len h = ground (
  arith,
  bit_and-0x7f (128 + n),
  bit_and-0x7f 254,
  bit_and-0x7f 255,
  bit_and-0x80 (128 + n),
  bit_and-0x80 254,
  bit_and-0x80 255,
)
second_byte_fields b n false rest len h = ground (
  arith,
  bit_and-0x7f n,
  bit_and-0x7f 126,
  bit_and-0x7f 127,
  bit_and-0x80 n,
  bit_and-0x80 126,
  bit_and-0x80 127,
)

-- The length of the header, from its second byte.
pub header_size-second_byte :
    (n : ℕ) (key : Option MaskKey)
    → n < 2 ^ 63
    → header_size (second_byte n (is_masked key)) ≡ suc (suc (length (extension n ++ key_part key)))
unfolding header_size second_byte extension key_part key_bytes put_be
header_size-second_byte n (some key) h = ground (
  arith,
  bit_and-0x7f (128 + n),
  bit_and-0x7f 254,
  bit_and-0x7f 255,
  bit_and-0x80 (128 + n),
  bit_and-0x80 254,
  bit_and-0x80 255,
)
header_size-second_byte n none h = ground (
  arith,
  bit_and-0x7f n,
  bit_and-0x7f 126,
  bit_and-0x7f 127,
  bit_and-0x80 n,
  bit_and-0x80 126,
  bit_and-0x80 127,
)

-- The encoder's lengths are the shortest, and fit 63 bits.
pub bad_length-second_byte :
    (n : ℕ) (m : Bool) → n < 2 ^ 63 → bad_length (bit_and (second_byte n m) 0x7f) n ≡ false
unfolding bad_length second_byte
bad_length-second_byte n true h =
    ground (arith, bit_and-0x7f (128 + n), bit_and-0x7f 254, bit_and-0x7f 255)
bad_length-second_byte n false h =
    ground (arith, bit_and-0x7f n, bit_and-0x7f 126, bit_and-0x7f 127)
