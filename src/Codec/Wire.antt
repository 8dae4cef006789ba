-- ===== src/Codec/Wire.antt =====
-- The frame header of RFC 6455, section 5.2, as bytes: what the encoder writes.
use ews.Common.{
  ℕ, ◌+◌, ◌*◌, ◌<◌, ◌≡◌, Bool, true, false, Option, none, some, List, [], ◌∷◌, ◌++◌, arith, leb,
  if◌then◌else◌,
}
use ews.Common.Words.{put_be}
use ews.Common.Bits.{bit_or-0x80, bit_or-0x40}
use ews.Codec.Opcode.{Opcode}
use ews.Codec.Mask.{MaskKey, key_bytes}
use ews.Codec.Header.{bytes}
use ews.Codec.Encoder.{Encoder, frame_header, set_rsv1}

abbrev pub flag : Bool → ℕ
flag true = 1
flag false = 0

abbrev pub is_masked : Option MaskKey → Bool
is_masked none = false
is_masked (some key) = true

-- FIN, RSV1 and the opcode.
unfoldable pub first_byte : Bool → Bool → Opcode → ℕ
first_byte final compressed op = 128 * flag final + 64 * flag compressed + op

-- MASK and the seven-bit length.
unfoldable pub second_byte : ℕ → Bool → ℕ
second_byte n m = 128 * flag m + (if leb n 125 then n else if leb n 65535 then 126 else 127)

-- The extended length.
unfoldable pub extension : ℕ → List ℕ
extension n = if leb n 125 then [] else if leb n 65535 then put_be 2 n else put_be 8 n

unfoldable pub key_part : Option MaskKey → List ℕ
key_part none = []
key_part (some key) = key_bytes key

unfoldable pub wire_header : Bool → Bool → Opcode → ℕ → Option MaskKey → List ℕ
wire_header final compressed op n key =
    first_byte final compressed op ∷ second_byte n (is_masked key) ∷ extension n ++ key_part key

-- For an opcode of four bits the header that `Encode` builds is the wire format of RFC 6455, for any
-- FIN bit, payload length and key: the two flag bytes, the extended length and the key.
pub frame_header-wire :
    (final : Bool) (op : Opcode) (n : ℕ) (key : Option MaskKey)
    → op < 16
    → bytes (frame_header final op n key) ≡ wire_header final false op n key
unfolding bytes frame_header wire_header first_byte second_byte extension key_part key_bytes put_be
frame_header-wire true op n none h = ground (arith, bit_or-0x80 op)
frame_header-wire false op n none h = ground (arith, bit_or-0x80 op)
frame_header-wire true op n (some key) h =
    ground (arith, bit_or-0x80 op, bit_or-0x80 n, bit_or-0x80 126, bit_or-0x80 127)
frame_header-wire false op n (some key) h =
    ground (arith, bit_or-0x80 op, bit_or-0x80 n, bit_or-0x80 126, bit_or-0x80 127)

-- For an opcode of four bits, if the encoder's header is the one that `Encode` built, then after
-- `e.h.raw[0] |= 0x40` it is the wire format with RSV1 set.
pub set_rsv1-wire :
    (final : Bool) (op : Opcode) (n : ℕ) (key : Option MaskKey) (e : Encoder)
    → op < 16
    → e.h ≡ frame_header final op n key
    → bytes (set_rsv1 e).h ≡ wire_header final true op n key
unfolding bytes set_rsv1 frame_header wire_header first_byte second_byte extension key_part
    key_bytes put_be
set_rsv1-wire true op n none e h p = rw p (ground (arith, bit_or-0x80 op, bit_or-0x40 op))
set_rsv1-wire false op n none e h p = rw p (ground (arith, bit_or-0x80 op, bit_or-0x40 op))
set_rsv1-wire true op n (some key) e h p = rw p (
    ground (arith, bit_or-0x80 op, bit_or-0x40 op, bit_or-0x80 n, bit_or-0x80 126, bit_or-0x80 127))
set_rsv1-wire false op n (some key) e h p = rw p (
    ground (arith, bit_or-0x80 op, bit_or-0x40 op, bit_or-0x80 n, bit_or-0x80 126, bit_or-0x80 127))
