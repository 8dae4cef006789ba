-- ===== src/Codec/Header.antt =====
-- codec/header.go
pub mod Fields
use ews.Common.{
  ℕ, ◌-◌, Bool, true, false, not, Option, none, some, List, bit_and, ◌==◌, if◌then◌else◌, get_or,
  take, drop, replicate,
}
use ews.Common.Words.{be_word}
use ews.Codec.Opcode.{Opcode}

abbrev pub max_header_size : ℕ
max_header_size = 14

-- `raw` is the array of 14 bytes, `len` how many of them are the header.
pub record Header : Type 0 where
  pub raw : List ℕ
  pub len : ℕ

-- The zero value, `Header{}`.
unfoldable pub zero_header : Header
zero_header = record { raw = replicate max_header_size 0; len = 0 }

-- `a[i:j]`
abbrev pub slice : List ℕ → ℕ → ℕ → List ℕ
slice a i j = take (j - i) (drop i a)

unfoldable pub bytes : Header → List ℕ
bytes h = slice h.raw 0 h.len

unfoldable pub payload_len : Header → ℕ
payload_len h =
    let n = bit_and (get_or h.raw 1 0) 0x7f in
    if n == 126
    then be_word (slice h.raw 2 4)
    else if n == 127
    then be_word (slice h.raw 2 10)
    else n

unfoldable pub is_final : Header → Bool
is_final h = not (bit_and (get_or h.raw 0 0) 0x80 == 0)

unfoldable pub rsv1 : Header → Bool
rsv1 h = not (bit_and (get_or h.raw 0 0) 0x40 == 0)

unfoldable pub rsv2 : Header → Bool
rsv2 h = not (bit_and (get_or h.raw 0 0) 0x20 == 0)

unfoldable pub rsv3 : Header → Bool
rsv3 h = not (bit_and (get_or h.raw 0 0) 0x10 == 0)

unfoldable pub opcode : Header → Opcode
opcode h = bit_and (get_or h.raw 0 0) 0x0f

unfoldable pub masked : Header → Bool
masked h = not (bit_and (get_or h.raw 1 0) 0x80 == 0)

-- `nil` if the payload is not masked
unfoldable pub mask_key : Header → Option (List ℕ)
mask_key h = if not (masked h) then none else some (slice h.raw (h.len - 4) h.len)
