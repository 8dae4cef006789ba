-- ===== src/Codec/Decoder.antt =====
-- codec/decoder.go. `scratch` holds the bytes of the slice; its spare capacity is not modelled.
-- `n` of `PayloadN` is a length at every call, so it is a number and not a signed integer.
pub mod Consume
pub mod Feeding
use ews.Common.{
  ℕ, ◌+◌, ◌-◌, ◌/◌, ◌^◌, Bool, true, false, not, ◌&&◌, ◌||◌, Option, none, some, List, [], ◌++◌,
  bit_and, ltb, leb, ◌==◌, if◌then◌else◌, get_or, take, drop, length, min,
}
use ews.Codec.Header.{Header, zero_header, payload_len}

pub data DecodeError : Type 0 where
  payload_pending invalid_payload_length : DecodeError

pub record Decoder : Type 0 where
  pub pending : List ℕ
  pub scratch : List ℕ
  pub remaining : ℕ

-- The zero value.
unfoldable pub new : Decoder
new = record { pending = []; scratch = []; remaining = 0 }

unfoldable pub reset : Decoder → Decoder
reset d = record { pending = []; scratch = []; remaining = 0 }

unfoldable pub buffered : Decoder → ℕ
buffered d = length d.pending

unfoldable pub feed : List ℕ → Decoder → Decoder
feed b d =
    if length b == 0
    then d
    else if length d.pending == 0
    then record d { pending = b }
    else (let scratch = d.pending ++ b in record d { scratch = scratch; pending = scratch })

unfoldable pub preserve : Decoder → Decoder
preserve d =
    if length d.pending == 0 then d else record d { scratch = d.pending; pending = d.pending }

-- The header's length, from its second byte.
unfoldable pub header_size : ℕ → ℕ
header_size b =
    let code = bit_and b 0x7f in
    let extended = if code == 126 then 2 + 2 else if code == 127 then 2 + 8 else 2 in
    if not (bit_and b 0x80 == 0) then extended + 4 else extended

-- The length is not the shortest encoding, or its top bit is set.
unfoldable pub bad_length : ℕ → ℕ → Bool
bad_length code remaining =
    (code == 126 && ltb remaining 126)
    || (code == 127 && (ltb remaining 65536 || not (remaining / 2 ^ 63 == 0)))

-- `NextHeaderInto`: the decoder, the header `h` points to, and the two results.
unfoldable pub next_header_into : Decoder → Header → Decoder × Header × Bool × Option DecodeError
next_header_into d h =
    if not (d.remaining == 0)
    then (d, h, false, some payload_pending)
    else if ltb (length d.pending) 2
    then (d, h, false, none)
    else (let n = header_size (get_or d.pending 1 0) in
        if ltb (length d.pending) n
        then (d, h, false, none)
        else (let h' : Header = record { raw = take n d.pending ++ drop n h.raw; len = n } in
            let remaining = payload_len h' in
            if bad_length (bit_and (get_or d.pending 1 0) 0x7f) remaining
            then (d, zero_header, false, some invalid_payload_length)
            else (record d { pending = drop n d.pending; remaining = remaining }, h', true, none)))

-- `NextHeader`
unfoldable pub next_header : Decoder → Decoder × Header × Bool × Option DecodeError
next_header d = next_header_into d zero_header

-- `PayloadN`: the chunk and whether the payload is complete.
unfoldable pub payload_n : ℕ → Decoder → Decoder × List ℕ × Bool
payload_n n d =
    if d.remaining == 0
    then (d, [], true)
    else if n == 0 || length d.pending == 0
    then (d, [], false)
    else (let k = min (min n (length d.pending)) d.remaining in
        (
          record d { pending = drop k d.pending; remaining = d.remaining - k },
          take k d.pending,
          d.remaining - k == 0,
        ))

-- `Payload`
unfoldable pub payload : Decoder → Decoder × List ℕ × Bool
unfolding payload_n
payload d = payload_n (length d.pending) d
