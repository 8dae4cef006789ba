-- ===== src/Codec/Encoder.antt =====
-- codec/encoder.go. `scratch` holds the bytes of the slice. `ScratchKeep` decides only whether its
-- storage is released, which has no effect on a frame, and is not modelled.
use ews.Common.{
  ℕ, zero, suc, ◌+◌, ◌%◌, Bool, not, ◌&&◌, ◌||◌, Option, none, some, List, [], ◌∷◌, ◌++◌, bit_or,
  ltb, leb, ◌==◌, if◌then◌else◌, take, drop, length, replicate,
}
use ews.Common.Words.{put_be}
use ews.Codec.Opcode.{Opcode, continuation, text, binary, close, is_data, is_control}
use ews.Codec.Header.{Header, zero_header, bytes, max_header_size}
use ews.Codec.Mask.{MaskKey, key_bytes, mask_swar}

pub data EncodeError : Type 0 where
  invalid_opcode invalid_control_frame invalid_compressed_frame : EncodeError

pub record Encoder : Type 0 where
  pub h : Header
  pub payload : List ℕ
  pub scratch : List ℕ

-- The zero value.
unfoldable pub new : Encoder
new = record { h = zero_header; payload = []; scratch = [] }

unfoldable pub reset : Encoder → Encoder
reset e = record { h = zero_header; payload = []; scratch = [] }

unfoldable pub header_bytes : Encoder → List ℕ
header_bytes e = bytes e.h

unfoldable pub payload_bytes : Encoder → List ℕ
payload_bytes e = e.payload

-- `copy(a[i:], b)`, where `b` fits
unfoldable pub copy_at : ℕ → List ℕ → List ℕ → List ℕ
copy_at i b a = take i a ++ (b ++ drop (i + length b) a)

-- `a[i] |= bits`
unfoldable pub or_at : ℕ → ℕ → List ℕ → List ℕ
or_at i bits [] = []
or_at zero bits (x ∷ xs) = bit_or x bits ∷ xs
or_at (suc i) bits (x ∷ xs) = x ∷ or_at i bits xs

-- The switch on the opcode, with the checks of a control frame.
unfoldable pub check_frame : Bool → Opcode → List ℕ → Option EncodeError
check_frame final op payload =
    if is_data op
    then none
    else if is_control op
    then (if not final || ltb 125 (length payload) || (op == close && length payload == 1)
        then some invalid_control_frame
        else none)
    else some invalid_opcode

-- The switch on the payload's length.
unfoldable pub put_length : ℕ → List ℕ → Header
put_length n raw =
    if leb n 125
    then record { raw = copy_at 1 ((n % 256) ∷ []) raw; len = 2 }
    else if leb n 65535
    then record { raw = copy_at 2 (put_be 2 n) (copy_at 1 (126 ∷ []) raw); len = 4 }
    else record { raw = copy_at 2 (put_be 8 n) (copy_at 1 (127 ∷ []) raw); len = 10 }

unfoldable pub put_key : Option MaskKey → Header → Header
put_key none h = h
put_key (some key) h = record {
  raw = or_at 1 0x80 (copy_at h.len (key_bytes key) h.raw);
  len = h.len + 4;
}

-- The header of a frame that passed the checks.
unfoldable pub frame_header : Bool → Opcode → ℕ → Option MaskKey → Header
unfolding put_key put_length copy_at or_at
frame_header final op n key =
    let raw = copy_at 0 (op ∷ []) (replicate max_header_size 0) in
    put_key key (put_length n (if final then or_at 0 0x80 raw else raw))

-- The payload, borrowed or masked into `scratch`.
unfoldable pub put_payload : Option MaskKey → List ℕ → Encoder → Encoder
put_payload none payload e = record e { payload = payload }
put_payload (some key) payload e =
    let scratch = mask_swar payload key 0 in record e { scratch = scratch; payload = scratch }

-- `Encode`
unfoldable pub encode :
    Bool → Opcode → List ℕ → Option MaskKey → Encoder → Encoder × Option EncodeError
unfolding check_frame frame_header put_payload
encode final op payload key e = elim (check_frame final op payload) [
  | some err ↦ (e, some err)
  | none ↦
      let e' = put_payload key payload e in
      (record e' { h = frame_header final op (length payload) key }, none)
]

-- `e.h.raw[0] |= 0x40`
unfoldable pub set_rsv1 : Encoder → Encoder
unfolding or_at
set_rsv1 e = record e { h = record { raw = or_at 0 0x40 e.h.raw; len = e.h.len } }

-- After `Encode`: an error is passed on, and the first frame of a message is marked.
unfoldable pub mark_compressed :
    Opcode → Encoder × Option EncodeError → Encoder × Option EncodeError
unfolding set_rsv1
mark_compressed op (e, some err) = (e, some err)
mark_compressed op (e, none) = if not (op == continuation) then (set_rsv1 e, none) else (e, none)

-- `EncodeCompressed`
unfoldable pub encode_compressed :
    Bool → Opcode → List ℕ → Option MaskKey → Encoder → Encoder × Option EncodeError
unfolding mark_compressed
encode_compressed final op payload key e =
    if not (op == text) && (not (op == binary) && not (op == continuation))
    then (e, some invalid_compressed_frame)
    else mark_compressed op (encode final op payload key e)
