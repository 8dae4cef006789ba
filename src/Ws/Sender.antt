-- ===== src/Ws/Sender.antt =====
-- ws/sender.go. `rand.Read` fills the key of a client's frame: the key is an argument of each call.
-- `closeBuf` is scratch that `EncodeClose` fills before it reads it, also when the frame is then refused;
-- it has no field here, and a frame's body is its bytes at the time of the call, which the caller may
-- use until the next.
use ews.Common.{
  ℕ, Bool, true, false, not, ◌&&◌, Option, none, some, List, [], ◌++◌, ltb, ◌==◌, if◌then◌else◌,
  length, ◌||◌,
}
use ews.Common.Words.{put_be}
use ews.Codec.Opcode.{Opcode, continuation, text, binary, close, ping, pong}
use ews.Codec.Mask.{MaskKey}
use ews.Codec.Encoder.{Encoder, EncodeError, encode_compressed, header_bytes, payload_bytes}
use ews.Codec.Encoder
use ews.Ws.Errors.{Role, server, client, Cause, closing, protocol, encoding}
use ews.Ws.Close.{validate_close}

pub record Sender : Type 0 where
  pub role : Role
  pub enc : Encoder
  pub close_sent : Bool

-- `Init`
unfoldable pub init : Role → Sender → Sender
init role s = record { role = role; enc = Encoder.reset s.enc; close_sent = false }

-- The result: the frame's header and body, or an error.
pub data Encoded : Type 0 where
  frame : List ℕ → List ℕ → Encoded
  error : Cause → Encoded

-- After the encoder: an error is passed on, and a close frame is remembered.
unfoldable pub finish_frame : Opcode → Sender → Encoder × Option EncodeError → Sender × Encoded
finish_frame op s (enc, some err) = (record s { enc = enc }, error (encoding err))
finish_frame op s (enc, none) = (
  record s { enc = enc; close_sent = if op == close then true else s.close_sent },
  frame (header_bytes enc) (payload_bytes enc),
)

-- The key of a frame: a client masks, a server does not.
abbrev pub key_for : Role → MaskKey → Option MaskKey
key_for client random = some random
key_for server random = none

-- `encodeFrame`
unfoldable pub encode_frame : MaskKey → Opcode → Bool → List ℕ → Bool → Sender → Sender × Encoded
encode_frame random op final payload compressed s =
    if s.close_sent && not (op == pong)
    then (s, error closing)
    else (let key = key_for s.role random in
        if compressed
        then finish_frame op s (encode_compressed final op payload key s.enc)
        else finish_frame op s (Encoder.encode final op payload key s.enc))

-- The switch of `encode`.
unfoldable pub check_message : Opcode → List ℕ → Option Cause
check_message op payload =
    if op == text || op == binary
    then none
    else if op == ping || op == pong
    then (if ltb 125 (length payload) then some protocol else none)
    else if op == close
    then validate_close payload
    else some protocol

unfoldable pub encode_checked : MaskKey → Opcode → List ℕ → Bool → Sender → Sender × Encoded
encode_checked random op payload compressed s =
    if s.close_sent && not (op == pong)
    then (s, error closing)
    else elim (check_message op payload) [
      | some err ↦ (s, error err)
      | none ↦ encode_frame random op true payload compressed s
    ]

-- `Encode`
unfoldable pub encode : MaskKey → Opcode → List ℕ → Sender → Sender × Encoded
encode random op payload s = encode_checked random op payload false s

-- `EncodeCompressed`
unfoldable pub encode_compressed_message : MaskKey → Opcode → List ℕ → Sender → Sender × Encoded
encode_compressed_message random op payload s =
    if not (op == text) && not (op == binary)
    then (s, error protocol)
    else encode_checked random op payload true s

-- `EncodeFragment`
unfoldable pub encode_fragment : MaskKey → Opcode → Bool → List ℕ → Bool → Sender → Sender × Encoded
encode_fragment random op final payload compressed s =
    if not (op == text) && (not (op == binary) && not (op == continuation))
    then (s, error protocol)
    else encode_frame random op final payload compressed s

-- `EncodeClose`; the reason is the bytes of the string.
unfoldable pub encode_close : MaskKey → ℕ → List ℕ → Sender → Sender × Encoded
encode_close random code reason s =
    if code == 0
    then (if not (length reason == 0) then (s, error protocol) else encode random close [] s)
    else if ltb 123 (length reason)
    then (s, error protocol)
    else encode random close (put_be 2 code ++ reason) s
