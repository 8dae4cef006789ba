-- ===== src/Ws/Receiver.antt =====
-- ws/receiver.go
pub mod Invariant
pub mod Progress
pub mod Frames
pub mod Delivery
pub mod Life
pub mod Amounts
use ews.Common.{
  ℕ, ◌+◌, ◌-◌, ◌%◌, Bool, true, false, not, ◌&&◌, ◌||◌, Option, none, some, List, [], ◌++◌, bit_and,
  ltb, leb, ◌==◌, if◌then◌else◌, get_or, take, drop, length, min, replicate,
}
use ews.Codec.Opcode.{Opcode, continuation, text, binary, close, ping, pong}
use ews.Codec.Mask.{MaskKey, mask}
use ews.Codec.Header.{
  Header, zero_header, slice, payload_len, is_final, rsv1, rsv2, rsv3, opcode, masked, mask_key,
}
use ews.Codec.Decoder.{Decoder, DecodeError, next_header_into}
use ews.Codec.Decoder
use ews.Codec.Encoder.{copy_at}
use ews.Ws.Errors.{Role, server, client, Cause, protocol, invalid_utf8, decoding, Failure}
use ews.Ws.Close.{validate_close}

pub data FrameKind : Type 0 where
  need_input data_frame control_frame : FrameKind

-- What `Next` returns as an error: the terminal failure, or `codec.ErrPayloadPending`.
pub data NextError : Type 0 where
  failure : Failure → NextError
  payload_pending : NextError

-- `control` is the array of 125 bytes. An opcode of zero in `message_opcode` means that no message
-- is open.
pub record Receiver : Type 0 where
  pub role : Role
  pub compression : Bool
  pub dec : Decoder
  pub header : Header
  pub remaining : ℕ
  pub masked_frame : Bool
  pub frame_key : MaskKey
  pub mask_offset : ℕ
  pub message_opcode : Opcode
  pub compressed : Bool
  pub control : List ℕ
  pub control_len : ℕ
  pub control_opcode : Opcode
  pub control_open : Bool
  pub close_received : Bool
  pub failed : Option Failure

abbrev pub max_control : ℕ
max_control = 125

-- `Init`
unfoldable pub init : Role → Bool → Receiver → Receiver
init role compression r = record {
  role = role;
  compression = compression;
  dec = Decoder.reset r.dec;
  header = zero_header;
  remaining = 0;
  masked_frame = false;
  frame_key = record { k0 = 0; k1 = 0; k2 = 0; k3 = 0 };
  mask_offset = 0;
  message_opcode = 0;
  compressed = false;
  control = replicate max_control 0;
  control_len = 0;
  control_opcode = 0;
  control_open = false;
  close_received = false;
  failed = none;
}

abbrev pub is_some {ℓ} : {A : Type ℓ} → Option A → Bool
is_some none = false
is_some (some a) = true

unfoldable pub feed : List ℕ → Receiver → Receiver
feed b r =
    if not (is_some r.failed) && not r.close_received
    then record r { dec = Decoder.feed b r.dec }
    else r

unfoldable pub preserve : Receiver → Receiver
preserve r = record r { dec = Decoder.preserve r.dec }

unfoldable pub idle : Receiver → Bool
idle r =
    r.remaining == 0
    && (not r.control_open && (r.message_opcode == 0 && Decoder.buffered r.dec == 0))

unfoldable pub message_is_open : Receiver → Bool
message_is_open r = not (r.message_opcode == 0)

-- `ControlPayload`
unfoldable pub control_payload : Receiver → List ℕ
control_payload r = slice r.control 0 r.control_len

-- `fail`
unfoldable pub fail : ℕ → Cause → Receiver → Receiver × FrameKind × Option NextError
fail code err r =
    let f : Failure = record { code = code; err = err } in
    (
      record r {
        failed = some f;
        remaining = 0;
        control_open = false;
        message_opcode = 0;
        dec = Decoder.reset r.dec;
      },
      need_input,
      some (failure f),
    )

abbrev pub is_server : Role → Bool
is_server server = true
is_server client = false

abbrev pub xor_bool : Bool → Bool → Bool
xor_bool true b = not b
xor_bool false b = b

-- `accept`, by the kinds of frame; `none` is `ErrProtocol`.
unfoldable pub accept_data : Receiver → Header → Option Receiver
accept_data r h =
    if not (r.message_opcode == 0) || (rsv1 h && not r.compression)
    then none
    else some (record r { message_opcode = opcode h; compressed = rsv1 h })

unfoldable pub accept_continuation : Receiver → Header → Option Receiver
accept_continuation r h = if r.message_opcode == 0 || rsv1 h then none else some r

unfoldable pub accept_control : Receiver → Header → ℕ → Option Receiver
accept_control r h length = if not (is_final h) || (rsv1 h || ltb 125 length) then none else some r

unfoldable pub accept : Receiver → Header → ℕ → Option Receiver
accept r h length =
    if xor_bool (masked h) (is_server r.role) || (rsv2 h || rsv3 h)
    then none
    else if opcode h == text || opcode h == binary
    then accept_data r h
    else if opcode h == continuation
    then accept_continuation r h
    else if opcode h == close || (opcode h == ping || opcode h == pong)
    then accept_control r h length
    else none

-- `finishFrame`
unfoldable pub finish_frame : Receiver → Receiver
finish_frame r = if is_final r.header then record r { message_opcode = 0 } else r

abbrev close_failure_code : Cause → ℕ
close_failure_code invalid_utf8 = 1007
close_failure_code _ = 1002

-- `finishControl`
unfoldable pub finish_control : Receiver → Receiver × FrameKind × Option NextError
finish_control r =
    if r.control_opcode == close
    then elim (validate_close (slice r.control 0 r.control_len)) [
      | some err ↦ fail (close_failure_code err) err r
      | none ↦ (record r { close_received = true; dec = Decoder.reset r.dec }, control_frame, none)
    ]
    else (r, control_frame, none)

-- `codec.Mask(r.control[int(r.controlLen)-n:r.controlLen], r.maskKey, r.maskOffset)`
unfoldable pub unmask_control : ℕ → Receiver → Receiver
unmask_control n r =
    if r.masked_frame
    then (let (s, offset) =
          mask (slice r.control (r.control_len - n) r.control_len) r.frame_key r.mask_offset in
        record r { control = copy_at (r.control_len - n) s r.control; mask_offset = offset })
    else r

-- The part of `Next`'s loop for an open control frame.
unfoldable pub control_step : Receiver → Receiver × FrameKind × Option NextError
control_step r =
    let (dec, chunk, done) = Decoder.payload r.dec in
    let n = min (max_control - r.control_len) (length chunk) in
    let r' = unmask_control n (record r {
      dec = dec;
      control = copy_at r.control_len (take n chunk) r.control;
      control_len = (r.control_len + n) % 256;
    }) in
    if not done then (r', need_input, none) else finish_control (record r' { control_open = false })

-- `copy(r.maskKey[:], h.MaskKey())`
unfoldable pub copy_key : Option (List ℕ) → MaskKey → MaskKey
copy_key none k = k
copy_key (some s) k = record {
  k0 = get_or s 0 0;
  k1 = get_or s 1 0;
  k2 = get_or s 2 0;
  k3 = get_or s 3 0;
}

unfoldable pub set_mask : Receiver → Receiver
set_mask r = record r {
  masked_frame = masked r.header;
  mask_offset = 0;
  frame_key = if masked r.header then copy_key (mask_key r.header) r.frame_key else r.frame_key;
}

-- An accepted header: a control frame is gathered at once, a data frame is announced. `continue`
-- leads back to the loop with a control frame open, so the loop makes two rounds at most.
unfoldable pub open_frame : ℕ → Receiver → Receiver × FrameKind × Option NextError
open_frame length r =
    if leb close (opcode r.header)
    then (let r' = record r { control_opcode = opcode r.header; control_len = 0 } in
        if length == 0 then finish_control r' else control_step (record r' { control_open = true }))
    else (let r' = record r { remaining = length } in
        (if length == 0 then finish_frame r' else r', data_frame, none))

-- The rest of the loop, after `NextHeaderInto`.
unfoldable pub header_step : Receiver → Receiver × FrameKind × Option NextError
header_step r =
    let (dec, h, found, err) = next_header_into r.dec r.header in
    let r' = record r { dec = dec; header = h } in
    elim err [
      | some e ↦ fail 1002 (decoding e) r'
      | none ↦ if not found then (r', need_input, none) else elim (accept r' h (payload_len h)) [
        | none ↦ fail 1002 protocol r'
        | some r'' ↦ open_frame (payload_len h) (set_mask r'')
      ]
    ]

-- `Next`
unfoldable pub next : Receiver → Receiver × FrameKind × Option NextError
next r = elim r.failed [
  | some f ↦ (r, need_input, some (failure f))
  | none ↦
      if not (r.remaining == 0)
      then (r, need_input, some payload_pending)
      else if r.close_received
      then (r, need_input, none)
      else if r.control_open
      then control_step r
      else header_step r
]

-- `consumed`
unfoldable pub consumed : List ℕ → Bool → Receiver → Receiver × List ℕ × Bool × Option Failure
consumed chunk done r =
    let (chunk', offset) = mask chunk r.frame_key r.mask_offset in
    let r' : Receiver = if length chunk == 0 then r else record r {
      mask_offset = if r.masked_frame then offset else r.mask_offset;
      remaining = r.remaining - length chunk;
    } in
    let out = if r.masked_frame then chunk' else chunk in
    (if done then finish_frame r' else r', out, done, none)

-- `PayloadN`
unfoldable pub payload_n : ℕ → Receiver → Receiver × List ℕ × Bool × Option Failure
payload_n n r = elim r.failed [
  | some f ↦ (r, [], false, some f)
  | none ↦
      if r.remaining == 0
      then (r, [], true, none)
      else (let (dec, chunk, done) = Decoder.payload_n n r.dec in
          consumed chunk done (record r { dec = dec }))
]

-- `Payload`
unfoldable pub payload : Receiver → Receiver × List ℕ × Bool × Option Failure
payload r = payload_n (Decoder.buffered r.dec) r
