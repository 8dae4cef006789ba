-- ===== src/Ws/Reader.antt =====
-- ws/conn_read.go and ws/control.go: the read side of a connection, with the inflating of
-- ws/conn_compress.go. This file has the state, the transport's reads, failures and control frames.
pub mod Inflating
pub mod Messages
pub mod Rules
pub mod Effects
pub mod Announcing
pub mod Gathering
pub mod Assembling
pub mod Discarding
pub mod Totality
pub mod Serving
pub mod Flow
pub mod Carrying
pub mod Bodies
pub mod Completing
pub mod Headers
pub mod Direct
pub mod Streaming
pub mod Delivering
pub mod Arriving
mod Tests
use ews.Common.{
  ℕ, zero, suc, ◌+◌, ◌*◌, Bool, true, false, not, ◌&&◌, Option, none, some, List, [], ◌∷◌, leb,
  ◌==◌, if◌then◌else◌, length, take, drop,
}
use ews.Codec.Opcode.{Opcode, close, ping, pong}
use ews.Codec.Decoder
use ews.Ws.Errors.{Failure}
use ews.Ws.Close.{parse_close}
use ews.Ws.Receiver.{
  Receiver, FrameKind, NextError, failure, payload_pending, need_input, data_frame, control_frame,
  idle, control_payload,
}
use ews.Ws.Receiver

-- What a read returns as an error. Errors of the transport and of handlers are numbers.
pub data ReadError : Type 0 where
  protocol : Failure → ReadError
  frame_open : ReadError
  closed : ℕ → List ℕ → ReadError
  eof unexpected_eof no_progress : ReadError
  transport handler : ℕ → ReadError

-- `out_of_fuel` stands for a loop that was cut off.
pub data Outcome (A : Type 0) : Type 0 where
  ok : A → Outcome A
  failed : ReadError → Outcome A
  out_of_fuel : Outcome A

-- A round of a loop: the next one follows, or the loop ends.
pub data Step (A : Type 0) : Type 0 where
  again : Step A
  ends : Outcome A → Step A

-- The early return on an error.
abbrev pub and_then :
    {S A T B : Type 0} → S × Outcome A → (A → S → T × Outcome B) → (S → T) → T × Outcome B
and_then (s, ok a) f g = f a s
and_then (s, failed e) f g = (g s, failed e)
and_then (s, out_of_fuel) f g = (g s, out_of_fuel)

abbrev pub step_of : {S A B : Type 0} → S × Outcome A → S × Step B
step_of (s, ok a) = (s, again)
step_of (s, failed e) = (s, ends (failed e))
step_of (s, out_of_fuel) = (s, ends out_of_fuel)

abbrev pub continue_with : {S A : Type 0} → (S → S × Outcome A) → S × Step A → S × Outcome A
continue_with f (s, again) = f s
continue_with f (s, ends o) = (s, o)

unfoldable pub loop : {S A : Type 0} → ℕ → (S → S × Step A) → S → S × Outcome A
loop zero round s = (s, out_of_fuel)
loop (suc n) round s = continue_with (λ t. loop n round t) (round s)

-- What the transport's reads give, in their order: bytes, which need not fit the reader's buffer, or
-- an error. At the end of the list the transport is at EOF.
pub data Arrival : Type 0 where
  gives : List ℕ → Arrival
  raises : ℕ → Arrival

-- The control handlers, and `sendClose` with its error dropped; `World` is what they act on.
pub record Control : Type 1 where
  pub World : Type 0
  pub on_ping : List ℕ → World → World × Option ℕ
  pub on_pong : List ℕ → World → World × Option ℕ
  pub on_close : ℕ → List ℕ → World → World × Option ℕ
  pub send_close : ℕ → World → World

-- The read side of `Conn`. `takeover` is whether `decomp.window` is set, and `stream` stands for the
-- decompressor with its window. Storage is not modelled, so `buf` is the buffer's size.
pub record Reader (W S : Type 0) : Type 0 where
  pub rx : Receiver
  pub buf : ℕ
  pub limit : ℕ
  pub fragment_size : ℕ
  pub validate_utf8 : Bool
  pub in_message : Bool
  pub read_err : Option ReadError
  pub takeover : Bool
  pub streaming : Bool
  pub src_err : Option ReadError
  pub stream : S
  pub arrivals : List Arrival
  pub world : W

-- The tries of `read`, for a buffer of `n` bytes.
unfoldable pub read_from : ℕ → Bool → ℕ → List Arrival → List Arrival × Outcome (List ℕ)
read_from zero is_idle n later = (later, failed no_progress)
read_from (suc k) is_idle n [] = ([], failed (if is_idle then eof else unexpected_eof))
read_from (suc k) is_idle n (raises e ∷ later) = (later, failed (transport e))
read_from (suc k) is_idle n (gives [] ∷ later) = read_from k is_idle n later
read_from (suc k) is_idle zero (gives (x ∷ s) ∷ later) =
    read_from k is_idle zero (gives (x ∷ s) ∷ later)
read_from (suc k) is_idle (suc n) (gives (x ∷ s) ∷ later) =
    (if leb (length s) n then later else gives (drop n s) ∷ later, ok (x ∷ take n s))

-- How many bytes a reader can still take, with the reads that this needs.
abbrev pub weight_of : List Arrival → ℕ
weight_of [] = 0
weight_of (gives s ∷ later) = suc (2 * length s + weight_of later)
weight_of (raises e ∷ later) = suc (weight_of later)

abbrev pub error_of : NextError → ReadError
error_of (failure f) = protocol f
error_of payload_pending = frame_open

module _ {W S : Type 0} where
  unfoldable pub weight : Reader W S → ℕ
  weight c = length c.rx.dec.pending + weight_of c.arrivals

  -- `read`
  unfoldable pub read : ℕ → Reader W S → Reader W S × Outcome (List ℕ)
  unfolding read_from
  read n c =
      let (later, o) = read_from 100 (idle c.rx) n c.arrivals in (record c { arrivals = later }, o)

  -- `fill`
  unfoldable pub fill : Reader W S → Reader W S × Outcome Unit
  unfolding read
  fill c =
      and_then (read c.buf (record c { rx = Receiver.preserve c.rx }))
        (λ s c. (record c { rx = Receiver.feed s c.rx }, ok tt)) (λ c. c)

module _ (K : Control) where
  unfoldable pub send_code : ReadError → K.World → K.World
  send_code (protocol f) w = K.send_close f.code w
  send_code _ w = w

  abbrev pub handler_error : K.World × Option ℕ → K.World × Option ReadError
  handler_error (w, none) = (w, none)
  handler_error (w, some e) = (w, some (handler e))

  abbrev pub closing_error : ReadError → K.World × Option ReadError → K.World × Option ReadError
  closing_error e (w, none) = (w, some e)
  closing_error e (w, some e') = (w, some e')

  -- The switch of `handleControl`.
  unfoldable pub dispatch : Opcode → List ℕ → K.World → K.World × Option ReadError
  dispatch op payload w =
      if op == ping
      then handler_error (K.on_ping payload w)
      else if op == pong
      then handler_error (K.on_pong payload w)
      else if op == close
      then (let (code, reason) = parse_close payload in
          closing_error (closed code reason) (handler_error (K.on_close code reason w)))
      else (w, none)

module _ (K : Control) {S : Type 0} where
  -- `c.readErr, c.inMessage, c.decomp.streaming = err, false, false`
  abbrev pub ended : ReadError → Reader K.World S → Reader K.World S
  ended e c = record c { read_err = some e; in_message = false; streaming = false }

  -- `fail`
  unfoldable pub fail : {A : Type 0} → ReadError → Reader K.World S → Reader K.World S × Outcome A
  unfolding send_code
  fail e c = (ended e (record c { world = send_code K e c.world }), failed e)

  abbrev pub controlled :
      Reader K.World S → K.World × Option ReadError → Reader K.World S × Outcome Unit
  controlled c (w, none) = (record c { world = w }, ok tt)
  controlled c (w, some e) = (ended e (record c { world = w }), failed e)

  -- `handleControl`
  unfoldable pub handle_control : Reader K.World S → Reader K.World S × Outcome Unit
  unfolding dispatch
  handle_control c = controlled c (dispatch K c.rx.control_opcode (control_payload c.rx) c.world)

  -- The switch in `nextFrame`.
  unfoldable pub frame_step :
      Reader K.World S → Receiver × FrameKind × Option NextError → Reader K.World S × Step Unit
  unfolding fail handle_control
  frame_step c (rx, kind, some e) = step_of (fail {A = Unit} (error_of e) (record c { rx = rx }))
  frame_step c (rx, data_frame, none) = (record c { rx = rx }, ends (ok tt))
  frame_step c (rx, control_frame, none) = step_of (handle_control (record c { rx = rx }))
  frame_step c (rx, need_input, none) = step_of (fill (record c { rx = rx }))

  -- A round of `nextFrame`.
  unfoldable pub next_frame_round : Reader K.World S → Reader K.World S × Step Unit
  unfolding frame_step
  next_frame_round c = frame_step c (Receiver.next c.rx)

  -- `nextFrame`
  unfoldable pub next_frame : Reader K.World S → Reader K.World S × Outcome Unit
  unfolding next_frame_round
  next_frame c = loop (suc (weight c)) next_frame_round c
