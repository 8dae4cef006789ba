-- ===== src/Ws/Reader/Tests.antt =====
-- ws/conn_read.go: runs at concrete inputs.
use ews.Common.{
  inl, ◌≢◌, ◌≤◌, ◌<◌, ap, arith, length, ltb, if◌then◌else◌, ℕ, ◌≡◌, refl, true, false, none, List,
  [], ◌∷◌, ◌++◌, replicate,
}
use ews.Codec.Decoder
use ews.Ws.Errors.{client, Failure, message_too_large}
use ews.Ws.Receiver.Invariant.{IsValid}
use ews.Ws.Reader.Effects.{is_passing}
use ews.Codec.Wire.{wire_header, first_byte, second_byte, extension, key_part}
use ews.Ws.Reader.Flow.{stream}
use ews.Ws.Reader.Delivering.{Part, IsPart, frame_bytes, wire_parts}
use ews.Ws.Reader.Arriving.{IsIdle, read_message-delivers}
use ews.Ws.Reader.Serving.{
  IsOpen, read_message-ends, read_message-fits, read_message-stops, serve-ends,
}
use ews.Ws.Receiver
use ews.Ws.Receiver.{Receiver}
use ews.Codec.Header.{
  zero_header, payload_len, is_final, rsv1, rsv2, rsv3, opcode, masked, mask_key,
}
use ews.Codec.Encoder.{copy_at}
use ews.Common.Words.{be_word, be_word_from}
use ews.Utf8.Outcome.{IsUtf8}
use ews.Utf8.Scalars.{encode_rune, encode_runes}
use ews.Ws.Reader.Messages
use ews.Ws.Reader.Inflating
use ews.Ws.Reader.{
  next_frame, next_frame_round, frame_step, handle_control, dispatch, fill, read, read_from, loop,
  weight, fail, Arrival, gives, ReadError, Outcome, ok, failed, out_of_fuel, protocol, Control,
  Reader,
}
use ews.Ws.Reader.Inflating.{Inflater, inflated, too_large, stops}
use ews.Ws.Reader.Messages.{read_message, serve}

-- Handlers that keep a log: pings, pongs, closes and sent codes.
abbrev log_control : Control
log_control = record {
  World = List ℕ;
  on_ping = λ s w. (w ++ 1 ∷ s, none);
  on_pong = λ s w. (w ++ 2 ∷ s, none);
  on_close = λ code s w. (w ++ 3 ∷ code ∷ s, none);
  send_close = λ code w. w ++ 4 ∷ code ∷ [];
}

-- A decompressor that gives the payload back, within the limit.
abbrev stored : Inflater
stored = record {
  Stream = Unit;
  release = λ z. z;
  decompress = λ s limit z. (z, if ltb limit (length s) then too_large else inflated s);
  begin = λ z. (z, false);
  pull = λ n z. (z, stops);
  supply = λ s z. z;
}

abbrev blank : Receiver
blank = record {
  role = client;
  compression = false;
  dec = record { pending = []; scratch = []; remaining = 0 };
  header = zero_header;
  remaining = 0;
  masked_frame = false;
  frame_key = record { k0 = 0; k1 = 0; k2 = 0; k3 = 0 };
  mask_offset = 0;
  message_opcode = 0;
  compressed = false;
  control = replicate 125 0;
  control_len = 0;
  control_opcode = 0;
  control_open = false;
  close_received = false;
  failed = none;
}

abbrev reading : List Arrival → Reader (List ℕ) Unit
reading arrivals = record {
  rx = blank;
  buf = 4;
  limit = 8;
  fragment_size = 4;
  validate_utf8 = false;
  in_message = false;
  read_err = none;
  takeover = false;
  streaming = false;
  src_err = none;
  stream = tt;
  arrivals = arrivals;
  world = [];
}

-- A fragmented message with a ping between, in pieces.
abbrev two_frames : List Arrival
two_frames =
    gives (0x01 ∷ []) ∷ gives [] ∷ gives (2 ∷ 72 ∷ 105 ∷ 0x89 ∷ 1 ∷ 7 ∷ 0x80 ∷ 1 ∷ 33 ∷ []) ∷ []

joined : (read_message log_control stored 0 (reading two_frames)).1 ≡ ok (1, 72 ∷ 105 ∷ 33 ∷ [])
unfolding read_message Messages.next_message Messages.start_message Messages.discard
    Messages.discard_plain Messages.discard_round Messages.discard_step next_frame next_frame_round
    frame_step handle_control dispatch fill read read_from loop weight Messages.assemble
    Messages.assemble_round Messages.gather Messages.gather_round Messages.gather_step
    Messages.after_gather Messages.read_into Inflating.read_direct Inflating.take_direct
    Messages.finish_message Messages.check_text fail Receiver.next Receiver.header_step
    Receiver.accept Receiver.accept_data Receiver.accept_continuation Receiver.accept_control
    Receiver.set_mask Receiver.copy_key Receiver.open_frame Receiver.finish_frame
    Receiver.finish_control Receiver.control_step Receiver.unmask_control Receiver.payload
    Receiver.payload_n Receiver.consumed Receiver.feed Receiver.preserve Receiver.idle
    Receiver.message_is_open Receiver.control_payload Receiver.fail Decoder.feed Decoder.preserve
    Decoder.header_size Decoder.bad_length Decoder.next_header_into Decoder.payload
    Decoder.payload_n Decoder.buffered Decoder.reset payload_len is_final rsv1 rsv2 rsv3 opcode
    masked mask_key zero_header copy_at be_word be_word_from
joined = refl

-- A frame of nine bytes, past the limit.
abbrev long_frame : List Arrival
long_frame = gives (0x82 ∷ 9 ∷ []) ∷ []

abbrev excess : ReadError
excess = protocol (record { code = 1009; err = message_too_large })

excessive : (read_message log_control stored 0 (reading long_frame)).1 ≡ failed excess
unfolding read_message Messages.next_message Messages.start_message Messages.discard
    Messages.discard_plain Messages.discard_round Messages.discard_step next_frame next_frame_round
    frame_step handle_control dispatch fill read read_from loop weight Messages.assemble
    Messages.assemble_round Messages.gather Messages.gather_round Messages.gather_step
    Messages.after_gather Messages.read_into Inflating.read_direct Inflating.take_direct
    Messages.finish_message Messages.check_text fail Receiver.next Receiver.header_step
    Receiver.accept Receiver.accept_data Receiver.accept_continuation Receiver.accept_control
    Receiver.set_mask Receiver.copy_key Receiver.open_frame Receiver.finish_frame
    Receiver.finish_control Receiver.control_step Receiver.unmask_control Receiver.payload
    Receiver.payload_n Receiver.consumed Receiver.feed Receiver.preserve Receiver.idle
    Receiver.message_is_open Receiver.control_payload Receiver.fail Decoder.feed Decoder.preserve
    Decoder.header_size Decoder.bad_length Decoder.next_header_into Decoder.payload
    Decoder.payload_n Decoder.buffered Decoder.reset payload_len is_final rsv1 rsv2 rsv3 opcode
    masked mask_key zero_header copy_at be_word be_word_from
excessive = refl

blank-IsValid : IsValid blank
blank-IsValid = record {
  control_size = refl;
  control_fits = omega arith;
  message_kind = omega arith;
  offset_fits = omega arith;
  data_left = λ e. refl;
  control_left = λ e. cc;
  ended = λ e. cc;
  failed_closed = λ e. cc;
}

reading-IsOpen : (arrivals : List Arrival) → IsOpen log_control stored (reading arrivals)
reading-IsOpen arrivals = record {
  sound = blank-IsValid;
  small = omega arith;
  no_takeover = refl;
  no_error = refl;
}

stored-fits :
    (s : List ℕ) (n : ℕ) (z y : Unit {0}) (out : List ℕ)
    → stored.decompress s n z ≡ (y, inflated out)
    → length out ≤ n
stored-fits s n z y out e = ground arith

outcome :
    {A : Type 0} (x : Reader (List ℕ) Unit × Outcome A) (o : Outcome A) → x.1 ≡ o → x ≡ (x.0, o)
outcome x o e = ap (λ t. (x.0, t)) e

read_message-ends_example : (read_message log_control stored 0 (reading two_frames)).1 ≢ out_of_fuel
read_message-ends_example =
    read_message-ends log_control stored stored-fits 0 (reading two_frames)
      (reading-IsOpen two_frames)

abbrev after_two : Reader (List ℕ) Unit
after_two = (read_message log_control stored 0 (reading two_frames)).0

read_message-fits_example :
    (3 ≤ 8) × (weight after_two < weight (reading two_frames)) × IsOpen log_control stored after_two
read_message-fits_example =
    read_message-fits log_control stored stored-fits 0 (reading two_frames) after_two 1
      (72 ∷ 105 ∷ 33 ∷ []) (reading-IsOpen two_frames)
      (outcome (read_message log_control stored 0 (reading two_frames)) _ joined)

abbrev after_long : Reader (List ℕ) Unit
after_long = (read_message log_control stored 0 (reading long_frame)).0

read_message-stops_example :
    (is_passing excess ≡ true → after_long.read_err ≡ none)
    × (is_passing excess ≡ false
        → (after_long.in_message ≡ false)
          × (read_message log_control stored 0 after_long ≡ (after_long, failed excess)))
    × ((f : Failure)
        → excess ≡ protocol f
        → (w : List ℕ) × (after_long.world ≡ log_control.send_close f.code w))
read_message-stops_example =
    read_message-stops log_control stored stored-fits 0 0 (reading long_frame) after_long excess
      (reading-IsOpen long_frame)
      (outcome (read_message log_control stored 0 (reading long_frame)) _ excessive)

serve-ends_example :
    (e : ReadError) × ((serve log_control stored (λ op s w. (w, none)) 0 (reading two_frames)).1
      ≡ failed e)
serve-ends_example =
    serve-ends log_control stored stored-fits (λ op s w. (w, none)) 0 (reading two_frames)
      (reading-IsOpen two_frames)

-- A text whose last rune is split between two frames, in three pieces, and a byte behind it.
abbrev pieces : List Arrival
pieces = gives (0x01 ∷ []) ∷ gives (2 ∷ 72 ∷ []) ∷ gives (195 ∷ 0x80 ∷ 1 ∷ 169 ∷ 0x88 ∷ []) ∷ []

abbrev hi : Part
hi = record { key = none; payload = 72 ∷ 195 ∷ [] }

abbrev mark : Part
mark = record { key = none; payload = 169 ∷ [] }

-- A connection that checks text.
abbrev checking : Reader (List ℕ) Unit
checking = record (reading pieces) { validate_utf8 = true }

checking-IsIdle : IsIdle checking
checking-IsIdle = record {
  ready = record {
    not_failed = refl;
    not_closed = refl;
    no_control = refl;
    no_data = refl;
    drained = refl;
  };
  no_message = refl;
  none_open = refl;
  no_error = refl;
  smooth = tt;
  room = omega arith;
  small = omega arith;
}

hi-IsPart : IsPart client hi
hi-IsPart = record {
  masking = refl;
  bytes = (omega arith, (omega arith, tt));
  key_ok = tt;
  fits = omega arith;
}

mark-IsPart : IsPart client mark
mark-IsPart = record { masking = refl; bytes = (omega arith, tt); key_ok = tt; fits = omega arith }

pieces-flow : stream checking ≡ frame_bytes false 1 hi ++ (wire_parts (mark ∷ []) ++ 0x88 ∷ [])
unfolding frame_bytes wire_parts wire_header first_byte second_byte extension key_part
pieces-flow = refl

split_rune-IsUtf8 : IsUtf8 (72 ∷ 195 ∷ 169 ∷ [])
unfolding encode_runes encode_rune
split_rune-IsUtf8 = (72 ∷ 233 ∷ [], (inl (omega arith), (inl (omega arith), tt)), refl)

read_message-delivers_example :
    let r = read_message log_control stored 0 checking in
    (r.1 ≡ ok (1, 72 ∷ 195 ∷ 169 ∷ []))
    × (stream r.0 ≡ 0x88 ∷ [])
    × IsIdle r.0
    × (r.0.rx.role ≡ client)
    × (r.0.world ≡ [])
read_message-delivers_example =
    read_message-delivers log_control stored 0 checking 1 hi (mark ∷ []) (0x88 ∷ []) checking-IsIdle
      (inl refl) (hi-IsPart, (mark-IsPart, tt)) pieces-flow (omega arith) (λ e k. split_rune-IsUtf8)
