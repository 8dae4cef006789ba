-- ===== src/Ws/Writer.antt =====
-- ws/conn_write.go: the messages and fragments that a connection encodes, with the parts of
-- conn_compress.go that pick a compressor. Each function is what runs under `wmu`; `fault` is the
-- error with which the transport or the queue refuses the frame. A compressor from the pool is as
-- one new or reset.
pub mod Frames
pub mod Stage
pub mod Moves
pub mod Steps
pub mod Data
pub mod Sequence
mod Tests
use ews.Common.{
  ℕ, ◌+◌, ◌≡◌, Bool, true, false, not, ◌&&◌, ◌||◌, Option, none, some, List, [], ◌∷◌, ◌++◌, ltb,
  leb, ◌==◌, if◌then◌else◌, length,
}
use ews.Codec.Opcode.{Opcode, continuation, text, binary, close, ping, pong}
use ews.Codec.Mask.{MaskKey}
use ews.Deflate.Window.{Window}
use ews.Ws.Errors.{Role, Cause, closing, protocol, message_open, no_message}
use ews.Ws.Receiver.{is_some}
use ews.Ws.Sender
use ews.Codec.Encoder
use ews.Common.Int.{pos_part}
use ews.Handshake.Types.{Compression}
use ews.Ws.Sender.{
  Sender, Encoded, frame, error, encode, encode_compressed_message, encode_fragment, encode_close,
}
use ews.Ws.PreparedHistory.{SendHistory, apply_pending}

-- What the connection uses of deflate: `CompressChunk` on a compressor and a window, `none` for its
-- error, and how the runtime grows a window's slice.
pub record Deflater : Type 1 where
  pub Stream : Type 0
  pub fresh : Stream
  pub chunk : List ℕ → Option Window → Bool → Stream → Stream × (Option Window × Option (List ℕ))
  pub grow : ℕ → ℕ → ℕ

-- `fragmentState`
pub record Fragment : Type 0 where
  pub op : Opcode
  pub first : Bool
  pub compressed : Bool
  pub held : Bool

-- The write side of `Conn`; `deflating` is whether `comp.config` is set.
pub record Writer (C : Type 0) : Type 0 where
  pub tx : Sender
  pub frag : Fragment
  pub deflating : Bool
  pub min_size : ℕ
  pub shared : Bool
  pub history : Option SendHistory
  pub attached : Option C

pub data WriteError : Type 0 where
  cause : Cause → WriteError
  deflate_error : WriteError
  io_error : ℕ → WriteError

-- A frame's header and body went to the transport, the call needs none, it returned an error, or it
-- used a compressor that is nil.
pub data Outcome : Type 0 where
  wrote : List ℕ → List ℕ → Outcome
  opened : Outcome
  refused : WriteError → Outcome
  panics : Outcome

abbrev pub of_encoded : Encoded → Outcome
of_encoded (frame head body) = wrote head body
of_encoded (error err) = refused (cause err)

-- `window`; no history is the nil window.
unfoldable pub new_history : Bool → ℕ → Option SendHistory
new_history takeover bits =
    if not takeover
    then none
    else some (record {
      window = record { bits = bits; buf = []; cap = 0; gen = 0 };
      pending = [];
      pending_bytes = 0;
    })

-- The write side of `NewConn`, with the zero values of the rest; `MinSize` was checked.
unfoldable pub new_writer : {C : Type 0} → Role → Option Compression → Bool → Writer C
unfolding new_history
new_writer role comp shared = record {
  tx = Sender.init role (record { role = role; enc = Encoder.new; close_sent = false });
  frag = record { op = 0; first = false; compressed = false; held = false };
  deflating = is_some comp;
  min_size = elim comp [
    | none ↦ 0
    | some k ↦ if pos_part k.min_size == 0 then 128 else pos_part k.min_size
  ];
  shared = elim comp [ none ↦ false | some k ↦ shared ];
  history = elim comp [
    | none ↦ none
    | some k ↦ new_history k.send_context_takeover k.send_window_bits
  ];
  attached = none;
}

-- `endFragmented`
unfoldable pub end_fragmented : {C : Type 0} → Writer C → Writer C
end_fragmented c =
    let c' = record c { frag = record c.frag { op = 0; held = false } } in
    if c.frag.held && (c.shared || not (is_some c.history))
    then record c' { attached = none }
    else c'

-- `BeginMessage`, with a compressor from the pool.
unfoldable pub begin_message : {C : Type 0} → C → Opcode → Writer C → Writer C × Outcome
begin_message fresh op c =
    if not (op == text) && not (op == binary)
    then (c, refused (cause protocol))
    else if not (c.frag.op == 0)
    then (c, refused (cause message_open))
    else if c.tx.close_sent
    then (c, refused (cause closing))
    else (let take_one = c.deflating && not (is_some c.attached) in
        (
          record c {
            frag = record {
              op = op;
              first = true;
              compressed = c.deflating;
              held = if take_one then true else c.frag.held;
            };
            attached = if take_one then some fresh else c.attached;
          },
          opened,
        ))

-- The encoder's result, before the frame is sent.
abbrev pub encoded : {C : Type 0} → Writer C → Sender × Encoded → Writer C × Outcome
encoded c r = (record c { tx = r.0 }, of_encoded r.1)

-- `sendFrame` or `write` of a frame that was encoded.
unfoldable pub send_frame : {C : Type 0} → Option ℕ → Writer C × Outcome → Writer C × Outcome
send_frame none r = r
send_frame (some e) (c, wrote head body) = (c, refused (io_error e))
send_frame (some e) (c, opened) = (c, opened)
send_frame (some e) (c, refused err) = (c, refused err)
send_frame (some e) (c, panics) = (c, panics)

-- The end of `fragment`.
unfoldable pub after_fragment : {C : Type 0} → Bool → Writer C × Outcome → Writer C × Outcome
unfolding end_fragmented
after_fragment final (c, wrote head body) =
    let c' = record c { frag = record c.frag { first = false } } in
    (if final then end_fragmented c' else c', wrote head body)
after_fragment final (c, opened) = (end_fragmented c, opened)
after_fragment final (c, refused err) = (end_fragmented c, refused err)
after_fragment final (c, panics) = (c, panics)

-- `fragment` after the compression.
unfoldable pub fragment_frame :
    {C : Type 0} → MaskKey → Option ℕ → List ℕ → Bool → Writer C → Writer C × Outcome
unfolding after_fragment
fragment_frame random fault payload final c =
    let op = if c.frag.first then c.frag.op else continuation in
    after_fragment final (
      send_frame fault (encoded c (encode_fragment random op final payload c.frag.compressed c.tx)))

-- `send`
unfoldable pub send :
    {C : Type 0} → MaskKey → Option ℕ → Opcode → List ℕ → Writer C → Writer C × Outcome
send random fault op payload c =
    if not (c.frag.op == 0) && (not (op == ping) && (not (op == pong) && not (op == close)))
    then (c, refused (cause message_open))
    else send_frame fault (encoded c (encode random op payload c.tx))

-- `Close`
unfoldable pub close_with :
    {C : Type 0} → MaskKey → Option ℕ → ℕ → List ℕ → Writer C → Writer C × Outcome
close_with random fault code reason c =
    send_frame fault (encoded c (encode_close random code reason c.tx))

-- `sendClose`; its error is dropped by the caller.
unfoldable pub send_close : {C : Type 0} → MaskKey → Option ℕ → ℕ → Writer C → Writer C × Outcome
unfolding close_with
send_close random fault code c =
    if c.tx.close_sent then (c, opened) else close_with random fault code [] c

abbrev set_window : Option Window → Option SendHistory → Option SendHistory
set_window (some w) (some h) = some (record h { window = w })
set_window (some w) none = none
set_window none h = h

abbrev window_of : Option SendHistory → Option Window
window_of none = none
window_of (some h) = some h.window

module _ (D : Deflater) where
  abbrev apply_to : Option SendHistory → Option SendHistory
  apply_to none = none
  apply_to (some h) = some (apply_pending D.grow h)

  -- One call of the compressor `k` behind `applyPending`, which leaves it attached if `keep`.
  unfoldable pub deflate :
      Bool → List ℕ → Bool → D.Stream → Writer D.Stream → Writer D.Stream × Option (List ℕ)
  deflate keep payload final k c =
      let h = apply_to c.history in
      let r = D.chunk payload (window_of h) final k in
      (record c { history = set_window r.1.0 h; attached = if keep then some r.0 else none }, r.1.1)

  -- `compressorFor`: the compressor, and whether it is attached afterwards.
  unfoldable pub compressor_for : Writer D.Stream → D.Stream × Bool
  compressor_for c = elim c.attached [
    | some k ↦ (k, true)
    | none ↦ (D.fresh, is_some c.history && not c.shared)
  ]

  -- `encodeData`
  unfoldable pub encode_data :
      MaskKey → Opcode → List ℕ → Writer D.Stream → Writer D.Stream × Outcome
  unfolding deflate compressor_for
  encode_data random op payload c =
      if not c.deflating || ltb (length payload) c.min_size
      then encoded c (encode random op payload c.tx)
      else (let k = compressor_for c in
          let r = deflate k.1 payload true k.0 c in
          elim r.1 [
            | none ↦ (r.0, refused deflate_error)
            | some z ↦ encoded r.0 (encode_compressed_message random op z r.0.tx)
          ])

  -- `Write`
  unfoldable pub write :
      MaskKey → Option ℕ → Opcode → List ℕ → Writer D.Stream → Writer D.Stream × Outcome
  unfolding encode_data
  write random fault op payload c =
      if not (op == text) && not (op == binary)
      then (c, refused (cause protocol))
      else if not (c.frag.op == 0)
      then (c, refused (cause message_open))
      else send_frame fault (encode_data random op payload c)

  -- `fragment`
  unfoldable pub fragment :
      MaskKey → Option ℕ → List ℕ → Bool → Writer D.Stream → Writer D.Stream × Outcome
  fragment random fault payload final c =
      if c.frag.op == 0
      then (c, refused (cause no_message))
      else if not c.frag.compressed
      then fragment_frame random fault payload final c
      else elim c.attached [
        | none ↦ (c, panics)
        | some k ↦
            let r = deflate true payload final k c in
            elim r.1 [
              | none ↦ (end_fragmented r.0, refused deflate_error)
              | some z ↦ fragment_frame random fault z final r.0
            ]
      ]
