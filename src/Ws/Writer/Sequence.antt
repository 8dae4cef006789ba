-- ===== src/Ws/Writer/Sequence.antt =====
-- Sequences of calls of a writer that has no queue and whose transport takes every frame. WritePrepared
-- and WriteFrom are not among them.
use ews.Common.{ℕ, ◌≡◌, ◌⊎◌, refl, Bool, true, false, Option, none, List, [], ◌∷◌, arith, inl, inr}
use ews.Codec.Opcode.{Opcode, ping, pong}
use ews.Codec.Mask.{MaskKey}
use ews.Handshake.Types.{Compression}
use ews.Ws.Errors.{Role}
use ews.Ws.Receiver.{is_some}
use ews.Ws.Sender
use ews.Ws.Writer.{
  Deflater, Writer, WriteError, Outcome, wrote, opened, refused, panics, new_writer, begin_message,
  send, close_with, send_close, write, fragment,
}
use ews.Ws.Writer.Stage.{Stage, idle, Emits, Fits, Good}
use ews.Ws.Writer.Steps.{Total, send-Good, close_with-Good, send_close-Good}
use ews.Ws.Writer.Data.{begin_message-Good, write-Good, fragment-Good}

-- A call of one of the connection's methods, with the random key of a client's frame.
pub data Call : Type 0 where
  message : MaskKey → Opcode → List ℕ → Call
  begins : Opcode → Call
  chunk : MaskKey → List ℕ → Call
  ends : MaskKey → Call
  pings pongs : MaskKey → List ℕ → Call
  closes : MaskKey → ℕ → List ℕ → Call
  fails : MaskKey → ℕ → Call

module _ (D : Deflater) where
  -- `Write`, `BeginMessage`, `WriteChunk`, `EndMessage`, `Ping`, `Pong`, `Close` and `sendClose`.
  unfoldable pub perform : Call → Writer D.Stream → Writer D.Stream × Outcome
  perform (message random op payload) c = write D random none op payload c
  perform (begins op) c = begin_message D.fresh op c
  perform (chunk random payload) c = fragment D random none payload false c
  perform (ends random) c = fragment D random none [] true c
  perform (pings random payload) c = send random none ping payload c
  perform (pongs random payload) c = send random none pong payload c
  perform (closes random code reason) c = close_with random none code reason c
  perform (fails random code) c = send_close random none code c

  -- The outcomes of the calls, made in order.
  unfoldable pub run : List Call → Writer D.Stream → List Outcome
  unfolding perform
  run [] c = []
  run (k ∷ ks) c = let r = perform k c in r.1 ∷ run ks r.0

-- The frames among the outcomes are ones that may stand in this order, and no call panics.
pub data Legal (role : Role) (deflating : Bool) : Stage → List Outcome → Type 0 where
  done : (p : Stage) → Legal role deflating p []
  frame :
      (p q : Stage) (head body : List ℕ) (os : List Outcome)
      → Emits role deflating p head q
      → Legal role deflating q os
      → Legal role deflating p (wrote head body ∷ os)
  no_frame :
      (p : Stage) (o : Outcome) (os : List Outcome)
      → (o ≡ opened) ⊎ ((err : WriteError) × (o ≡ refused err))
      → Legal role deflating p os
      → Legal role deflating p (o ∷ os)

new_writer-Fits :
    {C : Type 0}
    → (role : Role) (comp : Option Compression) (shared : Bool)
    → Fits role (is_some comp) idle (new_writer {C = C} role comp shared)
unfolding new_writer Sender.init
new_writer-Fits role comp shared = record {
  same_role = refl;
  same_config = refl;
  closed_ok = refl;
  stage_ok = λ o. refl;
  op_ok = inl refl;
  ready = λ busy. absurd (ground (arith, busy));
}

module _ (D : Deflater) (total : Total D) (role : Role) (deflating : Bool) where
  perform-Good :
      (k : Call) (p : Stage) (c : Writer D.Stream)
      → Fits role deflating p c
      → Good role deflating p (perform D k c)
  unfolding perform
  perform-Good (message random op payload) p c v =
      write-Good D total role deflating p c random op payload v
  perform-Good (begins op) p c v = begin_message-Good role deflating p c D.fresh op v
  perform-Good (chunk random payload) p c v =
      fragment-Good D total role deflating p c random payload false v
  perform-Good (ends random) p c v = fragment-Good D total role deflating p c random [] true v
  perform-Good (pings random payload) p c v =
      send-Good role deflating p c random ping payload (inl refl) v
  perform-Good (pongs random payload) p c v =
      send-Good role deflating p c random pong payload (inr refl) v
  perform-Good (closes random code reason) p c v =
      close_with-Good role deflating p c random code reason v
  perform-Good (fails random code) p c v = send_close-Good role deflating p c random code v

  Good-Legal :
      (p : Stage) (r : Writer D.Stream × Outcome) (ks : List Call)
      → Good role deflating p r
      → ((q : Stage) → Fits role deflating q r.0 → Legal role deflating q (run D ks r.0))
      → Legal role deflating p (r.1 ∷ run D ks r.0)
  Good-Legal p (c, wrote head body) ks (q, e, v) rest =
      frame p q head body (run D ks c) e (rest q v)
  Good-Legal p (c, opened) ks v rest = no_frame p opened (run D ks c) (inl refl) (rest p v)
  Good-Legal p (c, refused err) ks v rest =
      no_frame p (refused err) (run D ks c) (inr (err, refl)) (rest p v)
  Good-Legal p (c, panics) ks v rest = absurd v

  run_from :
      (ks : List Call) (p : Stage) (c : Writer D.Stream)
      → Fits role deflating p c
      → Legal role deflating p (run D ks c)
  unfolding run
  run_from [] p c v = done p
  run_from (k ∷ ks) p c v =
      Good-Legal p (perform D k c) ks (perform-Good k p c v)
        (λ q w. run_from ks q (perform D k c).0 w)

-- On a new connection that has no queue, with a compressor that never fails and a transport that takes
-- every frame, whatever sequence of Write, BeginMessage, WriteChunk, EndMessage, Ping, Pong, Close and
-- sendClose it gets, the frames come in an order that RFC 6455 allows: a fragmented message is one text or binary frame and then continuations up to a final one, no other data frame
-- comes between, a control frame is final and of at most 125 bytes, RSV1 stands only on the first
-- frame of a message and only with compression negotiated, and after the close frame come only
-- pongs. No call uses a nil compressor.
pub run-Legal :
    (D : Deflater) (role : Role) (comp : Option Compression) (shared : Bool) (ks : List Call)
    → Total D
    → Legal role (is_some comp) idle (run D ks (new_writer role comp shared))
run-Legal D role comp shared ks total =
    run_from D total role (is_some comp) ks idle (new_writer role comp shared)
      (new_writer-Fits role comp shared)
