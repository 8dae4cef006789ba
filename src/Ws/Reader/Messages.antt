-- ===== src/Ws/Reader/Messages.antt =====
-- ws/conn_read.go and ws/serve.go: whole messages. The buffer that a message is gathered in is its
-- bytes.
use ews.Common.{
  ℕ, suc, ◌+◌, ◌-◌, ◌%◌, ◌^◌, Bool, true, false, not, ◌&&◌, ◌||◌, Option, none, some, List, [],
  ◌++◌, ltb, leb, ◌==◌, if◌then◌else◌, length,
}
use ews.Utf8.{valid}
use ews.Codec.Opcode.{Opcode, text}
use ews.Codec.Header.{opcode, payload_len}
use ews.Ws.Errors.{Failure, message_too_large, invalid_utf8}
use ews.Ws.Receiver.{Receiver, message_is_open}
use ews.Ws.Receiver
use ews.Ws.Reader.{
  ReadError, protocol, handler, eof, Outcome, ok, failed, out_of_fuel, Step, again, ends, and_then,
  step_of, loop, Control, Reader, weight, fill, fail, next_frame,
}
use ews.Ws.Reader.Inflating.{Inflater, read_direct, decompress, inflate}

-- What the inner loop of `assemble` ends with: a message of one chunk, or a frame that was gathered.
pub data Gathered : Type 0 where
  whole : List ℕ → Gathered
  part : Gathered

abbrev pub too_large : ReadError
too_large = protocol (record { code = 1009; err = message_too_large })

abbrev pub bad_text : ReadError
bad_text = protocol (record { code = 1007; err = invalid_utf8 })

-- `uint64(c.limit-len(msg))`
abbrev pub allowance : ℕ → List ℕ → ℕ
allowance limit msg = (limit + 2 ^ 64 - length msg) % 2 ^ 64

module _ (K : Control) {S : Type 0} where
  abbrev pub with_msg :
      {A : Type 0} → List ℕ → Reader K.World S × Outcome A → (Reader K.World S × List ℕ) × Outcome A
  with_msg msg (c, o) = ((c, msg), o)

  -- `readInto`
  unfoldable pub read_into :
      ℕ → Reader K.World S × List ℕ → (Reader K.World S × List ℕ) × Outcome Unit
  unfolding read_direct
  read_into n (c, msg) =
      and_then (read_direct K n c) (λ body c. ((c, msg ++ body), ok tt)) (λ c. (c, msg))

  unfoldable pub gather_step :
      Reader K.World S × List ℕ
      → Receiver × List ℕ × Bool × Option Failure
      → (Reader K.World S × List ℕ) × Step Gathered
  unfolding read_into
  gather_step (c, msg) (rx, body, done, some f) =
      step_of (with_msg msg (fail K {A = Unit} (protocol f) (record c { rx = rx })))
  gather_step (c, msg) (rx, body, done, none) =
      let c' = record c { rx = rx } in
      if done && (length msg == 0 && not (message_is_open rx))
      then ((c', msg), ends (ok (whole body)))
      else if not (length body == 0) || done
      then ((c', msg ++ body), if done then ends (ok part) else again)
      else if leb c.buf rx.remaining
      then step_of (read_into rx.remaining (c', msg))
      else step_of (with_msg msg (fill c'))

  -- A round of the inner loop of `assemble`.
  unfoldable pub gather_round :
      Reader K.World S × List ℕ → (Reader K.World S × List ℕ) × Step Gathered
  unfolding gather_step
  gather_round (c, msg) = gather_step (c, msg) (Receiver.payload c.rx)

  unfoldable pub gather : Reader K.World S × List ℕ → (Reader K.World S × List ℕ) × Outcome Gathered
  unfolding gather_round
  gather (c, msg) = loop (suc (weight c)) gather_round (c, msg)

  -- What `assemble` does behind the inner loop.
  unfoldable pub after_gather :
      Gathered → Reader K.World S × List ℕ → (Reader K.World S × List ℕ) × Step (List ℕ)
  unfolding next_frame
  after_gather (whole body) (c, msg) = ((c, msg), ends (ok body))
  after_gather part (c, msg) =
      if not (message_is_open c.rx)
      then ((c, msg), ends (ok msg))
      else step_of (with_msg msg (next_frame K c))

  abbrev pub then_gathered :
      (Reader K.World S × List ℕ) × Outcome Gathered → (Reader K.World S × List ℕ) × Step (List ℕ)
  then_gathered (s, ok g) = after_gather g s
  then_gathered (s, failed e) = (s, ends (failed e))
  then_gathered (s, out_of_fuel) = (s, ends out_of_fuel)

  -- A round of the outer loop of `assemble`.
  unfoldable pub assemble_round :
      Reader K.World S × List ℕ → (Reader K.World S × List ℕ) × Step (List ℕ)
  unfolding fail gather after_gather
  assemble_round (c, msg) =
      if ltb (allowance c.limit msg) (payload_len c.rx.header)
      then step_of (with_msg msg (fail K {A = Unit} too_large c))
      else then_gathered (gather (c, msg))

  -- `assemble`
  unfoldable pub assemble : Reader K.World S → Reader K.World S × Outcome (List ℕ)
  unfolding assemble_round
  assemble c = let ((c', msg), o) = loop (suc (weight c)) assemble_round (c, []) in (c', o)

  unfoldable pub discard_step :
      Reader K.World S → Receiver × List ℕ × Bool × Option Failure → Reader K.World S × Step Unit
  unfolding next_frame
  discard_step c (rx, body, done, some f) =
      step_of (fail K {A = Unit} (protocol f) (record c { rx = rx }))
  discard_step c (rx, body, done, none) =
      let c' = record c { rx = rx } in
      if not done
      then (if length body == 0 then step_of (fill c') else (c', again))
      else if not (message_is_open rx)
      then (record c' { in_message = false }, ends (ok tt))
      else step_of (next_frame K c')

  -- A round of the loop of `discard`.
  unfoldable pub discard_round : Reader K.World S → Reader K.World S × Step Unit
  unfolding discard_step
  discard_round c =
      if not c.in_message then (c, ends (ok tt)) else discard_step c (Receiver.payload c.rx)

  -- `discard` of a message that is not inflated.
  unfoldable pub discard_plain : Reader K.World S → Reader K.World S × Outcome Unit
  unfolding discard_round
  discard_plain c = loop (suc (weight c)) discard_round (record c { streaming = false })

module _ (K : Control) (I : Inflater) where
  abbrev drained : Reader K.World I.Stream × Outcome (List ℕ) → Reader K.World I.Stream × Step Unit
  drained (c, ok s) = (c, again)
  drained (c, failed eof) = (c, ends (ok tt))
  drained (c, failed e) = (c, ends (failed e))
  drained (c, out_of_fuel) = (c, ends out_of_fuel)

  unfoldable pub drain_round : Reader K.World I.Stream → Reader K.World I.Stream × Step Unit
  unfolding inflate
  drain_round c = drained (inflate K I c.fragment_size c)

  -- `discard`; `fuel` is for the pieces that are inflated.
  unfoldable pub discard : ℕ → Reader K.World I.Stream → Reader K.World I.Stream × Outcome Unit
  unfolding drain_round discard_plain
  discard fuel c =
      if c.in_message && (c.rx.compressed && c.takeover)
      then and_then (loop fuel drain_round c) (λ _ c. discard_plain K c) (λ c. c)
      else discard_plain K c

  -- `NextMessage` behind the check of `readErr`.
  unfoldable pub start_message :
      ℕ → Reader K.World I.Stream → Reader K.World I.Stream × Outcome Opcode
  unfolding discard next_frame
  start_message fuel c =
      and_then (discard fuel c)
        (λ _ c.
          and_then (next_frame K (record c { stream = I.release c.stream }))
            (λ _ c. (record c { in_message = true }, ok (opcode c.rx.header))) (λ c. c))
        (λ c. c)

  -- `NextMessage`
  unfoldable pub next_message :
      ℕ → Reader K.World I.Stream → Reader K.World I.Stream × Outcome Opcode
  unfolding start_message
  next_message fuel c = elim c.read_err [ some e ↦ (c, failed e) | none ↦ start_message fuel c ]

  -- The check of the text in `finishMessage`.
  unfoldable pub check_text :
      Opcode
      → List ℕ
      → Reader K.World I.Stream
      → Reader K.World I.Stream × Outcome (Opcode × List ℕ)
  unfolding fail
  check_text op payload c =
      if op == text && (c.validate_utf8 && not (valid payload))
      then fail K bad_text c
      else (c, ok (op, payload))

  -- `finishMessage`
  unfoldable pub finish_message :
      Opcode
      → List ℕ
      → Reader K.World I.Stream
      → Reader K.World I.Stream × Outcome (Opcode × List ℕ)
  unfolding check_text decompress
  finish_message op payload c =
      let c' = record c { in_message = false } in
      if c.rx.compressed
      then and_then (decompress K I payload c') (check_text op) (λ c. c)
      else check_text op payload c'

  -- `ReadMessage`
  unfoldable pub read_message :
      ℕ → Reader K.World I.Stream → Reader K.World I.Stream × Outcome (Opcode × List ℕ)
  unfolding next_message assemble finish_message
  read_message fuel c =
      and_then (next_message fuel c) (λ op c. and_then (assemble K c) (finish_message op) (λ c. c))
        (λ c. c)

  module _ (on_message : Opcode → List ℕ → K.World → K.World × Option ℕ) where
    abbrev pub answered :
        Reader K.World I.Stream → K.World × Option ℕ → Reader K.World I.Stream × Step Unit
    answered c (w, none) = (record c { world = w }, again)
    answered c (w, some e) = (record c { world = w }, ends (failed (handler e)))

    -- A round of `Serve`, after the read.
    unfoldable pub handled :
        Reader K.World I.Stream × Outcome (Opcode × List ℕ) → Reader K.World I.Stream × Step Unit
    handled (c, ok (op, payload)) = answered c (on_message op payload c.world)
    handled (c, failed e) = (c, ends (failed e))
    handled (c, out_of_fuel) = (c, ends out_of_fuel)

    -- `Serve`
    unfoldable pub serve : ℕ → Reader K.World I.Stream → Reader K.World I.Stream × Outcome Unit
    unfolding handled read_message
    serve fuel c = loop (suc (weight c)) (λ c. handled (read_message fuel c)) c
