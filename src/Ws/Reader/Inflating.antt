-- ===== src/Ws/Reader/Inflating.antt =====
-- ws/conn_read.go and ws/conn_compress.go: payload read past the read buffer, and compressed
-- messages. The decompressor is a parameter.
use ews.Common.{
  ℕ, suc, ◌+◌, Bool, true, false, not, Option, none, some, List, ◌==◌, if◌then◌else◌, length,
}
use ews.Ws.Errors.{Failure, message_too_large, invalid_data}
use ews.Ws.Receiver.{Receiver, message_is_open}
use ews.Ws.Receiver
use ews.Ws.Reader.{
  ReadError, protocol, eof, Outcome, ok, failed, out_of_fuel, Step, again, ends, and_then, step_of,
  loop, Control, Reader, weight, read, fill, ended, fail, next_frame,
}

-- What `Decompress` returns: the message, `ErrMessageTooLarge` or another error.
pub data Inflated : Type 0 where
  inflated : List ℕ → Inflated
  too_large bad_data : Inflated

-- What `Read` of a decompressor does next: it asks `NextChunk`, or it returns bytes, `io.EOF`, the
-- error of the source, or one of its own.
pub data Pull : Type 0 where
  wants : Pull
  yields : List ℕ → Pull
  stops breaks corrupt : Pull

-- What `NextChunk` returns: a chunk, `io.EOF` or another error.
pub data Supply : Type 0 where
  chunk : List ℕ → Supply
  finished broken : Supply

-- A decompressor on its window.
pub record Inflater : Type 1 where
  pub Stream : Type 0
  pub release : Stream → Stream
  pub decompress : List ℕ → ℕ → Stream → Stream × Inflated
  pub begin : Stream → Stream × Bool
  pub pull : ℕ → Stream → Stream × Pull
  pub supply : Supply → Stream → Stream

abbrev bad_message : ReadError
bad_message = protocol (record { code = 1007; err = invalid_data })

module _ (K : Control) {S : Type 0} where
  abbrev pub direct :
      Reader K.World S
      → Receiver × List ℕ × Bool × Option Failure
      → Reader K.World S × Outcome (List ℕ)
  direct c (rx, body, done, none) = (record c { rx = rx }, ok body)
  direct c (rx, body, done, some f) = fail K (protocol f) (record c { rx = rx })

  -- The end of `readDirect` and `readInto`, with what was read.
  unfoldable pub take_direct : List ℕ → Reader K.World S → Reader K.World S × Outcome (List ℕ)
  take_direct s c = direct c (Receiver.payload_n (length s) (Receiver.feed s c.rx))

  -- `readDirect`
  unfoldable pub read_direct : ℕ → Reader K.World S → Reader K.World S × Outcome (List ℕ)
  unfolding take_direct read
  read_direct n c = and_then (read n c) take_direct (λ c. c)

  unfoldable pub chunk_step :
      Reader K.World S
      → Receiver × List ℕ × Bool × Option Failure
      → Reader K.World S × Step (List ℕ)
  unfolding next_frame
  chunk_step c (rx, body, done, some f) =
      step_of (fail K {A = Unit} (protocol f) (record c { rx = rx }))
  chunk_step c (rx, body, done, none) =
      let c' = record c { rx = rx } in
      if not (length body == 0)
      then (c', ends (ok body))
      else if not done
      then step_of (fill c')
      else if not (message_is_open rx)
      then (c', ends (failed eof))
      else step_of (next_frame K c')

  -- A round of `nextChunk`.
  unfoldable pub next_chunk_round : Reader K.World S → Reader K.World S × Step (List ℕ)
  unfolding chunk_step
  next_chunk_round c = chunk_step c (Receiver.payload c.rx)

  -- `nextChunk`
  unfoldable pub next_chunk : Reader K.World S → Reader K.World S × Outcome (List ℕ)
  unfolding next_chunk_round
  next_chunk c = loop (suc (weight c)) next_chunk_round c

module _ (K : Control) (I : Inflater) where
  abbrev pub decompressed :
      Reader K.World I.Stream → I.Stream × Inflated → Reader K.World I.Stream × Outcome (List ℕ)
  decompressed c (z, inflated s) = (record c { stream = z }, ok s)
  decompressed c (z, too_large) =
      fail K (protocol (record { code = 1009; err = message_too_large })) (record c { stream = z })
  decompressed c (z, bad_data) = fail K bad_message (record c { stream = z })

  -- `decompress`
  unfoldable pub decompress :
      List ℕ → Reader K.World I.Stream → Reader K.World I.Stream × Outcome (List ℕ)
  decompress payload c = decompressed c (I.decompress payload c.limit c.stream)

  -- `chunkSource.NextChunk`, back in the decompressor.
  abbrev supplied :
      Reader K.World I.Stream × Outcome (List ℕ) → Reader K.World I.Stream × Step (List ℕ)
  supplied (c, ok s) = (record c { stream = I.supply (chunk s) c.stream }, again)
  supplied (c, failed eof) = (record c { stream = I.supply finished c.stream }, again)
  supplied (c, failed e) = (record c { stream = I.supply broken c.stream; src_err = some e }, again)
  supplied (c, out_of_fuel) = (c, ends out_of_fuel)

  -- The errors in the switch of `inflate`; `from_source` is the one that the source has raised.
  unfoldable pub inflate_failed :
      Option ReadError → Reader K.World I.Stream → Reader K.World I.Stream × Outcome (List ℕ)
  unfolding fail
  inflate_failed from_source c = elim c.read_err [
    | some e ↦ (c, failed e)
    | none ↦ elim from_source [ some e ↦ (ended K e c, failed e) | none ↦ fail K bad_message c ]
  ]

  abbrev stopped :
      Reader K.World I.Stream × Outcome (List ℕ) → Reader K.World I.Stream × Step (List ℕ)
  stopped (c, o) = (c, ends o)

  -- `d.Read(b)` up to its next call of the source, and the switch behind it.
  unfoldable pub inflate_round :
      ℕ → Reader K.World I.Stream → Reader K.World I.Stream × Step (List ℕ)
  unfolding next_chunk inflate_failed
  inflate_round n c =
      let (z, p) = I.pull n c.stream in
      let c' = record c { stream = z } in
      elim p [
        | wants ↦ supplied (next_chunk K c')
        | yields s ↦ (c', ends (ok s))
        | stops ↦ (record c' { streaming = false; in_message = false }, ends (failed eof))
        | breaks ↦ stopped (inflate_failed c'.src_err c')
        | corrupt ↦ stopped (inflate_failed none c')
      ]

  -- `inflate`; two rounds more than there can be chunks.
  unfoldable pub inflate : ℕ → Reader K.World I.Stream → Reader K.World I.Stream × Outcome (List ℕ)
  unfolding inflate_round fail
  inflate n c =
      if c.streaming
      then loop (weight c + 3) (inflate_round n) c
      else (let (z, bad) = I.begin c.stream in
          let c' = record c { stream = z } in
          if bad
          then fail K bad_message c'
          else loop (weight c + 3) (inflate_round n) (record c' { streaming = true }))
