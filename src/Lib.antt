-- ===== src/Lib.antt =====
-- The core of ews, a WebSocket library (RFC 6455): frames in bytes, UTF-8 validation, the two frame
-- state machines of a connection, its reads, its writes and their queue, compression, the buffer pool,
-- and the handshake.
--
-- Bytes and machine words are natural numbers; a conversion or a shift that can wrap around has its
-- `% 2 ^ w` written out. A slice is the list of its bytes, a method of a pointer takes the value and
-- gives the new one back, and an error is a constructor. A loop is structural recursion, on fuel
-- where the source counts an index up: the fuel is the number of bytes that are left, which every
-- round makes smaller, so it is enough, and the theorems on a whole function hold without a
-- hypothesis on it.
--
-- Common: the tests, the laws of slices, bits and words that the other modules share.
--
-- Codec (codec/): Codec/Mask.antt has the three builds of `mask` (mask_swar.go, mask_swar_generic.go
--   and mask_simd.go) and `Mask`; Codec/Opcode.antt and Codec/Header.antt the header (opcode.go,
--   header.go); Codec/Decoder.antt and Codec/Encoder.antt the operations of decoder.go and
--   encoder.go under their names. Codec/Mask/Reference.antt is masking byte by byte, Codec/Wire.antt
--   the wire format of a header: the specifications of the two. Which buffer a slice borrows, its
--   capacity, and `ScratchKeep` are not modelled.
--
-- Utf8 (internal/utf8/): Utf8.antt is ascii.go and valid_swar.go, the table of the automaton
--   included. Utf8/Standard.antt describes what the standard library's `utf8.Valid` decides, which
--   `Valid` calls on short input; Utf8/Scalars.antt is the encoding of scalar values, the
--   specification. valid_simd.go is not modelled.
--
-- Ws (ws/): Ws/Errors.antt and Ws/Close.antt (errors.go, close.go); Ws/Receiver.antt is receiver.go,
--   with `Next`'s loop as its two rounds; Ws/Sender.antt is sender.go, where the random key is an
--   argument. The receiver drives the decoder, the sender the encoder, and Ws/Interop.antt puts the
--   two ends of a connection together. Ws/Receiver/Life.antt and Ws/Closing.antt are about whole
--   sequences of calls, Ws/CloseCode.antt about what a close frame carries.
--
--   Ws/Queue.antt has the critical sections of queue.go, Ws/Queue/System.antt puts them together: any
--   number of senders, the writer's goroutine and a transport that may fail, in any order. Sequence
--   numbers are modulo 2^64. Ws/PreparedHistory.antt is the part of conn_compress.go that defers the
--   copying of prepared payloads into the window, and conn_write.go's use of it.
--
--   Ws/Writer.antt is conn_write.go: the messages, fragments and control frames of a connection,
--   over the sender. Its compressor is a parameter, `Deflater`, whose one assumption is that it
--   never fails; whether the transport or the queue takes a frame is an argument. The order in
--   which a queue's frames and those that bypass it reach the transport is not modelled there.
--   Ws/Prepared.antt is prepared.go up to the choice of a frame, Ws/Config.antt the check of
--   conn.go on negotiated parameters and the choice of a compressor's pool by them.
--
--   Ws/Reader.antt is conn_read.go and control.go: the transport is the list of what its reads
--   will give, EOF behind it, and the control handlers are a record of functions on a state of
--   theirs, `Control`. As the reads are finitely many, an input that never ends, of pings say, has
--   no model. Ws/Reader/Inflating.antt is the inflating in conn_compress.go over a
--   decompressor that is a parameter, `Inflater`, Ws/Reader/Messages.antt whole messages and
--   `Serve` (serve.go). Text is checked by Utf8.antt's `valid`, the build without SIMD, where
--   close.go calls unicode/utf8. The loops run on fuel from `weight`, an upper bound on the reads
--   and bytes that are still to come; the rules of Ws/Reader/Rules.antt show of each that it
--   returns. Only the draining of a message that is inflated has its fuel as an argument, since
--   nothing bounds what a decompressor yields. Ws/Reader/Delivering.antt has a message's frames
--   as RFC 6455 writes them, Ws/Reader/Arriving.antt what reads make of them.
--
-- Deflate (deflate/): Deflate/Window.antt is window.go. How Go's runtime grows a slice is a parameter
--   of the definitions that append, and no theorem assumes anything of it. Deflate/Compressor.antt is
--   compressor.go on a store of windows, where the flate package's writer is a parameter with three
--   named laws on what its matches may refer to. The decompressor is not modelled.
--
-- Handshake (handshake/): Handshake/Types.antt is handshake.go, Handshake/Extension.antt extension.go,
--   Handshake/Negotiation.antt server.go and client.go. SHA-1 and base64 are a parameter, `Digest`,
--   and the random bytes of a key an argument. What is used of Go's packages strings and strconv is
--   in Common/Text.antt, on ASCII text: the Unicode spaces and case pairs beyond ASCII are left out.
--
-- Bufpool (internal/bufpool/): Bufpool.antt is bufpool.go, with the choice of each sync.Pool as
--   an argument; an index that the array of classes does not have is the result `none`.
--   Bufpool/Classes.antt is about size classes, Bufpool/Pools.antt about what they hold.
--
-- Not modelled: Read and WriteTo of ws/conn_read.go, the default handler of ws/control.go, and the rest
-- of ws/conn*.go (WritePrepared and WriteFrom among it), the buffers that a message is gathered in,
-- the closeBuf of ws/sender.go, the sending of prepared messages, the decompressor, and the packages
-- that are input and output (transport, events, ws/netconn.go).
pub mod Common
pub mod Codec
pub mod Utf8
pub mod Ws
pub mod Deflate
pub mod Handshake
pub mod Bufpool
