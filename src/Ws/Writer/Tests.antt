-- ===== src/Ws/Writer/Tests.antt =====
-- A fragmented message with a ping inside, then a close frame, over a compressor that copies.
use ews.Common.{ℕ, refl, true, false, some, List, [], ◌∷◌}
use ews.Common.Int.{pos}
use ews.Codec.Opcode.{text}
use ews.Codec.Mask.{MaskKey}
use ews.Handshake.Types.{Compression}
use ews.Ws.Errors.{client}
use ews.Ws.Writer.{Deflater, new_writer}
use ews.Ws.Writer.Stage.{idle}
use ews.Ws.Writer.Steps.{Total}
use ews.Ws.Writer.Sequence.{
  Call, message, begins, chunk, ends, pings, closes, run, Legal, run-Legal,
}

abbrev copying : Deflater
copying = record {
  Stream = ℕ;
  fresh = 0;
  chunk = λ payload w final k. (k, (w, some payload));
  grow = λ cap n. n;
}

copying-Total : Total copying
copying-Total payload w final k = refl

abbrev key : MaskKey
key = record { k0 = 55; k1 = 250; k2 = 33; k3 = 61 }

abbrev agreed : Compression
agreed = record {
  level = pos 6;
  min_size = pos 0;
  send_context_takeover = true;
  receive_context_takeover = false;
  send_window_bits = 0;
  receive_window_bits = 15;
}

abbrev calls : List Call
calls =
    begins text
    ∷ chunk key (72 ∷ [])
    ∷ pings key (1 ∷ 2 ∷ [])
    ∷ message key text (73 ∷ [])
    ∷ ends key
    ∷ closes key 1000 []
    ∷ []

run-Legal_example :
    Legal client true idle (run copying calls (new_writer client (some agreed) false))
run-Legal_example = run-Legal copying client (some agreed) false calls copying-Total
