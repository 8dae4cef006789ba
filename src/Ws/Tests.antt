-- ===== src/Ws/Tests.antt =====
-- Runs of a sender and of a receiver on concrete frames.
use ews.Common.{ℕ, ◌≤◌, ◌≡◌, ◌≢◌, refl, inl, true, false, none, some, List, [], ◌∷◌, ◌++◌, arith}
use ews.Common.Words.{IsBytes}
use ews.Codec.Opcode.{text, close, is_control, pong, is_data}
use ews.Codec.Mask.{MaskKey}
use ews.Codec.Mask.Reference.{IsKey}
use ews.Codec.Header.{zero_header}
use ews.Codec.Encoder.{Encoder, check_frame, header_bytes, payload_bytes}
use ews.Codec.Encoder
use ews.Ws.Errors.{server, client, protocol}
use ews.Ws.Sender.{Sender, Encoded, frame, encode_frame}
use ews.Ws.Sender
use ews.Ws.Receiver.{Receiver, failure, need_input, init, feed, next, payload_n}
use ews.Ws.Receiver.Frames.{IsReady}
use ews.Ws.Receiver.Delivery.{Delivers}
use ews.Ws.Receiver.Invariant.{IsValid}
use ews.Ws.Receiver.Life.{start, then_call, fed, stepped, Calls-IsValid, Calls-failed}
use ews.Ws.Interop.{receive-send}
use ews.Common.Words.{put_be, be_word}
use ews.Codec.RoundTrip.{unmask}
use ews.Utf8.Standard.{std_valid}
use ews.Ws.Close.{validate_close, parse_close}
use ews.Ws.Sender.{encode_checked, check_message}
use ews.Ws.CloseCode.{parse_close-encode_close}
use ews.Ws.Closing.{whole, closed, perform, is_frame, close_frames, perform-closed, close_frames-le}

abbrev hello : List ℕ
hello = 72 ∷ 101 ∷ 108 ∷ 108 ∷ 111 ∷ []

abbrev key : MaskKey
key = record { k0 = 55; k1 = 250; k2 = 33; k3 = 61 }

hello-IsBytes : IsBytes hello
hello-IsBytes = ground arith

key-IsKey : IsKey key
key-IsKey = ground arith

abbrev speaker : Sender
speaker = record {
  role = client;
  enc = record { h = zero_header; payload = []; scratch = [] };
  close_sent = false;
}

abbrev encoded : Encoder
encoded = (Encoder.encode true text hello (some key) speaker.enc).0

abbrev spoken : Sender
spoken = record speaker { enc = encoded }

abbrev listener : Receiver
listener = record {
  role = server;
  compression = false;
  dec = record {
    pending = header_bytes encoded ++ (payload_bytes encoded ++ hello);
    scratch = [];
    remaining = 0;
  };
  header = zero_header;
  remaining = 0;
  masked_frame = false;
  frame_key = key;
  mask_offset = 0;
  message_opcode = 0;
  compressed = false;
  control = [];
  control_len = 0;
  control_opcode = 0;
  control_open = false;
  close_received = false;
  failed = none;
}

listener-IsReady : IsReady listener
listener-IsReady = record {
  not_failed = refl;
  not_closed = refl;
  no_control = refl;
  no_data = refl;
  drained = refl;
}

sent :
    encode_frame key text true hello false speaker
    ≡ (spoken, frame (header_bytes encoded) (payload_bytes encoded))
unfolding encode_frame Sender.finish_frame Encoder.encode check_frame is_data
sent = refl

receive-send_example : Delivers listener text true hello hello
receive-send_example =
    receive-send key text true hello speaker spoken (header_bytes encoded) (payload_bytes encoded)
      hello listener sent hello-IsBytes key-IsKey (omega arith) refl listener-IsReady
      (inl (inl refl, refl)) refl

Calls-IsValid_example : IsValid (next (feed hello (init server true listener))).0
Calls-IsValid_example =
    Calls-IsValid server true listener (next (feed hello (init server true listener))).0 (
      then_call (then_call start (fed hello (init server true listener)))
        (stepped (feed hello (init server true listener))))

abbrev broken : Receiver
broken = record listener { failed = some (record { code = 1002; err = protocol }) }

Calls-failed_example :
    ((feed hello broken).failed ≡ some (record { code = 1002; err = protocol }))
    × (next (feed hello broken)
        ≡ (feed hello broken, need_input, some (failure (record { code = 1002; err = protocol }))))
    × (payload_n 4 (feed hello broken)
        ≡ (feed hello broken, [], false, some (record { code = 1002; err = protocol })))
Calls-failed_example =
    Calls-failed broken (feed hello broken) (record { code = 1002; err = protocol }) 4 refl
      (then_call start (fed hello broken))

close_frames-le_example :
    close_frames (whole key text hello ∷ closed key 1000 hello ∷ closed key 1000 [] ∷ []) speaker
    ≤ 1
close_frames-le_example =
    close_frames-le (whole key text hello ∷ closed key 1000 hello ∷ closed key 1000 [] ∷ []) speaker

abbrev silent : Sender
silent = record speaker { close_sent = true }

perform-closed_example :
    ((perform (whole key text hello) silent).0.close_sent ≡ true)
    × (text ≢ pong
        → ((perform (whole key text hello) silent).0 ≡ silent)
          × (is_frame (perform (whole key text hello) silent).1 ≡ false))
perform-closed_example = perform-closed (whole key text hello) silent refl

abbrev farewell : Encoder
farewell = (Encoder.encode true close (put_be 2 1000 ++ hello) (some key) speaker.enc).0

abbrev departed : Sender
departed = record speaker { enc = farewell; close_sent = true }

closing_frame :
    Sender.encode_close key 1000 hello speaker
    ≡ (departed, frame (header_bytes farewell) (payload_bytes farewell))
unfolding Sender.encode_close Sender.encode encode_checked check_message validate_close std_valid
    encode_frame Sender.finish_frame Encoder.encode check_frame is_data is_control put_be be_word
closing_frame = refl

parse_close-encode_close_example :
    (validate_close (unmask (some key) (payload_bytes farewell)) ≡ none)
    × (parse_close (unmask (some key) (payload_bytes farewell)) ≡ (1000, hello))
parse_close-encode_close_example =
    parse_close-encode_close key 1000 hello speaker departed (header_bytes farewell)
      (payload_bytes farewell) closing_frame (omega arith) hello-IsBytes key-IsKey
