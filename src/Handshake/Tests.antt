-- ===== src/Handshake/Tests.antt =====
-- A handshake on concrete text. The digest of the tests copies its input, which base64 and SHA-1 do
-- not.
use ews.Common.{◌≡◌, ◌⊎◌, refl, inr, true, false, none, some, [], ◌∷◌, ◌++◌, arith}
use ews.Common.Int.{pos, negsuc}
use ews.Common.Text.{
  Text, codes, split, cut, trim, trim_space, trim_byte, drop_while, to_lower, same, equal_fold,
  itoa, atoi,
}
use ews.Handshake.Types.{
  Digest, Options, Compression, Agreed, Request, Response, ok, accept, valid_key, has_token,
  valid_options,
}
use ews.Handshake.Extension.{is_empty, parse_extensions, parse_deflate, format_deflate}
use ews.Handshake.Extension.Format.{Holds, answered, parse_deflate-format_deflate}
use ews.Handshake.Negotiation.{
  negotiate, confirm, check_request, check_response, negotiate_compression, choose_offer,
  server_compression, response_extensions, select_protocol, confirm_extensions, client_compression,
}
use ews.Ws.Config.Agreed.{Takes, negotiate-Takes, confirm-Takes}
use ews.Handshake.Negotiation.Agreement.{Agrees, negotiate-confirm}
use ews.Handshake.Negotiation.Acceptance.{
  IsUpgrade, IsOffered, negotiate-accepted, confirm-accepted,
}

abbrev plain : Digest
plain = record { sha1 = λ t. t; encode = λ t. t; decode = λ t. some t }

abbrev random : Text
random = codes "0123456789abcdef"

abbrev chat : Options
chat = record {
  compression = some (record { level = negsuc 0; min_size = pos 64; context_takeover = true });
  protocols = codes "soap" ∷ codes "chat" ∷ [];
}

abbrev quiet : Options
quiet = record {
  compression = some (record { level = pos 6; min_size = pos 0; context_takeover = false });
  protocols = codes "chat" ∷ [];
}

abbrev sample : Compression
sample = record {
  level = pos 6;
  min_size = pos 0;
  send_context_takeover = false;
  receive_context_takeover = true;
  send_window_bits = 10;
  receive_window_bits = 15;
}

parse_deflate-format_deflate_example :
    Holds (parse_extensions (format_deflate sample)) (answered sample)
parse_deflate-format_deflate_example =
    parse_deflate-format_deflate sample (inr (ground arith, ground arith))

negotiate-confirm_example : Agrees plain random chat quiet
negotiate-confirm_example =
    negotiate-confirm plain random chat quiet refl refl (unfold valid_options in refl)
      (unfold valid_options in refl)

abbrev asked : Request
asked = record {
  method = codes "GET";
  upgrade = codes "websocket";
  connection = codes "keep-alive, Upgrade";
  version = codes "13";
  key = random;
  extensions = codes "permessage-deflate; client_max_window_bits=12";
  protocols = codes "mqtt, chat";
}

abbrev agreed : Agreed
agreed = record {
  compression = some (record {
    level = pos 6;
    min_size = pos 0;
    send_context_takeover = false;
    receive_context_takeover = false;
    send_window_bits = 0;
    receive_window_bits = 12;
  });
  protocol = codes "chat";
}

abbrev answer : Response
answer = record {
  status = 101;
  upgrade = codes "websocket";
  connection = codes "Upgrade";
  accept = random ++ codes "258EAFA5-E914-47DA-95CA-C5AB0DC85B11";
  extensions = codes "permessage-deflate; server_no_context_takeover; client_no_context_takeover";
  protocol = codes "chat";
}

asked-answered : negotiate plain asked quiet ≡ ok (answer, agreed)
unfolding negotiate check_request valid_options valid_key has_token negotiate_compression
    choose_offer server_compression response_extensions select_protocol accept parse_extensions
    parse_deflate format_deflate split cut trim_space trim_byte trim drop_while to_lower same
    equal_fold itoa atoi
asked-answered = refl

negotiate-accepted_example :
    IsUpgrade plain asked
    × (valid_options quiet ≡ none)
    × (answer.status ≡ 101)
    × (answer.accept ≡ accept plain asked.key)
    × (answer.protocol ≡ agreed.protocol)
    × IsOffered asked.protocols quiet.protocols agreed.protocol
negotiate-accepted_example = negotiate-accepted plain asked quiet answer agreed asked-answered

abbrev settled : Agreed
settled = record {
  compression = some (record {
    level = pos 6;
    min_size = pos 0;
    send_context_takeover = false;
    receive_context_takeover = false;
    send_window_bits = 0;
    receive_window_bits = 0;
  });
  protocol = codes "chat";
}

answer-confirmed : confirm plain asked answer quiet ≡ ok settled
unfolding confirm check_response has_token confirm_extensions client_compression accept
    parse_extensions parse_deflate split cut trim_space trim_byte trim drop_while to_lower same
    equal_fold itoa atoi
answer-confirmed = refl

confirm-accepted_example :
    (answer.status ≡ 101)
    × (has_token answer.upgrade (codes "websocket") ≡ true)
    × (has_token answer.connection (codes "Upgrade") ≡ true)
    × (answer.accept ≡ accept plain asked.key)
    × (settled.protocol ≡ answer.protocol)
    × ((is_empty answer.protocol ≡ true) ⊎ (has_token asked.protocols answer.protocol ≡ true))
    × (quiet.compression ≡ none → settled.compression ≡ none)
confirm-accepted_example = confirm-accepted plain asked answer quiet settled answer-confirmed

abbrev served : Compression
served = record {
  level = pos 6;
  min_size = pos 0;
  send_context_takeover = false;
  receive_context_takeover = false;
  send_window_bits = 0;
  receive_window_bits = 12;
}

negotiate-Takes_example : Takes served
negotiate-Takes_example = negotiate-Takes plain asked quiet answer agreed served asked-answered refl

abbrev used : Compression
used = record served { receive_window_bits = 0 }

quiet-valid_options : valid_options quiet ≡ none
unfolding valid_options
quiet-valid_options = refl

confirm-Takes_example : Takes used
confirm-Takes_example =
    confirm-Takes plain asked answer quiet settled used quiet-valid_options answer-confirmed refl
