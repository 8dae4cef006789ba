-- ===== src/Handshake/Negotiation.antt =====
-- handshake/server.go and handshake/client.go
pub mod Agreement
pub mod Acceptance
use ews.Common.{
  ℕ, Bool, true, false, not, ◌&&◌, ◌||◌, Option, none, some, List, [], ◌∷◌, ◌++◌, ◌==◌,
  if◌then◌else◌, length,
}
use ews.Common.Text.{Text, codes, equal_fold, same, join}
use ews.Handshake.Types.{
  HandshakeError, not_web_socket, bad_version, bad_key, bad_extension, bad_accept, bad_status,
  bad_protocol, Checked, ok, refused, version, Compress, Options, Compression, Agreed, Request,
  Response, Digest, accept, new_key, valid_key, has_token, valid_options,
}
use ews.Handshake.Extension.{
  Extension, DeflateParams, deflate_name, parse_extensions, parse_deflate, format_deflate, is_empty,
}

abbrev pub websocket : Text
websocket = codes "websocket"

abbrev pub upgrade_token : Text
upgrade_token = codes "Upgrade"

-- What the server takes from an offer.
unfoldable pub server_compression : Compress → DeflateParams → Compression
server_compression c p = record {
  level = c.level;
  min_size = c.min_size;
  send_context_takeover = c.context_takeover && not p.server_no_context_takeover;
  receive_context_takeover = c.context_takeover && not p.client_no_context_takeover;
  send_window_bits = p.server_max_window_bits;
  receive_window_bits = p.client_max_window_bits;
}

-- The loop of `Negotiate` over the offers: the first that the server can honour.
unfoldable pub choose_offer : Compress → List Extension → Option Compression
unfolding server_compression
choose_offer c [] = none
choose_offer c (e ∷ es) =
    let rest = choose_offer c es in
    if not (equal_fold e.name deflate_name)
    then rest
    else elim (parse_deflate e) [ none ↦ rest | some p ↦ some (server_compression c p) ]

-- The extension part of `Negotiate`.
unfoldable pub negotiate_compression : Option Compress → Text → Checked (Option Compression)
negotiate_compression none extensions = ok none
negotiate_compression (some c) extensions = elim (parse_extensions extensions) [
  | none ↦ refused bad_extension
  | some exts ↦ ok (choose_offer c exts)
]

-- `selectProtocol`
unfoldable pub select_protocol : Text → List Text → Text
select_protocol requested [] = []
select_protocol requested (s ∷ supported) =
    if has_token requested s then s else select_protocol requested supported

-- The value of `resp.Extensions`.
unfoldable pub response_extensions : Option Compression → Text
response_extensions none = []
response_extensions (some c) = format_deflate c

-- The checks of `Negotiate` before it answers; `none` is no error.
unfoldable pub check_request : Digest → Request → Options → Option HandshakeError
check_request digest req opts = elim (valid_options opts) [
  | some err ↦ some err
  | none ↦
      if not (same req.method (codes "GET"))
        || (not (has_token req.upgrade websocket) || not (has_token req.connection upgrade_token))
      then some not_web_socket
      else if not (same req.version version)
      then some bad_version
      else if not (valid_key digest req.key)
      then some bad_key
      else none
]

-- `Negotiate`
unfoldable pub negotiate : Digest → Request → Options → Checked (Response × Agreed)
negotiate digest req opts = elim (check_request digest req opts) [
  | some err ↦ refused err
  | none ↦ elim (negotiate_compression opts.compression req.extensions) [
    | refused err ↦ refused err
    | ok compression ↦
        let protocol = select_protocol req.protocols opts.protocols in
        ok (
          record {
            status = 101;
            upgrade = websocket;
            connection = upgrade_token;
            accept = accept digest req.key;
            extensions = response_extensions compression;
            protocol = protocol;
          },
          record { compression = compression; protocol = protocol },
        )
  ]
]

-- What `NewRequest` offers.
unfoldable pub offer : Option Compress → Text
offer none = []
offer (some c) =
    (deflate_name ++ codes "; client_max_window_bits")
    ++ (if not c.context_takeover
        then codes "; client_no_context_takeover; server_no_context_takeover"
        else [])

-- `NewRequest`
unfoldable pub new_request : Digest → Text → Options → Checked Request
new_request digest random opts = elim (valid_options opts) [
  | some err ↦ refused err
  | none ↦ ok (record {
    method = codes "GET";
    upgrade = websocket;
    connection = upgrade_token;
    version = version;
    key = new_key digest random;
    extensions = offer opts.compression;
    protocols = join opts.protocols (codes ", ");
  })
]

-- What the client takes from the server's answer.
unfoldable pub client_compression : Compress → DeflateParams → Compression
client_compression c p = record {
  level = c.level;
  min_size = c.min_size;
  send_context_takeover = c.context_takeover && not p.client_no_context_takeover;
  receive_context_takeover = c.context_takeover && not p.server_no_context_takeover;
  send_window_bits = p.client_max_window_bits;
  receive_window_bits = p.server_max_window_bits;
}

-- The extension part of `Confirm`, by the number of extensions in the response.
unfoldable pub confirm_extensions : Option Compress → List Extension → Checked (Option Compression)
unfolding client_compression
confirm_extensions compression [] = ok none
confirm_extensions none (e ∷ es) = refused bad_extension
confirm_extensions (some c) (e ∷ e' ∷ es) = refused bad_extension
confirm_extensions (some c) (e ∷ []) =
    if not (equal_fold e.name deflate_name) then refused bad_extension else elim (parse_deflate e) [
      | none ↦ refused bad_extension
      | some p ↦ ok (some (client_compression c p))
    ]

-- The checks of `Confirm` before the extensions.
unfoldable pub check_response : Digest → Request → Response → Option HandshakeError
check_response digest req resp =
    if not (resp.status == 101)
    then some bad_status
    else if not (has_token resp.upgrade websocket) || not (has_token resp.connection upgrade_token)
    then some not_web_socket
    else if not (same resp.accept (accept digest req.key))
    then some bad_accept
    else if not (is_empty resp.protocol) && not (has_token req.protocols resp.protocol)
    then some bad_protocol
    else none

-- `Confirm`
unfoldable pub confirm : Digest → Request → Response → Options → Checked Agreed
confirm digest req resp opts = elim (check_response digest req resp) [
  | some err ↦ refused err
  | none ↦ elim (parse_extensions resp.extensions) [
    | none ↦ refused bad_extension
    | some exts ↦ elim (confirm_extensions opts.compression exts) [
      | refused err ↦ refused err
      | ok compression ↦ ok (record { compression = compression; protocol = resp.protocol })
    ]
  ]
]
