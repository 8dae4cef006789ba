-- ===== src/Handshake/Negotiation/Agreement.antt =====
-- A client and a server of this package with each other.
use ews.Common.{
  ℕ, ◌≡◌, refl, Bool, false, not, ◌&&◌, Option, none, some, List, [], ◌∷◌, ◌==◌, if◌then◌else◌,
  length, arith, Bool-cases, inl, inr,
}
use ews.Common.Text.{
  join, Text, codes, equal_fold, same, same_refl, split, cut, trim, trim_space, trim_byte,
  drop_while, to_lower,
}
use ews.Handshake.Types.{
  version, ok, Compress, Options, Compression, Agreed, Request, Response, Digest, accept, new_key,
  valid_key, has_token, valid_options,
}
use ews.Handshake.Extension.{Extension, DeflateParams, parse_extensions, parse_deflate, is_empty}
use ews.Handshake.Extension.Format.{
  Holds, only_params-Holds, answered, parse_deflate-format_deflate,
}
use ews.Handshake.Negotiation.{
  server_compression, choose_offer, negotiate_compression, select_protocol, response_extensions,
  check_request, negotiate, offer, new_request, client_compression, confirm_extensions,
  check_response, confirm, websocket, upgrade_token,
}

-- The parameters that a client's offer reads as.
abbrev offered : Bool → DeflateParams
offered takeover = record {
  server_no_context_takeover = not takeover;
  client_no_context_takeover = not takeover;
  server_max_window_bits = 0;
  client_max_window_bits = 15;
}

offer-Holds :
    (c : Compress) → Holds (parse_extensions (offer (some c))) (offered c.context_takeover)
unfolding offer parse_extensions split cut trim_space trim_byte trim drop_while to_lower same
    parse_deflate equal_fold
offer-Holds c =
    only_params-Holds (parse_extensions (offer (some c))) (offered c.context_takeover)
      (elim (Bool-cases c.context_takeover) [ inl e ↦ rw e refl | inr e ↦ rw e refl ])

empty_header : parse_extensions [] ≡ some []
unfolding parse_extensions split trim_space trim drop_while
empty_header = refl

-- What the server agrees to, by what each side is configured with.
abbrev server_choice : Option Compress → Option Compress → Option Compression
server_choice (some s) (some c) = some (server_compression s (offered c.context_takeover))
server_choice (some s) none = none
server_choice none c = none

abbrev client_choice : Option Compress → Option Compress → Option Compression
client_choice (some s) (some c) =
    some (client_compression c (answered (server_compression s (offered c.context_takeover))))
client_choice (some s) none = none
client_choice none c = none

negotiate_compression-offer :
    (s c : Option Compress) → negotiate_compression s (offer c) ≡ ok (server_choice s c)
unfolding negotiate_compression choose_offer offer
negotiate_compression-offer none c = refl
negotiate_compression-offer (some s) none =
    rw (empty_header, negotiate_compression, choose_offer) refl
negotiate_compression-offer (some s) (some c) =
    let h = offer-Holds c in rw (h.alone, negotiate_compression) (simp (h.named, h.params))

confirm_extensions-response :
    (s c : Option Compress)
    → (exts : List Extension) × (parse_extensions (response_extensions (server_choice s c))
        ≡ some exts)
      × (confirm_extensions c exts ≡ ok (client_choice s c))
unfolding response_extensions confirm_extensions
confirm_extensions-response none c = ([], empty_header, refl)
confirm_extensions-response (some s) none = ([], empty_header, refl)
confirm_extensions-response (some s) (some c) =
    let h =
      parse_deflate-format_deflate (server_compression s (offered c.context_takeover))
        (inl (unfold server_compression in refl)) in
    (h.extension ∷ [], h.alone, simp (h.named, h.params))

-- The protocol that the server selects is none, or one that the client asked for.
pub select_protocol-has_token :
    (requested : Text) (supported : List Text)
    → not (is_empty (select_protocol requested supported))
        && not (has_token requested (select_protocol requested supported))
      ≡ false
unfolding select_protocol
select_protocol-has_token requested [] = refl
select_protocol-has_token requested (s ∷ supported) = elim (Bool-cases (has_token requested s)) [
  | inl e ↦ rw (e, e) (ground arith)
  | inr e ↦ rw e (select_protocol-has_token requested supported)
]

-- The window of a direction, where zero stands for the full 15 bits.
abbrev pub full_bits : ℕ → ℕ
full_bits b = if b == 0 then 15 else b

-- Each direction is the same from both ends.
pub record Mirrors (c s : Compression) : Type 0 where
  pub to_server : c.send_context_takeover ≡ s.receive_context_takeover
  pub to_client : c.receive_context_takeover ≡ s.send_context_takeover
  pub window_to_server : full_bits c.send_window_bits ≡ full_bits s.receive_window_bits
  pub window_to_client : full_bits c.receive_window_bits ≡ full_bits s.send_window_bits

-- Both without compression, or both with it and mirrored.
abbrev pub SameCompression : Option Compression → Option Compression → Type 0
SameCompression none none = Unit {0}
SameCompression (some c) (some s) = Mirrors c s
SameCompression none (some s) = ⊥
SameCompression (some c) none = ⊥

choices-SameCompression :
    (s c : Option Compress) → SameCompression (client_choice s c) (server_choice s c)
unfolding server_compression client_compression
choices-SameCompression none c = tt
choices-SameCompression (some s) none = tt
choices-SameCompression (some s) (some c) = record {
  to_server = ground arith;
  to_client = ground arith;
  window_to_server = refl;
  window_to_client = refl;
}

-- What a client's request and a server's answer come to.
pub record Agrees (digest : Digest) (random : Text) (copts sopts : Options) : Type 0 where
  pub request : Request
  pub response : Response
  pub client : Agreed
  pub server : Agreed
  pub requested : new_request digest random copts ≡ ok request
  pub answered_ok : negotiate digest request sopts ≡ ok (response, server)
  pub confirmed : confirm digest request response copts ≡ ok client
  pub same_compression : SameCompression client.compression server.compression
  pub same_protocol : client.protocol ≡ server.protocol

module _ (digest : Digest) (random : Text) (copts sopts : Options)
    (decodes : digest.decode (digest.encode random) ≡ some random) (fresh : length random ≡ 16)
    (client_ok : valid_options copts ≡ none) (server_ok : valid_options sopts ≡ none) where
  sent : Request
  sent = record {
    method = codes "GET";
    upgrade = websocket;
    connection = upgrade_token;
    version = version;
    key = new_key digest random;
    extensions = offer copts.compression;
    protocols = join copts.protocols (codes ", ");
  }

  server_result : Agreed
  unfolding sent
  server_result = record {
    compression = server_choice sopts.compression copts.compression;
    protocol = select_protocol sent.protocols sopts.protocols;
  }

  answer : Response
  unfolding sent server_result
  answer = record {
    status = 101;
    upgrade = websocket;
    connection = upgrade_token;
    accept = accept digest sent.key;
    extensions = response_extensions server_result.compression;
    protocol = server_result.protocol;
  }

  client_result : Agreed
  unfolding answer
  client_result = record {
    compression = client_choice sopts.compression copts.compression;
    protocol = answer.protocol;
  }

  new_request-sent : new_request digest random copts ≡ ok sent
  unfolding sent new_request
  new_request-sent = rw (client_ok, new_request) refl

  request_is_checked : check_request digest sent sopts ≡ none
  unfolding sent check_request valid_key new_key same has_token split trim_space trim drop_while
      equal_fold to_lower
  request_is_checked = rw (server_ok, check_request) (rw (decodes, valid_key) (rw fresh refl))

  negotiate-sent : negotiate digest sent sopts ≡ ok (answer, server_result)
  unfolding answer negotiate
  negotiate-sent =
      rw (request_is_checked, negotiate)
        (rw (negotiate_compression-offer sopts.compression copts.compression) refl)

  response_is_checked : check_response digest sent answer ≡ none
  unfolding sent answer server_result check_response same has_token split trim_space trim drop_while
      equal_fold to_lower
  response_is_checked =
      rw
        (
          same_refl (accept digest (new_key digest random)),
          select_protocol-has_token (join copts.protocols (codes ", ")) sopts.protocols,
        )
        refl

  confirm-answer : confirm digest sent answer copts ≡ ok client_result
  unfolding answer server_result client_result confirm
  confirm-answer =
      let (exts, parsed, confirmed) =
        confirm_extensions-response sopts.compression copts.compression in
      rw (response_is_checked, confirm) (simp (parsed, confirmed))

  -- With valid options on both sides, 16 random bytes for the key, and a base64 that decodes them
  -- again: the request that a client makes is accepted by a server, the server's answer is accepted
  -- by the client, and both come to the same agreement. Compression is on at both ends or at
  -- neither; where it is on, each direction has the same takeover and the same window from both
  -- ends; and both name the same subprotocol.
  pub negotiate-confirm : Agrees digest random copts sopts
  unfolding answer server_result client_result
  negotiate-confirm = record {
    request = sent;
    response = answer;
    client = client_result;
    server = server_result;
    requested = new_request-sent;
    answered_ok = negotiate-sent;
    confirmed = confirm-answer;
    same_compression = choices-SameCompression sopts.compression copts.compression;
    same_protocol = refl;
  }
