-- ===== src/Handshake/Negotiation/Acceptance.antt =====
-- What an accepted request and an accepted response have passed.
use ews.Common.{
  ◌≡◌, ◌≢◌, subst, ◌⊎◌, refl, sym, ap, ◌∙◌, true, false, Option, none, List, [], ◌∷◌, arith,
  Bool-cases, Option-cases, inl, inr,
}
use ews.Common.Text.{Text, codes, same-eq}
use ews.Handshake.Types.{
  Checked-cases, bad_extension, version, HandshakeError, Checked, ok, refused, Options, Compression,
  Agreed, Request, Response, Digest, accept, valid_key, has_token, valid_options,
}
use ews.Handshake.Extension.{Extension, parse_extensions, is_empty}
use ews.Handshake.Negotiation.{
  negotiate_compression, select_protocol, response_extensions, check_request, negotiate,
  confirm_extensions, check_response, confirm, websocket, upgrade_token,
}

-- The request is a WebSocket upgrade of version 13 with a key of 16 bytes.
pub record IsUpgrade (digest : Digest) (req : Request) : Type 0 where
  pub is_get : req.method ≡ codes "GET"
  pub asks_upgrade : has_token req.upgrade websocket ≡ true
  pub asks_connection : has_token req.connection upgrade_token ≡ true
  pub is_version : req.version ≡ version
  pub has_key : valid_key digest req.key ≡ true

check_request-IsUpgrade :
    (digest : Digest) (req : Request) (opts : Options)
    → check_request digest req opts ≡ none
    → IsUpgrade digest req × (valid_options opts ≡ none)
unfolding check_request
check_request-IsUpgrade digest req opts h = elim (Option-cases (valid_options opts)) [
  | inr (err, e) ↦ absurd (ground (arith, e))
  | inl e ↦ (
    record {
      is_get = same-eq req.method (codes "GET") (ground (arith, e));
      asks_upgrade = ground (arith, e);
      asks_connection = ground (arith, e);
      is_version = same-eq req.version version (ground (arith, e));
      has_key = ground (arith, e);
    },
    e,
  )
]

-- One of the supported protocols that the client asked for, or none.
abbrev pub IsOffered : Text → List Text → Text → Type 0
IsOffered requested [] p = p ≡ []
IsOffered requested (s ∷ ss) p =
    ((p ≡ s) × (has_token requested s ≡ true))
    ⊎ ((has_token requested s ≡ false) × IsOffered requested ss p)

select_protocol-IsOffered :
    (requested : Text) (supported : List Text)
    → IsOffered requested supported (select_protocol requested supported)
unfolding select_protocol
select_protocol-IsOffered requested [] = refl
select_protocol-IsOffered requested (s ∷ supported) = elim (Bool-cases (has_token requested s)) [
  | inl e ↦ inl (rw e refl, e)
  | inr e ↦ inr (e, rw e (select_protocol-IsOffered requested supported))
]

pub refused-ne-ok {ℓ} :
    {A : Type ℓ} (err : HandshakeError) (a : A) → ◌≢◌ {A = Checked A} (refused err) (ok a)
refused-ne-ok err a h = ground arith

pub ok-ok {ℓ} : {A : Type ℓ} (a b : A) → ◌≡◌ {A = Checked A} (ok a) (ok b) → a ≡ b
ok-ok a b h = ground arith

-- The answer and the result of `Negotiate`, with the compression that was chosen.
abbrev pub answer_with : Digest → Request → Options → Option Compression → Response × Agreed
answer_with digest req opts compression =
    let protocol = select_protocol req.protocols opts.protocols in
    (
      record {
        status = 101;
        upgrade = websocket;
        connection = upgrade_token;
        accept = accept digest req.key;
        extensions = response_extensions compression;
        protocol = protocol;
      },
      record { compression = compression; protocol = protocol },
    )

-- A request that `Negotiate` accepts is a GET that asks for a WebSocket upgrade of version 13 with a
-- key of 16 bytes, under valid options. The answer is a 101 with the key's accept value, and its
-- subprotocol, which is also the result's, is the first supported one that the client asked for, or
-- none if it asked for none of them.
pub negotiate-accepted :
    (digest : Digest) (req : Request) (opts : Options) (resp : Response) (res : Agreed)
    → negotiate digest req opts ≡ ok (resp, res)
    → IsUpgrade digest req
      × (valid_options opts ≡ none)
      × (resp.status ≡ 101)
      × (resp.accept ≡ accept digest req.key)
      × (resp.protocol ≡ res.protocol)
      × IsOffered req.protocols opts.protocols res.protocol
unfolding negotiate
negotiate-accepted digest req opts resp res h =
    elim (Option-cases (check_request digest req opts)) [
      | inr (err, e) ↦ absurd (refused-ne-ok err (resp, res) (sym (rw (e, negotiate) refl) ∙ h))
      | inl e ↦
          let (upgrade, valid) = check_request-IsUpgrade digest req opts e in
          elim (Checked-cases (negotiate_compression opts.compression req.extensions)) [
            | inr (err, n) ↦
                absurd (refused-ne-ok err (resp, res) (sym (rw (e, negotiate) (rw n refl)) ∙ h))
            | inl (compression, n) ↦
                let q =
                  ok-ok (answer_with digest req opts compression) (resp, res)
                    (sym (rw (e, negotiate) (rw n refl)) ∙ h) in
                (
                  upgrade,
                  valid,
                  ap (λ x. x.0.status) (sym q),
                  ap (λ x. x.0.accept) (sym q),
                  ap (λ x. x.0.protocol) (sym q) ∙ ap (λ x. x.1.protocol) q,
                  subst (IsOffered req.protocols opts.protocols) (ap (λ x. x.1.protocol) q)
                      (select_protocol-IsOffered req.protocols opts.protocols),
                )
          ]
    ]

check_response-passed :
    (digest : Digest) (req : Request) (resp : Response)
    → check_response digest req resp ≡ none
    → (resp.status ≡ 101)
      × (has_token resp.upgrade websocket ≡ true)
      × (has_token resp.connection upgrade_token ≡ true)
      × (resp.accept ≡ accept digest req.key)
      × ((is_empty resp.protocol ≡ true) ⊎ (has_token req.protocols resp.protocol ≡ true))
unfolding check_response
check_response-passed digest req resp h = (
  ground arith,
  ground arith,
  ground arith,
  same-eq resp.accept (accept digest req.key) (ground arith),
  elim (Bool-cases (is_empty resp.protocol)) [ inl e ↦ inl e | inr e ↦ inr (ground arith) ],
)

confirm_extensions-none :
    (exts : List Extension) (compression : Option Compression)
    → confirm_extensions none exts ≡ ok compression
    → compression ≡ none
unfolding confirm_extensions
confirm_extensions-none [] compression h = ground arith
confirm_extensions-none (e ∷ es) compression h = ground arith

-- A response that `Confirm` accepts is a 101 that agrees to the upgrade, carries the accept value of
-- the key that was sent, and names no subprotocol but one of those that the request listed. Any
-- extension is agreed to only where the client offered compression.
pub confirm-accepted :
    (digest : Digest) (req : Request) (resp : Response) (opts : Options) (res : Agreed)
    → confirm digest req resp opts ≡ ok res
    → (resp.status ≡ 101)
      × (has_token resp.upgrade websocket ≡ true)
      × (has_token resp.connection upgrade_token ≡ true)
      × (resp.accept ≡ accept digest req.key)
      × (res.protocol ≡ resp.protocol)
      × ((is_empty resp.protocol ≡ true) ⊎ (has_token req.protocols resp.protocol ≡ true))
      × (opts.compression ≡ none → res.compression ≡ none)
unfolding confirm
confirm-accepted digest req resp opts res h = elim (Option-cases (check_response digest req resp)) [
  | inr (err, e) ↦ absurd (refused-ne-ok err res (sym (rw (e, confirm) refl) ∙ h))
  | inl e ↦
      let (a, b, c, d, f) = check_response-passed digest req resp e in
      elim (Option-cases (parse_extensions resp.extensions)) [
        | inl p ↦ absurd (refused-ne-ok bad_extension res (sym (rw (e, confirm) (rw p refl)) ∙ h))
        | inr (exts, p) ↦ elim (Checked-cases (confirm_extensions opts.compression exts)) [
          | inr (err, n) ↦ absurd (refused-ne-ok err res (sym (rw (e, confirm) (simp (p, n))) ∙ h))
          | inl (compression, n) ↦
              let q =
                ok-ok (record { compression = compression; protocol = resp.protocol }) res
                  (sym (rw (e, confirm) (simp (p, n))) ∙ h) in
              (
                a,
                b,
                c,
                d,
                ap (λ x. x.protocol) (sym q),
                f,
                λ without.
                    ap (λ x. x.compression) (sym q)
                    ∙ confirm_extensions-none exts compression
                        (ap (λ k. confirm_extensions k exts) (sym without) ∙ n),
              )
        ]
      ]
]
