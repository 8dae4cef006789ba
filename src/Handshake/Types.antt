-- ===== src/Handshake/Types.antt =====
-- handshake/handshake.go: the types, and the checks of single fields.
use ews.Common.{
  ℕ, refl, ◌⊎◌, inl, inr, ◌≡◌, Bool, true, false, ◌||◌, Option, none, some, List, [], ◌∷◌, ◌++◌,
  ◌==◌, if◌then◌else◌, length,
}
use ews.Common.Int.{ℤ, pos, negsuc, ltb_ℤ}
use ews.Common.Text.{Text, codes, split, trim_space, equal_fold}

pub data HandshakeError : Type 0 where
  not_web_socket bad_version bad_key bad_extension bad_accept : HandshakeError
  bad_status bad_protocol invalid_options : HandshakeError

-- A value, or the error beside which the source returns zero values.
pub data Checked {ℓ} (A : Type ℓ) : Type ℓ where
  ok : A → Checked A
  refused : HandshakeError → Checked A

abbrev pub version : Text
version = codes "13"

-- `Compress`
pub record Compress : Type 0 where
  pub level : ℤ
  pub min_size : ℤ
  pub context_takeover : Bool

pub record Options : Type 0 where
  pub compression : Option Compress
  pub protocols : List Text

-- `Compression`, what was negotiated. The bits come from `windowBits`, so they are not negative.
pub record Compression : Type 0 where
  pub level : ℤ
  pub min_size : ℤ
  pub send_context_takeover : Bool
  pub receive_context_takeover : Bool
  pub send_window_bits : ℕ
  pub receive_window_bits : ℕ

-- `Result`
pub record Agreed : Type 0 where
  pub compression : Option Compression
  pub protocol : Text

pub record Request : Type 0 where
  pub method : Text
  pub upgrade : Text
  pub connection : Text
  pub version : Text
  pub key : Text
  pub extensions : Text
  pub protocols : Text

pub record Response : Type 0 where
  pub status : ℕ
  pub upgrade : Text
  pub connection : Text
  pub accept : Text
  pub extensions : Text
  pub protocol : Text

-- What the handshake uses of crypto/sha1 and encoding/base64.
pub record Digest : Type 0 where
  pub sha1 : Text → Text
  pub encode : Text → Text
  pub decode : Text → Option Text

abbrev guid : Text
guid = codes "258EAFA5-E914-47DA-95CA-C5AB0DC85B11"

-- `Accept`
unfoldable pub accept : Digest → Text → Text
accept digest key = digest.encode (digest.sha1 (key ++ guid))

-- `NewKey`; the 16 random bytes are an argument.
unfoldable pub new_key : Digest → Text → Text
new_key digest random = digest.encode random

-- `StatusCode`
unfoldable pub status_code : HandshakeError → ℕ
status_code bad_version = 426
status_code _ = 400

-- `validKey`
unfoldable pub valid_key : Digest → Text → Bool
valid_key digest key = elim (digest.decode key) [ none ↦ false | some b ↦ length b == 16 ]

-- The loop of `hasToken`.
unfoldable pub any_token : List Text → Text → Bool
any_token [] token = false
any_token (t ∷ ts) token = if equal_fold (trim_space t) token then true else any_token ts token

-- `hasToken`
unfoldable pub has_token : Text → Text → Bool
unfolding any_token
has_token header token = any_token (split 44 header) token

-- `validOptions`; `none` is the nil error.
unfoldable pub valid_options : Options → Option HandshakeError
valid_options opts = elim opts.compression [
  | none ↦ none
  | some c ↦
      if ltb_ℤ c.level (negsuc 1) || (ltb_ℤ (pos 9) c.level || ltb_ℤ c.min_size (pos 0))
      then some invalid_options
      else none
]

pub Checked-cases {ℓ} :
    {A : Type ℓ} (x : Checked A)
    → ((a : A) × (x ≡ ok a)) ⊎ ((err : HandshakeError) × (x ≡ refused err))
Checked-cases (ok a) = inl (a, refl)
Checked-cases (refused err) = inr (err, refl)
