-- ===== src/Ws/Prepared.antt =====
-- ws/prepared.go. A compressor from the pool is reset, so what it makes of a payload without a window
-- depends on the configuration alone: `shrink`, `none` for an error. `fill` is the caller's encoder,
-- `none` for its error.
pub mod Equal
mod Tests
use ews.Common.{
  ℕ, ◌+◌, ◌-◌, ◌≡◌, Bool, true, false, not, ◌&&◌, ◌||◌, Option, none, some, List, [], ◌∷◌, ◌++◌,
  ltb, ◌==◌, if◌then◌else◌, length, take, drop, replicate,
}
use ews.Common.Int.{ℤ, ltb_ℤ}
use ews.Codec.Opcode.{Opcode, text, binary}
use ews.Codec.Header.{max_header_size}
use ews.Codec.Encoder.{Encoder, EncodeError, copy_at, header_bytes}
use ews.Codec.Encoder
use ews.Ws.Errors.{Cause, protocol, encoding, message_open, closing}
use ews.Ws.Writer.{Writer}
use ews.Ws.PreparedHistory.{SendHistory, note_prepared}

-- `compressKey`
pub record CompressKey : Type 0 where
  pub level : ℤ
  pub bits : ℕ

-- `variant`
pub record Variant : Type 0 where
  pub key : CompressKey
  pub frame : List ℕ

pub record Prepared : Type 0 where
  pub op : Opcode
  pub frame : List ℕ
  pub payload : List ℕ
  pub variants : List Variant

pub data PrepareError : Type 0 where
  cause : Cause → PrepareError
  fill_error : PrepareError

pub data Made : Type 0 where
  made : Prepared → Made
  refused : PrepareError → Made

-- `Prepare`, with what the encoder returned.
unfoldable pub framed : Opcode → List ℕ → Encoder × Option EncodeError → Made
framed op payload (enc, some err) = refused (cause (encoding err))
framed op payload (enc, none) =
    made (record { op = op; frame = header_bytes enc ++ payload; payload = payload; variants = [] })

-- `Prepare`
unfoldable pub prepare : Opcode → List ℕ → Made
unfolding framed
prepare op payload =
    if not (op == text) && not (op == binary)
    then refused (cause protocol)
    else framed op payload (Encoder.encode true op payload none Encoder.new)

-- The end of `PrepareAppend`: the header goes before the payload, into the room that was left.
unfoldable pub framed_in : Opcode → List ℕ → Encoder × Option EncodeError → Made
framed_in op buf (enc, some err) = refused (cause (encoding err))
framed_in op buf (enc, none) =
    let header = header_bytes enc in
    let start = max_header_size - length header in
    let frame = drop start (copy_at start header buf) in
    made (record { op = op; frame = frame; payload = drop (length header) frame; variants = [] })

-- `PrepareAppend`; `size` is only a capacity.
unfoldable pub prepare_append : Opcode → (List ℕ → Option (List ℕ)) → Made
unfolding framed_in
prepare_append op fill =
    if not (op == text) && not (op == binary)
    then refused (cause protocol)
    else elim (fill (replicate max_header_size 0)) [
      | none ↦ refused fill_error
      | some buf ↦
          if ltb (length buf) max_header_size
          then refused (cause protocol)
          else framed_in op buf (Encoder.encode true op (drop max_header_size buf) none Encoder.new)
    ]

abbrev same_ℤ : ℤ → ℤ → Bool
same_ℤ a b = not (ltb_ℤ a b) && not (ltb_ℤ b a)

abbrev pub same_key : CompressKey → CompressKey → Bool
same_key k l = same_ℤ k.level l.level && k.bits == l.bits

-- The loop of `compressedFor`.
unfoldable pub find_variant : CompressKey → List Variant → Option (List ℕ)
find_variant key [] = none
find_variant key (v ∷ vs) = if same_key v.key key then some v.frame else find_variant key vs

module _ (shrink : CompressKey → List ℕ → Option (List ℕ)) where
  -- A new variant's frame, with the plain one where compressing or encoding fails.
  unfoldable pub variant_frame : CompressKey → Prepared → List ℕ
  variant_frame key p = elim (shrink key p.payload) [
    | none ↦ p.frame
    | some z ↦
        let (enc, err) = Encoder.encode_compressed true p.op z none Encoder.new in
        elim err [ some e ↦ p.frame | none ↦ header_bytes enc ++ z ]
  ]

  -- `compressedFor`
  unfoldable pub compressed_for : CompressKey → Prepared → Prepared × List ℕ
  unfolding find_variant variant_frame
  compressed_for key p = elim (find_variant key p.variants) [
    | some frame ↦ (p, frame)
    | none ↦
        let frame = variant_frame key p in
        (record p { variants = p.variants ++ record { key = key; frame = frame } ∷ [] }, frame)
  ]

  -- `frameFor`, on a connection with this configuration.
  unfoldable pub frame_for :
      {C : Type 0} → CompressKey → Writer C → Prepared → Prepared × List ℕ × Bool
  frame_for key c p =
      if not c.deflating || ltb (length p.payload) c.min_size
      then (p, p.frame, false)
      else (let r = compressed_for key p in (r.0, r.1, true))
