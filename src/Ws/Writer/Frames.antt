-- ===== src/Ws/Writer/Frames.antt =====
-- The frames that a sender encodes, by their headers' wire format.
use ews.Common.{
  ℕ, ◌≤◌, ◌≡◌, ◌⊎◌, refl, sym, ap, ◌∙◌, Bool, true, false, not, ◌&&◌, ◌||◌, Option, none, some,
  List, [], ◌++◌, arith, ltb, ◌==◌, length, Bool-cases, Option-cases, inl, inr,
}
use ews.Common.Words.{put_be}
use ews.Codec.Opcode.{Opcode, continuation, text, binary, close, pong, is_data, is_control}
use ews.Codec.Mask.{MaskKey}
use ews.Codec.Header.{bytes}
use ews.Codec.Encoder.{
  Encoder, EncodeError, check_frame, frame_header, encode_compressed, mark_compressed, set_rsv1,
  header_bytes, payload_bytes,
}
use ews.Codec.Encoder
use ews.Codec.RoundTrip.{encode-some, check_frame-opcode}
use ews.Codec.Wire.{wire_header, frame_header-wire, set_rsv1-wire}
use ews.Ws.Sender.{
  Sender, Encoded, frame, error, finish_frame, key_for, encode_frame, encode_checked, encode,
  encode_compressed_message, encode_fragment, encode_close, check_message,
}

-- A frame that was encoded: its header, that the closing handshake allows it, and what is kept.
pub record Framed (random : MaskKey) (op : Opcode) (final rsv : Bool) (s s' : Sender)
    (head : List ℕ) : Type 0 where
  pub size : ℕ
  pub header : head ≡ wire_header final rsv op size (key_for s.role random)
  pub checked : (is_data op ≡ true) ⊎ ((is_control op ≡ true) × (final ≡ true) × (size ≤ 125))
  pub allowed : s.close_sent && not (op == pong) ≡ false
  pub closes : s'.close_sent ≡ (op == close || s.close_sent)
  pub same_role : s'.role ≡ s.role

abbrev pub Encodes : MaskKey → Opcode → Bool → Bool → Sender → Sender × Encoded → Type 0
Encodes random op final rsv s (s', frame head body) = Framed random op final rsv s s' head
Encodes random op final rsv s (s', error err) = (s'.close_sent ≡ s.close_sent) × (s'.role ≡ s.role)

-- What the encoder's success gives.
abbrev Coded : MaskKey → Opcode → Bool → Bool → Sender → Encoder → Type 0
Coded random op final rsv s e =
    (n : ℕ) × (bytes e.h ≡ wire_header final rsv op n (key_for s.role random))
    × ((is_data op ≡ true) ⊎ ((is_control op ≡ true) × (final ≡ true) × (n ≤ 125)))

finish_frame-Encodes :
    (random : MaskKey) (op : Opcode) (final rsv : Bool) (s : Sender)
    (e : Encoder × Option EncodeError)
    → s.close_sent && not (op == pong) ≡ false
    → (e.1 ≡ none → Coded random op final rsv s e.0)
    → Encodes random op final rsv s (finish_frame op s e)
unfolding finish_frame header_bytes
finish_frame-Encodes random op final rsv s (e, some err) g k = (refl, refl)
finish_frame-Encodes random op final rsv s (e, none) g k =
    let (n, header, checked) = k refl in
    record {
      size = n;
      header = header;
      checked = checked;
      allowed = g;
      closes = ground arith;
      same_role = refl;
    }

check_frame_sound :
    (final : Bool) (op : Opcode) (payload : List ℕ)
    → check_frame final op payload ≡ none
    → (is_data op ≡ true) ⊎ ((is_control op ≡ true) × (final ≡ true) × (length payload ≤ 125))
unfolding check_frame
check_frame_sound final op payload h = elim (Bool-cases (is_data op)) [
  | inl e ↦ inl e
  | inr e ↦ inr (ground (arith, e), ground (arith, e), ground (arith, e))
]

encode-Coded :
    (random : MaskKey) (op : Opcode) (final : Bool) (payload : List ℕ) (s : Sender) (e e' : Encoder)
    → Encoder.encode final op payload (key_for s.role random) e ≡ (e', none)
    → Coded random op final false s e'
encode-Coded random op final payload s e e' h =
    let key = key_for s.role random in
    let (ok, header, body) = encode-some final op payload key e e' h in
    (
      length payload,
      ap bytes header
          ∙ frame_header-wire final op (length payload) key
              (check_frame-opcode final op payload ok),
      check_frame_sound final op payload ok,
    )

mark_compressed-Coded :
    (random : MaskKey) (op : Opcode) (final : Bool) (payload : List ℕ) (s : Sender) (e : Encoder)
    (x : Encoder × Option EncodeError)
    → Encoder.encode final op payload (key_for s.role random) e ≡ x
    → (mark_compressed op x).1 ≡ none
    → Coded random op final (not (op == continuation)) s (mark_compressed op x).0
unfolding mark_compressed
mark_compressed-Coded random op final payload s e (e', some err) h ok = absurd (ground arith)
mark_compressed-Coded random op final payload s e (e', none) h ok =
    elim (Bool-cases (op == continuation)) [
      | inl c ↦ rw c (encode-Coded random op final payload s e e' h)
      | inr c ↦
          let key = key_for s.role random in
          let (valid, header, body) = encode-some final op payload key e e' h in
          rw c (
            length payload,
            set_rsv1-wire final op (length payload) key e'
                (check_frame-opcode final op payload valid) header,
            check_frame_sound final op payload valid,
          )
    ]

encode_compressed-Coded :
    (random : MaskKey) (op : Opcode) (final : Bool) (payload : List ℕ) (s : Sender) (e : Encoder)
    → (encode_compressed final op payload (key_for s.role random) e).1 ≡ none
    → Coded random op final
        (not (op == continuation))
        s
        (encode_compressed final op payload (key_for s.role random) e).0
unfolding encode_compressed
encode_compressed-Coded random op final payload s e ok =
    elim (Bool-cases (not (op == text) && (not (op == binary) && not (op == continuation)))) [
      | inl g ↦ absurd (ground (arith, g))
      | inr g ↦
          rw g (mark_compressed-Coded random op final payload s e _ refl (sym (rw g refl) ∙ ok))
    ]

-- RSV1 is set on a compressed frame that starts a message.
abbrev pub rsv_of : Bool → Opcode → Bool
rsv_of compressed op = compressed && not (op == continuation)

pair_eta : (x : Encoder × Option EncodeError) → x.1 ≡ none → x ≡ (x.0, none)
pair_eta (e, none) h = refl
pair_eta (e, some err) h = absurd (ground arith)

encode_frame-Encodes :
    (random : MaskKey) (op : Opcode) (final : Bool) (payload : List ℕ) (compressed : Bool)
    (s : Sender)
    → Encodes random op final
        (rsv_of compressed op)
        s
        (encode_frame random op final payload compressed s)
unfolding encode_frame
encode_frame-Encodes random op final payload compressed s =
    elim (Bool-cases (s.close_sent && not (op == pong))) [
      | inl g ↦ rw g (refl, refl)
      | inr g ↦ elim (Bool-cases compressed) [
        | inl c ↦
            rw (g, c)
              (finish_frame-Encodes random op final _ s _ g
                (encode_compressed-Coded random op final payload s s.enc))
        | inr c ↦
            rw (g, c)
              (finish_frame-Encodes random op final _ s _ g
                (λ ok. encode-Coded random op final payload s s.enc _ (pair_eta _ ok)))
      ]
    ]

encode_checked-Encodes :
    (random : MaskKey) (op : Opcode) (payload : List ℕ) (compressed : Bool) (s : Sender)
    → Encodes random op true
        (rsv_of compressed op)
        s
        (encode_checked random op payload compressed s)
unfolding encode_checked
encode_checked-Encodes random op payload compressed s =
    elim (Bool-cases (s.close_sent && not (op == pong))) [
      | inl g ↦ rw g (refl, refl)
      | inr g ↦ elim (Option-cases (check_message op payload)) [
        | inl k ↦ rw (g, k) (encode_frame-Encodes random op true payload compressed s)
        | inr (err, k) ↦ rw (g, k) (refl, refl)
      ]
    ]

pub encode-Encodes :
    (random : MaskKey) (op : Opcode) (payload : List ℕ) (s : Sender)
    → Encodes random op true false s (encode random op payload s)
unfolding encode
encode-Encodes random op payload s = encode_checked-Encodes random op payload false s

pub encode_compressed_message-Encodes :
    (random : MaskKey) (op : Opcode) (payload : List ℕ) (s : Sender)
    → Encodes random op true (rsv_of true op) s (encode_compressed_message random op payload s)
unfolding encode_compressed_message
encode_compressed_message-Encodes random op payload s =
    elim (Bool-cases (not (op == text) && not (op == binary))) [
      | inl g ↦ rw g (refl, refl)
      | inr g ↦ rw g (encode_checked-Encodes random op payload true s)
    ]

pub encode_fragment-Encodes :
    (random : MaskKey) (op : Opcode) (final : Bool) (payload : List ℕ) (compressed : Bool)
    (s : Sender)
    → Encodes random op final
        (rsv_of compressed op)
        s
        (encode_fragment random op final payload compressed s)
unfolding encode_fragment
encode_fragment-Encodes random op final payload compressed s =
    elim (Bool-cases (not (op == text) && (not (op == binary) && not (op == continuation)))) [
      | inl g ↦ rw g (refl, refl)
      | inr g ↦ rw g (encode_frame-Encodes random op final payload compressed s)
    ]

pub encode_close-Encodes :
    (random : MaskKey) (code : ℕ) (reason : List ℕ) (s : Sender)
    → Encodes random close true false s (encode_close random code reason s)
unfolding encode_close
encode_close-Encodes random code reason s = elim (Bool-cases (code == 0)) [
  | inl z ↦ elim (Bool-cases (length reason == 0)) [
    | inl e ↦ rw (z, e) (encode-Encodes random close [] s)
    | inr e ↦ rw (z, e) (refl, refl)
  ]
  | inr z ↦ elim (Bool-cases (ltb 123 (length reason))) [
    | inl e ↦ rw (z, e) (refl, refl)
    | inr e ↦ rw (z, e) (encode-Encodes random close (put_be 2 code ++ reason) s)
  ]
]

abbrev pub is_frame : Encoded → Bool
is_frame (frame head body) = true
is_frame (error err) = false

encode-fine :
    (op : Opcode) (final : Bool) (payload : List ℕ) (key : Option MaskKey) (e : Encoder)
    → is_data op ≡ true
    → (Encoder.encode final op payload key e).1 ≡ none
unfolding Encoder.encode check_frame
encode-fine op final payload key e d = rw (d, Encoder.encode) refl

mark_compressed-fine :
    (op : Opcode) (x : Encoder × Option EncodeError) → x.1 ≡ none → (mark_compressed op x).1 ≡ none
unfolding mark_compressed
mark_compressed-fine op (e, none) h = elim (Bool-cases (op == continuation)) [
  | inl c ↦ rw c refl
  | inr c ↦ rw c refl
]
mark_compressed-fine op (e, some err) h = absurd (ground arith)

finish_frame-is_frame :
    (op : Opcode) (s : Sender) (e : Encoder × Option EncodeError)
    → e.1 ≡ none
    → is_frame (finish_frame op s e).1 ≡ true
unfolding finish_frame
finish_frame-is_frame op s (e, none) h = refl
finish_frame-is_frame op s (e, some err) h = absurd (ground arith)

-- Before the close frame a fragment is never refused.
pub encode_fragment-is_frame :
    (random : MaskKey) (op : Opcode) (final : Bool) (payload : List ℕ) (compressed : Bool)
    (s : Sender)
    → (op ≡ text) ⊎ ((op ≡ binary) ⊎ (op ≡ continuation))
    → s.close_sent ≡ false
    → is_frame (encode_fragment random op final payload compressed s).1 ≡ true
unfolding encode_fragment encode_frame encode_compressed is_data
encode_fragment-is_frame random op final payload compressed s kind c =
    let key = key_for s.role random in
    let g : not (op == text) && (not (op == binary) && not (op == continuation)) ≡ false =
      allowed_kind kind in
    let fine = encode-fine op final payload key s.enc (is_data_kind kind) in
    elim (Bool-cases compressed) [
      | inl e ↦ rw (g, c, e) (finish_frame-is_frame op _ _ (mark_compressed-fine op _ fine))
      | inr e ↦ rw (g, c, e) (finish_frame-is_frame op _ _ fine)
    ]
  where
    allowed_kind :
        (op ≡ text) ⊎ ((op ≡ binary) ⊎ (op ≡ continuation))
        → not (op == text) && (not (op == binary) && not (op == continuation)) ≡ false
    allowed_kind (inl e) = rw e refl
    allowed_kind (inr (inl e)) = rw e refl
    allowed_kind (inr (inr e)) = rw e refl

    is_data_kind : (op ≡ text) ⊎ ((op ≡ binary) ⊎ (op ≡ continuation)) → is_data op ≡ true
    is_data_kind (inl e) = rw e refl
    is_data_kind (inr (inl e)) = rw e refl
    is_data_kind (inr (inr e)) = rw e refl
