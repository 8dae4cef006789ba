-- ===== src/Ws/Interop.antt =====
-- A sender and the receiver of the other role: ws/sender.go and ws/receiver.go together.
use ews.Common.{
  ℕ, ◌<◌, ◌^◌, ◌≡◌, ◌≢◌, inl, inr, refl, sym, ap, ◌∙◌, Bool, false, not, ◌&&◌, Option, none, some,
  ap₂, ◌==◌, List, ◌++◌, arith, length, Bool-cases,
}
use ews.Common.Words.{IsBytes}
use ews.Codec.Opcode.{Opcode, pong}
use ews.Codec.Mask.{MaskKey}
use ews.Codec.Mask.Reference.{IsKey}
use ews.Codec.Encoder.{Encoder, EncodeError, header_bytes, payload_bytes}
use ews.Codec.Encoder
use ews.Codec.RoundTrip.{decode-encode, IsKeyOption}
use ews.Codec.Wire.{is_masked}
use ews.Ws.Errors.{Role, server, client, closing}
use ews.Ws.Receiver.{Receiver, is_server}
use ews.Ws.Receiver.Frames.{IsReady, Follows}
use ews.Ws.Receiver.Delivery.{Delivers, delivers}
use ews.Ws.Sender.{Sender, Encoded, frame, error, finish_frame, key_for, encode_frame}

-- The other end of the connection.
abbrev pub peer : Role → Role
peer server = client
peer client = server

key_for-peer :
    (role : Role) (random : MaskKey) → is_masked (key_for role random) ≡ is_server (peer role)
key_for-peer server random = refl
key_for-peer client random = refl

pub key_for-IsKeyOption :
    (role : Role) (random : MaskKey) → IsKey random → IsKeyOption (key_for role random)
key_for-IsKeyOption server random k = tt
key_for-IsKeyOption client random k = k

finish_frame-frame :
    (op : Opcode) (s s' : Sender) (e : Encoder × Option EncodeError) (head body : List ℕ)
    → finish_frame op s e ≡ (s', frame head body)
    → (e.1 ≡ none) × (header_bytes e.0 ≡ head) × (payload_bytes e.0 ≡ body)
unfolding finish_frame
finish_frame-frame op s s' (e, none) head body eq = ground arith
finish_frame-frame op s s' (e, some err) head body eq = ground arith

not_frame :
    (s s' : Sender) (head body : List ℕ) (x : Sender × Encoded)
    → x ≡ (s, error closing)
    → x ≢ (s', frame head body)
not_frame s s' head body x closed eq = ground arith

pub encode_frame-frame :
    (random : MaskKey) (op : Opcode) (final : Bool) (payload : List ℕ) (s s' : Sender)
    (head body : List ℕ)
    → encode_frame random op final payload false s ≡ (s', frame head body)
    → (e : Encoder) × (Encoder.encode final op payload (key_for s.role random) s.enc ≡ (e, none))
      × (header_bytes e ≡ head)
      × (payload_bytes e ≡ body)
unfolding encode_frame
encode_frame-frame random op final payload s s' head body eq =
    elim (Bool-cases (s.close_sent && not (op == pong))) [
      | inl e ↦ absurd (not_frame s s' head body _ (rw e refl) eq)
      | inr e ↦
          let key = key_for s.role random in
          let coded = Encoder.encode final op payload key s.enc in
          let (a, b, c) = finish_frame-frame op s s' coded head body (sym (rw e refl) ∙ eq) in
          (coded.0, ap (λ x. (coded.0, x)) a, b, c)
    ]

-- On a payload and a key of bytes, the payload shorter than 2^63: an uncompressed data frame that the
-- sender encodes, behind it any other input, reaches a ready receiver of the other role, for which
-- it is the next frame. `Next` announces it without an error, `PayloadN` gives exactly the payload,
-- and the receiver is ready again with the rest of the input, the message closed if the frame is
-- final and open otherwise.
pub receive-send :
    (random : MaskKey) (op : Opcode) (final : Bool) (payload : List ℕ) (s s' : Sender)
    (head body rest : List ℕ) (r : Receiver)
    → encode_frame random op final payload false s ≡ (s', frame head body)
    → IsBytes payload
    → IsKey random
    → length payload < 2 ^ 63
    → r.role ≡ peer s.role
    → IsReady r
    → Follows r op
    → r.dec.pending ≡ head ++ (body ++ rest)
    → Delivers r op final payload rest
receive-send random op final payload s s' head body rest r sent ok key_ok short role ready follows
      p =
    let (e, coded, eh, eb) = encode_frame-frame random op final payload s s' head body sent in
    let key = key_for s.role random in
    let input = p ∙ ap₂ (λ x y. x ++ (y ++ rest)) (sym eh) (sym eb) in
    let (h, taken, f, o, r1, r2, r3, l, m, k, drain, size, plain) =
      decode-encode final op payload key s.enc e r.dec r.header rest coded ok
        (key_for-IsKeyOption s.role random key_ok) short ready.drained input in
    let to_server = m ∙ key_for-peer s.role random ∙ ap is_server (sym role) in
    delivers r ready
      (record (r.dec) { pending = payload_bytes e ++ rest; remaining = length payload }) h op
      (length payload) taken to_server r1 r2 r3 o follows l final key (payload_bytes e) payload rest
      f m k refl drain size plain refl
