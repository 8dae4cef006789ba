-- ===== src/Ws/Closing.antt =====
-- The closing handshake: what a sender (ws/sender.go) encodes after a close frame.
use ews.Common.{
  ℕ, zero, suc, ◌+◌, ◌≤◌, ◌≡◌, ◌≢◌, refl, Bool, true, false, not, ◌&&◌, Option, none, some, List,
  [], ◌∷◌, ◌++◌, arith, ◌==◌, ltb, length, Bool-cases, Option-cases, suc-==-zero, inl, inr,
}
use ews.Codec.Opcode.{Opcode, close, pong, text, binary, continuation}
use ews.Codec.Mask.{MaskKey}
use ews.Codec.Encoder.{EncodeError, Encoder}
use ews.Ws.Errors.{Cause, closing, protocol}
use ews.Common.Words.{put_be}
use ews.Ws.Sender.{
  Sender, check_message, Encoded, frame, error, finish_frame, encode_frame, encode_checked, encode,
  encode_compressed_message, encode_fragment, encode_close,
}

-- A call of one of the sender's methods that encode.
pub data Call : Type 0 where
  whole compressed : MaskKey → Opcode → List ℕ → Call
  fragment : MaskKey → Opcode → Bool → List ℕ → Bool → Call
  closed : MaskKey → ℕ → List ℕ → Call

unfoldable pub perform : Call → Sender → Sender × Encoded
perform (whole random op payload) s = encode random op payload s
perform (compressed random op payload) s = encode_compressed_message random op payload s
perform (fragment random op final payload c) s = encode_fragment random op final payload c s
perform (closed random code reason) s = encode_close random code reason s

abbrev pub kind : Call → Opcode
kind (whole random op payload) = op
kind (compressed random op payload) = op
kind (fragment random op final payload c) = op
kind (closed random code reason) = close

abbrev pub is_frame : Encoded → Bool
is_frame (frame head body) = true
is_frame (error err) = false

-- The close frames among the results of the calls, made in order.
abbrev pub flag_count : Bool → ℕ
flag_count true = 1
flag_count false = 0

unfoldable pub close_frames : List Call → Sender → ℕ
close_frames [] s = 0
close_frames (c ∷ cs) s =
    flag_count (is_frame (perform c s).1 && kind c == close) + close_frames cs (perform c s).0

-- What each call does to `closeSent`.
abbrev Keeps : Opcode → Sender → Sender × Encoded → Type 0
Keeps op s (s', out) =
    (s.close_sent ≡ true → op ≢ pong → (s' ≡ s) × (is_frame out ≡ false))
    × (s.close_sent ≡ true → s'.close_sent ≡ true)
    × (is_frame out ≡ true → op ≡ close → s'.close_sent ≡ true)

finish_frame-Keeps :
    (op : Opcode) (s : Sender) (e : Encoder × Option EncodeError)
    → s.close_sent && not (op == pong) ≡ false
    → Keeps op s (finish_frame op s e)
unfolding finish_frame
finish_frame-Keeps op s (e, none) g = ground arith
finish_frame-Keeps op s (e, some err) g = ground arith

error-Keeps : (op : Opcode) (s : Sender) (err : Cause) → Keeps op s (s, error err)
error-Keeps op s err = (λ c o. (refl, refl), λ c. c, λ e o. absurd (ground arith))

encode_frame-Keeps :
    (random : MaskKey) (op : Opcode) (final : Bool) (payload : List ℕ) (c : Bool) (s : Sender)
    → Keeps op s (encode_frame random op final payload c s)
unfolding encode_frame
encode_frame-Keeps random op final payload c s =
    elim (Bool-cases (s.close_sent && not (op == pong))) [
      | inl e ↦ rw e (error-Keeps op s closing)
      | inr e ↦ elim (Bool-cases c) [
        | inl k ↦ rw (e, k) (finish_frame-Keeps op s _ e)
        | inr k ↦ rw (e, k) (finish_frame-Keeps op s _ e)
      ]
    ]

encode_checked-Keeps :
    (random : MaskKey) (op : Opcode) (payload : List ℕ) (c : Bool) (s : Sender)
    → Keeps op s (encode_checked random op payload c s)
unfolding encode_checked
encode_checked-Keeps random op payload c s = elim (Bool-cases (s.close_sent && not (op == pong))) [
  | inl e ↦ rw e (error-Keeps op s closing)
  | inr e ↦ elim (Option-cases (check_message op payload)) [
    | inl k ↦ rw (e, k) (encode_frame-Keeps random op true payload c s)
    | inr (err, k) ↦ rw (e, k) (error-Keeps op s err)
  ]
]

perform-Keeps : (c : Call) (s : Sender) → Keeps (kind c) s (perform c s)
unfolding perform encode encode_compressed_message encode_fragment encode_close
perform-Keeps (whole random op payload) s = encode_checked-Keeps random op payload false s
perform-Keeps (compressed random op payload) s =
    elim (Bool-cases (not (op == text) && not (op == binary))) [
      | inl e ↦ rw e (error-Keeps op s protocol)
      | inr e ↦ rw e (encode_checked-Keeps random op payload true s)
    ]
perform-Keeps (fragment random op final payload c) s =
    elim (Bool-cases (not (op == text) && (not (op == binary) && not (op == continuation)))) [
      | inl e ↦ rw e (error-Keeps op s protocol)
      | inr e ↦ rw e (encode_frame-Keeps random op final payload c s)
    ]
perform-Keeps (closed random zero reason) s = elim (Bool-cases (length reason == 0)) [
  | inl e ↦ rw e (encode_checked-Keeps random close [] false s)
  | inr e ↦ rw e (error-Keeps close s protocol)
]
perform-Keeps (closed random (suc n) reason) s = elim (Bool-cases (ltb 123 (length reason))) [
  | inl e ↦ rw (suc-==-zero n, e) (error-Keeps close s protocol)
  | inr e ↦
      rw (suc-==-zero n, e) (encode_checked-Keeps random close (put_be 2 (suc n) ++ reason) false s)
]

-- Once a close frame has been sent, a call that would encode any other frame than a pong is refused
-- and leaves the sender's role, encoder and flag as they were, and no call takes the flag back.
pub perform-closed :
    (c : Call) (s : Sender)
    → s.close_sent ≡ true
    → ((perform c s).0.close_sent ≡ true)
      × (kind c ≢ pong → ((perform c s).0 ≡ s) × (is_frame (perform c s).1 ≡ false))
perform-closed c s e = let k = perform-Keeps c s in (k.1 e, λ o. k.0 e o)

close_frames-closed : (cs : List Call) (s : Sender) → s.close_sent ≡ true → close_frames cs s ≡ 0
unfolding close_frames
close_frames-closed [] s e = refl
close_frames-closed (c ∷ cs) s e =
    let (kept, silent) = perform-closed c s e in
    let rest = close_frames-closed cs (perform c s).0 kept in ground (arith, rest)

-- However a sender is called, it encodes at most one close frame.
pub close_frames-le : (cs : List Call) (s : Sender) → close_frames cs s ≤ 1
unfolding close_frames
close_frames-le [] s = omega arith
close_frames-le (c ∷ cs) s =
    let k = perform-Keeps c s in
    let rest = close_frames-le cs (perform c s).0 in
    let t = (perform c s).0 in
    elim (Bool-cases (is_frame (perform c s).1 && kind c == close)) [
      | inl e ↦ rw (e, close_frames-closed cs t (k.2 (ground arith) (ground arith))) (omega arith)
      | inr e ↦ rw e (omega arith)
    ]
