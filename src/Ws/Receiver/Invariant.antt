-- ===== src/Ws/Receiver/Invariant.antt =====
-- The receiver's state between calls.
use ews.Common.{
  ℕ, ◌+◌, ◌-◌, ◌≤◌, ◌<◌, ◌≡◌, refl, Bool, true, false, ◌||◌, some, List, [], ◌++◌, arith, length,
  take, drop, length-append, length-take, length-drop,
}
use ews.Codec.Header.{Header, slice}
use ews.Codec.Mask.{mask}
use ews.Codec.Mask.Size.{length-mask}
use ews.Codec.Decoder.{Decoder, next_header_into}
use ews.Codec.Decoder
use ews.Codec.Encoder.{copy_at}
use ews.Ws.Errors.{Role, Cause}
use ews.Ws.Receiver.{
  Receiver, is_some, init, feed, preserve, fail, accept, accept_data, accept_continuation,
  accept_control, finish_frame, finish_control, unmask_control, set_mask,
}

pub record IsValid (r : Receiver) : Type 0 where
  -- The control frame's buffer.
  pub control_size : length r.control ≡ 125
  pub control_fits : r.control_len ≤ 125
  -- No message, or a text or binary one.
  pub message_kind : r.message_opcode ≤ 2
  pub offset_fits : r.mask_offset < 4
  -- The decoder and the receiver agree on what is left of the frame that is open.
  pub data_left : r.control_open ≡ false → r.dec.remaining ≡ r.remaining
  pub control_left :
      r.control_open ≡ true
      → (r.remaining ≡ 0) × (0 < r.dec.remaining) × (r.control_len + r.dec.remaining ≤ 125)
  -- After a failure or a close nothing is open and nothing is kept.
  pub ended :
      is_some r.failed || r.close_received ≡ true
      → (r.remaining ≡ 0) × (r.control_open ≡ false) × (r.dec.pending ≡ [])
  pub failed_closed : is_some r.failed ≡ true → r.message_opcode ≡ 0

pub init-IsValid :
    (role : Role) (compression : Bool) (r : Receiver) → IsValid (init role compression r)
unfolding init Decoder.reset
init-IsValid role compression r = record {
  control_size = refl;
  control_fits = omega arith;
  message_kind = omega arith;
  offset_fits = omega arith;
  data_left = λ e. refl;
  control_left = λ e. cc;
  ended = λ e. cc;
  failed_closed = λ e. cc;
}

pub feed-IsValid : (b : List ℕ) (r : Receiver) → IsValid r → IsValid (feed b r)
unfolding feed Decoder.feed
feed-IsValid b r v = ground arith

pub preserve-IsValid : (r : Receiver) → IsValid r → IsValid (preserve r)
unfolding preserve Decoder.preserve
preserve-IsValid r v = ground arith

pub fail-IsValid : (code : ℕ) (err : Cause) (r : Receiver) → IsValid r → IsValid (fail code err r).0
unfolding fail Decoder.reset
fail-IsValid code err r v = ground arith

pub finish_frame-IsValid : (r : Receiver) → IsValid r → IsValid (finish_frame r)
unfolding finish_frame
finish_frame-IsValid r v = ground arith

pub finish_control-IsValid :
    (r : Receiver)
    → IsValid r
    → r.control_open ≡ false
    → r.remaining ≡ 0
    → IsValid (finish_control r).0
unfolding finish_control fail Decoder.reset
finish_control-IsValid r v c z = ground arith

pub set_mask-IsValid : (r : Receiver) → IsValid r → IsValid (set_mask r)
unfolding set_mask
set_mask-IsValid r v = ground arith

pub accept-IsValid :
    (r r' : Receiver) (h : Header) (n : ℕ)
    → accept r h n ≡ some r'
    → IsValid r
    → is_some r.failed ≡ false
    → IsValid r'
unfolding accept accept_data accept_continuation accept_control
accept-IsValid r r' h n e v f = ground arith

pub length-copy_at :
    (i : ℕ) (b a : List ℕ) → i + length b ≤ length a → length (copy_at i b a) ≡ length a
unfolding copy_at
length-copy_at i b a h = omega (
  arith,
  length-append {0} (take i a) (b ++ drop (i + length b) a),
  length-append {0} b (drop (i + length b) a),
  length-take {0} i a,
  length-drop {0} (i + length b) a,
)

-- Unmasking in place keeps all but the buffer's content and the offset.
pub unmask_control-keeps :
    (n : ℕ) (r : Receiver)
    → length r.control ≡ 125
    → r.control_len ≤ 125
    → r.mask_offset < 4
    → let r' = unmask_control n r in
      (length r'.control ≡ 125)
      × (r'.mask_offset < 4)
      × (r' ≡ record r { control = r'.control; mask_offset = r'.mask_offset })
unfolding unmask_control
unmask_control-keeps n r size fits off =
    let s = slice r.control (r.control_len - n) r.control_len in
    let m = length-mask s r.frame_key r.mask_offset in
    ground (
      arith,
      m,
      length-copy_at (r.control_len - n) (mask s r.frame_key r.mask_offset).0 r.control,
      length-take (r.control_len - (r.control_len - n)) (drop (r.control_len - n) r.control),
      length-drop (r.control_len - n) r.control,
    )
