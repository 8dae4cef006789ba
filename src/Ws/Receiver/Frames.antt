-- ===== src/Ws/Receiver/Frames.antt =====
-- Lemmas on `Next` and `PayloadN` for one whole data frame: the steps of each.
use ews.Common.{
  ℕ, ◌-◌, ◌≡◌, ◌≢◌, ◌⊎◌, inl, inr, refl, ap, Bool, true, false, Option, none, some, List, [], arith,
  ◌==◌, length, if◌then◌else◌, leb, Bool-cases,
}
use ews.Codec.Opcode.{Opcode, continuation, text, binary, close}
use ews.Codec.Mask.{MaskKey, key_bytes, mask}
use ews.Codec.Header.{Header, payload_len, is_final, rsv1, rsv2, rsv3, opcode, masked, mask_key}
use ews.Codec.Decoder.{Decoder, next_header_into}
use ews.Codec.Decoder
use ews.Codec.RoundTrip.{unmask}
use ews.Codec.Wire.{is_masked}
use ews.Ws.Receiver.{
  Receiver, data_frame, is_server, accept, accept_data, accept_continuation, set_mask, copy_key,
  open_frame, header_step, finish_frame, next, consumed, payload_n,
}
use mathlib.Core.Option

-- No frame is in progress, and reading has not ended.
pub record IsReady (r : Receiver) : Type 0 where
  pub not_failed : r.failed ≡ none
  pub not_closed : r.close_received ≡ false
  pub no_control : r.control_open ≡ false
  pub no_data : r.remaining ≡ 0
  pub drained : r.dec.remaining ≡ 0

-- A first frame when no message is open, a continuation when one is.
abbrev pub Follows : Receiver → Opcode → Type 0
Follows r op =
    ((op ≡ text) ⊎ (op ≡ binary)) × (r.message_opcode ≡ 0)
    ⊎ (op ≡ continuation) × (r.message_opcode ≢ 0)

-- The message that is open once the frame's header has been accepted.
unfoldable pub message_after : Receiver → Opcode → Opcode
message_after r op = if op == continuation then r.message_opcode else op

unfoldable pub compressed_after : Receiver → Opcode → Bool
compressed_after r op = if op == continuation then r.compressed else false

pub accept_frame :
    (r : Receiver) (h : Header) (n : ℕ) (op : Opcode)
    → masked h ≡ is_server r.role
    → rsv1 h ≡ false
    → rsv2 h ≡ false
    → rsv3 h ≡ false
    → opcode h ≡ op
    → Follows r op
    → accept r h n
      ≡ some (record r { message_opcode = message_after r op; compressed = compressed_after r op })
unfolding accept accept_data accept_continuation message_after compressed_after
accept_frame r h n op m r1 r2 r3 o (inl (kind, free)) = ground arith
accept_frame r h n op m r1 r2 r3 o (inr (kind, busy)) = ground arith

-- The key that `Next` keeps for the frame.
pub copy_key-key_bytes : (k old : MaskKey) → copy_key (some (key_bytes k)) old ≡ k
unfolding copy_key key_bytes
copy_key-key_bytes k old = refl

-- Unmasking as the receiver does it, by the flag and the key that it keeps.
abbrev pub unmasked : Bool → MaskKey → List ℕ → List ℕ
unmasked true k s = (mask s k 0).0
unmasked false k s = s

pub unmasked-unmask :
    (key : Option MaskKey) (h : Header) (old : MaskKey) (s : List ℕ)
    → masked h ≡ is_masked key
    → mask_key h ≡ Option.map key_bytes key
    → unmasked (masked h) (if masked h then copy_key (mask_key h) old else old) s ≡ unmask key s
unfolding unmask
unmasked-unmask none h old s m k = rw m refl
unmasked-unmask (some key) h old s m k =
    rw (m, k) (ap (λ t. (mask s t 0).0) (copy_key-key_bytes key old))

pub open_data :
    (n : ℕ) (r : Receiver)
    → leb close (opcode r.header) ≡ false
    → r.remaining ≡ 0
    → open_frame n r ≡ (
      if n == 0 then finish_frame (record r { remaining = n }) else record r { remaining = n },
      data_frame,
      none,
    )
unfolding open_frame
open_data n r small z = rw small refl

pub next-ready : (r : Receiver) → IsReady r → next r ≡ header_step r
unfolding next
next-ready r v = simp (v.not_failed, v.no_data, v.not_closed, v.no_control, next)

pub header_step-accepted :
    (r r' : Receiver) (d : Decoder) (h : Header)
    → next_header_into r.dec r.header ≡ (d, h, true, none)
    → accept (record r { dec = d; header = h }) h (payload_len h) ≡ some r'
    → header_step r ≡ open_frame (payload_len h) (set_mask r')
unfolding header_step
header_step-accepted r r' d h e a = simp (e, a, header_step)

pub Follows-small :
    (r : Receiver) (op : Opcode) (h : Header)
    → opcode h ≡ op
    → Follows r op
    → leb close (opcode h) ≡ false
Follows-small r op h o (inl (kind, free)) = ground arith
Follows-small r op h o (inr (kind, busy)) = ground arith

pub finish_frame-final :
    (r : Receiver)
    → finish_frame r
      ≡ record r { message_opcode = if is_final r.header then 0 else r.message_opcode }
unfolding finish_frame
finish_frame-final r = elim (Bool-cases (is_final r.header)) [
  | inl e ↦ rw e refl
  | inr e ↦ rw e refl
]

pub payload_n-empty :
    (n : ℕ) (d : Decoder) → d.remaining ≡ 0 → Decoder.payload_n n d ≡ (d, [], true)
unfolding Decoder.payload_n
payload_n-empty n d z = rw z refl

pub payload_n-none :
    (k : ℕ) (b : Receiver) → b.failed ≡ none → b.remaining ≡ 0 → payload_n k b ≡ (b, [], true, none)
unfolding payload_n
payload_n-none k b f z = rw (f, z) refl

pub payload_n-some :
    (k : ℕ) (b : Receiver) (d : Decoder) (body : List ℕ)
    → b.failed ≡ none
    → (b.remaining == 0) ≡ false
    → Decoder.payload_n k b.dec ≡ (d, body, true)
    → payload_n k b ≡ consumed body true (record b { dec = d })
unfolding payload_n
payload_n-some k b d body f full e = simp (f, full, e, payload_n)

-- The offset into the key after the payload.
abbrev pub offset_after : Receiver → List ℕ → ℕ
offset_after b body = if b.masked_frame then (mask body b.frame_key 0).1 else 0

pub consumed-whole :
    (b : Receiver) (body : List ℕ)
    → (length body == 0) ≡ false
    → b.remaining ≡ length body
    → b.mask_offset ≡ 0
    → consumed body true b ≡ (
      finish_frame (record b { mask_offset = offset_after b body; remaining = 0 }),
      unmasked b.masked_frame b.frame_key body,
      true,
      none,
    )
unfolding consumed
consumed-whole b body full r o =
    let gone : length body - length body ≡ 0 = omega arith in
    elim (Bool-cases b.masked_frame) [
      | inl e ↦ rw (o, full, r, gone, e) refl
      | inr e ↦ rw (o, full, r, gone, e) refl
    ]
