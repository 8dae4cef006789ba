-- ===== src/Ws/Receiver/Progress.antt =====
-- `Next` and `PayloadN` on the receiver's state between calls.
use ews.Common.{
  ℕ, ◌+◌, ◌-◌, ◌%◌, ◌≤◌, ◌<◌, ◌≡◌, refl, sym, subst, ◌∙◌, ap, leb, ◌⊎◌, inl, inr, Bool, true, false,
  ◌||◌, some, List, arith, ◌==◌, length, take, min, length-take, Option-cases, Bool-cases,
}
use ews.Codec.Opcode.{close}
use ews.Codec.Header.{Header, opcode, payload_len}
use ews.Codec.Decoder.{Decoder, next_header_into}
use ews.Codec.Decoder
use ews.Codec.Decoder.Consume.{
  payload_n-consumes, next_header_into-refused, next_header_into-accepted,
}
use ews.Codec.Mask.Size.{length-mask}
use ews.Codec.Encoder.{copy_at}
use ews.Ws.Errors.{protocol, decoding}
use ews.Ws.Receiver.{
  Receiver, max_control, is_some, fail, accept, accept_data, accept_continuation, accept_control,
  finish_frame, unmask_control, control_step, set_mask, open_frame, header_step, next, consumed,
  payload_n,
}
use ews.Ws.Receiver.Invariant.{
  IsValid, fail-IsValid, finish_frame-IsValid, finish_control-IsValid, length-copy_at,
  unmask_control-keeps,
}

-- The receiver with a chunk of the control frame in its buffer, still masked.
gathered : Receiver → Receiver
gathered r =
    let p = Decoder.payload r.dec in
    let n = min (max_control - r.control_len) (length p.1) in
    record r {
      dec = p.0;
      control = copy_at r.control_len (take n p.1) r.control;
      control_len = (r.control_len + n) % 256;
    }

abbrev closed_control : Receiver → Receiver
closed_control r = record r { control_open = false }

gathered-IsValid :
    (r : Receiver)
    → IsValid r
    → r.control_open ≡ true
    → is_some r.failed || r.close_received ≡ false
    → ((Decoder.payload r.dec).2 ≡ false → IsValid (gathered r))
      × ((Decoder.payload r.dec).2 ≡ true → IsValid (closed_control (gathered r)))
unfolding gathered Decoder.payload
gathered-IsValid r v c e =
    let f = payload_n-consumes (length r.dec.pending) r.dec in
    let chunk = (Decoder.payload_n (length r.dec.pending) r.dec).1 in
    let n = min (max_control - r.control_len) (length chunk) in
    let l = v.control_left c in
    let t = length-take {0} n chunk in
    let s = v.control_size in
    let k = length-copy_at r.control_len (take n chunk) r.control (omega arith) in
    (λ not_done. ground arith, λ done. ground arith)

with_buffer-IsValid :
    (r : Receiver) (c : List ℕ) (o : ℕ)
    → IsValid r
    → length c ≡ 125
    → o < 4
    → IsValid (record r { control = c; mask_offset = o })
with_buffer-IsValid r c o v size fits = ground arith

unmask_control-IsValid : (n : ℕ) (r : Receiver) → IsValid r → IsValid (unmask_control n r)
unmask_control-IsValid n r v =
    let k = unmask_control-keeps n r v.control_size v.control_fits v.offset_fits in
    subst IsValid (sym k.2) (with_buffer-IsValid r _ _ v k.0 k.1)

unmask_control-closed_control :
    (n : ℕ) (r : Receiver)
    → closed_control (unmask_control n r) ≡ unmask_control n (closed_control r)
unfolding unmask_control
unmask_control-closed_control n r = elim (Bool-cases r.masked_frame) [
  | inl e ↦ rw e refl
  | inr e ↦ rw e refl
]

control_step-IsValid :
    (r : Receiver)
    → IsValid r
    → r.control_open ≡ true
    → is_some r.failed || r.close_received ≡ false
    → IsValid (control_step r).0
unfolding control_step gathered
control_step-IsValid r v c e =
    let p = Decoder.payload r.dec in
    let n = min (max_control - r.control_len) (length p.1) in
    let (more, full) = gathered-IsValid r v c e in
    elim (Bool-cases p.2) [
      | inr d ↦ rw d (unmask_control-IsValid n (gathered r) (more d))
      | inl d ↦
          let w = unmask_control-IsValid n (closed_control (gathered r)) (full d) in
          let g = full d in
          let same =
            (unmask_control-keeps n (closed_control (gathered r)) g.control_size g.control_fits
              g.offset_fits).2 in
          rw (d, unmask_control-closed_control n (gathered r))
            (finish_control-IsValid (unmask_control n (closed_control (gathered r))) w
              (ap (λ t. t.control_open) same)
              (ap (λ t. t.remaining) same ∙ (unfold gathered in (v.control_left c).0)))
    ]

-- What an accepted header leaves behind.
abbrev Fresh : Receiver → ℕ → Type 0
Fresh r n =
    IsValid r
    × (r.remaining ≡ 0)
    × (r.control_open ≡ false)
    × (is_some r.failed || r.close_received ≡ false)

open_frame-IsValid :
    (n : ℕ) (r : Receiver)
    → IsValid (record r { dec = record (r.dec) { remaining = 0 } })
    → r.dec.remaining ≡ n
    → n ≤ 125 ⊎ (leb close (opcode r.header) ≡ false)
    → r.remaining ≡ 0
    → r.control_open ≡ false
    → is_some r.failed || r.close_received ≡ false
    → IsValid (open_frame n r).0
unfolding open_frame
open_frame-IsValid n r v l small z c e = elim (Bool-cases (leb close (opcode r.header))) [
  | inl k ↦ elim (Bool-cases (n == 0)) [
    | inl none_left ↦ rw (k, none_left) (finish_control-IsValid _ (ground arith) c z)
    | inr some_left ↦ rw (k, some_left) (control_step-IsValid _ (ground arith) refl e)
  ]
  | inr k ↦ elim (Bool-cases (n == 0)) [
    | inl none_left ↦ rw (k, none_left) (finish_frame-IsValid _ (ground arith))
    | inr some_left ↦ rw (k, some_left) (ground arith)
  ]
]

-- Acceptance changes at most the open message, and bounds the payload of a control frame.
accept-keeps :
    (r r' : Receiver) (h : Header) (n : ℕ)
    → accept r h n ≡ some r'
    → r.message_opcode ≤ 2
    → (r' ≡ record r { message_opcode = r'.message_opcode; compressed = r'.compressed })
      × (r'.message_opcode ≤ 2)
      × (n ≤ 125 ⊎ (leb close (opcode h) ≡ false))
unfolding accept accept_data accept_continuation accept_control
accept-keeps r r' h n e k = ground arith

-- A header that was taken off the input and accepted.
accepted_frame-IsValid :
    (r : Receiver) (d : Decoder) (h : Header) (r' : Receiver)
    → Fresh r 0
    → d.remaining ≡ payload_len h
    → accept (record r { dec = d; header = h }) h (payload_len h) ≡ some r'
    → IsValid (open_frame (payload_len h) (set_mask r')).0
accepted_frame-IsValid r d h r' (v, z, c, e) left a =
    let (same, kind, small) =
      accept-keeps (record r { dec = d; header = h }) r' h (payload_len h) a v.message_kind in
    let q : Receiver = record r {
      dec = d;
      header = h;
      message_opcode = r'.message_opcode;
      compressed = r'.compressed;
    } in
    subst (λ t. IsValid (open_frame (payload_len h) (set_mask t)).0) (sym same)
      (unfold set_mask in
        open_frame-IsValid (payload_len h) (set_mask q) (ground arith) left small z c e)

header_step-IsValid : (r : Receiver) → Fresh r 0 → IsValid (header_step r).0
unfolding header_step
header_step-IsValid r (v, z, c, e) =
    let p = next_header_into r.dec r.header in
    elim (Bool-cases p.2) [
      | inl found ↦
          let (whole, short, left, empty, good) = next_header_into-accepted r.dec r.header found in
          elim (Option-cases
            (accept (record r { dec = p.0; header = p.1 }) p.1 (payload_len p.1))) [
              | inl refused ↦
                  rw (good, found, refused, header_step)
                    (unfold fail Decoder.reset in
                      fail-IsValid 1002 protocol (record r { header = p.1 }) (ground arith))
              | inr (r', ok) ↦
                  rw (good, found, ok, header_step)
                    (accepted_frame-IsValid r p.0 p.1 r' (v, z, c, e) left ok)
            ]
      | inr missing ↦
          let same = next_header_into-refused r.dec r.header missing in
          elim (Option-cases p.3) [
            | inl quiet ↦ rw (quiet, missing, same, header_step) (ground arith)
            | inr (err, bad) ↦
                rw (bad, same, header_step)
                  (fail-IsValid 1002 (decoding err) (record r { header = p.1 }) (ground arith))
          ]
    ]

-- `Next` keeps the state valid, on every path: errors, waiting, control frames and data frames.
pub next-IsValid : (r : Receiver) → IsValid r → IsValid (next r).0
unfolding next
next-IsValid r v = elim (Option-cases r.failed) [
  | inr (f, e) ↦ simp (e, next) v
  | inl e ↦ elim (Bool-cases (r.remaining == 0)) [
    | inr some_left ↦ simp (e, some_left, next) v
    | inl none_left ↦ elim (Bool-cases r.close_received) [
      | inl closed ↦ simp (e, none_left, closed, next) v
      | inr not_closed ↦ elim (Bool-cases r.control_open) [
        | inl open_control ↦
            simp (e, none_left, not_closed, open_control, next)
              (control_step-IsValid r v open_control (ground arith))
        | inr quiet ↦
            simp (e, none_left, not_closed, quiet, next)
              (header_step-IsValid r (v, ground arith, quiet, ground arith))
      ]
    ]
  ]
]

consumed-IsValid :
    (r : Receiver) (d : Decoder) (chunk : List ℕ) (done : Bool)
    → IsValid r
    → r.control_open ≡ false
    → is_some r.failed || r.close_received ≡ false
    → d.remaining + length chunk ≡ r.remaining
    → IsValid (consumed chunk done (record r { dec = d })).0
unfolding consumed finish_frame
consumed-IsValid r d chunk done v c e l =
    ground (arith, length-mask chunk r.frame_key r.mask_offset)

-- While payload is left, a data frame is open and nothing has ended.
pub not_open : (r : Receiver) → IsValid r → (r.remaining == 0) ≡ false → r.control_open ≡ false
not_open r v left = ground arith

not_ended :
    (r : Receiver)
    → IsValid r
    → (r.remaining == 0) ≡ false
    → is_some r.failed || r.close_received ≡ false
not_ended r v left = ground arith

-- `PayloadN` keeps the state valid.
pub payload_n-IsValid : (n : ℕ) (r : Receiver) → IsValid r → IsValid (payload_n n r).0
unfolding payload_n
payload_n-IsValid n r v = elim (Option-cases r.failed) [
  | inr (f, e) ↦ rw (e, payload_n) v
  | inl e ↦ elim (Bool-cases (r.remaining == 0)) [
    | inl none_left ↦ rw (e, none_left, payload_n) v
    | inr some_left ↦
        let p = Decoder.payload_n n r.dec in
        rw (e, some_left, payload_n)
          (consumed-IsValid r p.0 p.1 p.2 v (not_open r v some_left) (not_ended r v some_left)
            ((payload_n-consumes n r.dec).1 ∙ v.data_left (not_open r v some_left)))
  ]
]
