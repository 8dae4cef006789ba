-- ===== src/Ws/Receiver/Amounts.antt =====
-- How much input `Next` and `PayloadN` take.
use ews.Common.{
  ℕ, ◌+◌, ◌≤◌, ◌<◌, ◌≡◌, ◌≢◌, refl, sym, subst, ◌∙◌, ap, inl, inr, Bool, true, false, Option, none,
  some, List, arith, leb, ◌==◌, length, get_or, length-append, length-drop, Option-cases,
  Bool-cases,
}
use ews.Codec.Opcode.{close}
use ews.Codec.Header.{Header, opcode, payload_len}
use ews.Codec.Decoder.{Decoder, next_header_into, header_size}
use ews.Codec.Decoder
use ews.Codec.Decoder.Consume.{
  payload_n-consumes, next_header_into-refused, next_header_into-accepted, header_size_bounds,
}
use ews.Codec.Mask.Size.{length-mask}
use ews.Ws.Errors.{Cause, Failure}
use ews.Ws.Receiver.{
  Receiver, FrameKind, NextError, need_input, data_frame, fail, accept, accept_data,
  accept_continuation, accept_control, finish_frame, finish_control, unmask_control, control_step,
  set_mask, open_frame, header_step, next, consumed, payload_n, payload,
}
use ews.Ws.Receiver.Invariant.{IsValid}
use ews.Ws.Receiver.Progress.{not_open, payload_n-IsValid}

-- A result of `Next` with `n` bytes of input before: a frame takes some of it, and a data frame
-- leaves its payload to be read.
pub record Takes (n : ℕ) (x : Receiver × FrameKind × Option NextError) : Type 0 where
  pub within : length x.0.dec.pending ≤ n
  pub frame_takes : x.1 ≢ need_input → length x.0.dec.pending < n
  pub announced : x.1 ≡ data_frame → x.0.remaining ≡ payload_len x.0.header

waits-Takes :
    (n : ℕ) (r : Receiver) (err : Option NextError)
    → length r.dec.pending ≤ n
    → Takes n (r, need_input, err)
waits-Takes n r err h = record {
  within = h;
  frame_takes = λ k. absurd (k refl);
  announced = λ k. cc;
}

Takes-weaken :
    (m n : ℕ) (x : Receiver × FrameKind × Option NextError) → m ≤ n → Takes m x → Takes n x
Takes-weaken m n x h t = record {
  within = omega (arith, t.within);
  frame_takes = λ k. omega (arith, t.frame_takes k);
  announced = t.announced;
}

finish_control-Takes :
    (n : ℕ) (r : Receiver) → length r.dec.pending < n → Takes n (finish_control r)
unfolding finish_control fail Decoder.reset
finish_control-Takes n r h = ground arith

unmask_control-keeps_dec : (n : ℕ) (r : Receiver) → (unmask_control n r).dec ≡ r.dec
unfolding unmask_control
unmask_control-keeps_dec n r = elim (Bool-cases r.masked_frame) [
  | inl e ↦ rw e refl
  | inr e ↦ rw e refl
]

control_step-Takes :
    (r : Receiver) → 0 < r.dec.remaining → Takes (length r.dec.pending) (control_step r)
unfolding control_step Decoder.payload
control_step-Takes r h =
    let n = length r.dec.pending in
    let p = Decoder.payload_n n r.dec in
    let (split, left, few, done) = payload_n-consumes n r.dec in
    let total = length-append p.1 p.0.pending in
    let sum : length p.1 + length p.0.pending ≡ n = sym total ∙ ap length split in
    elim (Bool-cases p.2) [
      | inl e ↦ rw e (finish_control-Takes n _ (rw (unmask_control-keeps_dec) (ground arith)))
      | inr e ↦ rw e (waits-Takes n _ none (rw (unmask_control-keeps_dec) (omega arith)))
    ]

open_frame-Takes :
    (n k : ℕ) (r : Receiver)
    → length r.dec.pending < n
    → r.dec.remaining ≡ k
    → k ≡ payload_len r.header
    → Takes n (open_frame k r)
unfolding open_frame
open_frame-Takes n k r h left e = elim (Bool-cases (leb close (opcode r.header))) [
  | inl c ↦ elim (Bool-cases (k == 0)) [
    | inl z ↦ rw (c, z) (finish_control-Takes n _ h)
    | inr z ↦
        rw (c, z)
          (Takes-weaken (length r.dec.pending) n _ (omega arith)
            (control_step-Takes _ (ground arith)))
  ]
  | inr c ↦ rw c (unfold finish_frame in ground arith)
]

-- The receiver that acceptance and the mask's key leave.
set_mask-keeps : (r : Receiver) → ((set_mask r).dec ≡ r.dec) × ((set_mask r).header ≡ r.header)
unfolding set_mask
set_mask-keeps r = (refl, refl)

accept-keeps_dec :
    (r r' : Receiver) (h : Header) (n : ℕ)
    → accept r h n ≡ some r'
    → (r'.dec ≡ r.dec) × (r'.header ≡ r.header)
unfolding accept accept_data accept_continuation accept_control
accept-keeps_dec r r' h n e = ground arith

pub next_header_into-shorter :
    (d : Decoder) (h : Header)
    → (next_header_into d h).2 ≡ true
    → length (next_header_into d h).0.pending < length d.pending
unfolding next_header_into
next_header_into-shorter d h found =
    let n = header_size (get_or d.pending 1 0) in
    ground (arith, header_size_bounds (get_or d.pending 1 0), length-drop {0} n d.pending)

fail-Takes : (n code : ℕ) (err : Cause) (r : Receiver) → Takes n (fail code err r)
unfolding fail Decoder.reset
fail-Takes n code err r = waits-Takes n _ _ (omega arith)

header_step-Takes : (r : Receiver) → Takes (length r.dec.pending) (header_step r)
unfolding header_step
header_step-Takes r =
    let p = next_header_into r.dec r.header in
    let n = length r.dec.pending in
    elim (Bool-cases p.2) [
      | inl found ↦
          let (whole, short, left, empty, good) = next_header_into-accepted r.dec r.header found in
          let fewer : length p.0.pending < n = next_header_into-shorter r.dec r.header found in
          elim (Option-cases
            (accept (record r { dec = p.0; header = p.1 }) p.1 (payload_len p.1))) [
              | inl refused ↦ rw (good, found, refused, header_step) (fail-Takes n _ _ _)
              | inr (r', ok) ↦
                  let (d, h) = accept-keeps_dec _ r' p.1 (payload_len p.1) ok in
                  rw (good, found, ok, header_step)
                    (open_frame-Takes n (payload_len p.1) (set_mask r')
                      (rw ((set_mask-keeps r').0, d) fewer)
                      (ap (λ t. t.remaining) ((set_mask-keeps r').0 ∙ d) ∙ left)
                      (sym (ap payload_len ((set_mask-keeps r').1 ∙ h))))
            ]
      | inr missing ↦
          let same = next_header_into-refused r.dec r.header missing in
          elim (Option-cases p.3) [
            | inl quiet ↦ rw (quiet, missing, same, header_step) (waits-Takes n _ _ (omega arith))
            | inr (err, bad) ↦ rw (bad, same, header_step) (fail-Takes n _ _ _)
          ]
    ]

-- `Next` never adds to the input, a frame takes some of it, and a data frame leaves its payload to
-- be read.
pub next-Takes : (r : Receiver) → IsValid r → Takes (length r.dec.pending) (next r)
unfolding next
next-Takes r v =
    let n = length r.dec.pending in
    elim (Option-cases r.failed) [
      | inr (f, e) ↦ simp (e, next) (waits-Takes n r _ (omega arith))
      | inl e ↦ elim (Bool-cases (r.remaining == 0)) [
        | inr some_left ↦ simp (e, some_left, next) (waits-Takes n r _ (omega arith))
        | inl none_left ↦ elim (Bool-cases r.close_received) [
          | inl closed ↦ simp (e, none_left, closed, next) (waits-Takes n r _ (omega arith))
          | inr not_closed ↦ elim (Bool-cases r.control_open) [
            | inl open_control ↦
                simp (e, none_left, not_closed, open_control, next)
                  (control_step-Takes r (v.control_left open_control).1)
            | inr quiet ↦ simp (e, none_left, not_closed, quiet, next) (header_step-Takes r)
          ]
        ]
      ]
    ]

-- A result of `PayloadN`: the bytes come off the input and off the frame.
pub record Reads (r : Receiver) (x : Receiver × List ℕ × Bool × Option Failure) : Type 0 where
  pub off_input : length x.0.dec.pending + length x.1 ≤ length r.dec.pending
  pub off_frame : x.3 ≡ none → x.0.remaining + length x.1 ≡ r.remaining
  pub done : x.2 ≡ true → x.0.remaining ≡ 0

consumed-Reads :
    (r : Receiver) (d : Decoder) (body : List ℕ) (done : Bool)
    → d.remaining + length body ≡ r.remaining
    → length d.pending + length body ≤ length r.dec.pending
    → done ≡ (d.remaining == 0)
    → Reads r (consumed body done (record r { dec = d }))
unfolding consumed finish_frame
consumed-Reads r d body done left fewer e = record {
  off_input = ground (arith, length-mask body r.frame_key r.mask_offset);
  off_frame = λ k. ground (arith, length-mask body r.frame_key r.mask_offset);
  done = λ k. ground (arith, length-mask body r.frame_key r.mask_offset);
}

pub payload_n-open :
    (n : ℕ) (r : Receiver)
    → r.failed ≡ none
    → (r.remaining == 0) ≡ false
    → let p = Decoder.payload_n n r.dec in consumed p.1 p.2 (record r { dec = p.0 }) ≡ payload_n n r
unfolding payload_n
payload_n-open n r e left = simp (e, left, payload_n)

pub payload_n-Reads : (n : ℕ) (r : Receiver) → IsValid r → Reads r (payload_n n r)
unfolding payload_n
payload_n-Reads n r v = elim (Option-cases r.failed) [
  | inr (f, e) ↦
      simp (e, payload_n) (record { off_input = omega arith; off_frame = λ k. cc; done = λ k. cc })
  | inl e ↦ elim (Bool-cases (r.remaining == 0)) [
    | inl none_left ↦
        simp (e, none_left, payload_n)
          (record {
            off_input = omega arith;
            off_frame = λ k. omega arith;
            done = λ k. ground arith;
          })
    | inr some_left ↦
        let p = Decoder.payload_n n r.dec in
        let (split, left, few, done) = payload_n-consumes n r.dec in
        let total = length-append p.1 p.0.pending in
        let sum : length p.1 + length p.0.pending ≡ length r.dec.pending =
          sym total ∙ ap length split in
        subst (Reads r) (payload_n-open n r e some_left) (
          consumed-Reads r p.0 p.1 p.2 (left ∙ v.data_left (not_open r v some_left)) (omega arith)
            done)
  ]
]

pub payload-Reads : (r : Receiver) → IsValid r → Reads r (payload r)
unfolding payload
payload-Reads r = payload_n-Reads (Decoder.buffered r.dec) r

pub payload-IsValid : (r : Receiver) → IsValid r → IsValid (payload r).0
unfolding payload
payload-IsValid r = payload_n-IsValid (Decoder.buffered r.dec) r
