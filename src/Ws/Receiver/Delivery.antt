-- ===== src/Ws/Receiver/Delivery.antt =====
-- One whole data frame through `Next` and `PayloadN`.
use ews.Common.{
  ℕ, ◌≡◌, inl, inr, refl, sym, ap, subst, ◌∙◌, Bool, true, false, Option, none, List, [], ◌==◌,
  length, if◌then◌else◌, length-zero, ==_iff, Bool-cases,
}
use ews.Codec.Opcode.{Opcode}
use ews.Codec.Mask.{MaskKey, key_bytes}
use ews.Codec.Header.{Header, payload_len, is_final, rsv1, rsv2, rsv3, opcode, masked, mask_key}
use ews.Codec.Decoder.{Decoder, next_header_into}
use ews.Codec.Decoder
use ews.Codec.RoundTrip.{unmask}
use ews.Codec.Wire.{is_masked}
use ews.Ws.Receiver.{
  Receiver, data_frame, is_server, set_mask, copy_key, open_frame, finish_frame, next, payload_n,
}
use mathlib.Core.Option
use ews.Ws.Receiver.Frames.{
  IsReady, Follows, message_after, compressed_after, accept_frame, unmasked, unmasked-unmask,
  open_data, next-ready, header_step-accepted, Follows-small, finish_frame-final, payload_n-empty,
  payload_n-none, payload_n-some, offset_after, consumed-whole,
}

-- A data frame announced by `Next` and then read whole by `PayloadN`: the payload is unmasked, the
-- message is closed by a final frame, and the receiver is ready for the next frame.
pub record Delivers (r : Receiver) (op : Opcode) (final : Bool) (payload rest : List ℕ)
    : Type 0 where
  pub announced : (next r).1 ≡ data_frame
  pub no_error : (next r).2 ≡ none
  pub read : (payload_n (length payload) (next r).0).1 ≡ payload
  pub completed : (payload_n (length payload) (next r).0).2 ≡ true
  pub read_error : (payload_n (length payload) (next r).0).3 ≡ none
  pub message :
      (payload_n (length payload) (next r).0).0.message_opcode
      ≡ (if final then 0 else message_after r op)
  pub left : (payload_n (length payload) (next r).0).0.dec.pending ≡ rest
  pub ready : IsReady (payload_n (length payload) (next r).0).0

-- The receiver after the whole payload.
abbrev ended : Bool → List ℕ → ℕ → Receiver → Receiver
ended final rest offset r = record r {
  dec = record (r.dec) { pending = rest; remaining = 0 };
  mask_offset = offset;
  message_opcode = if final then 0 else r.message_opcode;
  remaining = 0;
}

Delivers-ended :
    (r s : Receiver) (op : Opcode) (final : Bool) (payload rest : List ℕ) (offset : ℕ)
    (b : Receiver)
    → next r ≡ (s, data_frame, none)
    → payload_n (length payload) s ≡ (ended final rest offset b, payload, true, none)
    → b.failed ≡ none
    → b.close_received ≡ false
    → b.control_open ≡ false
    → b.message_opcode ≡ message_after r op
    → Delivers r op final payload rest
Delivers-ended r s op final payload rest offset b n p f c o m =
    let e = ap (λ x. payload_n (length payload) x.0) n ∙ p in
    record {
      announced = ap (λ x. x.1) n;
      no_error = ap (λ x. x.2) n;
      read = ap (λ x. x.1) e;
      completed = ap (λ x. x.2) e;
      read_error = ap (λ x. x.3) e;
      message = ap (λ x. x.0.message_opcode) e ∙ ap (λ k. if final then 0 else k) m;
      left = ap (λ x. x.0.dec.pending) e;
      ready = subst IsReady (sym (ap (λ x. x.0) e)) (record {
        not_failed = f;
        not_closed = c;
        no_control = o;
        no_data = refl;
        drained = refl;
      });
    }

module _ (r : Receiver) (v : IsReady r) (d : Decoder) (h : Header) (op : Opcode) (n : ℕ)
    (taken : next_header_into r.dec r.header ≡ (d, h, true, none)) (m : masked h ≡ is_server r.role)
    (r1 : rsv1 h ≡ false) (r2 : rsv2 h ≡ false) (r3 : rsv3 h ≡ false) (o : opcode h ≡ op)
    (follows : Follows r op) (len : payload_len h ≡ n) where
  -- The receiver once the header has been accepted.
  unfoldable pub begun : Receiver
  begun = record r {
    dec = d;
    header = h;
    masked_frame = masked h;
    mask_offset = 0;
    frame_key = if masked h then copy_key (mask_key h) r.frame_key else r.frame_key;
    message_opcode = message_after r op;
    compressed = compressed_after r op;
    remaining = n;
  }

  pub next-begun : next r ≡ (if n == 0 then finish_frame begun else begun, data_frame, none)
  unfolding begun set_mask message_after compressed_after
  next-begun =
      next-ready r v
      ∙ header_step-accepted r _ d h taken (
          accept_frame (record r { dec = d; header = h }) h (payload_len h) op m r1 r2 r3 o follows)
      ∙ ap
          (λ k. open_frame k (
            set_mask (record r {
              dec = d;
              header = h;
              message_opcode = message_after r op;
              compressed = compressed_after r op;
            })))
          len
      ∙ open_data n
          (set_mask (record r {
            dec = d;
            header = h;
            message_opcode = message_after r op;
            compressed = compressed_after r op;
          }))
          (Follows-small r op h o follows) v.no_data

  module _ (final : Bool) (key : Option MaskKey) (body payload rest : List ℕ)
      (f : is_final h ≡ final) (hm : masked h ≡ is_masked key)
      (hk : mask_key h ≡ Option.map key_bytes key) (left : d.remaining ≡ n)
      (drain : Decoder.payload_n n d ≡ (record d { pending = rest; remaining = 0 }, body, true))
      (size : length body ≡ n) (plain : unmask key body ≡ payload)
      (same_size : length payload ≡ n) where
    payload_n-empty_frame :
        n ≡ 0
        → payload_n (length payload) (finish_frame begun)
          ≡ (ended final rest 0 begun, payload, true, none)
    unfolding begun
    payload_n-empty_frame z =
        let e = sym (payload_n-empty n d (left ∙ z)) ∙ drain in
        let finished : finish_frame begun ≡ ended final rest 0 begun =
          finish_frame-final begun
          ∙ ap (λ k. record begun { message_opcode = if k then 0 else begun.message_opcode }) f
          ∙ ap
              (λ k. record begun {
                remaining = k;
                message_opcode = if final then 0 else begun.message_opcode;
              })
              z
          ∙ ap
              (λ k. record begun {
                dec = k;
                remaining = 0;
                message_opcode = if final then 0 else begun.message_opcode;
              })
              (ap (λ x. x.0) e) in
        payload_n-none (length payload) (finish_frame begun)
          (ap (λ s. s.failed) finished ∙ v.not_failed) (ap (λ s. s.remaining) finished)
        ∙ ap (λ s. (s, [], true, none)) finished
        ∙ ap (λ s. (ended final rest 0 begun, s, true, none))
            (sym (length-zero payload (same_size ∙ z)))

    payload_n-full_frame :
        (n == 0) ≡ false
        → payload_n (length payload) begun
          ≡ (ended final rest (offset_after begun body) begun, payload, true, none)
    unfolding begun
    payload_n-full_frame z =
        let whole : Decoder = record d { pending = rest; remaining = 0 } in
        payload_n-some (length payload) begun whole body v.not_failed z
          (ap (λ k. Decoder.payload_n k d) same_size ∙ drain)
        ∙ consumed-whole (record begun { dec = whole }) body (ap (λ k. k == 0) size ∙ z) (sym size)
            refl
        ∙ ap (λ s. (s, unmasked (masked h) begun.frame_key body, true, none))
            (finish_frame-final
              (record begun { dec = whole; mask_offset = offset_after begun body; remaining = 0 }))
        ∙ ap
            (λ s. (
              record begun {
                dec = whole;
                mask_offset = offset_after begun body;
                remaining = 0;
                message_opcode = if is_final h then 0 else begun.message_opcode;
              },
              s,
              true,
              none,
            ))
            (unmasked-unmask key h r.frame_key body hm hk ∙ plain)
        ∙ ap (λ k. (ended k rest (offset_after begun body) begun, payload, true, none)) f

    pub delivers : Delivers r op final payload rest
    unfolding begun
    delivers = elim (Bool-cases (n == 0)) [
      | inl z ↦
          Delivers-ended r (finish_frame begun) op final payload rest 0 begun
            (next-begun ∙ ap (λ k. (if k then finish_frame begun else begun, data_frame, none)) z)
            (payload_n-empty_frame ((==_iff n 0).0 z)) v.not_failed v.not_closed v.no_control refl
      | inr z ↦
          Delivers-ended r begun op final payload rest (offset_after begun body) begun
            (next-begun ∙ ap (λ k. (if k then finish_frame begun else begun, data_frame, none)) z)
            (payload_n-full_frame z) v.not_failed v.not_closed v.no_control refl
    ]
