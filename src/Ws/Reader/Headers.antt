-- ===== src/Ws/Reader/Headers.antt =====
-- A frame's header from the transport, in whatever pieces: `nextFrame` of ws/conn_read.go.
use ews.Common.{
  ℕ, suc, ◌^◌, ◌≤◌, ◌<◌, ◌≡◌, inl, inr, refl, sym, ap, subst, ◌∙◌, Bool, true, false, Option, none,
  some, List, ◌++◌, arith, length, Bool-cases, if◌then◌else◌, ◌==◌, ◌&&◌,
}
use mathlib.Core.Option
use ews.Codec.Opcode.{Opcode}
use ews.Codec.Mask.{MaskKey, mask, key_bytes}
use ews.Codec.Mask.Reference.{IsKey}
use ews.Codec.Header.{Header, opcode, payload_len, masked, mask_key}
use ews.Codec.Wire.{is_masked, wire_header}
use ews.Common.Words.{IsBytes}
use ews.Ws.Reader.Carrying.{Carries}
use ews.Ws.Receiver.Delivery.{begun, next-begun}
use ews.Codec.RoundTrip.{unmask, IsKeyOption, decoded-mask_key, decoded, decoded_fields}
use ews.Codec.Decoder.{Decoder, next_header_into}
use ews.Ws.Receiver.{
  FrameKind, NextError, Receiver, copy_key, need_input, header_step, next, finish_frame, data_frame,
}
use ews.Ws.Receiver.Frames.{
  unmasked, copy_key-key_bytes, message_after, compressed_after, unmasked-unmask,
  finish_frame-final, next-ready,
}
use ews.Ws.Reader.{Reader, weight, fill, next_frame, next_frame_round, frame_step, Control}
use ews.Ws.Reader.Announcing.{less_weight}
use ews.Ws.Receiver.Amounts.{next_header_into-shorter}
use ews.Ws.Reader.Rules.{Returns, Goes, loop_lem, step_of_lem}
use ews.Ws.Reader.Flow.{Buffers-refl, Buffers-trans, flow, Buffers, fill-Buffers}
use ews.Ws.Reader.Completing.{found_lem, Buffers-Awaits, Awaits}

shorter :
    (d e : Decoder) (h h' : Header)
    → next_header_into d h ≡ (e, h', true, none)
    → length e.pending < length d.pending
shorter d e h h' got =
    omega
      (arith, next_header_into-shorter d h (ap (λ x. x.2) got), ap (λ x. length x.0.pending) got)

header_step-waits :
    (r : Receiver)
    → next_header_into r.dec r.header ≡ (r.dec, r.header, false, none)
    → header_step r ≡ (r, need_input, none)
unfolding header_step
header_step-waits r e = simp (e, header_step) refl

if-unmasked :
    (b : Bool) (k : MaskKey) (s : List ℕ) → (if b then (mask s k 0).0 else s) ≡ unmasked b k s
if-unmasked true k s = refl
if-unmasked false k s = refl

kept_key :
    (key : Option MaskKey) (h : Header) (old : MaskKey)
    → IsKeyOption key
    → masked h ≡ is_masked key
    → mask_key h ≡ Option.map key_bytes key
    → masked h ≡ true
    → IsKey (if masked h then copy_key (mask_key h) old else old)
kept_key none h old k m b e = absurd (ground (arith, m, e))
kept_key (some key) h old k m b e = rw (m, b) (subst IsKey (sym (copy_key-key_bytes key old)) k)

module _ (final : Bool) (op : Opcode) (n : ℕ) (key : Option MaskKey) (small : op < 16)
    (fits : n < 2 ^ 63) (body p rest : List ℕ) (plain : unmask key body ≡ p)
    (size : length body ≡ n) (bytes : IsBytes body) (key_ok : IsKeyOption key) where
  -- The receiver behind the header, an empty frame being finished.
  started :
      {W S : Type 0} (c : Reader W S) (d : Decoder)
      → Awaits final op n key small fits (body ++ rest) c
      → Receiver
  started c d a = record c.rx {
    dec = d;
    header = decoded (wire_header final false op n key) c.rx.header;
    masked_frame = masked (decoded (wire_header final false op n key) c.rx.header);
    mask_offset = 0;
    frame_key =
        if masked (decoded (wire_header final false op n key) c.rx.header)
        then copy_key (mask_key (decoded (wire_header final false op n key) c.rx.header))
            c.rx.frame_key
        else c.rx.frame_key;
    message_opcode = if n == 0 && final then 0 else message_after c.rx op;
    compressed = compressed_after c.rx op;
    remaining = n;
  }

  next-started :
      {W S : Type 0} (c : Reader W S) (d : Decoder)
      (a : Awaits final op n key small fits (body ++ rest) c)
      → next_header_into c.rx.dec c.rx.header
        ≡ (d, decoded (wire_header final false op n key) c.rx.header, true, none)
      → next c.rx ≡ (started c d a, data_frame, none)
  unfolding started begun
  next-started c d a e =
      let h = decoded (wire_header final false op n key) c.rx.header in
      let (f, r1, r2, r3, o, l, m) = decoded_fields final false op n key small fits c.rx.header in
      let go = next-begun c.rx a.ready d h op n e (m ∙ a.role) r1 r2 r3 o a.follows l in
      let b = begun c.rx a.ready d h op n e (m ∙ a.role) r1 r2 r3 o a.follows l in
      let finish : (if n == 0 then finish_frame b else b) ≡ started c d a =
        elim (Bool-cases (n == 0)) [
          | inl z ↦
              ap (λ k. if k then finish_frame b else b) z
              ∙ finish_frame-final b
              ∙ ap (λ k. record b { message_opcode = if k then 0 else b.message_opcode }) f
              ∙ ap (λ k. record b { message_opcode = if k && final then 0 else b.message_opcode })
                  (sym z)
          | inr z ↦
              ap (λ k. if k then finish_frame b else b) z
              ∙ ap (λ k. record b { message_opcode = if k && final then 0 else b.message_opcode })
                  (sym z)
        ] in
      go ∙ ap (λ t. (t, data_frame, none)) finish

  started-Carries :
      {W S : Type 0} (c : Reader W S) (d : Decoder)
      (a : Awaits final op n key small fits (body ++ rest) c)
      → d.pending ++ flow c.arrivals ≡ body ++ rest
      → d.remaining ≡ n
      → compressed_after c.rx op ≡ false
      → Carries (record c { rx = started c d a }) final (message_after c.rx op) p rest
  unfolding started
  started-Carries c d a e l z =
      let h = decoded (wire_header final false op n key) c.rx.header in
      record {
        body = body;
        flows = e;
        plain =
            if-unmasked (masked h) _ body
            ∙ unmasked-unmask key h c.rx.frame_key body
                (decoded_fields final false op n key small fits c.rx.header).6
                (decoded-mask_key final false op n key c.rx.header small fits)
            ∙ plain;
        bytes = bytes;
        key =
            kept_key key h c.rx.frame_key key_ok
              (decoded_fields final false op n key small fits c.rx.header).6
              (decoded-mask_key final false op n key c.rx.header small fits);
        left = sym size;
        dec_left = l ∙ sym size;
        message = ap (λ k. if k == 0 && final then 0 else message_after c.rx op) (sym size);
        last = (decoded_fields final false op n key small fits c.rx.header).0;
        not_compressed = z;
        not_failed = a.ready.not_failed;
        not_closed = a.ready.not_closed;
        no_control = a.ready.no_control;
        smooth = a.smooth;
        room = a.room;
      }

  -- From `c` on, the frame was announced: its payload and then `rest` are still to come.
  pub record Announces {W S : Type 0} (c t : Reader W S) : Type 0 where
    pub carries : Carries t final (message_after c.rx op) p rest
    pub others : t ≡ record c { rx = t.rx; arrivals = t.arrivals }
    pub header_size : payload_len t.rx.header ≡ n
    pub header_opcode : opcode t.rx.header ≡ op
    pub role : t.rx.role ≡ c.rx.role

  started-Announces :
      {W S : Type 0} (c d : Reader W S) (e : Decoder)
      (a : Awaits final op n key small fits (body ++ rest) d)
      → Buffers c d
      → e.pending ++ flow d.arrivals ≡ body ++ rest
      → e.remaining ≡ n
      → compressed_after c.rx op ≡ false
      → Announces c (record d { rx = started d e a })
  unfolding message_after compressed_after
  started-Announces c d e a b flows l z =
      let fields = decoded_fields final false op n key small fits d.rx.header in
      record {
        carries =
            subst (λ k. Carries (record d { rx = started d e a }) final k p rest)
              (ap (λ r. message_after r op) b.rx)
              (started-Carries d e a flows l (ap (λ r. compressed_after r op) b.rx ∙ z));
        others = ap (λ (t : Reader _ _). record t { rx = started d e a }) b.rest;
        header_size = unfold started in fields.5;
        header_opcode = unfold started in fields.4;
        role = unfold started in ap (λ r. r.role) b.rx;
      }

  -- A round of `nextFrame` reads on or announces the frame.
  round_lem :
      (K : Control) {S : Type 0} (c d : Reader K.World S)
      → Awaits final op n key small fits (body ++ rest) c
      → compressed_after c.rx op ≡ false
      → Buffers c d × (weight d ≤ weight c)
      → Goes
          (λ t. Buffers c t × (weight t ≤ weight c))
          weight
          (weight d)
          (λ t _. Announces c t × (weight t < weight c))
          (λ _ _. ⊥)
          (next_frame_round K d)
  unfolding next_frame_round
  round_lem K c d a z (b, h₀) =
      let w = Buffers-Awaits final op n key small fits (body ++ rest) c d a b in
      let goal : Receiver × FrameKind × Option NextError → Type 0 = λ x.
        Goes (λ t. Buffers c t × (weight t ≤ weight c)) weight (weight d)
          (λ t _. Announces c t × (weight t < weight c)) (λ _ _. ⊥) (frame_step K d x) in
      elim (found_lem final op n key small fits (body ++ rest) d.rx.dec d.rx.header
        (flow d.arrivals) w.ready.drained w.flows) [
          | inl (waits, more) ↦
              subst goal (sym (next-ready d.rx w.ready ∙ header_step-waits d.rx waits)) (
                unfold frame_step in
                step_of_lem (λ t _ h. ((Buffers-trans c d t b h.0, omega (arith, h.1, h₀)), h.1))
                  (λ _ _ h. h) (fill d)
                  (fill-Buffers d w.room w.ready.not_failed w.ready.not_closed w.smooth more))
          | inr (e, got, flows, l) ↦ subst goal (sym (next-started d e w got)) (
              unfold frame_step in
              record {
                advances = (
                  started-Announces c d e w b flows l z,
                  omega (
                    arith,
                    less_weight K d (started d e w)
                        (unfold started in shorter d.rx.dec e d.rx.header _ got),
                    h₀,
                  ),
                );
              })
        ]

  -- `nextFrame` announces the frame that comes next.
  pub next_frame-Announces :
      (K : Control) {S : Type 0} (c : Reader K.World S)
      → Awaits final op n key small fits (body ++ rest) c
      → compressed_after c.rx op ≡ false
      → Returns (λ t _. Announces c t × (weight t < weight c)) (λ _ _. ⊥) (next_frame K c)
  unfolding next_frame
  next_frame-Announces K c a z =
      loop_lem (λ t. Buffers c t × (weight t ≤ weight c)) weight (next_frame_round K)
        (λ d b. round_lem K c d a z b) (suc (weight c)) c (omega arith)
        (Buffers-refl c a.smooth, omega arith)
