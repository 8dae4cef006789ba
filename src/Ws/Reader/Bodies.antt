-- ===== src/Ws/Reader/Bodies.antt =====
-- A frame's payload from the transport, in whatever pieces, behind its header.
use ews.Common.{
  ℕ, ◌+◌, ◌-◌, ◌≤◌, ◌≡◌, inl, inr, refl, sym, ap, ap₂, subst, ◌∙◌, Bool, false, ◌&&◌, Option, none,
  List, [], ◌++◌, arith, length, take, drop, take-length-append, length-zero, length-append, ==_iff,
  length-drop, append_assoc, All-drop, All-take, Bool-cases, if◌then◌else◌, ◌==◌,
}
use ews.Common.Words.{IsBytes}
use ews.Codec.Mask.{mask}
use ews.Codec.Header.{is_final}
use ews.Codec.Decoder
use ews.Ws.Errors.{Failure}
use ews.Ws.Receiver.{Receiver, consumed, payload}
use ews.Codec.Decoder.Consume.{payload_n-consumes}
use ews.Ws.Receiver.Amounts.{payload_n-open}
use ews.Ws.Receiver.Frames.{payload_n-none}
use ews.Ws.Reader.{Reader}
use ews.Ws.Reader.Flow.{flow}
use ews.Ws.Reader.Carrying.{
  plain-append, length-plain, cut_lem, consumed-after, consumed-nothing, payload_chunk, plain_of,
  Carries,
}

-- A result of `Payload`: the next part of the payload, with what is left still to come.
pub record Gives {W S : Type 0} (c : Reader W S) (final : Bool) (m : ℕ) (p rest : List ℕ)
    (x : Receiver × List ℕ × Bool × Option Failure) : Type 0 where
  pub no_error : x.3 ≡ none
  pub left : List ℕ
  pub split : p ≡ x.1 ++ left
  pub carries : Carries (record c { rx = x.0 }) final m left rest
  pub done : x.2 ≡ (length left == 0)
  pub used : length x.0.dec.pending + length x.1 ≤ length c.rx.dec.pending
  pub waits : x.1 ≡ [] → x.2 ≡ false → length x.0.dec.pending ≡ 0
  pub header : x.0.header ≡ c.rx.header
  pub role : x.0.role ≡ c.rx.role

pub length-Carries :
    {W S : Type 0} (c : Reader W S) (final : Bool) (m : ℕ) (p rest : List ℕ)
    (v : Carries c final m p rest)
    → length p ≡ length v.body
length-Carries c final m p rest v =
    ap (λ s. length s) (sym v.plain)
    ∙ length-plain c.rx.masked_frame c.rx.frame_key c.rx.mask_offset v.body

module _ {W S : Type 0} (c : Reader W S) (final : Bool) (m : ℕ) (p rest : List ℕ)
    (v : Carries c final m p rest) where
  -- The receiver behind a chunk.
  behind : Decoder.Decoder → List ℕ → Bool → Receiver
  behind d chunk done = record c.rx {
    dec = d;
    mask_offset =
        if c.rx.masked_frame
        then (mask chunk c.rx.frame_key c.rx.mask_offset).1
        else c.rx.mask_offset;
    remaining = c.rx.remaining - length chunk;
    message_opcode = if done && is_final c.rx.header then 0 else c.rx.message_opcode;
  }

  behind-Carries :
      (d : Decoder.Decoder) (chunk : List ℕ)
      → (length v.body == 0) ≡ false
      → chunk ++ d.pending ≡ c.rx.dec.pending
      → d.remaining + length chunk ≡ c.rx.dec.remaining
      → let left = drop (length chunk) v.body in
        let r = behind d chunk (d.remaining == 0) in
        (p ≡ plain_of c.rx chunk ++ plain_of r left)
        × Carries (record c { rx = r }) final m (plain_of r left) rest
  unfolding behind
  behind-Carries d chunk full pending less =
      let left = drop (length chunk) v.body in
      let few : length chunk ≤ length v.body = omega (arith, less, v.dec_left) in
      let (parts, flows) =
        cut_lem chunk (d.pending ++ flow c.arrivals) v.body rest
          (sym (append_assoc chunk d.pending (flow c.arrivals))
            ∙ ap (λ t. t ++ flow c.arrivals) pending
            ∙ v.flows)
          few in
      let size = length-drop (length chunk) v.body in
      let front : take (length chunk) v.body ≡ chunk =
        ap (λ t. take (length chunk) t) parts ∙ take-length-append chunk left in
      let bytes : IsBytes chunk = subst IsBytes front (All-take _ (length chunk) v.body v.bytes) in
      let rest_size : d.remaining ≡ length left = omega (arith, less, v.dec_left, size) in
      (
        sym v.plain
            ∙ ap (λ t. plain_of c.rx t) parts
            ∙ plain-append c.rx.masked_frame c.rx.frame_key c.rx.mask_offset chunk left v.key bytes
                (All-drop _ (length chunk) v.body v.bytes),
        record {
          body = left;
          flows = flows;
          plain = refl;
          bytes = All-drop _ (length chunk) v.body v.bytes;
          key = v.key;
          left = omega (arith, v.left, size);
          dec_left = omega (arith, v.dec_left, less, size);
          message =
              ap (λ k. if k == 0 && is_final c.rx.header then 0 else c.rx.message_opcode) rest_size
              ∙ ap (λ k. if length left == 0 && k then 0 else c.rx.message_opcode) v.last
              ∙ ap (λ k. if length left == 0 && final then 0 else k)
                  (v.message ∙ ap (λ k. if k && final then 0 else m) full);
          last = v.last;
          not_compressed = v.not_compressed;
          not_failed = v.not_failed;
          not_closed = v.not_closed;
          no_control = v.no_control;
          smooth = v.smooth;
          room = v.room;
        },
      )

  -- `Payload` gives the payload that comes next.
  pub payload-Gives : Gives c final m p rest (payload c.rx)
  unfolding payload Decoder.buffered
  payload-Gives = elim (Bool-cases (length v.body == 0)) [
    | inl empty ↦
        subst (Gives c final m p rest)
          (sym (
            payload_n-none (length c.rx.dec.pending) c.rx v.not_failed
              (v.left ∙ (==_iff _ 0).0 empty)))
          (record {
            no_error = refl;
            left = p;
            split = refl;
            carries = v;
            done = sym (ap (λ k. k == 0) (length-Carries c final m p rest v) ∙ empty);
            used = omega arith;
            waits = λ e q. cc;
            header = refl;
            role = refl;
          })
    | inr full ↦
        let n = length c.rx.dec.pending in
        let d = Decoder.payload_n n c.rx.dec in
        let (pending, less, few, done) = payload_n-consumes n c.rx.dec in
        let open_frame : (c.rx.remaining == 0) ≡ false = ap (λ k. k == 0) v.left ∙ full in
        let start = payload_n-open n c.rx v.not_failed open_frame in
        let size = payload_chunk c.rx.dec (ap (λ k. k == 0) v.dec_left ∙ full) in
        elim (Bool-cases (length d.1 == 0)) [
          | inl none_there ↦
              let nil : d.1 ≡ [] = length-zero d.1 ((==_iff _ 0).0 none_there) in
              let whole : d.0.remaining ≡ length v.body =
                omega (arith, less, v.dec_left, (==_iff _ 0).0 none_there) in
              let not_done : d.2 ≡ false = done ∙ ap (λ k. k == 0) whole ∙ full in
              let same : d.0.pending ≡ c.rx.dec.pending =
                sym (ap (λ t. t ++ d.0.pending) nil) ∙ pending in
              let some_left : 1 ≤ length v.body = ground arith in
              let zero_size : length d.1 ≡ 0 = (==_iff _ 0).0 none_there in
              subst (Gives c final m p rest)
                (sym (consumed-nothing (record c.rx { dec = d.0 }))
                  ∙ sym (ap₂ (λ a b. consumed a b (record c.rx { dec = d.0 })) nil not_done)
                  ∙ start)
                (record {
                  no_error = refl;
                  left = p;
                  split = refl;
                  carries = record {
                    body = v.body;
                    flows = ap (λ t. t ++ flow c.arrivals) same ∙ v.flows;
                    plain = v.plain;
                    bytes = v.bytes;
                    key = v.key;
                    left = v.left;
                    dec_left = whole;
                    message = v.message;
                    last = v.last;
                    not_compressed = v.not_compressed;
                    not_failed = v.not_failed;
                    not_closed = v.not_closed;
                    no_control = v.no_control;
                    smooth = v.smooth;
                    room = v.room;
                  };
                  done = sym (ap (λ k. k == 0) (length-Carries c final m p rest v) ∙ full);
                  used = omega (arith, ap (λ t. length t) same);
                  waits = λ e q.
                      omega
                        (arith, ap (λ t. length t) same, size, zero_size, v.dec_left, some_left);
                  header = refl;
                  role = refl;
                })
          | inr some_there ↦
              let (split, carries) = behind-Carries d.0 d.1 full pending less in
              let r = behind d.0 d.1 (d.0.remaining == 0) in
              let left = plain_of r (drop (length d.1) v.body) in
              let out = length-plain c.rx.masked_frame c.rx.frame_key c.rx.mask_offset d.1 in
              let rest_size : d.0.remaining ≡ length left = omega (
                arith,
                less,
                v.dec_left,
                length-plain r.masked_frame r.frame_key r.mask_offset (drop (length d.1) v.body),
                length-drop (length d.1) v.body,
              ) in
              let after : consumed d.1 d.2 (record c.rx { dec = d.0 })
                  ≡ (behind d.0 d.1 d.2, plain_of c.rx d.1, d.2, none) =
                unfold behind in consumed-after (record c.rx { dec = d.0 }) d.1 d.2 some_there in
              let total = ap (λ t. length t) pending in
              subst (Gives c final m p rest)
                (ap (λ k. (behind d.0 d.1 k, plain_of c.rx d.1, k, none)) (sym done)
                  ∙ sym after
                  ∙ start)
                (record {
                  no_error = refl;
                  left = left;
                  split = split;
                  carries = carries;
                  done = ap (λ k. k == 0) rest_size;
                  used = unfold behind in omega (arith, out, total, length-append d.1 d.0.pending);
                  waits = λ e q. ground (arith, some_there, out, ap (λ t. length t) e);
                  header = unfold behind in refl;
                  role = unfold behind in refl;
                })
        ]
  ]
