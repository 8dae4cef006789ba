-- ===== src/Ws/Reader/Direct.antt =====
-- Payload that goes from the transport past the buffer: `read` under `readInto` of
-- ws/conn_read.go.
use ews.Common.{
  ℕ, ◌≤◌, ◌<◌, ◌≡◌, refl, sym, ap, subst, ◌∙◌, Bool, true, false, Option, none, some, List, ◌++◌,
  arith, length, length-append, ◌==◌,
}
use ews.Codec.Decoder
use ews.Codec.Header.{is_final}
use ews.Codec.Mask.Reference.{IsKey}
use ews.Ws.Errors.{Failure}
use ews.Ws.Receiver.{Receiver, message_is_open}
use ews.Ws.Receiver
use ews.Ws.Reader.{Arrival, Control, Reader, weight, read}
use ews.Ws.Reader.Rules.{Returns, and_then_lem}
use ews.Ws.Reader.Gathering.{less_input}
use ews.Ws.Reader.Inflating.{direct, take_direct, read_direct}
use ews.Ws.Reader.Flow.{Moves, fed-Buffers, flow, Buffers, read_lem, feed-Same}
use ews.Ws.Reader.Carrying.{Carries, plain_of}
use ews.Ws.Reader.Bodies.{length-Carries, Gives, payload-Gives}

module _ {W S : Type 0} where
  pub Buffers-Carries :
      (c d : Reader W S) (final : Bool) (m : ℕ) (p rest : List ℕ)
      → Carries c final m p rest
      → Buffers c d
      → Carries d final m p rest
  Buffers-Carries c d final m p rest v b = record {
    body = v.body;
    flows = b.flows ∙ v.flows;
    plain = ap (λ r. plain_of r v.body) b.rx ∙ v.plain;
    bytes = v.bytes;
    key = subst (λ (r : Receiver). (r.masked_frame ≡ true → IsKey r.frame_key)) (sym b.rx) v.key;
    left = ap (λ r. r.remaining) b.rx ∙ v.left;
    dec_left = b.frame ∙ v.dec_left;
    message = ap (λ r. r.message_opcode) b.rx ∙ v.message;
    last = ap (λ r. is_final r.header) b.rx ∙ v.last;
    not_compressed = ap (λ r. r.compressed) b.rx ∙ v.not_compressed;
    not_failed = ap (λ r. r.failed) b.rx ∙ v.not_failed;
    not_closed = ap (λ r. r.close_received) b.rx ∙ v.not_closed;
    no_control = ap (λ r. r.control_open) b.rx ∙ v.no_control;
    smooth = b.smooth;
    room = subst (λ k. 1 ≤ k) (ap (λ r. r.buf) (sym b.rest)) v.room;
  }

-- Between `c` and `d` only input was read and payload taken.
pub record Kept {W S : Type 0} (c d : Reader W S) : Type 0 where
  pub others : d ≡ record c { rx = d.rx; arrivals = d.arrivals }
  pub header : d.rx.header ≡ c.rx.header
  pub role : d.rx.role ≡ c.rx.role
  pub used : weight d ≤ weight c

-- `PayloadN` of all that was fed.
all_fed :
    (s : List ℕ) (r : Receiver)
    → length r.dec.pending ≡ length s
    → Receiver.payload r ≡ Receiver.payload_n (length s) r
unfolding Receiver.payload Decoder.buffered
all_fed s r e = ap (λ k. Receiver.payload_n k r) e

pub Kept-trans : {W S : Type 0} (a b c : Reader W S) → Kept a b → Kept b c → Kept a c
Kept-trans {W} {S} a b c f g = record {
  others =
      g.others ∙ ap (λ (t : Reader W S). record t { rx = c.rx; arrivals = c.arrivals }) f.others;
  header = g.header ∙ f.header;
  role = g.role ∙ f.role;
  used = omega (arith, f.used, g.used);
}

module _ (K : Control) {S : Type 0} (c : Reader K.World S) (final : Bool) (m : ℕ)
    (rest : List ℕ) where
  pub Gives-Kept :
      (d : Reader K.World S) (left : List ℕ) (x : Receiver × List ℕ × Bool × Option Failure)
      → Kept c d
      → Gives d final m left rest x
      → Kept c (record d { rx = x.0 })
  Gives-Kept d left x k g = record {
    others = ap (λ (t : Reader K.World S). record t { rx = x.0 }) k.others;
    header = g.header ∙ k.header;
    role = g.role ∙ k.role;
    used = omega (arith, less_input K d x.0 (length x.1) g.used, k.used);
  }

  pub Buffers-Kept :
      (d t : Reader K.World S) → Kept c d → Buffers d t → weight t ≤ weight d → Kept c t
  Buffers-Kept d t k b h = record {
    others =
        b.rest
        ∙ ap (λ (u : Reader K.World S). record u { rx = t.rx; arrivals = t.arrivals }) k.others;
    header = ap (λ r. r.header) b.rx ∙ k.header;
    role = ap (λ r. r.role) b.rx ∙ k.role;
    used = omega (arith, k.used, h);
  }

  -- The frame is open and nothing of it is in the buffer: the transport gives more.
  pub gives_more :
      (d : Reader K.World S) (left : List ℕ)
      → Carries d final m left rest
      → (length left == 0) ≡ false
      → length d.rx.dec.pending ≡ 0
      → 1 ≤ length (flow d.arrivals)
  gives_more d left v some_left none_there =
      let some_size : 1 ≤ length left = ground arith in
      omega (
        arith,
        ap (λ t. length t) v.flows,
        length-append d.rx.dec.pending (flow d.arrivals),
        length-append v.body rest,
        length-Carries d final m left rest v,
        none_there,
        some_size,
      )

  -- What `readDirect` returns: the next part of the payload.
  abbrev Direct : List ℕ → Reader K.World S → List ℕ → Type 0
  Direct left t body =
      (more : List ℕ) × Carries t final m more rest
      × (left ≡ body ++ more)
      × Kept c t
      × (weight t < weight c)

  direct_lem :
      (d : Reader K.World S) (fed : Receiver) (left : List ℕ)
      (x : Receiver × List ℕ × Bool × Option Failure)
      → Kept c (record d { rx = fed })
      → weight (record d { rx = fed }) < weight c
      → Gives (record d { rx = fed }) final m left rest x
      → Returns (Direct left) (λ _ _. ⊥) (direct K d x)
  direct_lem d fed left (rx, body, done, some e) k w g = absurd (ground (arith, g.no_error))
  direct_lem d fed left (rx, body, done, none) k w g = record {
    holds = (
      g.left,
      g.carries,
      g.split,
      Gives-Kept (record d { rx = fed }) left (rx, body, done, none) k g,
      omega (arith, less_input K (record d { rx = fed }) rx (length body) g.used, w),
    );
  }

  take_direct_lem :
      (l : List Arrival) (s left : List ℕ)
      → Carries c final m left rest
      → length c.rx.dec.pending ≡ 0
      → Moves c.arrivals l s
      → Returns (Direct left) (λ _ _. ⊥) (take_direct K s (record c { arrivals = l }))
  unfolding take_direct
  take_direct_lem l s left v none_there moves =
      let fed = Receiver.feed s c.rx in
      let f : Reader K.World S = record c { rx = fed; arrivals = l } in
      let (b, w) = fed-Buffers c c.rx l s (refl, refl) refl v.not_failed v.not_closed moves in
      let k : Kept c f = record {
        others = b.rest;
        header = ap (λ r. r.header) b.rx;
        role = ap (λ r. r.role) b.rx;
        used = omega (arith, w);
      } in
      let size : length fed.dec.pending ≡ length s = omega (
        arith,
        ap (λ t. length t) (feed-Same s c.rx v.not_failed v.not_closed).1,
        length-append c.rx.dec.pending s,
        none_there,
      ) in
      direct_lem (record c { arrivals = l }) fed left (Receiver.payload_n (length s) fed) k w
        (subst (Gives f final m left rest) (all_fed s fed size)
          (payload-Gives f final m left rest (Buffers-Carries c f final m left rest v b)))

  -- `readDirect`, when nothing of the open frame is in the buffer.
  pub read_direct_lem :
      (n : ℕ) (left : List ℕ)
      → Carries c final m left rest
      → (length left == 0) ≡ false
      → length c.rx.dec.pending ≡ 0
      → 1 ≤ n
      → Returns (Direct left) (λ _ _. ⊥) (read_direct K n c)
  unfolding read_direct
  read_direct_lem n left v some_left none_there one =
      and_then_lem _ _
        (λ d s h.
          subst (λ t. Returns (Direct left) (λ _ _. ⊥) (take_direct K s t)) (sym h.0)
            (take_direct_lem d.arrivals s left v none_there h.1))
        (λ _ _ h. h) (read n c)
        (read_lem n c one v.smooth (gives_more c left v some_left none_there))
