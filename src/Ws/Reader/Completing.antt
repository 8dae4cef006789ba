-- ===== src/Ws/Reader/Completing.antt =====
-- When the bytes at hand complete a frame's header: the condition under which `Next` returns in
-- ws/receiver.go, for the frames of RFC 6455.
use ews.Common.{
  ℕ, ◌^◌, ◌≤◌, ◌<◌, ◌≡◌, ◌≢◌, ◌⊎◌, inl, inr, sym, ap, ap₂, subst, ◌∙◌, Bool, true, false, Option,
  none, List, [], ◌∷◌, ◌++◌, arith, length, append-nil, Bool-cases, Option-cases,
}
use ews.Codec.Opcode.{Opcode}
use ews.Codec.Mask.{MaskKey}
use ews.Codec.Header.{Header}
use ews.Codec.Wire.{is_masked, wire_header}
use ews.Codec.RoundTrip.{decoded, next_header_into-wire}
use ews.Codec.Decoder.{Decoder, DecodeError, next_header_into}
use ews.Codec.Decoder
use ews.Codec.Decoder.Feeding.{feed-pending, feed-remaining, next_header_into-feed}
use ews.Ws.Receiver.{is_server}
use ews.Ws.Receiver.Frames.{IsReady, Follows}
use ews.Ws.Reader.{Reader}
use ews.Ws.Reader.Flow.{IsSmooth, stream, Buffers}

missing_header :
    (d : Decoder) (h : Header)
    → (next_header_into d h).2 ≡ false
    → (next_header_into d h).3 ≡ none
    → next_header_into d h ≡ (d, h, false, none)
unfolding next_header_into
missing_header d h a b = ground arith

whole_result :
    {A B C D : Type 0} (p : A × B × C × D) (b : B) (c : C) (d : D)
    → p.1 ≡ b
    → p.2 ≡ c
    → p.3 ≡ d
    → p ≡ (p.0, b, c, d)
whole_result {C = C} {D = D} p b c d e f g =
    ap₂ (λ x (y : C × D). (p.0, x, y.0, y.1)) e (ap₂ (λ x y. (x, y)) f g)

module _ (final : Bool) (op : Opcode) (n : ℕ) (key : Option MaskKey) (small : op < 16)
    (fits : n < 2 ^ 63) (tail : List ℕ) where
  abbrev wire : List ℕ
  wire = wire_header final false op n key

  -- The decoder on part of the input: it waits for more, or it has the header.
  abbrev Found : Decoder → Header → List ℕ → Type 0
  Found d h later =
      (next_header_into d h ≡ (d, h, false, none)) × (1 ≤ length later)
      ⊎ (d' : Decoder) × (next_header_into d h ≡ (d', decoded wire h, true, none))
        × (d'.pending ++ later ≡ tail)
        × (d'.remaining ≡ n)

  complete :
      (d : Decoder) (h : Header) (later : List ℕ)
      → d.remaining ≡ 0
      → d.pending ++ later ≡ wire ++ tail
      → ((next_header_into d h).2 ≡ true) ⊎ ((next_header_into d h).3 ≢ none)
      → Found d h later
  complete d h later z e found =
      let (head, seen, err, pending, left) = next_header_into-feed d h later found in
      let all =
        next_header_into-wire final false op n key small fits (Decoder.feed later d) h tail
          (feed-remaining later d ∙ z) (feed-pending later d ∙ e) in
      inr (
        (next_header_into d h).0,
        whole_result (next_header_into d h) _ _ _ (sym head ∙ ap (λ p. p.1) all)
            (sym seen ∙ ap (λ p. p.2) all) (sym err ∙ ap (λ p. p.3) all),
        sym pending ∙ ap (λ p. p.0.pending) all,
        sym left ∙ ap (λ p. p.0.remaining) all,
      )

  pub found_lem :
      (d : Decoder) (h : Header) (later : List ℕ)
      → d.remaining ≡ 0
      → d.pending ++ later ≡ wire ++ tail
      → Found d h later
  found_lem d h later z e = elim (Bool-cases (next_header_into d h).2) [
    | inl got ↦ complete d h later z e (inl got)
    | inr not_got ↦ elim (Option-cases (next_header_into d h).3) [
      | inr (err, bad) ↦ complete d h later z e (inr (λ q. ground (arith, bad, q)))
      | inl quiet ↦ inl (missing_header d h not_got quiet, not_all d h later z e not_got)
    ]
  ]
    where
      not_all :
          (d : Decoder) (h : Header) (later : List ℕ)
          → d.remaining ≡ 0
          → d.pending ++ later ≡ wire ++ tail
          → (next_header_into d h).2 ≡ false
          → 1 ≤ length later
      not_all d h [] z e k = absurd (
          ground (
            arith,
            k,
            ap (λ p. p.2)
                (next_header_into-wire final false op n key small fits d h tail z
                  (sym (append-nil d.pending) ∙ e)),
          ))
      not_all d h (x ∷ later) z e k = omega arith

  -- Ready for the frame: its header comes next, and it may come here.
  pub record Awaits {W S : Type 0} (c : Reader W S) : Type 0 where
    pub ready : IsReady c.rx
    pub role : is_masked key ≡ is_server c.rx.role
    pub follows : Follows c.rx op
    pub flows : stream c ≡ wire ++ tail
    pub smooth : IsSmooth c.arrivals
    pub room : 1 ≤ c.buf

  pub Buffers-Awaits : {W S : Type 0} (c d : Reader W S) → Awaits c → Buffers c d → Awaits d
  Buffers-Awaits c d a b = record {
    ready = record {
      not_failed = ap (λ r. r.failed) b.rx ∙ a.ready.not_failed;
      not_closed = ap (λ r. r.close_received) b.rx ∙ a.ready.not_closed;
      no_control = ap (λ r. r.control_open) b.rx ∙ a.ready.no_control;
      no_data = ap (λ r. r.remaining) b.rx ∙ a.ready.no_data;
      drained = b.frame ∙ a.ready.drained;
    };
    role = a.role ∙ ap (λ r. is_server r.role) (sym b.rx);
    follows =
        subst (λ k. Follows (record d.rx { message_opcode = k }) op)
          (ap (λ r. r.message_opcode) (sym b.rx)) a.follows;
    flows = b.flows ∙ a.flows;
    smooth = b.smooth;
    room = subst (λ k. 1 ≤ k) (ap (λ r. r.buf) (sym b.rest)) a.room;
  }
