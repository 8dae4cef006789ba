-- ===== src/Ws/Reader/Arriving.antt =====
-- `ReadMessage` of ws/conn_read.go on a message of RFC 6455.
use ews.Common.{
  ℕ, ◌^◌, ◌≤◌, ◌<◌, ◌≡◌, ◌⊎◌, inl, inr, refl, sym, ap, ap₂, ==_iff, subst, ◌∙◌, Bool, true, false,
  not, ◌&&◌, none, List, ◌∷◌, ◌++◌, arith, length, [], All, All-append, Bool-cases, if◌then◌else◌,
  ◌==◌,
}
use ews.Common.Words.{IsBytes}
use ews.Utf8.{valid}
use ews.Utf8.Outcome.{IsUtf8}
use ews.Utf8.Valid.{valid_iff}
use ews.Codec.Opcode.{Opcode, text, binary, continuation}
use ews.Codec.Header.{opcode, payload_len}
use ews.Ws.Errors.{Role}
use ews.Ws.Receiver.Frames.{IsReady, message_after, compressed_after}
use ews.Ws.Reader.{
  Outcome, ok, failed, out_of_fuel, ends, and_then, loop, continue_with, Control, Reader, weight,
  next_frame,
}
use ews.Ws.Reader.Rules.{Returns, and_then_lem}
use ews.Ws.Reader.Inflating.{Inflater, decompress}
use ews.Ws.Reader.Messages.{
  assemble, discard_round, discard_plain, discard, start_message, next_message, check_text,
  finish_message, read_message,
}
use ews.Ws.Reader.Totality.{next_message-open}
use ews.Ws.Reader.Flow.{stream, IsSmooth}
use ews.Ws.Reader.Carrying.{Carries}
use ews.Ws.Reader.Delivering.{
  Part, frame_bytes, is_last, wire_parts, joined, IsPart, next_frame-part, Carries-IsReady, Whole,
  assemble_lem,
}

-- Between messages: nothing is open and nothing has failed; each read of the transport gives a byte
-- at least, up to EOF.
pub record IsIdle {W S : Type 0} (c : Reader W S) : Type 0 where
  pub ready : IsReady c.rx
  pub no_message : c.rx.message_opcode ≡ 0
  pub none_open : c.in_message ≡ false
  pub no_error : c.read_err ≡ none
  pub smooth : IsSmooth c.arrivals
  pub room : 1 ≤ c.buf
  pub small : c.limit < 2 ^ 63

joined-IsBytes : (role : Role) (fs : List Part) → All (IsPart role) fs → IsBytes (joined fs)
joined-IsBytes role [] h = tt
joined-IsBytes role (f ∷ fs) (h, hs) =
    All-append (λ b. b < 256) f.payload (joined fs) h.bytes (joined-IsBytes role fs hs)

module _ {W S : Type 0} where
  in_message-Carries :
      (c : Reader W S) (final : Bool) (m : ℕ) (p rest : List ℕ)
      → Carries c final m p rest
      → Carries (record c { in_message = true }) final m p rest
  in_message-Carries c final m p rest v = record {
    body = v.body;
    flows = v.flows;
    plain = v.plain;
    bytes = v.bytes;
    key = v.key;
    left = v.left;
    dec_left = v.dec_left;
    message = v.message;
    last = v.last;
    not_compressed = v.not_compressed;
    not_failed = v.not_failed;
    not_closed = v.not_closed;
    no_control = v.no_control;
    smooth = v.smooth;
    room = v.room;
  }

module _ (K : Control) (I : Inflater) where
  -- Nothing is to be discarded.
  discard_round-idle :
      (c : Reader K.World I.Stream) → c.in_message ≡ false → discard_round K c ≡ (c, ends (ok tt))
  unfolding discard_round
  discard_round-idle c e = simp (e, discard_round) refl

  discard-idle :
      (fuel : ℕ) (c : Reader K.World I.Stream)
      → c.in_message ≡ false
      → discard K I fuel c ≡ (record c { streaming = false }, ok tt)
  unfolding discard discard_plain loop
  discard-idle fuel c e =
      let quiet : c.in_message && (c.rx.compressed && c.takeover) ≡ false = ground (arith, e) in
      rw quiet (
        ap (λ x. continue_with (λ t. loop (weight c) (discard_round K) t) x)
          (discard_round-idle (record c { streaming = false }) e))

  module _ (fuel : ℕ) (c : Reader K.World I.Stream) (op : Opcode) (f : Part) (fs : List Part)
      (after : List ℕ) (idle : IsIdle c) (kind : (op ≡ text) ⊎ (op ≡ binary))
      (parts : All (IsPart c.rx.role) (f ∷ fs))
      (flows : stream c ≡ frame_bytes (is_last fs) op f ++ (wire_parts fs ++ after)) where
    -- What `NextMessage` leaves: the message's first frame is announced.
    record Started (d : Reader K.World I.Stream) (k : Opcode) : Type 0 where
      is_op : k ≡ op
      carries : Carries d (is_last fs) op f.payload (wire_parts fs ++ after)
      size : payload_len d.rx.header ≡ length f.payload
      role : d.rx.role ≡ c.rx.role
      limit : d.limit ≡ c.limit
      checks : d.validate_utf8 ≡ c.validate_utf8
      calm : d.read_err ≡ none
      world : d.world ≡ c.world

    first_kind : (op == continuation) ≡ false
    first_kind = ground (arith, kind)

    start_message-Started : Returns Started (λ _ _. ⊥) (start_message K I fuel c)
    unfolding start_message message_after compressed_after
    start_message-Started =
        let e : Reader K.World I.Stream = record c {
          streaming = false;
          stream = I.release c.stream;
        } in
        subst
          (λ x.
            Returns Started (λ _ _. ⊥)
              (and_then x
                (λ _ c.
                  and_then (next_frame K (record c { stream = I.release c.stream }))
                    (λ _ c. (record c { in_message = true }, ok (opcode c.rx.header))) (λ c. c))
                (λ c. c)))
          (sym (discard-idle fuel c idle.none_open))
          (and_then_lem _ _
            (λ t _ h. record {
              holds = record {
                is_op = h.3;
                carries = in_message-Carries t (is_last fs) op f.payload (wire_parts fs ++ after) (
                    subst (λ k. Carries t (is_last fs) k f.payload (wire_parts fs ++ after))
                      (ap (λ b. if b then c.rx.message_opcode else op) first_kind) h.0);
                size = h.2;
                role = h.4;
                limit = ap (λ r. r.limit) h.1;
                checks = ap (λ r. r.validate_utf8) h.1;
                calm = ap (λ r. r.read_err) h.1 ∙ idle.no_error;
                world = ap (λ r. r.world) h.1;
              };
            })
            (λ _ _ h. h) (next_frame K e)
            (next_frame-part K e (is_last fs) op f (wire_parts fs ++ after) (ground arith) parts.0
              idle.ready (inl (kind, idle.no_message)) flows idle.smooth idle.room
              (ap (λ b. if b then c.rx.compressed else false) first_kind)))

    module _ (fits : length (joined (f ∷ fs)) ≤ c.limit)
        (is_utf8 : op ≡ text → c.validate_utf8 ≡ true → IsUtf8 (joined (f ∷ fs))) where
      -- What `ReadMessage` returns and leaves.
      record Delivered (d : Reader K.World I.Stream) (out : Opcode × List ℕ) : Type 0 where
        message : out ≡ (op, joined (f ∷ fs))
        left : stream d ≡ after
        idle_again : IsIdle d
        same_role : d.rx.role ≡ c.rx.role
        same_world : d.world ≡ c.world

      passes_valid : op ≡ text → c.validate_utf8 ≡ true → valid (joined (f ∷ fs)) ≡ true
      passes_valid t on =
          (valid_iff (joined (f ∷ fs)) (joined-IsBytes c.rx.role (f ∷ fs) parts)).1 (is_utf8 t on)

      check_text-passes :
          (b : Bool)
          → b ≡ c.validate_utf8
          → op == text && (b && not (valid (joined (f ∷ fs)))) ≡ false
      check_text-passes b e =
          let check : Bool → Bool → Bool → Bool = λ x y z. x && (y && not z) in
          let text_is = valid (joined (f ∷ fs)) in
          elim (Bool-cases (op == text)) [
            | inr other ↦ ap (λ x. check x b text_is) other
            | inl is_text ↦ elim (Bool-cases b) [
              | inr off ↦
                  ap (λ y. check (op == text) y text_is) off
                  ∙ ap (λ x. check x false text_is) is_text
              | inl on ↦
                  ap (λ z. check (op == text) b z)
                    (passes_valid ((==_iff op text).0 is_text) (sym e ∙ on))
                  ∙ ap (λ x. check x b true) is_text
                  ∙ ap (λ y. check true y true) on
            ]
          ]

      finish_message-Delivered :
          (d t : Reader K.World I.Stream) (k : Opcode) (out : List ℕ)
          → Started d k
          → Whole K d op (joined (f ∷ fs)) after t
          → out ≡ joined (f ∷ fs)
          → Returns Delivered (λ _ _. ⊥) (finish_message K I k out t)
      unfolding finish_message check_text
      finish_message-Delivered d t k out s (v, others, role, w) e =
          let r : Reader K.World I.Stream = record t { in_message = false } in
          let (ready, left, shut) = Carries-IsReady t true op after v in
          let goal : Bool → Type 0 = λ b.
            Returns Delivered (λ _ _. ⊥)
              (if b
                then and_then (decompress K I out r) (check_text K I k) (λ c. c)
                else check_text K I k out r) in
          let passes : k == text && (t.validate_utf8 && not (valid out)) ≡ false =
            ap (λ x. x == text && (t.validate_utf8 && not (valid out))) s.is_op
            ∙ ap (λ x. op == text && (t.validate_utf8 && not (valid x))) e
            ∙ check_text-passes t.validate_utf8 (ap (λ x. x.validate_utf8) others ∙ s.checks) in
          subst goal (sym v.not_compressed) (
            rw passes (record {
              holds = record {
                message = ap₂ (λ a b. (a, b)) s.is_op e;
                left = left;
                idle_again = record {
                  ready = ready;
                  no_message = shut;
                  none_open = refl;
                  no_error = ap (λ x. x.read_err) others ∙ s.calm;
                  smooth = v.smooth;
                  room = v.room;
                  small = omega (arith, ap (λ x. x.limit) others, s.limit, idle.small);
                };
                same_role = role ∙ s.role;
                same_world = ap (λ x. x.world) others ∙ s.world;
              };
            }))

      read_message-Delivered : Returns Delivered (λ _ _. ⊥) (read_message K I fuel c)
      unfolding read_message
      read_message-Delivered =
          and_then_lem _ _
            (λ d k s.
              and_then_lem _ _ (λ t out h. finish_message-Delivered d t k out s h.0 h.1)
                (λ _ _ h. h) (assemble K d)
                (assemble_lem K d op (joined (f ∷ fs)) after (ground (arith, kind))
                  (omega (arith, fits, s.limit)) (omega (arith, idle.small, s.limit))
                  (
                    f.payload,
                    fs,
                    s.carries,
                    s.size,
                    refl,
                    subst (λ r. All (IsPart r) fs) (sym s.role) parts.1,
                    refl,
                    refl,
                    omega arith,
                  )))
            (λ _ _ h. h) (next_message K I fuel c)
            (subst (Returns Started (λ _ _. ⊥)) (next_message-open K I fuel c idle.no_error)
              start_message-Started)

      delivered :
          (x : Reader K.World I.Stream × Outcome (Opcode × List ℕ))
          → Returns Delivered (λ _ _. ⊥) x
          → (x.1 ≡ ok (op, joined (f ∷ fs)))
            × (stream x.0 ≡ after)
            × IsIdle x.0
            × (x.0.rx.role ≡ c.rx.role)
            × (x.0.world ≡ c.world)
      delivered (d, ok out) r = (
        ap ok r.holds.message,
        r.holds.left,
        r.holds.idle_again,
        r.holds.same_role,
        r.holds.same_world,
      )
      delivered (d, failed e) r = absurd r.holds
      delivered (d, out_of_fuel) r = absurd r.holds

-- Between messages, with a transport each of whose reads gives a byte at least, up to EOF, whatever
-- the pieces are: if what is still to be read begins with the frames of a text or binary message,
-- which RFC 6455 writes with this role's masking and without compression, and the whole of it keeps
-- to the limit and, if it is a text that is to be checked, is the UTF-8 encoding of a sequence of
-- Unicode scalar values, then ReadMessage returns its opcode and its
-- payload joined, with nothing else taken off the input, no handler called, and the connection
-- between messages again.
pub read_message-delivers :
    (K : Control) (I : Inflater) (fuel : ℕ) (c : Reader K.World I.Stream) (op : Opcode) (f : Part)
    (fs : List Part) (after : List ℕ)
    → IsIdle c
    → (op ≡ text) ⊎ (op ≡ binary)
    → All (IsPart c.rx.role) (f ∷ fs)
    → stream c ≡ frame_bytes (is_last fs) op f ++ (wire_parts fs ++ after)
    → length (joined (f ∷ fs)) ≤ c.limit
    → (op ≡ text → c.validate_utf8 ≡ true → IsUtf8 (joined (f ∷ fs)))
    → let r = read_message K I fuel c in
      (r.1 ≡ ok (op, joined (f ∷ fs)))
      × (stream r.0 ≡ after)
      × IsIdle r.0
      × (r.0.rx.role ≡ c.rx.role)
      × (r.0.world ≡ c.world)
read_message-delivers K I fuel c op f fs after idle kind parts flows fits is_utf8 =
    delivered K I fuel c op f fs after idle kind parts flows fits is_utf8 (read_message K I fuel c)
      (read_message-Delivered K I fuel c op f fs after idle kind parts flows fits is_utf8)
