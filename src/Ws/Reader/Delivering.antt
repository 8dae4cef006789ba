-- ===== src/Ws/Reader/Delivering.antt =====
-- A whole message from the transport, in whatever pieces: `assemble` of ws/conn_read.go.
use ews.Common.{
  ℕ, suc, ◌+◌, ◌-◌, ◌^◌, ◌≤◌, ◌<◌, ◌≡◌, ◌≢◌, inr, refl, sym, ap, subst, ◌∙◌, Bool, true, false,
  ◌&&◌, Option, List, [], ◌∷◌, ◌++◌, arith, length, ltb, le→ltb, All, append-nil, append_assoc,
  length-append, length-zero, if◌then◌else◌, ◌==◌,
}
use ews.Common.Words.{IsBytes}
use ews.Codec.Opcode.{Opcode, continuation}
use ews.Codec.Mask.{MaskKey}
use ews.Codec.Header.{payload_len, opcode}
use ews.Codec.Wire.{is_masked, wire_header}
use ews.Codec.RoundTrip.{
  apply_key, unmask-apply_key, apply_key-IsBytes, length-apply_key, IsKeyOption,
}
use ews.Ws.Errors.{Role}
use ews.Ws.Receiver.{Receiver, is_server, message_is_open}
use ews.Ws.Receiver.Frames.{IsReady, Follows, message_after, compressed_after}
use ews.Ws.Reader.{Outcome, ok, failed, out_of_fuel, loop, Control, Reader, weight, next_frame}
use ews.Ws.Reader.Rules.{Returns, Goes, loop_lem, step_of_lem, weaken_lem}
use ews.Ws.Reader.Gathering.{with_msg_lem}
use ews.Ws.Reader.Messages.{
  Gathered, whole, part, allowance, after_gather, then_gathered, assemble_round, assemble,
}
use ews.Ws.Reader.Assembling.{allowance-fits, first_lem}
use ews.Ws.Reader.Flow.{stream, IsSmooth}
use ews.Ws.Reader.Carrying.{Carries}
use ews.Ws.Reader.Bodies.{length-Carries}
use ews.Ws.Reader.Headers.{next_frame-Announces}
use ews.Ws.Reader.Streaming.{GatheredAll, gather_lem}

-- A frame of a message, as its sender means it.
pub record Part : Type 0 where
  pub key : Option MaskKey
  pub payload : List ℕ

-- The frame on the wire, by RFC 6455.
unfoldable pub frame_bytes : Bool → Opcode → Part → List ℕ
frame_bytes final op f =
    wire_header final false op (length f.payload) f.key ++ apply_key f.key f.payload

abbrev pub is_last : List Part → Bool
is_last [] = true
is_last (f ∷ fs) = false

-- The frames behind a message's first.
unfoldable pub wire_parts : List Part → List ℕ
unfolding frame_bytes
wire_parts [] = []
wire_parts (f ∷ fs) = frame_bytes (is_last fs) continuation f ++ wire_parts fs

abbrev pub joined : List Part → List ℕ
joined [] = []
joined (f ∷ fs) = f.payload ++ joined fs

-- A frame for the given role: masked for a server, with a length that the header holds.
pub record IsPart (role : Role) (f : Part) : Type 0 where
  pub masking : is_masked f.key ≡ is_server role
  pub bytes : IsBytes f.payload
  pub key_ok : IsKeyOption f.key
  pub fits : length f.payload < 2 ^ 63

-- `nextFrame` on such a frame.
pub next_frame-part :
    (K : Control) {S : Type 0} (c : Reader K.World S) (final : Bool) (op : Opcode) (f : Part)
    (rest : List ℕ)
    → op < 16
    → (part : IsPart c.rx.role f) → IsReady c.rx
    → Follows c.rx op
    → stream c ≡ frame_bytes final op f ++ rest
    → IsSmooth c.arrivals
    → 1 ≤ c.buf
    → compressed_after c.rx op ≡ false
    → Returns
        (λ t _.
          Carries t final (message_after c.rx op) f.payload rest
          × (t ≡ record c { rx = t.rx; arrivals = t.arrivals })
          × (payload_len t.rx.header ≡ length f.payload)
          × (opcode t.rx.header ≡ op)
          × (t.rx.role ≡ c.rx.role)
          × (weight t < weight c))
        (λ _ _. ⊥)
        (next_frame K c)
unfolding frame_bytes
next_frame-part K c final op f rest small v ready follows flows smooth room plain =
    let body = apply_key f.key f.payload in
    weaken_lem
      (λ t _ h. (h.0.carries, h.0.others, h.0.header_size, h.0.header_opcode, h.0.role, h.1))
      (λ _ _ h. h) (next_frame K c)
      (next_frame-Announces final op (length f.payload) f.key small v.fits body f.payload rest
        (unmask-apply_key f.key f.payload v.key_ok v.bytes)
        (length-apply_key f.key f.payload v.key_ok v.bytes)
        (apply_key-IsBytes f.key f.payload v.key_ok v.bytes) v.key_ok K c
        (record {
          ready = ready;
          role = v.masking;
          follows = follows;
          flows = flows ∙ append_assoc _ body rest;
          smooth = smooth;
          room = room;
        })
        plain)

is_open_lem : (r : Receiver) (m : ℕ) → r.message_opcode ≡ m → m ≢ 0 → message_is_open r ≡ true
unfolding message_is_open
is_open_lem r m e busy = ground (arith, e, busy)

is_shut_lem : (r : Receiver) → r.message_opcode ≡ 0 → message_is_open r ≡ false
unfolding message_is_open
is_shut_lem r e = ground (arith, e)

pub Carries-IsReady :
    {W S : Type 0} (c : Reader W S) (final : Bool) (m : ℕ) (rest : List ℕ)
    → Carries c final m [] rest
    → IsReady c.rx × (stream c ≡ rest) × (c.rx.message_opcode ≡ (if final then 0 else m))
Carries-IsReady c final m rest v =
    let nil : v.body ≡ [] = length-zero v.body (sym (length-Carries c final m [] rest v)) in
    (
      record {
        not_failed = v.not_failed;
        not_closed = v.not_closed;
        no_control = v.no_control;
        no_data = v.left ∙ ap (λ t. length t) nil;
        drained = v.dec_left ∙ ap (λ t. length t) nil;
      },
      v.flows ∙ ap (λ t. t ++ rest) nil,
      v.message ∙ ap (λ t. if length t == 0 && final then 0 else m) nil,
    )

module _ (K : Control) {S : Type 0} (c : Reader K.World S) (m : ℕ) (all after : List ℕ) where
  -- The message is whole: what comes next in the stream is what is behind it.
  abbrev pub Whole : Reader K.World S → Type 0
  Whole d =
      Carries d true m [] after
      × (d ≡ record c { rx = d.rx; arrivals = d.arrivals })
      × (d.rx.role ≡ c.rx.role)
      × (weight d ≤ weight c)

  -- A frame was announced, with more frames behind it.
  abbrev pub Coming : Reader K.World S × List ℕ → Type 0
  Coming (d, msg) =
      (p : List ℕ) × (fs : List Part) × Carries d (is_last fs) m p (wire_parts fs ++ after)
      × (payload_len d.rx.header ≡ length p)
      × (msg ++ (p ++ joined fs) ≡ all)
      × All (IsPart c.rx.role) fs
      × (d ≡ record c { rx = d.rx; arrivals = d.arrivals })
      × (d.rx.role ≡ c.rx.role)
      × (weight d ≤ weight c)

  abbrev Assembled : Reader K.World S × List ℕ → List ℕ → Type 0
  Assembled s out = Whole s.0 × (out ≡ all)

  since :
      (d t : Reader K.World S)
      → d ≡ record c { rx = d.rx; arrivals = d.arrivals }
      → t ≡ record d { rx = t.rx; arrivals = t.arrivals }
      → t ≡ record c { rx = t.rx; arrivals = t.arrivals }
  since d t e f = f ∙ ap (λ (u : Reader K.World S). record u { rx = t.rx; arrivals = t.arrivals }) e

  after_gather_lem :
      (d : Reader K.World S) (msg p : List ℕ) (fs : List Part) (g : Gathered)
      (s : Reader K.World S × List ℕ)
      → m ≢ 0
      → msg ++ (p ++ joined fs) ≡ all
      → All (IsPart c.rx.role) fs
      → d ≡ record c { rx = d.rx; arrivals = d.arrivals }
      → d.rx.role ≡ c.rx.role
      → weight d ≤ weight c
      → GatheredAll K d (is_last fs) m msg p (wire_parts fs ++ after) s g
      → Goes Coming (λ s. weight s.0) (weight d) Assembled (λ _ _. ⊥) (after_gather K g s)
  unfolding after_gather wire_parts message_after
  after_gather_lem d msg p [] (whole body) (t, msg') busy e parts others role w (v, b, k, shut) =
      record {
        advances = (
          (v, since d t others k.others, k.role ∙ role, omega (arith, k.used, w)),
          b ∙ ap (λ x. msg ++ x) (sym (append-nil p)) ∙ e,
        );
      }
  after_gather_lem d msg p (f ∷ fs) (whole body) (t, msg') busy e parts others role w
        (v, b, k, shut) =
      absurd (ground (arith, shut, is_open_lem t.rx m (Carries-IsReady t false m _ v).2 busy))
  after_gather_lem d msg p [] part (t, msg') busy e parts others role w (v, b, k) =
      rw (is_shut_lem t.rx (Carries-IsReady t true m _ v).2) (record {
        advances = (
          (v, since d t others k.others, k.role ∙ role, omega (arith, k.used, w)),
          b ∙ ap (λ x. msg ++ x) (sym (append-nil p)) ∙ e,
        );
      })
  after_gather_lem d msg p (f ∷ fs) part (t, msg') busy e parts others role w (v, b, k) =
      let (ready, flows, busy_now) = Carries-IsReady t false m (wire_parts (f ∷ fs) ++ after) v in
      let same_role : t.rx.role ≡ c.rx.role = k.role ∙ role in
      rw (is_open_lem t.rx m busy_now busy) (
        step_of_lem
          (λ u _ r. (
            (
              f.payload,
              fs,
              subst (λ x. Carries u.0 (is_last fs) x f.payload (wire_parts fs ++ after)) busy_now
                  r.0.0,
              r.0.2,
              ap (λ x. x ++ joined (f ∷ fs)) (r.1 ∙ b) ∙ append_assoc msg p (joined (f ∷ fs)) ∙ e,
              parts.1,
              since t u.0 (since d t others k.others) r.0.1,
              r.0.4 ∙ same_role,
              omega (arith, r.0.5, k.used, w),
            ),
            omega (arith, r.0.5, k.used),
          ))
          (λ u _ r. r) _
          (with_msg_lem K {A = Unit} msg' _ (λ _ _. ⊥) (next_frame K t)
            (next_frame-part K t (is_last fs) continuation f (wire_parts fs ++ after) (omega arith)
              (subst (λ x. IsPart x f) (sym same_role) parts.0) ready
              (inr (refl, λ z. busy (sym busy_now ∙ z)))
              (flows ∙ append_assoc (frame_bytes (is_last fs) continuation f) (wire_parts fs) after)
              v.smooth v.room (unfold compressed_after in v.not_compressed))))

  then_gathered_lem :
      (d : Reader K.World S) (msg p : List ℕ) (fs : List Part)
      (x : (Reader K.World S × List ℕ) × Outcome Gathered)
      → m ≢ 0
      → msg ++ (p ++ joined fs) ≡ all
      → All (IsPart c.rx.role) fs
      → d ≡ record c { rx = d.rx; arrivals = d.arrivals }
      → d.rx.role ≡ c.rx.role
      → weight d ≤ weight c
      → Returns (GatheredAll K d (is_last fs) m msg p (wire_parts fs ++ after)) (λ _ _. ⊥) x
      → Goes Coming (λ s. weight s.0) (weight d) Assembled (λ _ _. ⊥) (then_gathered K x)
  then_gathered_lem d msg p fs (s, ok g) busy e parts others role w h =
      after_gather_lem d msg p fs g s busy e parts others role w h.holds
  then_gathered_lem d msg p fs (s, failed err) busy e parts others role w h = absurd h.holds
  then_gathered_lem d msg p fs (s, out_of_fuel) busy e parts others role w h = absurd h.holds

  assemble_round_lem :
      (s : Reader K.World S × List ℕ)
      → m ≢ 0
      → length all ≤ c.limit
      → c.limit < 2 ^ 63
      → Coming s
      → Goes Coming (λ s. weight s.0) (weight s.0) Assembled (λ _ _. ⊥) (assemble_round K s)
  unfolding assemble_round
  assemble_round_lem (d, msg) busy fits small (p, fs, v, size, e, parts, others, role, w) =
      let limit : d.limit ≡ c.limit = ap (λ t. t.limit) others in
      let total : length msg + length p ≤ c.limit = omega (
        arith,
        ap (λ t. length t) e,
        length-append msg (p ++ joined fs),
        length-append p (joined fs),
        fits,
      ) in
      let room : allowance d.limit msg ≡ d.limit - length msg =
        allowance-fits d.limit msg (omega (arith, total, limit)) (omega (arith, limit, small)) in
      let passes : ltb (allowance d.limit msg) (payload_len d.rx.header) ≡ false =
        le→ltb _ _ (omega (arith, room, limit, size, total)) in
      rw passes (
        then_gathered_lem d msg p fs _ busy e parts others role w
          (gather_lem K d (is_last fs) m msg p (wire_parts fs ++ after) v))

  -- `assemble` behind the first frame's header.
  pub assemble_lem :
      m ≢ 0
      → length all ≤ c.limit
      → c.limit < 2 ^ 63
      → Coming (c, [])
      → Returns (λ d out. Whole d × (out ≡ all)) (λ _ _. ⊥) (assemble K c)
  unfolding assemble
  assemble_lem busy fits small v = first_lem K (loop (suc (weight c)) (assemble_round K) (c, [])) (
      loop_lem Coming (λ s. weight s.0) (assemble_round K)
        (λ s q. assemble_round_lem s busy fits small q) (suc (weight c)) (c, []) (omega arith) v)
