-- ===== src/Ws/Reader/Announcing.antt =====
-- `handleControl` and `nextFrame` of ws/conn_read.go on every path.
use ews.Common.{
  ℕ, suc, ◌<◌, ◌≡◌, ◌≢◌, inl, inr, refl, false, Option, none, some, List, arith, ◌==◌, length,
  Bool-cases,
}
use ews.Codec.Opcode.{ping, pong, close}
use ews.Codec.Header.{payload_len}
use ews.Ws.Errors.{Failure}
use ews.Ws.Receiver.{
  Receiver, FrameKind, NextError, failure, payload_pending, idle, control_payload, need_input,
  data_frame, control_frame,
}
use ews.Ws.Receiver
use ews.Ws.Receiver.Invariant.{IsValid}
use ews.Ws.Receiver.Progress.{next-IsValid}
use ews.Ws.Receiver.Amounts.{Takes, next-Takes}
use ews.Ws.Reader.{
  ReadError, protocol, closed, Control, Reader, weight, dispatch, handle_control, controlled,
  handler_error, closing_error, frame_step, next_frame_round, next_frame, error_of,
}
use ews.Ws.Reader.Rules.{Returns, Goes, loop_lem, step_of_lem}
use ews.Ws.Reader.Effects.{
  is_passing, Runs, Runs-refl, Runs-trans, Stops, Runs-Stops, Runs-rx, fill_lem, fail_lem,
}

-- The errors of `handleControl` are kept, and no protocol failures.
abbrev IsHandled : Option ReadError → Type 0
IsHandled none = Unit
IsHandled (some e) = (is_passing e ≡ false) × ((f : Failure) → e ≢ protocol f)

kept_error : (e : NextError) → is_passing (error_of e) ≡ false
kept_error (failure f) = refl
kept_error payload_pending = refl

module _ (K : Control) where
  handler_error_lem : (x : K.World × Option ℕ) → IsHandled (handler_error K x).1
  handler_error_lem (w, none) = tt
  handler_error_lem (w, some e) = (refl, λ f q. cc)

  closing_error_lem :
      (code : ℕ) (reason : List ℕ) (x : K.World × Option ReadError)
      → IsHandled x.1
      → IsHandled (closing_error K (closed code reason) x).1
  closing_error_lem code reason (w, none) h = (refl, λ f q. cc)
  closing_error_lem code reason (w, some e) h = h

  dispatch_lem : (op : ℕ) (payload : List ℕ) (w : K.World) → IsHandled (dispatch K op payload w).1
  unfolding dispatch
  dispatch_lem op payload w = elim (Bool-cases (op == ping)) [
    | inl a ↦ rw a (handler_error_lem _)
    | inr a ↦ elim (Bool-cases (op == pong)) [
      | inl b ↦ rw (a, b) (handler_error_lem _)
      | inr b ↦ elim (Bool-cases (op == close)) [
        | inl d ↦ rw (a, b, d) (closing_error_lem _ _ _ (handler_error_lem _))
        | inr d ↦ rw (a, b, d) tt
      ]
    ]
  ]

module _ (K : Control) {S : Type 0} where
  controlled_lem :
      (c d : Reader K.World S) (x : K.World × Option ReadError)
      → Runs c d
      → IsHandled x.1
      → Returns
          (λ t _. Runs c t × (weight t ≡ weight d) × (t.rx ≡ d.rx))
          (Stops K c)
          (controlled K d x)
  unfolding weight
  controlled_lem c d (w, none) r h = record {
    holds = (
      record {
        sound = r.sound;
        limit = r.limit;
        takeover = r.takeover;
        calm = r.calm;
        used = r.used;
      },
      refl,
      refl,
    );
  }
  controlled_lem c d (w, some e) r h = record {
    holds = record {
      sound = r.sound;
      spent = r.used;
      passing = λ q. cc;
      kept = λ q. (refl, refl);
      told = λ f q. absurd (h.1 f q);
    };
  }

  pub handle_control_lem :
      (c d : Reader K.World S)
      → Runs c d
      → Returns
          (λ t _. Runs c t × (weight t ≡ weight d) × (t.rx ≡ d.rx))
          (Stops K c)
          (handle_control K d)
  unfolding handle_control
  handle_control_lem c d r =
      controlled_lem c d _ r (dispatch_lem K d.rx.control_opcode (control_payload d.rx) d.world)

  -- A frame was announced, and some input taken.
  abbrev pub Announced : Reader K.World S → ℕ → Reader K.World S → Type 0
  Announced c n d = Runs c d × (weight d < n) × (d.rx.remaining ≡ payload_len d.rx.header)

  pub less_weight :
      (d : Reader K.World S) (rx : Receiver)
      → length rx.dec.pending < length d.rx.dec.pending
      → weight (record d { rx = rx }) < weight d
  unfolding weight
  less_weight d rx h = omega (arith, h)

  frame_step_lem :
      (c d : Reader K.World S) (x : Receiver × FrameKind × Option NextError)
      → Runs c d
      → IsValid x.0
      → Takes (length d.rx.dec.pending) x
      → Goes
          (Runs c)
          weight
          (weight d)
          (λ t _. Announced c (weight c) t)
          (Stops K c)
          (frame_step K d x)
  unfolding frame_step
  frame_step_lem c d (rx, kind, some e) r v t =
      let q = Runs-trans c d _ r (Runs-rx d rx v t.within) in
      step_of_lem (λ _ _ h. absurd h) (λ _ _ h. h) _
        (fail_lem K {A = Unit} {R = λ _ _. ⊥} c (record d { rx = rx }) (error_of e) q
          (kept_error e))
  frame_step_lem c d (rx, data_frame, none) r v t = record {
    advances = (
      Runs-trans c d _ r (Runs-rx d rx v t.within),
      omega (arith, less_weight d rx (t.frame_takes (λ e. cc)), r.used),
      t.announced refl,
    );
  }
  frame_step_lem c d (rx, control_frame, none) r v t =
      let q = Runs-trans c d _ r (Runs-rx d rx v t.within) in
      let less = less_weight d rx (t.frame_takes (λ e. cc)) in
      step_of_lem (λ _ _ h. (h.0, omega (arith, h.1, less))) (λ _ _ h. h) _
        (handle_control_lem c (record d { rx = rx }) q)
  frame_step_lem c d (rx, need_input, none) r v t =
      let step = Runs-rx d rx v t.within in
      let q = Runs-trans c d _ r step in
      step_of_lem (λ u _ h. (Runs-trans c _ u q h.0, omega (arith, h.1, step.used)))
        (λ u e h. Runs-Stops K c _ u e q h) _ (fill_lem K (record d { rx = rx }) v)

  -- `nextFrame` returns: with a data frame announced, or with an error.
  pub next_frame_lem :
      (c : Reader K.World S)
      → IsValid c.rx
      → Returns (λ t _. Announced c (weight c) t) (Stops K c) (next_frame K c)
  unfolding next_frame next_frame_round
  next_frame_lem c v =
      loop_lem (Runs c) weight (next_frame_round K)
        (λ d r.
          frame_step_lem c d (Receiver.next d.rx) r (next-IsValid d.rx r.sound)
            (next-Takes d.rx r.sound))
        (suc (weight c)) c (omega arith) (Runs-refl c v)
