-- ===== src/Ws/Reader/Gathering.antt =====
-- What `readDirect`, `readInto` and the inner loop of `assemble` do, on every path.
use ews.Common.{
  ℕ, suc, ◌+◌, ◌*◌, ◌≤◌, ◌<◌, ◌≡◌, inl, inr, refl, ap, ◌∙◌, Bool, not, ◌&&◌, ◌||◌, Option, none,
  some, List, arith, leb, ◌==◌, length, length-append, Bool-cases,
}
use ews.Ws.Errors.{Failure}
use ews.Ws.Receiver.{Receiver, message_is_open}
use ews.Ws.Receiver
use ews.Ws.Receiver.Invariant.{IsValid}
use ews.Ws.Receiver.Progress.{payload_n-IsValid}
use ews.Ws.Receiver.Amounts.{Reads, payload_n-Reads, payload-Reads, payload-IsValid}
use ews.Ws.Reader.{
  ReadError, protocol, Outcome, ok, failed, out_of_fuel, step_of, Control, Reader, weight, read,
}
use ews.Ws.Reader.Rules.{Returns, Goes, loop_lem, weaken_lem, and_then_lem, step_of_lem}
use ews.Ws.Reader.Effects.{
  Runs, Runs-refl, Runs-trans, Runs-rx, Stops, Runs-Stops, feed-size, feed-Runs, read_lem, fill_lem,
  fail_lem,
}
use ews.Ws.Reader.Inflating.{direct, take_direct, read_direct}
use ews.Ws.Reader.Messages.{
  Gathered, whole, part, read_into, gather_step, gather_round, gather, with_msg,
}

module _ (K : Control) {S : Type 0} where
  pub less_input :
      (d : Reader K.World S) (rx : Receiver) (n : ℕ)
      → length rx.dec.pending + n ≤ length d.rx.dec.pending
      → weight (record d { rx = rx }) + n ≤ weight d
  unfolding weight
  less_input d rx n h = omega (arith, h)

  -- Payload was taken off the open frame, and some input with it.
  abbrev Taken : Reader K.World S → ℕ → Reader K.World S → List ℕ → Type 0
  Taken c n t body = Runs c t × (weight t < weight c) × (t.rx.remaining + length body ≡ n)

  direct_lem :
      (c d : Reader K.World S) (fed : Receiver) (x : Receiver × List ℕ × Bool × Option Failure)
      → Runs c (record d { rx = fed })
      → weight (record d { rx = fed }) < weight c
      → IsValid x.0
      → Reads fed x
      → Returns (Taken c fed.remaining) (Stops K c) (direct K d x)
  direct_lem c d fed (rx, body, done, some f) r w v t =
      fail_lem K {A = List ℕ} {R = Taken c fed.remaining} c (record d { rx = rx }) (protocol f)
        (Runs-trans c _ _ r (Runs-rx (record d { rx = fed }) rx v (omega (arith, t.off_input))))
        refl
  direct_lem c d fed (rx, body, done, none) r w v t = record {
    holds = (
      Runs-trans c _ _ r (Runs-rx (record d { rx = fed }) rx v (omega (arith, t.off_input))),
      omega (arith, less_input (record d { rx = fed }) rx (length body) t.off_input, w),
      t.off_frame refl,
    );
  }

  take_direct_lem :
      (c d : Reader K.World S) (s : List ℕ)
      → Runs c d
      → weight d + 2 * length s ≤ weight c
      → 1 ≤ length s
      → Returns (Taken c d.rx.remaining) (Stops K c) (take_direct K s d)
  unfolding take_direct
  take_direct_lem c d s r w one =
      let (run, less) = feed-Runs K c d s r w in
      weaken_lem (λ t body h. (h.0, h.1, h.2 ∙ (feed-size s d.rx).1)) (λ _ _ h. h)
        (take_direct K s d)
        (direct_lem c d (Receiver.feed s d.rx)
          (Receiver.payload_n (length s) (Receiver.feed s d.rx)) run (omega (arith, less, one))
          (payload_n-IsValid (length s) _ run.sound) (payload_n-Reads (length s) _ run.sound))

  -- `readDirect`
  pub read_direct_lem :
      (n : ℕ) (c : Reader K.World S)
      → IsValid c.rx
      → Returns (Taken c c.rx.remaining) (Stops K c) (read_direct K n c)
  unfolding read_direct
  read_direct_lem n c v =
      and_then_lem _ _
        (λ d s h.
          weaken_lem (λ t body g. (g.0, g.1, g.2 ∙ ap (λ rx. rx.remaining) h.1)) (λ _ _ g. g)
            (take_direct K s d) (take_direct_lem c d s h.0 h.3 h.4))
        (λ d e h. h) (read n c) (read_lem K n c v)

  abbrev Stopped : Reader K.World S → Reader K.World S × List ℕ → ReadError → Type 0
  Stopped c (t, msg) e = Stops K c t e

  -- What is gathered and what is left of the frame stay within `b`.
  abbrev Fits : Reader K.World S → ℕ → Reader K.World S × List ℕ → Type 0
  Fits c b (t, msg) = Runs c t × (length msg + t.rx.remaining ≤ b)

  abbrev pub WithinLimit : Reader K.World S → ℕ → Reader K.World S × List ℕ → Gathered → Type 0
  WithinLimit c b (t, msg) (whole body) = Runs c t × (length body ≤ b)
  WithinLimit c b (t, msg) part = Runs c t × (length msg ≤ b)

  -- `readInto`
  read_into_lem :
      (b n k : ℕ) (c d : Reader K.World S) (msg : List ℕ)
      → Runs c d
      → length msg + d.rx.remaining ≤ b
      → weight d ≤ k
      → Goes
          (Fits c b)
          (λ s. weight s.0)
          k
          (WithinLimit c b)
          (Stopped c)
          (step_of (read_into K n (d, msg)))
  unfolding read_into
  read_into_lem b n k c d msg r h w =
      step_of_lem {R = λ s _. Fits c b s × (weight s.0 < k)} (λ s _ g. g) (λ _ _ g. g)
        (read_into K n (d, msg))
        (and_then_lem _ _
          (λ t body g. record {
            holds = (
              (Runs-trans c d t r g.0, omega (arith, g.2, h, length-append msg body)),
              omega (arith, g.1, w),
            );
          })
          (λ t e g. Runs-Stops K c d t e r g) (read_direct K n d) (read_direct_lem n d r.sound))

  pub with_msg_lem :
      {A : Type 0} (msg : List ℕ) (R : Reader K.World S → A → Type 0)
      (E : Reader K.World S → ReadError → Type 0) (x : Reader K.World S × Outcome A)
      → Returns R E x
      → Returns (λ s a. R s.0 a × (s.1 ≡ msg)) (λ s e. E s.0 e) (with_msg K msg x)
  with_msg_lem msg R E (c, ok a) h = record { holds = (h.holds, refl) }
  with_msg_lem msg R E (c, failed e) h = record { holds = h.holds }
  with_msg_lem msg R E (c, out_of_fuel) h = elim h.holds [ ]

  gather_step_lem :
      (b : ℕ) (c d : Reader K.World S) (msg : List ℕ)
      (x : Receiver × List ℕ × Bool × Option Failure)
      → Runs c d
      → length msg + d.rx.remaining ≤ b
      → IsValid x.0
      → Reads d.rx x
      → Goes
          (Fits c b)
          (λ s. weight s.0)
          (weight d)
          (WithinLimit c b)
          (Stopped c)
          (gather_step K (d, msg) x)
  unfolding gather_step
  gather_step_lem b c d msg (rx, body, done, some f) r h v t =
      let q = Runs-trans c d _ r (Runs-rx d rx v (omega (arith, t.off_input))) in
      step_of_lem (λ _ _ g. absurd g.0) (λ _ _ g. g) _
        (with_msg_lem {A = Unit} msg (λ _ _. ⊥) (Stops K c) _
          (fail_lem K {A = Unit} {R = λ _ _. ⊥} c (record d { rx = rx }) (protocol f) q refl))
  gather_step_lem b c d msg (rx, body, done, none) r h v t =
      let step = Runs-rx d rx v (omega (arith, t.off_input)) in
      let q = Runs-trans c d _ r step in
      let less = less_input d rx (length body) t.off_input in
      let left = t.off_frame refl in
      elim (Bool-cases (done && (length msg == 0 && not (message_is_open rx)))) [
        | inl a ↦ rw a (record { advances = (q, omega (arith, left, h)) })
        | inr a ↦ elim (Bool-cases (not (length body == 0) || done)) [
          | inl some_body ↦ elim (Bool-cases done) [
            | inl full ↦
                rw (a, some_body, full)
                  (record { advances = (q, omega (arith, left, h, length-append msg body)) })
            | inr more ↦
                rw (a, some_body, more)
                  (record {
                    advances = (
                      (q, omega (arith, left, h, length-append msg body)),
                      (let one : 1 ≤ length body = ground arith in omega (arith, less, one)),
                    );
                  })
          ]
          | inr no_body ↦ elim (Bool-cases (leb d.buf rx.remaining)) [
            | inl large ↦
                rw (a, no_body, large)
                  (read_into_lem b rx.remaining (weight d) c (record d { rx = rx }) msg q
                    (omega (arith, left, h)) step.used)
            | inr small ↦
                rw (a, no_body, small)
                  (step_of_lem
                    (λ s _ g. (
                      (
                        Runs-trans c _ s.0 q g.0.0,
                        omega (arith, ap (λ m. length m) g.1, g.0.2, left, h),
                      ),
                      omega (arith, g.0.1, step.used),
                    ))
                    (λ s e g. Runs-Stops K c _ s.0 e q g) _
                    (with_msg_lem {A = Unit} msg _ _ _ (fill_lem K (record d { rx = rx }) v)))
          ]
        ]
      ]

  -- The inner loop of `assemble` returns: with a whole message or a whole frame within the limit, or
  -- with an error.
  pub gather_lem :
      (b : ℕ) (c : Reader K.World S) (msg : List ℕ)
      → IsValid c.rx
      → length msg + c.rx.remaining ≤ b
      → Returns (WithinLimit c b) (Stopped c) (gather K (c, msg))
  unfolding gather gather_round
  gather_lem b c msg v h =
      loop_lem (Fits c b) (λ s. weight s.0) (gather_round K)
        (λ s f.
          gather_step_lem b c s.0 s.1 (Receiver.payload s.0.rx) f.0 f.1
            (payload-IsValid s.0.rx f.0.sound) (payload-Reads s.0.rx f.0.sound))
        (suc (weight c)) (c, msg) (omega arith) (Runs-refl c v, h)
