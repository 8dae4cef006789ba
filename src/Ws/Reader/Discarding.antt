-- ===== src/Ws/Reader/Discarding.antt =====
-- `discard` of ws/conn_read.go on every path.
use ews.Common.{
  ℕ, suc, ◌≤◌, inl, inr, refl, sym, subst, if◌then◌else◌, Bool, false, not, Option, none, some,
  List, arith, ◌==◌, length, Bool-cases,
}
use ews.Ws.Errors.{Failure}
use ews.Ws.Receiver.{Receiver, message_is_open}
use ews.Ws.Receiver
use ews.Ws.Receiver.Invariant.{IsValid}
use ews.Ws.Receiver.Amounts.{Reads, payload-Reads, payload-IsValid}
use ews.Ws.Reader.{protocol, ok, ends, Control, Reader, weight}
use ews.Ws.Reader.Rules.{Returns, Goes, loop_lem, step_of_lem}
use ews.Ws.Reader.Effects.{Runs, Runs-trans, Runs-rx, Stops, Runs-Stops, fill_lem, fail_lem}
use ews.Ws.Reader.Announcing.{next_frame_lem}
use ews.Ws.Reader.Gathering.{less_input}
use ews.Ws.Reader.Messages.{discard_step, discard_round, discard_plain}

module _ (K : Control) {S : Type 0} where
  -- `discard` of a message that is not inflated.
  discard_step_lem :
      (c d : Reader K.World S) (x : Receiver × List ℕ × Bool × Option Failure)
      → Runs c d
      → IsValid x.0
      → Reads d.rx x
      → Goes (Runs c) weight (weight d) (λ t _. Runs c t) (Stops K c) (discard_step K d x)
  unfolding discard_step weight
  discard_step_lem c d (rx, body, done, some f) r v t =
      step_of_lem (λ _ _ g. absurd g) (λ _ _ g. g) _
        (fail_lem K {A = Unit} {R = λ _ _. ⊥} c (record d { rx = rx }) (protocol f)
          (Runs-trans c d _ r (Runs-rx d rx v (omega (arith, t.off_input)))) refl)
  discard_step_lem c d (rx, body, done, none) r v t =
      let e : Reader K.World S = record d { rx = rx } in
      let step : Runs d e = Runs-rx d rx v (omega (arith, t.off_input)) in
      let q = Runs-trans c d e r step in
      let less = less_input K d rx (length body) t.off_input in
      elim (Bool-cases done) [
        | inr more ↦ elim (Bool-cases (length body == 0)) [
          | inl z ↦
              rw (more, z)
                (step_of_lem (λ u _ g. (Runs-trans c e u q g.0, omega (arith, g.1, step.used)))
                  (λ u err g. Runs-Stops K c e u err q g) _ (fill_lem K e v))
          | inr nz ↦
              let one : 1 ≤ length body = ground arith in
              rw (more, nz) (record { advances = (q, omega (arith, less, one)) })
        ]
        | inl full ↦ elim (Bool-cases (message_is_open rx)) [
          | inr shut ↦
              rw (full, shut)
                (record {
                  advances = record {
                    sound = v;
                    limit = r.limit;
                    takeover = r.takeover;
                    calm = r.calm;
                    used = q.used;
                  };
                })
          | inl busy ↦
              rw (full, busy)
                (step_of_lem (λ u _ g. (Runs-trans c e u q g.0, omega (arith, g.1, step.used)))
                  (λ u err g. Runs-Stops K c e u err q g) _ (next_frame_lem K e v))
        ]
      ]

  discard_round_lem :
      (c d : Reader K.World S)
      → Runs c d
      → Goes (Runs c) weight (weight d) (λ t _. Runs c t) (Stops K c) (discard_round K d)
  unfolding discard_round
  discard_round_lem c d r =
      let goal : Bool → Type 0 = λ b.
        Goes (Runs c) weight (weight d) (λ t _. Runs c t) (Stops K c)
          (if not b then (d, ends (ok tt)) else discard_step K d (Receiver.payload d.rx)) in
      elim (Bool-cases d.in_message) [
        | inr e ↦ subst goal (sym e) (record { advances = r })
        | inl e ↦ subst goal (sym e) (
            discard_step_lem c d (Receiver.payload d.rx) r (payload-IsValid d.rx r.sound)
              (payload-Reads d.rx r.sound))
      ]

  pub discard_plain_lem :
      (c : Reader K.World S)
      → IsValid c.rx
      → Returns (λ d _. Runs c d) (Stops K c) (discard_plain K c)
  unfolding discard_plain
  discard_plain_lem c v =
      let c' : Reader K.World S = record c { streaming = false } in
      let q : Runs c c' = record {
        sound = v;
        limit = refl;
        takeover = refl;
        calm = refl;
        used = unfold weight in omega arith;
      } in
      loop_lem (Runs c) weight (discard_round K) (λ d r. discard_round_lem c d r) (suc (weight c))
        c' (unfold weight in omega arith) q
