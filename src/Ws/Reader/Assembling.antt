-- ===== src/Ws/Reader/Assembling.antt =====
-- `assemble` and `discard` of ws/conn_read.go on every path.
use ews.Common.{
  ap₂, ℕ, suc, ◌+◌, ◌-◌, ◌^◌, ◌≤◌, ◌<◌, ◌≡◌, inl, inr, refl, sym, ap, subst, ◌∙◌, false, List, [],
  arith, ltb, length, Bool-cases,
}
use ews.Codec.Header.{payload_len}
use ews.Ws.Receiver.{message_is_open}
use ews.Ws.Receiver.Invariant.{IsValid}
use ews.Ws.Reader.{
  weight_of, ReadError, Outcome, ok, failed, out_of_fuel, loop, Control, Reader, weight,
}
use ews.Ws.Reader.Rules.{Returns, Goes, loop_lem, step_of_lem}
use ews.Ws.Reader.Effects.{Runs, Runs-refl, Runs-trans, Stops, Runs-Stops, fail_lem}
use ews.Ws.Reader.Announcing.{next_frame_lem}
use ews.Ws.Reader.Gathering.{WithinLimit, with_msg_lem, gather_lem}
use ews.Ws.Reader.Messages
use ews.Ws.Reader.Messages.{
  start_message, bad_text, Gathered, whole, part, gather, with_msg, allowance, after_gather,
  then_gathered, assemble_round, assemble, discard_step, discard_round, discard_plain, discard,
  next_message, check_text, finish_message, read_message,
}

module _ {W S : Type 0} where
  -- Only other fields differ.
  pub Runs-rest :
      (c d e : Reader W S)
      → Runs c d
      → e.rx ≡ d.rx
      → e.limit ≡ d.limit
      → e.takeover ≡ d.takeover
      → e.read_err ≡ d.read_err
      → e.arrivals ≡ d.arrivals
      → Runs c e × (weight e ≡ weight d)
  Runs-rest c d e r rx limit takeover read_err arrivals =
      let same : weight e ≡ weight d =
        unfold weight in ap₂ (λ a l. length a.dec.pending + weight_of l) rx arrivals in
      (
        record {
          sound = subst IsValid (sym rx) r.sound;
          limit = limit ∙ r.limit;
          takeover = takeover ∙ r.takeover;
          calm = read_err ∙ r.calm;
          used = omega (arith, same, r.used);
        },
        same,
      )

pub allowance-fits :
    (limit : ℕ) (msg : List ℕ)
    → length msg ≤ limit
    → limit < 2 ^ 63
    → allowance limit msg ≡ limit - length msg
allowance-fits limit msg h small = omega arith

not_less : (m n : ℕ) → ltb m n ≡ false → n ≤ m
not_less m n e = ground arith

module _ (K : Control) {S : Type 0} where
  -- A frame was announced that follows `msg`, which is within the limit.
  abbrev Between : Reader K.World S → Reader K.World S × List ℕ → Type 0
  Between c (d, msg) =
      Runs c d × (length msg ≤ c.limit) × (d.rx.remaining ≡ payload_len d.rx.header)

  abbrev Bounded : Reader K.World S → Reader K.World S × List ℕ → List ℕ → Type 0
  Bounded c s out = Runs c s.0 × (length out ≤ c.limit)

  after_gather_lem :
      (c d : Reader K.World S) (g : Gathered) (s : Reader K.World S × List ℕ)
      → Runs c d
      → WithinLimit K d c.limit s g
      → Goes
          (Between c)
          (λ s. weight s.0)
          (weight d)
          (Bounded c)
          (λ s e. Stops K c s.0 e)
          (after_gather K g s)
  unfolding after_gather
  after_gather_lem c d (whole body) (t, msg) r h = record {
    advances = (Runs-trans c d t r h.0, h.1);
  }
  after_gather_lem c d part (t, msg) r h =
      let q = Runs-trans c d t r h.0 in
      elim (Bool-cases (message_is_open t.rx)) [
        | inr e ↦ rw e (record { advances = (q, h.1) })
        | inl e ↦ rw e (
            step_of_lem
              (λ s _ g. (
                (Runs-trans c t s.0 q g.0.0, omega (arith, ap (λ m. length m) g.1, h.1), g.0.2),
                omega (arith, g.0.1, h.0.used),
              ))
              (λ s e g. Runs-Stops K c t s.0 e q g) _
              (with_msg_lem K {A = Unit} msg _ _ _ (next_frame_lem K t q.sound)))
      ]

  then_gathered_lem :
      (c d : Reader K.World S) (x : (Reader K.World S × List ℕ) × Outcome Gathered)
      → Runs c d
      → Returns (WithinLimit K d c.limit) (λ s e. Stops K d s.0 e) x
      → Goes
          (Between c)
          (λ s. weight s.0)
          (weight d)
          (Bounded c)
          (λ s e. Stops K c s.0 e)
          (then_gathered K x)
  then_gathered_lem c d (s, ok g) r h = after_gather_lem c d g s r h.holds
  then_gathered_lem c d (s, failed e) r h = record { advances = Runs-Stops K c d s.0 e r h.holds }
  then_gathered_lem c d (s, out_of_fuel) r h = elim h.holds [ ]

  assemble_round_lem :
      (c d : Reader K.World S) (msg : List ℕ)
      → c.limit < 2 ^ 63
      → Between c (d, msg)
      → Goes
          (Between c)
          (λ s. weight s.0)
          (weight d)
          (Bounded c)
          (λ s e. Stops K c s.0 e)
          (assemble_round K (d, msg))
  unfolding assemble_round
  assemble_round_lem c d msg small (r, fits, left) =
      elim (Bool-cases (ltb (allowance d.limit msg) (payload_len d.rx.header))) [
        | inl e ↦ rw e (
            step_of_lem (λ _ _ g. absurd g.0) (λ _ _ g. g) _
              (with_msg_lem K {A = Unit} msg (λ _ _. ⊥) (Stops K c) _
                (fail_lem K {A = Unit} {R = λ _ _. ⊥} c d Messages.too_large r refl)))
        | inr e ↦ rw e (
            then_gathered_lem c d _ r (
              gather_lem K c.limit d msg r.sound (
                omega (
                  arith,
                  not_less _ _ e,
                  allowance-fits d.limit msg (omega (arith, fits, r.limit))
                      (omega (arith, r.limit, small)),
                  left,
                  r.limit,
                  fits,
                ))))
      ]

  pub first_lem :
      {A : Type 0} {R : Reader K.World S → A → Type 0} {E : Reader K.World S → ReadError → Type 0}
      (x : (Reader K.World S × List ℕ) × Outcome A)
      → Returns (λ s. R s.0) (λ s. E s.0) x
      → Returns R E (x.0.0, x.1)
  first_lem (s, ok a) h = record { holds = h.holds }
  first_lem (s, failed e) h = record { holds = h.holds }
  first_lem (s, out_of_fuel) h = elim h.holds [ ]

  -- `assemble` behind an announced frame.
  pub assemble_lem :
      (c : Reader K.World S)
      → IsValid c.rx
      → c.limit < 2 ^ 63
      → c.rx.remaining ≡ payload_len c.rx.header
      → Returns (λ d out. Runs c d × (length out ≤ c.limit)) (Stops K c) (assemble K c)
  unfolding assemble
  assemble_lem c v small left = first_lem (loop (suc (weight c)) (assemble_round K) (c, [])) (
      loop_lem (Between c) (λ s. weight s.0) (assemble_round K)
        (λ s p. assemble_round_lem c s.0 s.1 small p) (suc (weight c)) (c, []) (omega arith)
        (Runs-refl c v, omega arith, left))
