-- ===== src/Ws/Reader/Streaming.antt =====
-- A whole frame from the transport, in whatever pieces: the inner loop of `assemble` in
-- ws/conn_read.go.
use ews.Common.{
  ℕ, suc, ◌≤◌, ◌<◌, ◌≡◌, inl, inr, refl, sym, ap, subst, ◌∙◌, Bool, true, false, not, ◌&&◌, ◌||◌,
  Option, none, some, List, [], ◌++◌, arith, length, leb, append-nil, append_assoc, length-zero,
  Bool-cases, ◌==◌,
}
use ews.Ws.Errors.{Failure}
use ews.Ws.Receiver.{Receiver, message_is_open}
use ews.Ws.Receiver
use ews.Ws.Reader.{step_of, Control, Reader, weight, fill}
use ews.Ws.Reader.Rules.{Returns, Goes, loop_lem, and_then_lem, step_of_lem}
use ews.Ws.Reader.Gathering.{less_input, with_msg_lem}
use ews.Ws.Reader.Inflating.{read_direct}
use ews.Ws.Reader.Messages.{
  Gathered, whole, part, read_into, gather_step, gather_round, gather, with_msg,
}
use ews.Ws.Reader.Flow.{flow, fill-Buffers}
use ews.Ws.Reader.Carrying.{Carries}
use ews.Ws.Reader.Bodies.{Gives, payload-Gives}
use ews.Ws.Reader.Direct.{
  Buffers-Carries, Kept-trans, Gives-Kept, Buffers-Kept, gives_more, read_direct_lem, Kept,
}

module _ (K : Control) {S : Type 0} (c : Reader K.World S) (final : Bool) (m : ℕ)
    (msg p rest : List ℕ) where
  -- What was gathered and what is left of the frame make up the whole.
  abbrev Gathers : Reader K.World S × List ℕ → Type 0
  Gathers (d, g) = (left : List ℕ) × Carries d final m left rest × (g ++ left ≡ msg ++ p) × Kept c d

  abbrev pub GatheredAll : Reader K.World S × List ℕ → Gathered → Type 0
  GatheredAll (d, g) (whole body) =
      Carries d final m [] rest × (body ≡ msg ++ p) × Kept c d × (message_is_open d.rx ≡ false)
  GatheredAll (d, g) part = Carries d final m [] rest × (g ≡ msg ++ p) × Kept c d

  fill_step :
      (d : Reader K.World S) (g left : List ℕ) (n : ℕ)
      → Carries d final m left rest
      → g ++ left ≡ msg ++ p
      → Kept c d
      → 1 ≤ length (flow d.arrivals)
      → weight d ≤ n
      → Goes Gathers (λ s. weight s.0) n GatheredAll (λ _ _. ⊥) (step_of (with_msg K g (fill d)))
  fill_step d g left n v e k more h =
      step_of_lem
        (λ s _ r. (
          (
            left,
            Buffers-Carries d s.0 final m left rest v r.0.0,
            ap (λ x. x ++ left) r.1 ∙ e,
            Buffers-Kept K c final m rest d s.0 k r.0.0 (omega (arith, r.0.1)),
          ),
          omega (arith, r.0.1, h),
        ))
        (λ s err r. r) _
        (with_msg_lem K {A = Unit} g _ (λ _ _. ⊥) (fill d)
          (fill-Buffers d v.room v.not_failed v.not_closed v.smooth more))

  read_into_step :
      (d : Reader K.World S) (g left : List ℕ) (n k : ℕ)
      → Carries d final m left rest
      → g ++ left ≡ msg ++ p
      → Kept c d
      → (length left == 0) ≡ false
      → length d.rx.dec.pending ≡ 0
      → 1 ≤ n
      → weight d ≤ k
      → Goes Gathers (λ s. weight s.0) k GatheredAll (λ _ _. ⊥) (step_of (read_into K n (d, g)))
  unfolding read_into
  read_into_step d g left n k v e kept some_left none_there one h =
      step_of_lem {R = λ s _. Gathers s × (weight s.0 < k)} (λ s _ r. r) (λ s err r. r)
        (read_into K n (d, g))
        (and_then_lem _ _
          (λ t body r. record {
            holds = (
              (
                r.0,
                r.1,
                append_assoc g body r.0 ∙ ap (λ x. g ++ x) (sym r.2) ∙ e,
                Kept-trans c d t kept r.3,
              ),
              omega (arith, r.4, h),
            );
          })
          (λ _ _ r. r) (read_direct K n d)
          (read_direct_lem K d final m rest n left v some_left none_there one))

  gather_step_lem :
      (d : Reader K.World S) (g left : List ℕ) (x : Receiver × List ℕ × Bool × Option Failure)
      → g ++ left ≡ msg ++ p
      → Kept c d
      → Gives d final m left rest x
      → Goes Gathers (λ s. weight s.0) (weight d) GatheredAll (λ _ _. ⊥) (gather_step K (d, g) x)
  unfolding gather_step
  gather_step_lem d g left (rx, body, done, some err) e k v = absurd (ground (arith, v.no_error))
  gather_step_lem d g left (rx, body, done, none) e k v =
      let kept = Gives-Kept K c final m rest d left (rx, body, done, none) k v in
      let less = less_input K d rx (length body) v.used in
      let joined : (g ++ body) ++ v.left ≡ msg ++ p =
        append_assoc g body v.left ∙ ap (λ t. g ++ t) (sym v.split) ∙ e in
      let last : done ≡ true → v.left ≡ [] = λ q. length-zero v.left (ground (arith, v.done, q)) in
      elim (Bool-cases (done && (length g == 0 && not (message_is_open rx)))) [
        | inl a ↦
            let q : done ≡ true = ground (arith, a) in
            let nil : g ≡ [] = length-zero g (ground (arith, a)) in
            let shut : message_is_open rx ≡ false = ground (arith, a) in
            rw a (record {
              advances = (
                subst (λ t. Carries (record d { rx = rx }) final m t rest) (last q) v.carries,
                ap (λ t. t ++ body) (sym nil)
                    ∙ sym (append-nil (g ++ body))
                    ∙ ap (λ t. (g ++ body) ++ t) (sym (last q))
                    ∙ joined,
                kept,
                shut,
              );
            })
        | inr a ↦ elim (Bool-cases (not (length body == 0) || done)) [
          | inl some_body ↦ elim (Bool-cases done) [
            | inl full ↦
                rw (a, some_body, full)
                  (record {
                    advances = (
                      subst (λ t. Carries (record d { rx = rx }) final m t rest) (last full)
                          v.carries,
                      sym (append-nil (g ++ body))
                          ∙ ap (λ t. (g ++ body) ++ t) (sym (last full))
                          ∙ joined,
                      kept,
                    );
                  })
            | inr more ↦
                let one : 1 ≤ length body = ground arith in
                rw (a, some_body, more)
                  (record {
                    advances = ((v.left, v.carries, joined, kept), omega (arith, less, one));
                  })
          ]
          | inr no_body ↦
              let nil : body ≡ [] = length-zero body (ground (arith, no_body)) in
              let open_frame : done ≡ false = ground (arith, no_body) in
              let some_left : (length v.left == 0) ≡ false = sym v.done ∙ open_frame in
              let none_there = v.waits nil open_frame in
              let same : g ++ v.left ≡ msg ++ p =
                ap (λ t. t ++ v.left) (sym (append-nil g) ∙ ap (λ t. g ++ t) (sym nil)) ∙ joined in
              let t : Reader K.World S = record d { rx = rx } in
              let fewer : weight t ≤ weight d = omega (arith, less) in
              elim (Bool-cases (leb d.buf rx.remaining)) [
                | inl large ↦
                    rw (a, no_body, large)
                      (read_into_step t g v.left rx.remaining (weight d) v.carries same kept
                        some_left none_there (ground (arith, large, v.carries.room)) fewer)
                | inr small ↦
                    rw (a, no_body, small)
                      (fill_step t g v.left (weight d) v.carries same kept
                        (gives_more K c final m rest t v.left v.carries some_left none_there) fewer)
              ]
        ]
      ]

  -- The inner loop of `assemble` gathers the frame.
  pub gather_lem : Carries c final m p rest → Returns GatheredAll (λ _ _. ⊥) (gather K (c, msg))
  unfolding gather gather_round
  gather_lem v =
      loop_lem Gathers (λ s. weight s.0) (gather_round K)
        (λ s f.
          gather_step_lem s.0 s.1 f.0 (Receiver.payload s.0.rx) f.2 f.3
            (payload-Gives s.0 final m f.0 rest f.1))
        (suc (weight c)) (c, msg) (omega arith)
        (p, v, refl, record { others = refl; header = refl; role = refl; used = omega arith })
