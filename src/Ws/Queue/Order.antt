-- ===== src/Ws/Queue/Order.antt =====
-- The order of the frames on the wire, over all interleavings.
use ews.Common.{
  ℕ, ◌≡◌, refl, sym, ap, ap₂, ◌∙◌, Bool, true, false, none, some, [], ◌++◌, arith, length, take,
  drop, ◌==◌, ==_iff, length-append, append_assoc, append-nil, Bool-cases, Option-cases, inl, inr,
  length-zero, take-all, take-append-drop,
}
use ews.Ws.Queue.{Queue, set_limit, arena, begin_round, frames_of, coalesced, flush, end_round}
use ews.Ws.Queue.System.{
  looping, writing, System, init, begin_step, end_step, Step, submits, limits, begins, ends, Reach,
  start, then_step,
}
use ews.Ws.Queue.Frames.{coalesced-append, length-frames_of, coalesced-flush}
use ews.Ws.Queue.Invariant.{
  is_awake, waiting, in_flush, flying, Inv, not_asleep, init-Inv, submit-Inv,
}

set_limit-Inv :
    (limit : ℕ) (s : System) → Inv s → Inv (record s { queue = set_limit limit s.queue })
unfolding set_limit
set_limit-Inv limit s v = elim (Bool-cases (limit == 0)) [
  | inl e ↦ rw e v
  | inr e ↦ rw e (record {
    in_bounds = v.in_bounds;
    awake = v.awake;
    none_stranded = v.none_stranded;
    failed_asleep = v.failed_asleep;
    in_order = v.in_order;
    on_wire = v.on_wire;
    unsent = v.unsent;
    is_prefix = v.is_prefix;
    counted = v.counted;
    acknowledged = v.acknowledged;
  })
]

-- While the writer is awake there has been no error.
pub awake-fine : (s : System) → Inv s → is_awake s.phase ≡ true → s.queue.err ≡ none
awake-fine s v up = elim (Option-cases s.queue.err) [
  | inl e ↦ e
  | inr (k, e) ↦ not_asleep s.phase up (v.failed_asleep (λ h. absurd (ground (arith, e, h))))
]

pub begin_round-idle :
    (q : Queue)
    → q.err ≡ none
    → q.segments ≡ []
    → begin_round q ≡ (record q { running = false }, false)
unfolding begin_round
begin_round-idle q fine e = simp (fine, e, begin_round)

pub begin_round-busy :
    (q : Queue)
    → q.err ≡ none
    → (length q.segments == 0) ≡ false
    → begin_round q ≡ (
      record q {
        cur = none;
        flushing = q.cur;
        segments = [];
        flush_segments = q.segments;
        size = 0;
      },
      true,
    )
unfolding begin_round
begin_round-busy q fine e = simp (fine, e, begin_round)

begin_step-Inv : (s : System) → s.phase ≡ looping → Inv s → Inv (begin_step s)
unfolding begin_step frames_of
begin_step-Inv s p v =
    let up = ap is_awake p in
    let fine = awake-fine s v up in
    let order =
      v.in_order fine
      ∙ ap (λ t. s.delivered ++ (flying t (in_flush s.queue) ++ waiting s.queue)) p in
    elim (Bool-cases (length s.queue.segments == 0)) [
      | inl e ↦
          let z = length-zero s.queue.segments ((==_iff _ 0).0 e) in
          rw (begin_round-idle s.queue fine z) (record {
            in_bounds = v.in_bounds;
            awake = refl;
            none_stranded = λ h. z;
            failed_asleep = λ h. refl;
            in_order = λ h. order;
            on_wire = v.on_wire;
            unsent = v.unsent;
            is_prefix = v.is_prefix;
            counted = v.counted;
            acknowledged = v.acknowledged;
          })
      | inr e ↦ rw (begin_round-busy s.queue fine e) (record {
        in_bounds = tt;
        awake = v.awake ∙ up;
        none_stranded = λ h. refl;
        failed_asleep = λ h. absurd (h fine);
        in_order = λ h. order ∙ ap (λ t. s.delivered ++ t) (sym (append-nil (waiting s.queue)));
        on_wire = v.on_wire;
        unsent = v.unsent;
        is_prefix = v.is_prefix;
        counted = v.counted;
        acknowledged = v.acknowledged;
      })
    ]

-- A round that ends without an error has delivered the frames that it took.
end_step-done :
    (vectored : Bool) (k : ℕ) (s : System)
    → s.phase ≡ writing
    → k ≡ length (coalesced (flush vectored s.queue))
    → Inv s
    → Inv (end_step vectored k none s)
unfolding end_step end_round
end_step-done vectored k s p all v =
    let up = ap is_awake p in
    let fine = awake-fine s v up in
    let fs = in_flush s.queue in
    let order : s.submitted ≡ (s.delivered ++ fs) ++ waiting s.queue =
      v.in_order fine
      ∙ ap (λ t. s.delivered ++ (flying t fs ++ waiting s.queue)) p
      ∙ sym (append_assoc s.delivered fs (waiting s.queue)) in
    let wire : s.wire ++ take k (coalesced (flush vectored s.queue))
        ≡ coalesced (s.delivered ++ fs) =
      ap₂ (λ x y. x ++ y) (v.on_wire fine)
        (take-all k (coalesced (flush vectored s.queue)) (omega arith)
          ∙ coalesced-flush vectored s.queue)
      ∙ sym (coalesced-append s.delivered fs) in
    record {
      in_bounds = v.in_bounds;
      awake = v.awake ∙ up;
      none_stranded = λ h. not_asleep looping refl h;
      failed_asleep = λ h. absurd (h fine);
      in_order = λ h. order;
      on_wire = λ h. wire;
      unsent = coalesced (waiting s.queue);
      is_prefix =
          ap (λ t. t ++ coalesced (waiting s.queue)) wire
          ∙ sym (coalesced-append (s.delivered ++ fs) (waiting s.queue))
          ∙ ap coalesced (sym order);
      counted = v.counted;
      acknowledged = λ h. omega (
        arith,
        v.acknowledged fine,
        length-append {0} s.delivered fs,
        length-frames_of (arena s.queue.flushing) s.queue.flush_segments,
      );
    }

-- A round that fails leaves a prefix of what was submitted, and the writer exits.
end_step-failed :
    (vectored : Bool) (k e : ℕ) (s : System)
    → s.phase ≡ writing
    → Inv s
    → Inv (end_step vectored k (some e) s)
unfolding end_step end_round
end_step-failed vectored k e s p v =
    let fine = awake-fine s v (ap is_awake p) in
    let fs = in_flush s.queue in
    let out = coalesced (flush vectored s.queue) in
    record {
      in_bounds = tt;
      awake = refl;
      none_stranded = λ h. refl;
      failed_asleep = λ h. refl;
      in_order = λ h. absurd (ground (arith, h));
      on_wire = λ h. absurd (ground (arith, h));
      unsent = drop k out ++ coalesced (waiting s.queue);
      is_prefix =
          append_assoc s.wire (take k out) (drop k out ++ coalesced (waiting s.queue))
          ∙ ap (λ t. s.wire ++ t)
              (sym (append_assoc (take k out) (drop k out) (coalesced (waiting s.queue)))
                ∙ ap (λ t. t ++ coalesced (waiting s.queue))
                    (take-append-drop k out ∙ coalesced-flush vectored s.queue)
                ∙ sym (coalesced-append fs (waiting s.queue)))
          ∙ ap (λ t. t ++ coalesced (fs ++ waiting s.queue)) (v.on_wire fine)
          ∙ sym (coalesced-append s.delivered (fs ++ waiting s.queue))
          ∙ ap coalesced
              (sym (v.in_order fine ∙ ap (λ t. s.delivered ++ (flying t fs ++ waiting s.queue)) p));
      counted = λ h. absurd (ground (arith, h));
      acknowledged = λ h. absurd (ground (arith, h));
    }

Step-Inv : (s t : System) → Step s t → Inv s → Inv t
Step-Inv _ _ (submits header body ext s) v = submit-Inv header body ext s v
Step-Inv _ _ (limits limit s) v = set_limit-Inv limit s v
Step-Inv _ _ (begins s p) v = begin_step-Inv s p v
Step-Inv _ _ (ends vectored k none s p all) v = end_step-done vectored k s p (all refl) v
Step-Inv _ _ (ends vectored k (some e) s p all) v = end_step-failed vectored k e s p v

pub Reach-Inv : (limit : ℕ) (s : System) → Reach (init limit) s → Inv s
Reach-Inv limit s start = init-Inv limit
Reach-Inv limit s (then_step {t = t} r st) = Step-Inv t s st (Reach-Inv limit t r)
