-- ===== src/Ws/Queue/Progress.antt =====
-- The writer of a queue over a transport whose writes succeed, with no further call of a sender.
use ews.Common.{
  ℕ, zero, suc, ◌-◌, ◌≤◌, ◌≡◌, refl, sym, ap, ◌∙◌, Bool, none, subst, ◌⊎◌, arith, length,
  if◌then◌else◌, ◌==◌, ==_iff, Bool-cases, inl, inr, length-zero,
}
use ews.Ws.Queue.{coalesced, flush, end_round}
use ews.Ws.Queue.System.{
  Phase, asleep, looping, writing, System, init, begin_step, end_step, begins, ends, Reach, start,
  then_step,
}
use ews.Ws.Queue.Order.{begin_round-idle, begin_round-busy}
use ews.Ws.Queue.Delivery.{submitted_in_order}

Phase-cases : (p : Phase) → (p ≡ asleep) ⊎ ((p ≡ looping) ⊎ (p ≡ writing))
Phase-cases asleep = inl refl
Phase-cases looping = inr (inl refl)
Phase-cases writing = inr (inr refl)

Reach-trans : (s t u : System) → Reach s t → Reach t u → Reach s u
Reach-trans s t u r start = r
Reach-trans s t u r (then_step {t = v} q st) = then_step (Reach-trans s t v r q) st

-- What the writer does next.
unfoldable pub advance : Bool → System → System
advance vectored s = elim s.phase [
  | asleep ↦ s
  | looping ↦ begin_step s
  | writing ↦ end_step vectored (length (coalesced (flush vectored s.queue))) none s
]

unfoldable pub advances : Bool → ℕ → System → System
advances vectored zero s = s
advances vectored (suc n) s = advances vectored n (advance vectored s)

-- The critical sections until the writer exits.
rounds_left : Phase → ℕ → ℕ
rounds_left asleep n = 0
rounds_left looping n = if n == 0 then 1 else 3
rounds_left writing n = if n == 0 then 2 else 4

left : System → ℕ
unfolding rounds_left
left s = rounds_left s.phase (length s.queue.segments)

-- One such step: the writer is nearer to its exit, without an error and with nothing new submitted.
record Advances (s t : System) : Type 0 where
  nearer : left t ≡ left s - 1
  fine : t.queue.err ≡ none
  same : t.submitted ≡ s.submitted

advance-asleep :
    (vectored : Bool) (s : System)
    → s.phase ≡ asleep
    → s.queue.err ≡ none
    → Advances s (advance vectored s)
unfolding advance left rounds_left
advance-asleep vectored s p fine = rw p (record { nearer = refl; fine = fine; same = refl })

advance-looping :
    (vectored : Bool) (s : System)
    → s.phase ≡ looping
    → s.queue.err ≡ none
    → Advances s (advance vectored s)
unfolding advance left rounds_left begin_step
advance-looping vectored s p fine = rw p (elim (Bool-cases (length s.queue.segments == 0)) [
  | inl e ↦
      let z = length-zero s.queue.segments ((==_iff _ 0).0 e) in
      rw (begin_round-idle s.queue fine z) (record { nearer = rw e refl; fine = fine; same = refl })
  | inr e ↦
      rw (begin_round-busy s.queue fine e) (record { nearer = rw e refl; fine = fine; same = refl })
])

advance-writing :
    (vectored : Bool) (s : System)
    → s.phase ≡ writing
    → s.queue.err ≡ none
    → Advances s (advance vectored s)
unfolding advance left rounds_left end_step end_round
advance-writing vectored s p fine =
    rw p (record { nearer = ground arith; fine = fine; same = refl })

advance-Advances :
    (vectored : Bool) (s : System) → s.queue.err ≡ none → Advances s (advance vectored s)
advance-Advances vectored s fine = elim (Phase-cases s.phase) [
  | inl p ↦ advance-asleep vectored s p fine
  | inr (inl p) ↦ advance-looping vectored s p fine
  | inr (inr p) ↦ advance-writing vectored s p fine
]

-- A step of the writer is one of the system's.
advance-Reach : (vectored : Bool) (s t : System) → Reach s t → Reach s (advance vectored t)
unfolding advance
advance-Reach vectored s t r = elim (Phase-cases t.phase) [
  | inl p ↦ subst (Reach s) (simp (p, advance)) r
  | inr (inl p) ↦ subst (Reach s) (simp (p, advance)) (then_step r (begins t p))
  | inr (inr p) ↦ subst (Reach s) (simp (p, advance)) (
      then_step r
        (ends vectored (length (coalesced (flush vectored t.queue))) none t p (λ e. refl)))
]

record Settles (s t : System) (n : ℕ) : Type 0 where
  nearer : left t ≡ left s - n
  fine : t.queue.err ≡ none
  same : t.submitted ≡ s.submitted
  reached : Reach s t

advances-Settles :
    (vectored : Bool) (n : ℕ) (s : System)
    → s.queue.err ≡ none
    → Settles s (advances vectored n s) n
unfolding advances
advances-Settles vectored zero s fine = record {
  nearer = omega arith;
  fine = fine;
  same = refl;
  reached = start;
}
advances-Settles vectored (suc n) s fine =
    let a = advance-Advances vectored s fine in
    let b = advances-Settles vectored n (advance vectored s) a.fine in
    record {
      nearer = omega (arith, a.nearer, b.nearer);
      fine = b.fine;
      same = b.same ∙ a.same;
      reached = Reach-trans s (advance vectored s) _ (advance-Reach vectored s s start) b.reached;
    }

rounds_left-le : (p : Phase) (n : ℕ) → rounds_left p n ≤ 4
unfolding rounds_left
rounds_left-le asleep n = ground arith
rounds_left-le looping n = ground arith
rounds_left-le writing n = ground arith

rounds_left-zero : (p : Phase) (n : ℕ) → rounds_left p n ≡ 0 → p ≡ asleep
unfolding rounds_left
rounds_left-zero asleep n e = refl
rounds_left-zero looping n e = absurd (ground (arith, e))
rounds_left-zero writing n e = absurd (ground (arith, e))

-- From any state of the queue without a write error: where no further call is made and the transport
-- takes what it is given, four critical sections of the writer put every accepted frame on the wire,
-- whole and in order, and the writer has exited.
pub drains :
    (limit : ℕ) (vectored : Bool) (s : System)
    → Reach (init limit) s
    → s.queue.err ≡ none
    → let t = advances vectored 4 s in
      (t.phase ≡ asleep) × (t.submitted ≡ s.submitted) × (t.wire ≡ coalesced s.submitted)
unfolding left
drains limit vectored s r fine =
    let t = advances vectored 4 s in
    let a = advances-Settles vectored 4 s fine in
    let gone =
      rounds_left-zero t.phase (length t.queue.segments)
        (omega (arith, a.nearer, rounds_left-le s.phase (length s.queue.segments))) in
    let (order, wire, all) = submitted_in_order limit t (Reach-trans _ s t r a.reached) a.fine in
    (gone, a.same, wire ∙ ap coalesced (sym (all gone) ∙ a.same))
