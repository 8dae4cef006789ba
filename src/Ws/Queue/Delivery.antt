-- ===== src/Ws/Queue/Delivery.antt =====
-- What a queue promises its senders.
use ews.Common.{
  ℕ, ◌%◌, ◌^◌, ◌≤◌, ◌<◌, ◌≡◌, refl, sym, ap, ◌∙◌, false, none, List, [], ◌++◌, arith, length, take,
  drop, ltb, length-append, append-nil, take-append-drop, take-append_left,
}
use ews.Ws.Queue.{Queue, coalesced, must_wait, frames_of}
use ews.Ws.Queue.System.{asleep, System, init, Reach}
use ews.Ws.Queue.Frames.{coalesced-append}
use ews.Ws.Queue.Invariant.{waiting, flying, in_flush}
use ews.Ws.Queue.Order.{Reach-Inv}

waiting-empty : (q : Queue) → q.segments ≡ [] → waiting q ≡ []
unfolding frames_of
waiting-empty q e = rw e refl

-- An acknowledged frame is among the delivered ones.
acknowledged-few :
    (seq : ℕ) (q : Queue) (d : List (List ℕ))
    → q.err ≡ none
    → must_wait seq q ≡ false
    → q.written ≡ length d % 2 ^ 64
    → length d < 2 ^ 64
    → seq ≤ length d
unfolding must_wait
acknowledged-few seq q d fine done ack few =
    let same : must_wait seq q ≡ ltb q.written seq = simp (fine, must_wait) in
    let e : ltb q.written seq ≡ false = sym same ∙ done in ground (arith, e, ack, few)

take-coalesced :
    (seq : ℕ) (d more : List (List ℕ))
    → seq ≤ length d
    → coalesced d ≡ coalesced (take seq (d ++ more)) ++ coalesced (drop seq d)
take-coalesced seq d more le =
    ap coalesced (sym (take-append-drop seq d))
    ∙ coalesced-append (take seq d) (drop seq d)
    ∙ ap (λ t. coalesced t ++ coalesced (drop seq d)) (sym (take-append_left seq d more le))

-- However calls, the writer and failing writes interleave, the bytes on the wire are a prefix of the
-- frames that the queue accepted, each whole, in the order in which they were accepted.
pub wire-is_prefix :
    (limit : ℕ) (s : System)
    → Reach (init limit) s
    → (unsent : List ℕ) × (s.wire ++ unsent ≡ coalesced s.submitted)
wire-is_prefix limit s r = let v = Reach-Inv limit s r in (v.unsent, v.is_prefix)

-- Without a write error the accepted frames are the written ones, those in the flush and those that
-- wait, in this order, and the wire holds exactly the written ones. The writer is asleep only when
-- none waits, so no frame is stranded.
pub submitted_in_order :
    (limit : ℕ) (s : System)
    → Reach (init limit) s
    → s.queue.err ≡ none
    → (s.submitted ≡ s.delivered ++ (flying s.phase (in_flush s.queue) ++ waiting s.queue))
      × (s.wire ≡ coalesced s.delivered)
      × (s.phase ≡ asleep → s.submitted ≡ s.delivered)
submitted_in_order limit s r fine =
    let v = Reach-Inv limit s r in
    (
      v.in_order fine,
      v.on_wire fine,
      λ e.
          v.in_order fine
          ∙ ap (λ p. s.delivered ++ (flying p (in_flush s.queue) ++ waiting s.queue)) e
          ∙ ap (λ t. s.delivered ++ t) (waiting-empty s.queue (v.none_stranded e))
          ∙ append-nil s.delivered,
    )

-- A sender whose wait for the frame of number `seq` ends without an error has its frame on the wire,
-- and every earlier one: for fewer than 2^64 frames, the wire begins with the first `seq` frames.
pub wait-delivered :
    (limit seq : ℕ) (s : System)
    → Reach (init limit) s
    → s.queue.err ≡ none
    → must_wait seq s.queue ≡ false
    → length s.submitted < 2 ^ 64
    → (later : List ℕ) × (s.wire ≡ coalesced (take seq s.submitted) ++ later)
wait-delivered limit seq s r fine done few =
    let v = Reach-Inv limit s r in
    let rest = flying s.phase (in_flush s.queue) ++ waiting s.queue in
    let order = v.in_order fine in
    let short : length s.delivered < 2 ^ 64 =
      omega (arith, ap (λ t. length t) order, length-append {0} s.delivered rest, few) in
    let le = acknowledged-few seq s.queue s.delivered fine done (v.acknowledged fine) short in
    (
      coalesced (drop seq s.delivered),
      v.on_wire fine
          ∙ take-coalesced seq s.delivered rest le
          ∙ ap (λ t. coalesced (take seq t) ++ coalesced (drop seq s.delivered)) (sym order),
    )
