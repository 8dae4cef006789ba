-- ===== src/Ws/Queue/Tests.antt =====
-- Runs of a queue with three frames, one of them shared and the last one waiting.
use ews.Common.{
  ℕ, ◌≡◌, ◌<◌, ◌^◌, refl, true, false, none, some, List, [], ◌∷◌, ◌++◌, arith, length, take,
}
use ews.Ws.Queue.{
  new_queue, coalesced, must_wait, flush, frames_of, frame_of, accept_frame, enqueue, stored_arena,
  stored_segment, begin_round, end_round,
}
use ews.Ws.Queue.System.{
  asleep, System, init, submit, begin_step, end_step, submits, begins, ends, Reach, start,
  then_step,
}
use ews.Ws.Queue.Invariant.{waiting, flying, in_flush}
use ews.Ws.Queue.Delivery.{wire-is_prefix, submitted_in_order, wait-delivered}
use ews.Ws.Queue.Progress.{advances, drains}

-- The first frame is on the wire, the second in the flush, the third waits.
abbrev one : System
one = submit (129 ∷ 1 ∷ []) (65 ∷ []) none (init 0)

abbrev two : System
two = submit [] [] (some (129 ∷ 1 ∷ 66 ∷ [])) (end_step true 3 none (begin_step one))

abbrev three : System
three = begin_step two

abbrev three_waiting : System
three_waiting = submit (129 ∷ 1 ∷ []) (67 ∷ []) none three

run-three : Reach (init 0) three
unfolding begin_step end_step submit init new_queue begin_round end_round enqueue accept_frame
    stored_segment stored_arena flush coalesced frames_of frame_of
run-three =
    then_step
      (then_step
        (then_step
          (then_step (then_step start (submits (129 ∷ 1 ∷ []) (65 ∷ []) none (init 0)))
            (begins one refl))
          (ends true 3 none (begin_step one) refl (λ e. refl)))
        (submits [] [] (some (129 ∷ 1 ∷ 66 ∷ [])) (end_step true 3 none (begin_step one))))
      (begins two refl)

run : Reach (init 0) three_waiting
run = then_step run-three (submits (129 ∷ 1 ∷ []) (67 ∷ []) none three)

fine : three_waiting.queue.err ≡ none
unfolding begin_step end_step submit init new_queue begin_round end_round enqueue accept_frame
    stored_segment stored_arena flush coalesced frames_of frame_of
fine = refl

first_done : must_wait 1 three_waiting.queue ≡ false
unfolding must_wait begin_step end_step submit init new_queue begin_round end_round enqueue
    accept_frame stored_segment stored_arena flush coalesced frames_of frame_of
first_done = refl

few : length three_waiting.submitted < 2 ^ 64
unfolding begin_step end_step submit init new_queue begin_round end_round enqueue accept_frame
    stored_segment stored_arena flush coalesced frames_of frame_of
few = ground arith

wire-is_prefix_example :
    (unsent : List ℕ) × (three_waiting.wire ++ unsent ≡ coalesced three_waiting.submitted)
wire-is_prefix_example = wire-is_prefix 0 three_waiting run

submitted_in_order_example :
    (three_waiting.submitted
      ≡ three_waiting.delivered
        ++ (flying three_waiting.phase (in_flush three_waiting.queue)
            ++ waiting three_waiting.queue))
    × (three_waiting.wire ≡ coalesced three_waiting.delivered)
    × (three_waiting.phase ≡ asleep → three_waiting.submitted ≡ three_waiting.delivered)
submitted_in_order_example = submitted_in_order 0 three_waiting run fine

wait-delivered_example :
    (later : List ℕ) × (three_waiting.wire ≡ coalesced (take 1 three_waiting.submitted) ++ later)
wait-delivered_example = wait-delivered 0 1 three_waiting run fine first_done few

drains_example :
    let t = advances false 4 three_waiting in
    (t.phase ≡ asleep)
    × (t.submitted ≡ three_waiting.submitted)
    × (t.wire ≡ coalesced three_waiting.submitted)
drains_example = drains 0 false three_waiting run fine
