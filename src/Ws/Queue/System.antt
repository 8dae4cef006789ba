-- ===== src/Ws/Queue/System.antt =====
-- A queue with its writer and the transport: any number of senders, one writer, in any order of
-- their critical sections.
use ews.Common.{ℕ, ◌≡◌, Bool, Option, none, some, List, [], ◌∷◌, ◌++◌, if◌then◌else◌, length, take}
use ews.Ws.Queue.{
  Queue, new_queue, set_limit, enqueue, begin_round, coalesced, flush, end_round, frames_of, arena,
}

-- The writer's goroutine: there is none, it is at the top of its loop, or it is in `flush`.
pub data Phase : Type 0 where
  asleep looping writing : Phase

-- `wire` is what the transport has taken from the queue; pings and pongs, which bypass it, are not in
-- it. The frames that `enqueue` has accepted, and those that a
-- flush without an error has written, are kept for the statements.
pub record System : Type 0 where
  pub queue : Queue
  pub phase : Phase
  pub wire : List ℕ
  pub submitted : List (List ℕ)
  pub delivered : List (List ℕ)

unfoldable pub init : ℕ → System
init limit = record {
  queue = new_queue limit;
  phase = asleep;
  wire = [];
  submitted = [];
  delivered = [];
}

-- The bytes of a frame that is enqueued.
abbrev pub frame_bytes : List ℕ → List ℕ → Option (List ℕ) → List ℕ
frame_bytes header body none = header ++ body
frame_bytes header body (some ext) = ext

-- A call of `enqueue`: `go q.start()` where no writer was running.
unfoldable pub submit : List ℕ → List ℕ → Option (List ℕ) → System → System
submit header body ext s = elim s.queue.err [
  | some e ↦ s
  | none ↦ record s {
    queue = (enqueue header body ext s.queue).0;
    phase = if s.queue.running then s.phase else looping;
    submitted = s.submitted ++ frame_bytes header body ext ∷ [];
  }
]

-- The writer's first critical section.
unfoldable pub begin_step : System → System
begin_step s =
    let (q, goes_on) = begin_round s.queue in
    record s { queue = q; phase = if goes_on then writing else asleep }

-- The flush, of which the transport takes the first `k` bytes, and the second critical section.
unfoldable pub end_step : Bool → ℕ → Option ℕ → System → System
end_step vectored k err s = record s {
  queue = end_round err s.queue;
  phase = elim err [ none ↦ looping | some e ↦ asleep ];
  wire = s.wire ++ take k (coalesced (flush vectored s.queue));
  delivered = elim err [
    | none ↦ s.delivered ++ frames_of (arena s.queue.flushing) s.queue.flush_segments
    | some e ↦ s.delivered
  ];
}

-- `io.Writer` returns an error where it takes fewer bytes than it was given.
pub data Step : System → System → Type 0 where
  submits :
      (header body : List ℕ) (ext : Option (List ℕ)) (s : System)
      → Step s (submit header body ext s)
  limits : (limit : ℕ) (s : System) → Step s (record s { queue = set_limit limit s.queue })
  begins : (s : System) → s.phase ≡ looping → Step s (begin_step s)
  ends :
      (vectored : Bool) (k : ℕ) (err : Option ℕ) (s : System)
      → s.phase ≡ writing
      → (err ≡ none → k ≡ length (coalesced (flush vectored s.queue)))
      → Step s (end_step vectored k err s)

pub data Reach (s : System) : System → Type 0 where
  start : Reach s s
  then_step : {t u : System} → Reach s t → Step t u → Reach s u
