-- ===== src/Ws/Queue.antt =====
-- ws/queue.go. An arena is the bytes in it: its storage from a pool, the sizes of that and the
-- backing arrays that are reused are not modelled. `Queue` is the struct; what runs beside it, the
-- writer's goroutine and the transport, is in the children. A critical section under `mu` is one
-- function. An error of the transport is a number.
pub mod System
pub mod Frames
pub mod Invariant
pub mod Order
pub mod Delivery
pub mod Progress
mod Tests
use ews.Common.{
  ℕ, ◌+◌, ◌%◌, ◌^◌, ◌≡◌, Bool, true, false, not, ◌&&◌, ◌||◌, Option, none, some, List, [], ◌∷◌,
  ◌++◌, map, ltb, leb, ◌==◌, if◌then◌else◌, length,
}
use ews.Codec.Header.{slice}

pub data Segment : Type 0 where
  range : ℕ → ℕ → Segment
  shared : List ℕ → Segment

-- `ErrQueueFull`, or the first error of a write.
pub data QueueError : Type 0 where
  queue_full : QueueError
  write_error : ℕ → QueueError

pub record Queue : Type 0 where
  pub limit : ℕ
  pub cur : Option (List ℕ)
  pub segments : List Segment
  pub size : ℕ
  pub running : Bool
  pub err : Option ℕ
  pub enqueued : ℕ
  pub written : ℕ
  pub flushing : Option (List ℕ)
  pub flush_segments : List Segment

-- `NewQueue` on a connection without a queue, and the limit of one that it has. A limit of zero
-- stands for every limit that is not positive.
unfoldable pub new_queue : ℕ → Queue
new_queue limit = record {
  limit = if limit == 0 then 2 ^ 20 else limit;
  cur = none;
  segments = [];
  size = 0;
  running = false;
  err = none;
  enqueued = 0;
  written = 0;
  flushing = none;
  flush_segments = [];
}

unfoldable pub set_limit : ℕ → Queue → Queue
set_limit limit q = if limit == 0 then q else record q { limit = limit }

-- `reserve`; `none` is the nil error.
unfoldable pub reserve : ℕ → Queue → Option QueueError
reserve n q = elim q.err [
  | some e ↦ some (write_error e)
  | none ↦ if not (q.size == 0) && ltb q.limit (q.size + n) then some queue_full else none
]

-- The bytes of an arena; one fresh from the pool is empty.
abbrev pub arena : Option (List ℕ) → List ℕ
arena none = []
arena (some b) = b

-- A frame's storage: a reference to shared bytes, or a copy in the arena.
unfoldable pub stored_arena : List ℕ → List ℕ → Option (List ℕ) → Option (List ℕ) → Option (List ℕ)
stored_arena header body (some ext) cur = cur
stored_arena header body none cur = some ((arena cur ++ header) ++ body)

unfoldable pub stored_segment : List ℕ → List ℕ → Option (List ℕ) → Option (List ℕ) → Segment
stored_segment header body (some ext) cur = shared ext
stored_segment header body none cur =
    range (length (arena cur)) (length ((arena cur ++ header) ++ body))

abbrev pub ext_length : Option (List ℕ) → ℕ
ext_length none = 0
ext_length (some ext) = length ext

-- The part of `enqueue` behind its guard; `running` is set whether or not it was.
unfoldable pub accept_frame : List ℕ → List ℕ → Option (List ℕ) → Queue → Queue
accept_frame header body ext q = record q {
  cur = stored_arena header body ext q.cur;
  segments = q.segments ++ stored_segment header body ext q.cur ∷ [];
  size = q.size + (length header + length body + ext_length ext);
  enqueued = (q.enqueued + 1) % 2 ^ 64;
  running = true;
}

-- `enqueue`: the queue, and the frame's number or the error.
unfoldable pub enqueue : List ℕ → List ℕ → Option (List ℕ) → Queue → Queue × (Option ℕ × Option ℕ)
enqueue header body ext q = elim q.err [
  | some e ↦ (q, (none, some e))
  | none ↦ let q' = accept_frame header body ext q in (q', (some q'.enqueued, none))
]

-- Whether `waitLocked` for frame `seq` goes on waiting.
unfoldable pub must_wait : ℕ → Queue → Bool
must_wait seq q = elim q.err [ some e ↦ false | none ↦ ltb q.written seq ]

-- The first critical section of a round of `run`: `none` where the writer exits.
unfoldable pub begin_round : Queue → Queue × Bool
begin_round q = elim q.err [
  | some e ↦ (record q { running = false }, false)
  | none ↦ if length q.segments == 0 then (record q { running = false }, false) else (
    record q { cur = none; flushing = q.cur; segments = []; flush_segments = q.segments; size = 0 },
    true,
  )
]

-- The bytes that a segment refers to.
unfoldable pub frame_of : List ℕ → Segment → List ℕ
frame_of b (shared ext) = ext
frame_of b (range start end) = slice b start end

unfoldable pub frames_of : List ℕ → List Segment → List (List ℕ)
frames_of b [] = []
frames_of b (s ∷ ss) = frame_of b s ∷ frames_of b ss

-- The coalesced bytes.
unfoldable pub coalesced : List (List ℕ) → List ℕ
coalesced [] = []
coalesced (f ∷ fs) = f ++ coalesced fs

-- What `flush` hands to the transport, in one call: one frame, one `writev` of all, or one buffer.
unfoldable pub flush : Bool → Queue → List (List ℕ)
unfolding frames_of
flush vectored q =
    let frames = frames_of (arena q.flushing) q.flush_segments in
    if length q.flush_segments == 1 || vectored then frames else coalesced frames ∷ []

-- The second critical section of a round, after the flush with its error.
unfoldable pub end_round : Option ℕ → Queue → Queue
end_round err q =
    let q' : Queue = record q {
      flush_segments = map (λ (s : Segment). range 0 0) q.flush_segments;
      written = (q.written + length q.flush_segments) % 2 ^ 64;
      flushing = none;
    } in
    elim err [
      | none ↦ q'
      | some e ↦ record q' { err = some e; segments = []; size = 0; running = false }
    ]
