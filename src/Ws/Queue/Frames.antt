-- ===== src/Ws/Queue/Frames.antt =====
-- Segments as frames.
use ews.Common.{
  ℕ, ◌-◌, ◌≤◌, ◌≡◌, refl, sym, ap, ap₂, ◌∙◌, Bool, ◌||◌, List, [], ◌∷◌, ◌++◌, arith, length, take,
  drop, ◌==◌, All, length-append, length-drop, append_assoc, append-nil, Bool-cases, inl, inr,
  drop-append_left, take-append_left, take-all, drop-length-append,
}
use ews.Ws.Queue.{Segment, range, shared, Queue, arena, frame_of, frames_of, coalesced, flush}

-- A segment lies within the arena.
abbrev pub Within : List ℕ → Segment → Type 0
Within b (shared ext) = Unit {0}
Within b (range start end) = (start ≤ end) × (end ≤ length b)

pub frames_of-append :
    (b : List ℕ) (ss ts : List Segment) → frames_of b (ss ++ ts) ≡ frames_of b ss ++ frames_of b ts
unfolding frames_of
frames_of-append b [] ts = refl
frames_of-append b (s ∷ ss) ts = ap (λ t. frame_of b s ∷ t) (frames_of-append b ss ts)

frame_of-append : (b c : List ℕ) (s : Segment) → Within b s → frame_of (b ++ c) s ≡ frame_of b s
unfolding frame_of
frame_of-append b c (shared ext) w = refl
frame_of-append b c (range start end) w =
    ap (take (end - start)) (drop-append_left start b c (omega arith))
    ∙ take-append_left (end - start) (drop start b) c (omega (arith, length-drop {0} start b))

-- What is appended to the arena does not change the frames that are in it.
pub frames_of-grow :
    (b c : List ℕ) (ss : List Segment) → All (Within b) ss → frames_of (b ++ c) ss ≡ frames_of b ss
unfolding frames_of
frames_of-grow b c [] w = refl
frames_of-grow b c (s ∷ ss) w =
    ap₂ (λ x y. x ∷ y) (frame_of-append b c s w.0) (frames_of-grow b c ss w.1)

pub Within-grow : (b c : List ℕ) (ss : List Segment) → All (Within b) ss → All (Within (b ++ c)) ss
Within-grow b c [] w = tt
Within-grow b c (shared ext ∷ ss) w = (tt, Within-grow b c ss w.1)
Within-grow b c (range start end ∷ ss) w =
    ((w.0.0, omega (arith, length-append {0} b c, w.0.1)), Within-grow b c ss w.1)

-- The newest range is what was appended.
pub frame_of-last : (b c : List ℕ) → frame_of (b ++ c) (range (length b) (length (b ++ c))) ≡ c
unfolding frame_of
frame_of-last b c =
    ap (take (length (b ++ c) - length b)) (drop-length-append b c)
    ∙ take-all (length (b ++ c) - length b) c (omega (arith, length-append {0} b c))

pub coalesced-append : (fs gs : List (List ℕ)) → coalesced (fs ++ gs) ≡ coalesced fs ++ coalesced gs
unfolding coalesced
coalesced-append [] gs = refl
coalesced-append (f ∷ fs) gs =
    ap (λ t. f ++ t) (coalesced-append fs gs) ∙ sym (append_assoc f (coalesced fs) (coalesced gs))

pub length-frames_of : (b : List ℕ) (ss : List Segment) → length (frames_of b ss) ≡ length ss
unfolding frames_of
length-frames_of b [] = refl
length-frames_of b (s ∷ ss) = omega (arith, length-frames_of b ss)

-- Each way to write hands the transport the same bytes.
pub coalesced-flush :
    (vectored : Bool) (q : Queue)
    → coalesced (flush vectored q) ≡ coalesced (frames_of (arena q.flushing) q.flush_segments)
unfolding flush coalesced
coalesced-flush vectored q = elim (Bool-cases (length q.flush_segments == 1 || vectored)) [
  | inl e ↦ rw e refl
  | inr e ↦ rw e (append-nil _)
]
