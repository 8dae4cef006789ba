-- ===== src/Ws/Queue/Invariant.antt =====
-- What holds between the critical sections, and that `enqueue` keeps it.
use ews.Common.{
  ℕ, ◌%◌, ◌^◌, ◌≡◌, ◌≢◌, refl, sym, ap, ap₂, subst, ◌∙◌, Bool, true, false, Option, none, some,
  List, [], ◌∷◌, ◌++◌, arith, length, if◌then◌else◌, All, All-append, length-append, append_assoc,
  append-nil, Option-cases, inl, inr,
}
use ews.Ws.Queue.{
  Segment, range, shared, Queue, new_queue, arena, stored_arena, stored_segment, frame_of,
  accept_frame, enqueue, frames_of, coalesced,
}
use ews.Ws.Queue.System.{Phase, asleep, looping, writing, System, init, frame_bytes, submit}
use ews.Ws.Queue.Frames.{
  Within, frames_of-append, frames_of-grow, Within-grow, frame_of-last, coalesced-append,
}

abbrev pub is_awake : Phase → Bool
is_awake asleep = false
is_awake looping = true
is_awake writing = true

-- The frames that wait for the writer, and those that it is writing.
abbrev pub waiting : Queue → List (List ℕ)
waiting q = frames_of (arena q.cur) q.segments

abbrev pub in_flush : Queue → List (List ℕ)
in_flush q = frames_of (arena q.flushing) q.flush_segments

abbrev pub flying : Phase → List (List ℕ) → List (List ℕ)
flying writing fs = fs
flying asleep fs = []
flying looping fs = []

pub record Inv (s : System) : Type 0 where
  pub in_bounds : All (Within (arena s.queue.cur)) s.queue.segments
  pub awake : s.queue.running ≡ is_awake s.phase
  pub none_stranded : s.phase ≡ asleep → s.queue.segments ≡ []
  pub failed_asleep : s.queue.err ≢ none → s.phase ≡ asleep
  pub in_order :
      s.queue.err ≡ none
      → s.submitted ≡ s.delivered ++ (flying s.phase (in_flush s.queue) ++ waiting s.queue)
  pub on_wire : s.queue.err ≡ none → s.wire ≡ coalesced s.delivered
  pub unsent : List ℕ
  pub is_prefix : s.wire ++ unsent ≡ coalesced s.submitted
  pub counted : s.queue.err ≡ none → s.queue.enqueued ≡ length s.submitted % 2 ^ 64
  pub acknowledged : s.queue.err ≡ none → s.queue.written ≡ length s.delivered % 2 ^ 64

pub init-Inv : (limit : ℕ) → Inv (init limit)
unfolding init new_queue frames_of coalesced
init-Inv limit = record {
  in_bounds = tt;
  awake = refl;
  none_stranded = λ e. refl;
  failed_asleep = λ e. refl;
  in_order = λ e. refl;
  on_wire = λ e. refl;
  unsent = [];
  is_prefix = refl;
  counted = λ e. refl;
  acknowledged = λ e. refl;
}

stored-in_bounds :
    (header body : List ℕ) (ext cur : Option (List ℕ)) (ss : List Segment)
    → All (Within (arena cur)) ss
    → All
        (Within (arena (stored_arena header body ext cur)))
        (ss ++ stored_segment header body ext cur ∷ [])
unfolding stored_arena stored_segment
stored-in_bounds header body (some ext) cur ss w =
    All-append (Within (arena cur)) ss (shared ext ∷ []) w (tt, tt)
stored-in_bounds header body none cur ss w =
    let b = arena cur in
    let b' = (b ++ header) ++ body in
    All-append (Within b') ss (range (length b) (length b') ∷ [])
      (Within-grow (b ++ header) body ss (Within-grow b header ss w))
      (
        (
          omega (arith, length-append {0} (b ++ header) body, length-append {0} b header),
          omega arith,
        ),
        tt,
      )

frames_of-stored :
    (header body : List ℕ) (ext cur : Option (List ℕ)) (ss : List Segment)
    → All (Within (arena cur)) ss
    → frames_of
        (arena (stored_arena header body ext cur))
        (ss ++ stored_segment header body ext cur ∷ [])
      ≡ frames_of (arena cur) ss ++ frame_bytes header body ext ∷ []
unfolding stored_arena stored_segment frames_of frame_of
frames_of-stored header body (some ext) cur ss w = frames_of-append (arena cur) ss (shared ext ∷ [])
frames_of-stored header body none cur ss w =
    let b = arena cur in
    ap (λ t. frames_of t (ss ++ range (length b) (length t) ∷ [])) (append_assoc b header body)
    ∙ frames_of-append (b ++ (header ++ body)) ss
        (range (length b) (length (b ++ (header ++ body))) ∷ [])
    ∙ ap₂ (λ x y. x ++ y ∷ []) (frames_of-grow b (header ++ body) ss w)
        (frame_of-last b (header ++ body))

woken : Bool → Phase → Phase
woken running p = if running then p else looping

flying-woken :
    (p : Phase) (running : Bool) (fs : List (List ℕ))
    → running ≡ is_awake p
    → (flying (woken running p) fs ≡ flying p fs) × (is_awake (woken running p) ≡ true)
unfolding woken
flying-woken asleep running fs e = rw e (refl, refl)
flying-woken looping running fs e = rw e (refl, refl)
flying-woken writing running fs e = rw e (refl, refl)

coalesced_one : (f : List ℕ) → coalesced (f ∷ []) ≡ f
unfolding coalesced
coalesced_one f = append-nil f

-- The system after a frame has been accepted.
accepted : List ℕ → List ℕ → Option (List ℕ) → System → System
unfolding woken
accepted header body ext s = record s {
  queue = accept_frame header body ext s.queue;
  phase = woken s.queue.running s.phase;
  submitted = s.submitted ++ frame_bytes header body ext ∷ [];
}

pub not_asleep {ℓ} : {A : Type ℓ} (p : Phase) → is_awake p ≡ true → p ≡ asleep → A
not_asleep asleep e h = absurd (ground arith)
not_asleep looping e h = absurd (ground arith)
not_asleep writing e h = absurd (ground arith)

accepted-Inv :
    (header body : List ℕ) (ext : Option (List ℕ)) (s : System)
    → s.queue.err ≡ none
    → Inv s
    → Inv (accepted header body ext s)
unfolding accepted accept_frame
accepted-Inv header body ext s fine v =
    let q' = accept_frame header body ext s.queue in
    let f = frame_bytes header body ext in
    let (same, up) = flying-woken s.phase s.queue.running (in_flush s.queue) v.awake in
    let now = frames_of-stored header body ext s.queue.cur s.queue.segments v.in_bounds in
    record {
      in_bounds = stored-in_bounds header body ext s.queue.cur s.queue.segments v.in_bounds;
      awake = sym up;
      none_stranded = λ e. not_asleep _ up e;
      failed_asleep = λ e. absurd (e fine);
      in_order = λ e.
          ap (λ t. t ++ f ∷ []) (v.in_order fine)
          ∙ append_assoc s.delivered (flying s.phase (in_flush s.queue) ++ waiting s.queue) (f ∷ [])
          ∙ ap (λ t. s.delivered ++ t)
              (append_assoc (flying s.phase (in_flush s.queue)) (waiting s.queue) (f ∷ []))
          ∙ ap₂ (λ x y. s.delivered ++ (x ++ y)) (sym same) (sym now);
      on_wire = v.on_wire;
      unsent = v.unsent ++ f;
      is_prefix =
          sym (append_assoc s.wire v.unsent f)
          ∙ ap (λ t. t ++ f) v.is_prefix
          ∙ ap (λ t. coalesced s.submitted ++ t) (sym (coalesced_one f))
          ∙ sym (coalesced-append s.submitted (f ∷ []));
      counted = λ e. omega (arith, v.counted fine, length-append {0} s.submitted (f ∷ []));
      acknowledged = v.acknowledged;
    }

enqueue-fine :
    (header body : List ℕ) (ext : Option (List ℕ)) (q : Queue)
    → q.err ≡ none
    → (enqueue header body ext q).0 ≡ accept_frame header body ext q
unfolding enqueue
enqueue-fine header body ext q fine = simp (fine, enqueue)

submit-accepted :
    (header body : List ℕ) (ext : Option (List ℕ)) (s : System)
    → s.queue.err ≡ none
    → submit header body ext s ≡ accepted header body ext s
unfolding submit accepted woken
submit-accepted header body ext s fine =
    let e = enqueue-fine header body ext s.queue fine in
    simp (fine, submit)
      (ap
        (λ q.
          let t : System = record s {
            queue = q;
            phase = if s.queue.running then s.phase else looping;
            submitted = s.submitted ++ frame_bytes header body ext ∷ [];
          } in
          t)
        e)

pub submit-Inv :
    (header body : List ℕ) (ext : Option (List ℕ)) (s : System)
    → Inv s
    → Inv (submit header body ext s)
unfolding submit
submit-Inv header body ext s v = elim (Option-cases s.queue.err) [
  | inr (e, failed) ↦ rw (failed, submit) v
  | inl fine ↦
      subst Inv (sym (submit-accepted header body ext s fine))
        (accepted-Inv header body ext s fine v)
]
