-- ===== src/Ws/PreparedHistory/Lazy.antt =====
-- Deferred copying against copying at once.
use ews.Common.{
  ℕ, ◌+◌, ◌-◌, ◌≤◌, ◌<◌, ◌≡◌, refl, sym, ap, ◌∙◌, Option, none, some, List, [], ◌∷◌, ◌++◌, arith,
  leb, leb→le, ◌==◌, length, length-append, Bool-cases, inl, inr, append-nil, map, append_assoc,
  lt→ltb,
}
use ews.Deflate.Window.{Window, size, dict, add}
use ews.Deflate.Window.History.{
  last, last-append, last-last, last_idem, joined, add_all, dict-add_all, dict-remember,
  size-remember, size-add_all,
}
use ews.Ws.PreparedHistory.{
  SendHistory, drop_pending, drop_covered, add_pending, apply_pending, make_room, note_prepared,
  compress_own,
}

pub record IsValid (h : SendHistory) : Type 0 where
  pub counted : h.pending_bytes ≡ length (joined h.pending)
  pub fits : length h.pending ≤ 8

joined-append : (ps qs : List (List ℕ)) → joined (ps ++ qs) ≡ joined ps ++ joined qs
unfolding joined
joined-append [] qs = refl
joined-append (p ∷ ps) qs =
    ap (λ t. p ++ t) (joined-append ps qs) ∙ sym (append_assoc p (joined ps) (joined qs))

-- Dropping covered payloads leaves the last `size` bytes as they were.
drop_covered_lem :
    (p base : List ℕ) (size : ℕ) (qs : List (List ℕ)) (bytes : ℕ)
    → bytes ≡ length (joined qs)
    → let r = drop_covered (length p) size qs bytes in
      (r.1 ≡ length (joined r.0))
      × (length r.0 ≤ length qs)
      × (last size ((base ++ joined r.0) ++ p) ≡ last size ((base ++ joined qs) ++ p))
unfolding drop_covered joined
drop_covered_lem p base size [] bytes e = (e, omega arith, refl)
drop_covered_lem p base size (q ∷ qs) bytes e =
    elim (Bool-cases (leb (size + length q) (bytes + length p))) [
      | inr keep ↦ rw keep (e, omega arith, refl)
      | inl covered ↦
          let l = leb→le _ _ covered in
          let total = length-append q (joined qs) in
          let rest : bytes - length q ≡ length (joined qs) = omega arith in
          let (a, b, c) = drop_covered_lem p base size qs (bytes - length q) rest in
          let long : size ≤ length (joined qs ++ p) = omega (arith, length-append (joined qs) p) in
          rw covered (
            a,
            omega arith,
            c
                ∙ ap (last size) (append_assoc base (joined qs) p)
                ∙ last-append size base (joined qs ++ p) long
                ∙ sym (last-append size (base ++ q) (joined qs ++ p) long)
                ∙ ap (last size) (
                    append_assoc base q (joined qs ++ p)
                    ∙ ap (λ t. base ++ t) (sym (append_assoc q (joined qs) p))
                    ∙ sym (append_assoc base (q ++ joined qs) p)),
          )
    ]

-- A payload sent prepared, or compressed by the connection itself.
pub data Sent : Type 0 where
  prepared own : List ℕ → Sent

abbrev pub content : Sent → List ℕ
content (prepared p) = p
content (own p) = p

module _ (grow : ℕ → ℕ → ℕ) where
  add_pending-eq-add_all :
      (ps : List (List ℕ)) (w : Window) → add_pending grow ps w ≡ add_all grow ps w
  unfolding add_pending add_all
  add_pending-eq-add_all [] w = refl
  add_pending-eq-add_all (p ∷ ps) w = add_pending-eq-add_all ps (add grow p w)

  -- The history that the peer has seen: what `dict` would give with nothing deferred.
  abbrev pub seen : SendHistory → List ℕ
  seen h = dict (apply_pending grow h).window

  seen_lem : (h : SendHistory) → seen h ≡ last (size h.window) (dict h.window ++ joined h.pending)
  unfolding apply_pending
  seen_lem h =
      ap dict (add_pending-eq-add_all h.pending h.window) ∙ dict-add_all grow h.pending h.window

  size-apply_pending : (h : SendHistory) → size (apply_pending grow h).window ≡ size h.window
  unfolding apply_pending
  size-apply_pending h =
      ap size (add_pending-eq-add_all h.pending h.window) ∙ size-add_all grow h.pending h.window

  -- Room for `p`: nothing is forgotten that `p` does not cover.
  abbrev Room : List ℕ → SendHistory → SendHistory → Type 0
  Room p h h' =
      (h'.pending_bytes ≡ length (joined h'.pending))
      × (length h'.pending < 8)
      × (size h'.window ≡ size h.window)
      × (last (size h.window) ((dict h'.window ++ joined h'.pending) ++ p)
          ≡ last (size h.window) ((dict h.window ++ joined h.pending) ++ p))

  drop_pending-Room :
      (p : List ℕ) (h : SendHistory) → size h.window ≤ length p → Room p h (drop_pending h)
  unfolding drop_pending joined
  drop_pending-Room p h long = (
    refl,
    omega arith,
    refl,
    last-append (size h.window) (dict h.window ++ []) p long
        ∙ sym (last-append (size h.window) (dict h.window ++ joined h.pending) p long),
  )

  apply_pending_empty :
      (h : SendHistory)
      → ((apply_pending grow h).pending ≡ []) × ((apply_pending grow h).pending_bytes ≡ 0)
  unfolding apply_pending drop_pending
  apply_pending_empty h = (refl, refl)

  apply_pending-Room :
      (p : List ℕ) (h h' : SendHistory)
      → size h'.window ≡ size h.window
      → last (size h.window) ((dict h'.window ++ joined h'.pending) ++ p)
        ≡ last (size h.window) ((dict h.window ++ joined h.pending) ++ p)
      → Room p h (apply_pending grow h')
  unfolding joined
  apply_pending-Room p h h' same kept =
      let n = size h.window in
      let (none_left, no_bytes) = apply_pending_empty h' in
      (
        no_bytes ∙ ap (λ t. length (joined t)) (sym none_left),
        rw none_left (omega arith),
        size-apply_pending h' ∙ same,
        ap (λ t. last n ((seen h' ++ joined t) ++ p)) none_left
            ∙ ap (λ t. last n (t ++ p)) (append-nil (seen h'))
            ∙ ap (λ t. last n (t ++ p))
                (seen_lem h' ∙ ap (λ k. last k (dict h'.window ++ joined h'.pending)) same)
            ∙ last-last n (dict h'.window ++ joined h'.pending) p
            ∙ kept,
      )

  make_room-Room :
      (p : List ℕ) (h : SendHistory) → IsValid h → Room p h (make_room grow (length p) h)
  unfolding make_room
  make_room-Room p h v = elim (Bool-cases (leb (size h.window) (length p))) [
    | inl long ↦ rw long (drop_pending-Room p h (leb→le _ _ long))
    | inr short ↦
        let (a, b, c) =
          drop_covered_lem p (dict h.window) (size h.window) h.pending h.pending_bytes v.counted in
        let r = drop_covered (length p) (size h.window) h.pending h.pending_bytes in
        let h' : SendHistory = record h { pending = r.0; pending_bytes = r.1 } in
        elim (Bool-cases (length r.0 == 8)) [
          | inl full ↦ rw (short, full) (apply_pending-Room p h h' refl c)
          | inr free ↦
              let less : length r.0 < 8 = let w = v.fits in ground arith in
              rw (short, free) (a, less, refl, c)
        ]
  ]

  unfoldable pub send : Sent → SendHistory → Option SendHistory
  send (prepared p) h = note_prepared grow p h
  send (own p) h = some (compress_own grow p h)

  unfoldable pub send_all : List Sent → SendHistory → Option SendHistory
  send_all [] h = some h
  send_all (e ∷ es) h = elim (send e h) [ none ↦ none | some h' ↦ send_all es h' ]

  -- One payload: no store out of range, and the peer's history is followed.
  abbrev Follows : Sent → SendHistory → SendHistory → Type 0
  Follows e h h' =
      (send e h ≡ some h')
      × IsValid h'
      × (size h'.window ≡ size h.window)
      × (seen h' ≡ last (size h.window) (seen h ++ content e))

  -- `Window` records `p` after `h` on both sides.
  seen-append :
      (p : List ℕ) (h : SendHistory)
      → last (size h.window) ((dict h.window ++ joined h.pending) ++ p)
        ≡ last (size h.window) (seen h ++ p)
  seen-append p h =
      sym (last-last (size h.window) (dict h.window ++ joined h.pending) p)
      ∙ ap (λ t. last (size h.window) (t ++ p)) (sym (seen_lem h))

  note_prepared-Follows :
      (p : List ℕ) (h : SendHistory) → IsValid h → (h' : SendHistory) × Follows (prepared p) h h'
  unfolding send note_prepared joined
  note_prepared-Follows p h v =
      let (counted, free, same, kept) = make_room-Room p h v in
      let room = make_room grow (length p) h in
      let h' : SendHistory = record room {
        pending = room.pending ++ p ∷ [];
        pending_bytes = room.pending_bytes + length p;
      } in
      let spelled : joined h'.pending ≡ joined room.pending ++ p =
        joined-append room.pending (p ∷ []) ∙ ap (λ t. joined room.pending ++ t) (append-nil p) in
      (
        h',
        (
          rw (lt→ltb _ _ free) refl,
          record {
            counted = omega (arith, ap length spelled, length-append (joined room.pending) p);
            fits = omega (arith, length-append room.pending (p ∷ []));
          },
          same,
          seen_lem h'
              ∙ ap (λ n. last n (dict room.window ++ joined h'.pending)) same
              ∙ ap (λ t. last (size h.window) (dict room.window ++ t)) spelled
              ∙ ap (last (size h.window))
                  (sym (append_assoc (dict room.window) (joined room.pending) p))
              ∙ kept
              ∙ seen-append p h,
        ),
      )

  compress_own-Follows :
      (p : List ℕ) (h : SendHistory) → IsValid h → (h' : SendHistory) × Follows (own p) h h'
  unfolding send compress_own joined
  compress_own-Follows p h v =
      let h' = compress_own grow p h in
      let (none_left, no_bytes) = apply_pending_empty h in
      let a = apply_pending grow h in
      let n = size h.window in
      (
        h',
        (
          refl,
          record {
            counted = no_bytes ∙ ap (λ t. length (joined t)) (sym none_left);
            fits = rw none_left (omega arith);
          },
          size-remember grow p a.window ∙ size-apply_pending h,
          seen_lem h'
              ∙ ap (λ t. last (size h'.window) (dict h'.window ++ joined t)) none_left
              ∙ ap (λ t. last (size h'.window) t)
                  (append-nil (dict h'.window) ∙ dict-remember grow p a.window)
              ∙ ap (λ k. last k (last (size a.window) (seen h ++ p)))
                  (size-remember grow p a.window)
              ∙ last_idem (size a.window) (seen h ++ p)
              ∙ ap (λ k. last k (seen h ++ p)) (size-apply_pending h),
        ),
      )

  send-Follows : (e : Sent) (h : SendHistory) → IsValid h → (h' : SendHistory) × Follows e h h'
  send-Follows (prepared p) h v = note_prepared-Follows p h v
  send-Follows (own p) h v = compress_own-Follows p h v

  -- Deferred copying is invisible, and the array of eight is never overrun: from a state whose byte
  -- count is right and whose slots fit, any sequence of prepared and own payloads is recorded
  -- without a panic, and the history that the next message is compressed against is the last `Size`
  -- bytes of the earlier history followed by all of the payloads, in the order they were sent.
  pub send_all_lem :
      (es : List Sent) (h : SendHistory)
      → IsValid h
      → (h' : SendHistory) × (send_all es h ≡ some h')
        × IsValid h'
        × (seen h' ≡ last (size h.window) (seen h ++ joined (map content es)))
  unfolding send_all joined
  send_all_lem [] h v = (
    h,
    refl,
    v,
    seen_lem h
        ∙ sym (last_idem (size h.window) (dict h.window ++ joined h.pending))
        ∙ ap (last (size h.window)) (sym (append-nil (seen h) ∙ seen_lem h)),
  )
  send_all_lem (e ∷ es) h v =
      let (h₁, (sent, v₁, same, first)) = send-Follows e h v in
      let (h', rest, v', later) = send_all_lem es h₁ v₁ in
      (
        h',
        rw (sent, send_all) rest,
        v',
        later
            ∙ ap (λ k. last k (seen h₁ ++ joined (map content es))) same
            ∙ ap (λ t. last (size h.window) (t ++ joined (map content es))) first
            ∙ last-last (size h.window) (seen h ++ content e) (joined (map content es))
            ∙ ap (last (size h.window))
                (append_assoc (seen h) (content e) (joined (map content es))),
      )
