-- ===== src/Ws/Reader/Totality.antt =====
-- `ReadMessage`, `NextMessage` and `Serve` of ws/conn_read.go and ws/serve.go on every path.
use ews.Common.{
  ℕ, ◌^◌, ◌≤◌, ◌<◌, ◌≡◌, inl, inr, refl, sym, subst, if◌then◌else◌, Bool, true, false, not, ◌&&◌,
  none, some, List, arith, ◌==◌, length, Bool-cases,
}
use ews.Codec.Opcode.{Opcode, text}
use ews.Utf8.{valid}
use ews.Ws.Receiver.Invariant.{IsValid}
use ews.Ws.Reader.{ReadError, failed, and_then, Control, Reader, weight, next_frame}
use ews.Ws.Reader.Rules.{Returns, and_then_lem}
use ews.Ws.Reader.Effects.{Runs, Runs-trans, Stops, Runs-Stops, fail_lem}
use ews.Ws.Reader.Announcing.{Announced, next_frame_lem}
use ews.Ws.Reader.Inflating.{
  Inflater, Inflated, inflated, too_large, bad_data, decompressed, decompress,
}
use ews.Ws.Reader.Assembling.{Runs-rest, assemble_lem}
use ews.Ws.Reader.Discarding.{discard_plain_lem}
use ews.Ws.Reader.Messages.{
  start_message, bad_text, assemble, discard, next_message, check_text, finish_message,
  read_message,
}

module _ {W S : Type 0} where
  -- A message was read, within the limit.
  abbrev pub Read : Reader W S → Reader W S → List ℕ → Type 0
  Read c d out = Runs c d × (weight d < weight c) × (length out ≤ c.limit)

module _ (K : Control) (I : Inflater) where
  pub next_message-open :
      (fuel : ℕ) (c : Reader K.World I.Stream)
      → c.read_err ≡ none
      → start_message K I fuel c ≡ next_message K I fuel c
  unfolding next_message
  next_message-open fuel c e = simp (e, next_message)

  pub next_message-failed :
      (fuel : ℕ) (c : Reader K.World I.Stream) (e : ReadError)
      → c.read_err ≡ some e
      → next_message K I fuel c ≡ (c, failed e)
  unfolding next_message
  next_message-failed fuel c e r = simp (r, next_message)

module _ (K : Control) (I : Inflater)
    (bounded : (s : List ℕ) (n : ℕ) (z y : I.Stream) (out : List ℕ)
      → I.decompress s n z ≡ (y, inflated out)
      → length out ≤ n) where
  discard_lem :
      (fuel : ℕ) (c : Reader K.World I.Stream)
      → IsValid c.rx
      → c.takeover ≡ false
      → Returns (λ d _. Runs c d) (Stops K c) (discard K I fuel c)
  unfolding discard
  discard_lem fuel c v none_taken =
      let e : c.in_message && (c.rx.compressed && c.takeover) ≡ false = ground arith in
      rw e (discard_plain_lem K c v)

  start_message_lem :
      (fuel : ℕ) (c : Reader K.World I.Stream)
      → IsValid c.rx
      → c.takeover ≡ false
      → Returns (λ d _. Announced K c (weight c) d) (Stops K c) (start_message K I fuel c)
  unfolding start_message
  start_message_lem fuel c v none_taken =
      and_then_lem _ _
        (λ d _ r.
          let e : Reader K.World I.Stream = record d { stream = I.release d.stream } in
          let (q, same) = Runs-rest c d e r refl refl refl refl refl in
          and_then_lem _ _
            (λ t _ h.
              let (run, kept) =
                Runs-rest c t (record t { in_message = true }) (Runs-trans c e t q h.0) refl refl
                  refl refl refl in
              record { holds = (run, omega (arith, kept, h.1, q.used), h.2) })
            (λ t err h. Runs-Stops K c e t err q h) (next_frame K e) (next_frame_lem K e q.sound))
        (λ _ _ h. h) (discard K I fuel c) (discard_lem fuel c v none_taken)

  next_message_lem :
      (fuel : ℕ) (c : Reader K.World I.Stream)
      → IsValid c.rx
      → c.takeover ≡ false
      → c.read_err ≡ none
      → Returns (λ d _. Announced K c (weight c) d) (Stops K c) (next_message K I fuel c)
  next_message_lem fuel c v none_taken open_read =
      subst (Returns (λ d _. Announced K c (weight c) d) (Stops K c))
        (next_message-open K I fuel c open_read) (start_message_lem fuel c v none_taken)

  check_text_lem :
      (op : Opcode) (out : List ℕ) (c d : Reader K.World I.Stream)
      → Read c d out
      → Returns (λ t m. Read c t m.1) (Stops K c) (check_text K I op out d)
  unfolding check_text
  check_text_lem op out c d r =
      elim (Bool-cases (op == text && (d.validate_utf8 && not (valid out)))) [
        | inl bad ↦ rw bad (fail_lem K c d bad_text r.0 refl)
        | inr good ↦ rw good (record { holds = r })
      ]

  decompressed_lem :
      (c d : Reader K.World I.Stream) (x : I.Stream × Inflated)
      → Runs c d
      → weight d < weight c
      → ((y : I.Stream) (out : List ℕ) → x ≡ (y, inflated out) → length out ≤ c.limit)
      → Returns (Read c) (Stops K c) (decompressed K I d x)
  decompressed_lem c d (z, inflated s) r w h =
      let (q, same) = Runs-rest c d (record d { stream = z }) r refl refl refl refl refl in
      record { holds = (q, omega (arith, same, w), h z s refl) }
  decompressed_lem c d (z, too_large) r w h =
      fail_lem K c (record d { stream = z }) _
        (Runs-rest c d (record d { stream = z }) r refl refl refl refl refl).0 refl
  decompressed_lem c d (z, bad_data) r w h =
      fail_lem K c (record d { stream = z }) _
        (Runs-rest c d (record d { stream = z }) r refl refl refl refl refl).0 refl

  finish_message_lem :
      (op : Opcode) (payload : List ℕ) (c d : Reader K.World I.Stream)
      → Read c d payload
      → Returns (λ t m. Read c t m.1) (Stops K c) (finish_message K I op payload d)
  unfolding finish_message decompress
  finish_message_lem op payload c d r =
      let e : Reader K.World I.Stream = record d { in_message = false } in
      let (q, same) = Runs-rest c d e r.0 refl refl refl refl refl in
      let w : weight e < weight c = omega (arith, same, r.1) in
      let goal : Bool → Type 0 = λ b.
        Returns (λ t m. Read c t m.1) (Stops K c)
          (if b
            then and_then (decompress K I payload e) (check_text K I op) (λ c. c)
            else check_text K I op payload e) in
      elim (Bool-cases d.rx.compressed) [
        | inl z ↦ subst goal (sym z) (
            and_then_lem _ _ (λ t out h. check_text_lem op out c t h) (λ _ _ h. h)
              (decompress K I payload e)
              (decompressed_lem c e (I.decompress payload e.limit e.stream) q w
                (λ y out k. omega (arith, bounded payload e.limit e.stream y out k, r.0.limit))))
        | inr z ↦ subst goal (sym z) (check_text_lem op payload c e (q, w, r.2))
      ]

  -- `ReadMessage` on an open connection without receive takeover, whatever its transport gives and
  -- its handlers do.
  pub read_message_lem :
      (fuel : ℕ) (c : Reader K.World I.Stream)
      → IsValid c.rx
      → c.limit < 2 ^ 63
      → c.takeover ≡ false
      → c.read_err ≡ none
      → Returns (λ d m. Read c d m.1) (Stops K c) (read_message K I fuel c)
  unfolding read_message
  read_message_lem fuel c v small none_taken open_read =
      and_then_lem _ _
        (λ d op h.
          and_then_lem _ _
            (λ t out g. finish_message_lem op out c t (
              Runs-trans c d t h.0 g.0,
              omega (arith, g.0.used, h.1),
              omega (arith, g.1, h.0.limit),
            ))
            (λ t e g. Runs-Stops K c d t e h.0 g) (assemble K d)
            (assemble_lem K d h.0.sound (omega (arith, small, h.0.limit)) h.2))
        (λ _ _ h. h) (next_message K I fuel c) (next_message_lem fuel c v none_taken open_read)
