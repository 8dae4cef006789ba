-- ===== src/Ws/Reader/Serving.antt =====
-- Sequences of reads: `ReadMessage` of ws/conn_read.go after a failure, and `Serve` of ws/serve.go.
use ews.Common.{
  ℕ, suc, ◌^◌, ◌≤◌, ◌<◌, ◌≡◌, ◌≢◌, refl, subst, ◌∙◌, true, false, Option, none, some, List, arith,
  length,
}
use ews.Codec.Opcode.{Opcode}
use ews.Ws.Errors.{Failure}
use ews.Ws.Receiver.Invariant.{IsValid}
use ews.Ws.Reader.{
  ReadError, protocol, Outcome, ok, failed, out_of_fuel, Step, Control, Reader, weight,
}
use ews.Ws.Reader.Rules.{Returns, Returns-ends, Goes, loop_lem}
use ews.Ws.Reader.Effects.{Runs, Runs-refl, Stops, is_passing}
use ews.Ws.Reader.Inflating.{Inflater, inflated}
use ews.Ws.Reader.Messages.{read_message, handled, answered, serve}
use ews.Ws.Reader.Assembling.{Runs-rest}
use ews.Ws.Reader.Totality.{Read, next_message-failed, read_message_lem}

module _ (K : Control) (I : Inflater) where
  -- An open connection, without receive takeover and with a limit that an int holds.
  pub record IsOpen (c : Reader K.World I.Stream) : Type 0 where
    pub sound : IsValid c.rx
    pub small : c.limit < 2 ^ 63
    pub no_takeover : c.takeover ≡ false
    pub no_error : c.read_err ≡ none

  Returns-fails :
      {E : Reader K.World I.Stream → ReadError → Type 0}
      (x : Reader K.World I.Stream × Outcome Unit)
      → Returns (λ _ _. ⊥) E x
      → (e : ReadError) × (x.1 ≡ failed e)
  Returns-fails (c, ok a) r = absurd r.holds
  Returns-fails (c, failed e) r = (e, refl)
  Returns-fails (c, out_of_fuel) r = elim r.holds [ ]

  read_message-failed :
      (fuel : ℕ) (c : Reader K.World I.Stream) (e : ReadError)
      → c.read_err ≡ some e
      → read_message K I fuel c ≡ (c, failed e)
  unfolding read_message
  read_message-failed fuel c e r = simp (next_message-failed K I fuel c e r, read_message)

module _ (K : Control) (I : Inflater)
    (bounded : (s : List ℕ) (n : ℕ) (z y : I.Stream) (out : List ℕ)
      → I.decompress s n z ≡ (y, inflated out)
      → length out ≤ n) where
  Runs-IsOpen : (c d : Reader K.World I.Stream) → IsOpen K I c → Runs c d → IsOpen K I d
  Runs-IsOpen c d o r = record {
    sound = r.sound;
    small = omega (arith, o.small, r.limit);
    no_takeover = r.takeover ∙ o.no_takeover;
    no_error = r.calm ∙ o.no_error;
  }

  reads :
      (fuel : ℕ) (c : Reader K.World I.Stream)
      → IsOpen K I c
      → Returns (λ d m. Read c d m.1) (Stops K c) (read_message K I fuel c)
  reads fuel c o = read_message_lem K I bounded fuel c o.sound o.small o.no_takeover o.no_error

  -- On an open connection without receive takeover and with a limit that an int holds, with a
  -- transport that gives only so many reads before its EOF, whatever these give and whatever the
  -- handlers do, and with a decompressor that keeps to its limit, ReadMessage returns a message or an
  -- error: no loop of it runs on.
  pub read_message-ends :
      (fuel : ℕ) (c : Reader K.World I.Stream)
      → IsOpen K I c
      → (read_message K I fuel c).1 ≢ out_of_fuel
  read_message-ends fuel c o = Returns-ends (read_message K I fuel c) (reads fuel c o)

  -- Under the same conditions a message that ReadMessage returns is no longer than the limit, also
  -- when it was inflated; some of the input was used up, and the connection is still open.
  pub read_message-fits :
      (fuel : ℕ) (c d : Reader K.World I.Stream) (op : Opcode) (payload : List ℕ)
      → IsOpen K I c
      → read_message K I fuel c ≡ (d, ok (op, payload))
      → (length payload ≤ c.limit) × (weight d < weight c) × IsOpen K I d
  read_message-fits fuel c d op payload o e =
      let r = (subst (Returns (λ d m. Read c d m.1) (Stops K c)) e (reads fuel c o)).holds in
      (r.2, r.1, Runs-IsOpen c d o r.0)

  -- Under the same conditions, if ReadMessage fails: an error of the transport leaves no terminal
  -- error, any other ends the message and is returned unchanged by the next call, which changes
  -- nothing; and a protocol failure has sent its close code last.
  pub read_message-stops :
      (fuel later : ℕ) (c d : Reader K.World I.Stream) (e : ReadError)
      → IsOpen K I c
      → read_message K I fuel c ≡ (d, failed e)
      → (is_passing e ≡ true → d.read_err ≡ none)
        × (is_passing e ≡ false
            → (d.in_message ≡ false) × (read_message K I later d ≡ (d, failed e)))
        × ((f : Failure) → e ≡ protocol f → (w : K.World) × (d.world ≡ K.send_close f.code w))
  read_message-stops fuel later c d e o q =
      let r = (subst (Returns (λ d m. Read c d m.1) (Stops K c)) q (reads fuel c o)).holds in
      (
        λ p. r.passing p ∙ o.no_error,
        λ p. ((r.kept p).1, read_message-failed K I later d e (r.kept p).0),
        r.told,
      )

  module _ (on_message : Opcode → List ℕ → K.World → K.World × Option ℕ) where
    abbrev Serves : Reader K.World I.Stream → Reader K.World I.Stream × Step Unit → Type 0
    Serves c = Goes (IsOpen K I) weight (weight c) (λ _ _. ⊥) (λ _ _. Unit {0})

    answered-Serves :
        (c d : Reader K.World I.Stream) (x : K.World × Option ℕ)
        → IsOpen K I d
        → weight d < weight c
        → Serves c (answered K I on_message d x)
    answered-Serves c d (w, none) o h =
        let (r, same) =
          Runs-rest d d (record d { world = w }) (Runs-refl d o.sound) refl refl refl refl refl in
        record { advances = (Runs-IsOpen d _ o r, omega (arith, same, h)) }
    answered-Serves c d (w, some e) o h = record { advances = tt }

    handled-Serves :
        (c : Reader K.World I.Stream) (x : Reader K.World I.Stream × Outcome (Opcode × List ℕ))
        → IsOpen K I c
        → Returns (λ d m. Read c d m.1) (Stops K c) x
        → Serves c (handled K I on_message x)
    unfolding handled
    handled-Serves c (d, ok (op, payload)) o r =
        answered-Serves c d (on_message op payload d.world) (Runs-IsOpen c d o r.holds.0) r.holds.1
    handled-Serves c (d, failed e) o r = record { advances = tt }
    handled-Serves c (d, out_of_fuel) o r = elim r.holds [ ]

    -- Under the same conditions, with a transport that gives only so much, Serve returns, and always with
    -- an error, whatever the message handler does.
    pub serve-ends :
        (fuel : ℕ) (c : Reader K.World I.Stream)
        → IsOpen K I c
        → (e : ReadError) × ((serve K I on_message fuel c).1 ≡ failed e)
    unfolding serve
    serve-ends fuel c o = Returns-fails K I (serve K I on_message fuel c) (
        loop_lem (IsOpen K I) weight (λ d. handled K I on_message (read_message K I fuel d))
          (λ d p. handled-Serves d (read_message K I fuel d) p (reads fuel d p)) (suc (weight c)) c
          (omega arith) o)
