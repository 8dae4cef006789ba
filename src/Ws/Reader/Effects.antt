-- ===== src/Ws/Reader/Effects.antt =====
-- What the operations of ws/conn_read.go do to the connection, on every path.
use ews.Common.{
  ℕ, zero, suc, ◌+◌, ◌*◌, ◌≤◌, ◌<◌, ◌≡◌, ◌≢◌, refl, ap, ◌∙◌, Bool, true, false, Option, none, some,
  List, [], ◌∷◌, arith, length, length-take, length-drop, length-append,
}
use ews.Codec.Decoder
use ews.Ws.Errors.{Failure}
use ews.Ws.Receiver.{
  Receiver, FrameKind, NextError, failure, payload_pending, idle, control_payload, need_input,
  data_frame, control_frame,
}
use ews.Ws.Receiver
use ews.Ws.Receiver.Invariant.{IsValid, feed-IsValid, preserve-IsValid}
use ews.Ws.Reader.{
  ReadError, protocol, frame_open, closed, eof, unexpected_eof, no_progress, transport, handler,
  Outcome, ok, failed, out_of_fuel, Arrival, gives, raises, Control, Reader, read_from, weight_of,
  weight, read, fill, send_code, fail,
}
use ews.Ws.Reader.Rules.{Returns, weaken_lem, and_then_lem}

-- The errors of the transport, after which the read may be tried again.
abbrev pub is_passing : ReadError → Bool
is_passing eof = true
is_passing unexpected_eof = true
is_passing no_progress = true
is_passing (transport e) = true
is_passing (protocol f) = false
is_passing frame_open = false
is_passing (closed code reason) = false
is_passing (handler e) = false

read_from_lem :
    (k : ℕ) (i : Bool) (n : ℕ) (later : List Arrival)
    → Returns
        (λ l s. (weight_of l + 2 * length s ≤ weight_of later) × (1 ≤ length s))
        (λ l e. (weight_of l ≤ weight_of later) × (is_passing e ≡ true))
        (read_from k i n later)
unfolding read_from
read_from_lem zero i n later = record { holds = (omega arith, refl) }
read_from_lem (suc k) true n [] = record { holds = (omega arith, refl) }
read_from_lem (suc k) false n [] = record { holds = (omega arith, refl) }
read_from_lem (suc k) i n (raises e ∷ later) = record { holds = (omega arith, refl) }
read_from_lem (suc k) i n (gives [] ∷ later) =
    weaken_lem (λ l s h. (omega (arith, h.0), h.1)) (λ l e h. (omega (arith, h.0), h.1)) _
      (read_from_lem k i n later)
read_from_lem (suc k) i zero (gives (x ∷ s) ∷ later) =
    read_from_lem k i zero (gives (x ∷ s) ∷ later)
read_from_lem (suc k) i (suc n) (gives (x ∷ s) ∷ later) = record {
  holds = ground (arith, length-take {0} n s, length-drop {0} n s);
}

-- From `c` to `d` the configuration and the terminal error stay, the receiver is well formed, and
-- no input is added.
pub record Runs {W S : Type 0} (c d : Reader W S) : Type 0 where
  pub sound : IsValid d.rx
  pub limit : d.limit ≡ c.limit
  pub takeover : d.takeover ≡ c.takeover
  pub calm : d.read_err ≡ c.read_err
  pub used : weight d ≤ weight c

module _ {W S : Type 0} where
  pub Runs-refl : (c : Reader W S) → IsValid c.rx → Runs c c
  Runs-refl c v = record {
    sound = v;
    limit = refl;
    takeover = refl;
    calm = refl;
    used = omega arith;
  }

  pub Runs-trans : (a b c : Reader W S) → Runs a b → Runs b c → Runs a c
  Runs-trans a b c f g = record {
    sound = g.sound;
    limit = g.limit ∙ f.limit;
    takeover = g.takeover ∙ f.takeover;
    calm = g.calm ∙ f.calm;
    used = omega (arith, f.used, g.used);
  }

-- The call has failed: an error of the transport leaves the connection open, and any other is
-- kept; a protocol failure has sent its close code.
pub record Stops (K : Control) {S : Type 0} (c d : Reader K.World S) (e : ReadError) : Type 0 where
  pub sound : IsValid d.rx
  pub spent : weight d ≤ weight c
  pub passing : is_passing e ≡ true → d.read_err ≡ c.read_err
  pub kept : is_passing e ≡ false → (d.read_err ≡ some e) × (d.in_message ≡ false)
  pub told : (f : Failure) → e ≡ protocol f → (w : K.World) × (d.world ≡ K.send_close f.code w)

passing_error : (e : ReadError) (f : Failure) → e ≡ protocol f → is_passing e ≡ true → ⊥
passing_error e f q p = ground (arith, ap is_passing q)

preserve-size :
    (r : Receiver)
    → (length (Receiver.preserve r).dec.pending ≡ length r.dec.pending)
      × ((Receiver.preserve r).remaining ≡ r.remaining)
unfolding Receiver.preserve Decoder.preserve
preserve-size r = ground arith

pub feed-size :
    (s : List ℕ) (r : Receiver)
    → (length (Receiver.feed s r).dec.pending ≤ length r.dec.pending + length s)
      × ((Receiver.feed s r).remaining ≡ r.remaining)
unfolding Receiver.feed Decoder.feed
feed-size s r = ground (arith, length-append r.dec.pending s)

-- The errors of `handleControl` are kept, and no protocol failures.
abbrev IsHandled : Option ReadError → Type 0
IsHandled none = Unit
IsHandled (some e) = (is_passing e ≡ false) × ((f : Failure) → e ≢ protocol f)

module _ {W S : Type 0} where
  -- The receiver moves on, and no input comes in.
  pub Runs-rx :
      (c : Reader W S) (rx : Receiver)
      → IsValid rx
      → length rx.dec.pending ≤ length c.rx.dec.pending
      → Runs c (record c { rx = rx })
  Runs-rx c rx v h = record {
    sound = v;
    limit = refl;
    takeover = refl;
    calm = refl;
    used = unfold weight in omega (arith, h);
  }

module _ (K : Control) {S : Type 0} where
  pub Runs-Stops :
      (a b c : Reader K.World S) (e : ReadError) → Runs a b → Stops K b c e → Stops K a c e
  Runs-Stops a b c e f g = record {
    sound = g.sound;
    spent = omega (arith, f.used, g.spent);
    passing = λ p. g.passing p ∙ f.calm;
    kept = g.kept;
    told = g.told;
  }

  -- A read of the transport.
  pub read_lem :
      (n : ℕ) (c : Reader K.World S)
      → IsValid c.rx
      → Returns
          (λ d s.
            Runs c d
            × (d.rx ≡ c.rx)
            × (d.buf ≡ c.buf)
            × (weight d + 2 * length s ≤ weight c)
            × (1 ≤ length s))
          (Stops K c)
          (read n c)
  unfolding read weight
  read_lem n c v =
      go (read_from 100 (idle c.rx) n c.arrivals) (read_from_lem 100 (idle c.rx) n c.arrivals)
    where
      go :
          (x : List Arrival × Outcome (List ℕ))
          → Returns
              (λ l s. (weight_of l + 2 * length s ≤ weight_of c.arrivals) × (1 ≤ length s))
              (λ l e. (weight_of l ≤ weight_of c.arrivals) × (is_passing e ≡ true))
              x
          → Returns
              (λ d s.
                Runs c d
                × (d.rx ≡ c.rx)
                × (d.buf ≡ c.buf)
                × (weight d + 2 * length s ≤ weight c)
                × (1 ≤ length s))
              (Stops K c)
              (record c { arrivals = x.0 }, x.1)
      go (l, ok s) h = record {
        holds = (
          record {
            sound = v;
            limit = refl;
            takeover = refl;
            calm = refl;
            used = omega (arith, h.holds.0);
          },
          refl,
          refl,
          omega (arith, h.holds.0),
          h.holds.1,
        );
      }
      go (l, failed e) h = record {
        holds = record {
          sound = v;
          spent = omega (arith, h.holds.0);
          passing = λ p. refl;
          kept = λ p. cc;
          told = λ f q. absurd (passing_error e f q h.holds.1);
        };
      }
      go (l, out_of_fuel) h = elim h.holds [ ]

  -- What was read is fed to the receiver, and there is less of it to come.
  pub feed-Runs :
      (c d : Reader K.World S) (s : List ℕ)
      → Runs c d
      → weight d + 2 * length s ≤ weight c
      → Runs c (record d { rx = Receiver.feed s d.rx })
        × (weight (record d { rx = Receiver.feed s d.rx }) + length s ≤ weight c)
  unfolding weight
  feed-Runs c d s r h =
      let less : length (Receiver.feed s d.rx).dec.pending + weight_of d.arrivals + length s
          ≤ length c.rx.dec.pending + weight_of c.arrivals =
        omega (arith, (feed-size s d.rx).0, h) in
      (
        record {
          sound = feed-IsValid s d.rx r.sound;
          limit = r.limit;
          takeover = r.takeover;
          calm = r.calm;
          used = omega (arith, less);
        },
        less,
      )

  pub fill_lem :
      (c : Reader K.World S)
      → IsValid c.rx
      → Returns
          (λ d _. Runs c d × (weight d < weight c) × (d.rx.remaining ≡ c.rx.remaining))
          (Stops K c)
          (fill c)
  unfolding fill
  fill_lem c v =
      let p : Reader K.World S = record c { rx = Receiver.preserve c.rx } in
      let q : Runs c p =
        Runs-rx c (Receiver.preserve c.rx) (preserve-IsValid c.rx v)
          (omega (arith, (preserve-size c.rx).0)) in
      and_then_lem _ _
        (λ d s h.
          let (r, e, b, w, one) = h in
          let (run, less) = feed-Runs p d s r w in
          record {
            holds = (
              Runs-trans c p _ q run,
              omega (arith, less, one, q.used),
              (feed-size s d.rx).1 ∙ ap (λ t. t.remaining) e ∙ (preserve-size c.rx).1,
            );
          })
        (λ d e h. Runs-Stops c p d e q h) (read c.buf p) (read_lem c.buf p q.sound)

  ended_lem :
      (c d : Reader K.World S) (e : ReadError)
      → Runs c d
      → is_passing e ≡ false
      → Stops K c (fail K {A = Unit} e d).0 e
  unfolding fail
  ended_lem c d e r p = record {
    sound = r.sound;
    spent = unfold weight in r.used;
    passing = λ q. cc;
    kept = λ q. (refl, refl);
    told = λ f q. (d.world, rw q (unfold send_code in refl));
  }

  module _ {A : Type 0} {R : Reader K.World S → A → Type 0} where
    -- `fail` with an error that is kept.
    pub fail_lem :
        (c d : Reader K.World S) (e : ReadError)
        → Runs c d
        → is_passing e ≡ false
        → Returns R (Stops K c) (fail K e d)
    unfolding fail ended_lem
    fail_lem c d e r p = record { holds = ended_lem c d e r p }
