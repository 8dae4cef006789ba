-- ===== src/Ws/Reader/Flow.antt =====
-- The bytes that a connection has still to read, and how `fill` of ws/conn_read.go moves them.
use ews.Common.{
  ℕ, zero, suc, ◌+◌, ◌≤◌, ◌<◌, ◌≡◌, refl, sym, ap, ◌∙◌, Bool, false, none, List, [], ◌∷◌, ◌++◌,
  arith, leb, length, take, drop, append_assoc, take-append-drop, Bool-cases, inl, inr,
  length-append, subst, length-drop, length-take, take-all,
}
use ews.Codec.Decoder
use ews.Codec.Decoder.Feeding.{feed-pending, feed-remaining}
use ews.Ws.Receiver.{Receiver, idle}
use ews.Ws.Receiver
use ews.Ws.Reader.{
  Outcome, ok, failed, out_of_fuel, Arrival, gives, raises, Reader, read_from, weight_of, weight,
  read, fill,
}
use ews.Ws.Reader.Rules.{Returns, and_then_lem}

abbrev pub flow : List Arrival → List ℕ
flow [] = []
flow (gives s ∷ later) = s ++ flow later
flow (raises e ∷ later) = flow later

-- Each read of the transport gives at least a byte, up to EOF.
abbrev pub IsSmooth : List Arrival → Type 0
IsSmooth [] = Unit
IsSmooth (gives [] ∷ later) = ⊥
IsSmooth (gives (x ∷ s) ∷ later) = IsSmooth later
IsSmooth (raises e ∷ later) = ⊥

-- A read that moves bytes: from what the transport will give into its result.
abbrev pub Moves : List Arrival → List Arrival → List ℕ → Type 0
Moves before later s =
    IsSmooth later
    × (s ++ flow later ≡ flow before)
    × (1 ≤ length s)
    × (weight_of later + length s < weight_of before)

IsSmooth-gives :
    (s : List ℕ) (later : List Arrival) → 1 ≤ length s → IsSmooth later → IsSmooth (gives s ∷ later)
IsSmooth-gives [] later h v = omega arith
IsSmooth-gives (x ∷ s) later h v = v

read_from-Moves :
    (k : ℕ) (i : Bool) (n : ℕ) (before : List Arrival)
    → IsSmooth before
    → 1 ≤ length (flow before)
    → Returns (Moves before) (λ _ _. ⊥) (read_from (suc k) i (suc n) before)
unfolding read_from
read_from-Moves k i n [] v h = absurd (omega arith)
read_from-Moves k i n (gives [] ∷ later) v h = absurd v
read_from-Moves k i n (raises e ∷ later) v h = absurd v
read_from-Moves k i n (gives (x ∷ s) ∷ later) v h = elim (Bool-cases (leb (length s) n)) [
  | inl e ↦ rw e (record {
    holds = (
      v,
      ap (λ t. (x ∷ t) ++ flow later) (take-all n s (ground arith)),
      omega arith,
      omega (arith, length-take n s),
    );
  })
  | inr e ↦ rw e (record {
    holds = (
      IsSmooth-gives (drop n s) later (ground (arith, length-drop n s)) v,
      ap (λ t. x ∷ t)
          (sym (append_assoc (take n s) (drop n s) (flow later))
            ∙ ap (λ t. t ++ flow later) (take-append-drop n s)),
      omega arith,
      omega (arith, length-take n s, length-drop n s),
    );
  })
]

module _ {W S : Type 0} where
  abbrev pub stream : Reader W S → List ℕ
  stream c = c.rx.dec.pending ++ flow c.arrivals

  -- `d` is `c` with more of the input in the receiver's buffer.
  pub record Buffers (c d : Reader W S) : Type 0 where
    pub rest : d ≡ record c { rx = d.rx; arrivals = d.arrivals }
    pub rx : d.rx ≡ record c.rx { dec = d.rx.dec }
    pub frame : d.rx.dec.remaining ≡ c.rx.dec.remaining
    pub flows : stream d ≡ stream c
    pub smooth : IsSmooth d.arrivals

preserve-keeps :
    (d : Decoder.Decoder)
    → ((Decoder.preserve d).pending ≡ d.pending) × ((Decoder.preserve d).remaining ≡ d.remaining)
unfolding Decoder.preserve
preserve-keeps d = ground arith

-- Only the decoder changes, and in it only the input that waits.
abbrev pub Same : Receiver → Receiver → Type 0
Same r r' = (r' ≡ record r { dec = r'.dec }) × (r'.dec.remaining ≡ r.dec.remaining)

preserve-Same :
    (r : Receiver)
    → Same r (Receiver.preserve r) × ((Receiver.preserve r).dec.pending ≡ r.dec.pending)
unfolding Receiver.preserve
preserve-Same r = ((refl, (preserve-keeps r.dec).1), (preserve-keeps r.dec).0)

pub feed-Same :
    (s : List ℕ) (r : Receiver)
    → r.failed ≡ none
    → r.close_received ≡ false
    → Same r (Receiver.feed s r) × ((Receiver.feed s r).dec.pending ≡ r.dec.pending ++ s)
unfolding Receiver.feed
feed-Same s r f c =
    let e : Receiver.feed s r ≡ record r { dec = Decoder.feed s r.dec } =
      simp (f, c, Receiver.feed) refl in
    (
      (
        e ∙ ap (λ x. record r { dec = x.dec }) (sym e),
        ap (λ x. x.dec.remaining) e ∙ feed-remaining s r.dec,
      ),
      ap (λ x. x.dec.pending) e ∙ feed-pending s r.dec,
    )

returned_lem :
    {T A B : Type 0} {R : T → A → Type 0} {R' : B → A → Type 0} (f : T → B) (x : T × Outcome A)
    → ((t : T) (a : A) → R t a → R' (f t) a)
    → Returns R (λ _ _. ⊥) x
    → Returns R' (λ _ _. ⊥) (f x.0, x.1)
returned_lem f (t, ok a) h r = record { holds = h t a r.holds }
returned_lem f (t, failed e) h r = elim r.holds [ ]
returned_lem f (t, out_of_fuel) h r = elim r.holds [ ]

module _ {W S : Type 0} where
  pub Buffers-refl : (c : Reader W S) → IsSmooth c.arrivals → Buffers c c
  Buffers-refl c v = record { rest = refl; rx = refl; frame = refl; flows = refl; smooth = v }

  pub Buffers-trans : (a b c : Reader W S) → Buffers a b → Buffers b c → Buffers a c
  Buffers-trans a b c f g = record {
    rest = g.rest ∙ ap (λ (t : Reader W S). record t { rx = c.rx; arrivals = c.arrivals }) f.rest;
    rx = g.rx ∙ ap (λ (r : Receiver). record r { dec = c.rx.dec }) f.rx;
    frame = g.frame ∙ f.frame;
    flows = g.flows ∙ f.flows;
    smooth = g.smooth;
  }

module _ {W S : Type 0} where
  pub read_lem :
      (n : ℕ) (c : Reader W S)
      → 1 ≤ n
      → IsSmooth c.arrivals
      → 1 ≤ length (flow c.arrivals)
      → Returns
          (λ d s. (d ≡ record c { arrivals = d.arrivals }) × Moves c.arrivals d.arrivals s)
          (λ _ _. ⊥)
          (read n c)
  read_lem zero c one v h = absurd (omega arith)
  read_lem (suc n) c one v h =
      unfold read in
      returned_lem (λ l. record c { arrivals = l }) (read_from 100 (idle c.rx) (suc n) c.arrivals)
        (λ l s m. (refl, m)) (read_from-Moves 99 (idle c.rx) n c.arrivals v h)

  -- What was read is fed to the receiver `r`, which is that of `c` or a copy.
  pub fed-Buffers :
      (c : Reader W S) (r : Receiver) (l : List Arrival) (s : List ℕ)
      → Same c.rx r
      → r.dec.pending ≡ c.rx.dec.pending
      → c.rx.failed ≡ none
      → c.rx.close_received ≡ false
      → Moves c.arrivals l s
      → let d : Reader W S = record c { rx = Receiver.feed s r; arrivals = l } in
        Buffers c d × (weight d < weight c)
  unfolding weight
  fed-Buffers c r l s same keeps f cl m =
      let (fed, pending) =
        feed-Same s r (ap (λ x. x.failed) same.0 ∙ f) (ap (λ x. x.close_received) same.0 ∙ cl) in
      let pending' : (Receiver.feed s r).dec.pending ≡ c.rx.dec.pending ++ s =
        pending ∙ ap (λ x. x ++ s) keeps in
      (
        record {
          rest = refl;
          rx = fed.0 ∙ ap (λ (x : Receiver). record x { dec = (Receiver.feed s r).dec }) same.0;
          frame = fed.1 ∙ same.1;
          flows =
              ap (λ x. x ++ flow l) pending'
              ∙ append_assoc c.rx.dec.pending s (flow l)
              ∙ ap (λ x. c.rx.dec.pending ++ x) m.1;
          smooth = m.0;
        },
        omega (arith, ap (λ x. length x) pending', length-append c.rx.dec.pending s, m.3),
      )

  -- `fill` while there is input.
  pub fill-Buffers :
      (c : Reader W S)
      → 1 ≤ c.buf
      → c.rx.failed ≡ none
      → c.rx.close_received ≡ false
      → IsSmooth c.arrivals
      → 1 ≤ length (flow c.arrivals)
      → Returns (λ d _. Buffers c d × (weight d < weight c)) (λ _ _. ⊥) (fill c)
  unfolding fill
  fill-Buffers c one f cl v h =
      let p : Reader W S = record c { rx = Receiver.preserve c.rx } in
      and_then_lem _ _
        (λ d s m. record {
          holds =
              subst
                (λ t.
                  (let e : Reader W S = record t { rx = Receiver.feed s t.rx } in
                    Buffers c e × (weight e < weight c)))
                (sym m.0)
                (fed-Buffers c (Receiver.preserve c.rx) d.arrivals s (preserve-Same c.rx).0
                  (preserve-Same c.rx).1 f cl m.1);
        })
        (λ _ _ e. e) (read c.buf p) (read_lem c.buf p one v h)
