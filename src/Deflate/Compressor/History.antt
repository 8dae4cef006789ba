-- ===== src/Deflate/Compressor/History.antt =====
-- What the encoder can refer to against what the window holds.
use ews.Common.{
  ◌⊎◌, take, leb, leb→le, length-drop, take-append-drop, ℕ, suc, ◌+◌, ◌-◌, ◌%◌, ◌^◌, ◌≤◌, ◌<◌, ◌≡◌,
  ◌≢◌, refl, sym, ap, subst, ◌∙◌, Bool, true, false, not, ◌&&◌, ◌||◌, Option, none, some, List,
  ◌++◌, arith, ltb, ◌==◌, ==_iff, ==_refl, if◌then◌else◌, length, drop, Bool-cases, inl, inr,
}
use ews.Deflate.Window.{Window, size, dict, remember, append, enlarge, compact}
use ews.Deflate.Window.History.{last, last-append, last-short, last_idem, dict-remember}
use ews.Deflate.Compressor.{
  FlateWriter, Compressor, Store, store, is_stale, reachable, prime, finish_chunk,
}

reachable-last : (k : ℕ) (d : List ℕ) → reachable k d ≡ last k d
unfolding reachable last
reachable-last k d = elim (Bool-cases (ltb k (length d))) [
  | inl e ↦ rw e refl
  | inr e ↦ let z : length d - k ≡ 0 = ground (arith, e) in rw (e, z) refl
]

pub gen-remember :
    (grow : ℕ → ℕ → ℕ) (p : List ℕ) (w : Window)
    → (remember grow p w).gen ≡ (if length p == 0 then w.gen else (w.gen + 1) % 2 ^ 64)
unfolding remember append enlarge compact
gen-remember grow p w = ground arith

last_within : (k n : ℕ) (xs : List ℕ) → k ≤ n → last k (last n xs) ≡ last k xs
unfolding last
last_within k n xs le = elim (Bool-cases (leb n (length xs))) [
  | inl e ↦
      let m = length xs - n in
      let long : k ≤ length (drop m xs) =
        let l = leb→le n (length xs) e in omega (arith, length-drop {0} m xs) in
      sym (last-append k (take m xs) (drop m xs) long) ∙ ap (last k) (take-append-drop m xs)
  | inr e ↦ ap (last k) (last-short n xs (ground (arith, e)))
]

-- The documented behaviour of the writer, with `history` what a match may refer to: `ResetDict` makes
-- it the dictionary, a `Write` appends to it and a `Flush` leaves it.
pub record Refers (F : FlateWriter) : Type 0 where
  pub history : F.State → List ℕ
  pub after_reset_dict : (d : List ℕ) (s : F.State) → history (F.reset_dict d s) ≡ d
  pub after_write : (p : List ℕ) (s : F.State) → history (F.write p s).0 ≡ history s ++ p
  pub after_flush : (s : F.State) → history (F.flush s).0 ≡ history s

attached_to :
    (i g h : ℕ) (a : Option ℕ)
    → elim a [ none ↦ true | some j ↦ not (i == j) || not (g == h) ] ≡ false
    → (a ≡ some i) × (g ≡ h)
attached_to i g h none e = absurd (ground arith)
attached_to i g h (some j) e = (ap some (ground arith), ground arith)

-- The store behind a write to window `i`.
store_cases :
    (i j : ℕ) (w : Window) (ws : Store)
    → ((j ≡ i) × (store i w ws j ≡ w)) ⊎ ((j ≢ i) × (store i w ws j ≡ ws j))
store_cases i j w ws = elim (Bool-cases (j == i)) [
  | inl e ↦ inl ((==_iff j i).0 e, rw e refl)
  | inr e ↦ inr (λ same. absurd (ground (arith, e, same)), rw e refl)
]

gen-bounded :
    (grow : ℕ → ℕ → ℕ) (p : List ℕ) (w : Window) (n : ℕ)
    → w.gen ≤ n
    → suc n < 2 ^ 64
    → (remember grow p w).gen ≤ suc n
gen-bounded grow p w n le few = ground (arith, gen-remember grow p w, le, few)

some_eq : (i j : ℕ) → some i ≡ some j → j ≡ i
some_eq i j h = ground arith

module _ (F : FlateWriter) (refers : Refers F) (grow : ℕ → ℕ → ℕ) where
  -- The encoder reaches what the window holds, as far as its own window goes.
  abbrev pub InStep : Compressor F.State → Window → Type 0
  InStep c w = last c.window (refers.history c.writer) ≡ last c.window (dict w)

  -- After `n` changes of the windows, which count from zero.
  pub record Inv (n : ℕ) (c : Compressor F.State) (ws : Store) : Type 0 where
    pub counted : (i : ℕ) → (ws i).gen ≤ n
    pub seen : (i : ℕ) → c.attached ≡ some i → c.gen ≤ (ws i).gen
    pub in_step : (i : ℕ) → c.attached ≡ some i → (ws i).gen ≡ c.gen → InStep c (ws i)
    pub in_message : (i : ℕ) → c.mid ≡ true → c.attached ≡ some i → (ws i).gen ≡ c.gen

  -- What a caller may do next: continue the message that is open on its window, on a history no
  -- smaller than the encoder's window.
  abbrev pub MayChunk : Option ℕ → Compressor F.State → Store → Type 0
  MayChunk none c ws = c.mid ≡ true → c.attached ≡ none
  MayChunk (some i) c ws = (c.mid ≡ true → c.attached ≡ some i) × (c.window ≤ size (ws i))

  stale_false :
      (i : ℕ) (ws : Store) (c : Compressor F.State)
      → is_stale i ws c ≡ false
      → (c.attached ≡ some i) × ((ws i).gen ≡ c.gen)
  unfolding is_stale
  stale_false i ws c h = attached_to i (ws i).gen c.gen c.attached h

  -- Whether it primes or continues, the encoder reaches exactly the window's history.
  pub prime-InStep :
      (n i : ℕ) (ws : Store) (c : Compressor F.State)
      → Inv n c ws
      → MayChunk (some i) c ws
      → InStep (prime F (some i) ws c) (ws i)
  unfolding prime
  prime-InStep n i ws c v may = elim (Bool-cases (not c.mid && is_stale i ws c)) [
    | inl e ↦ rw e (
        ap (last c.window) (
          refers.after_reset_dict (reachable c.window (dict (ws i))) c.writer
          ∙ reachable-last c.window (dict (ws i)))
        ∙ last_idem c.window (dict (ws i)))
    | inr e ↦ elim (Bool-cases c.mid) [
      | inl m ↦ rw e (v.in_step i (may.0 m) (v.in_message i m (may.0 m)))
      | inr m ↦ let (a, g) = stale_false i ws c (ground (arith, e, m)) in rw e (v.in_step i a g)
    ]
  ]

  -- A compressor that no window is attached to.
  pub detached-Inv :
      (n : ℕ) (c : Compressor F.State) (ws : Store)
      → c.attached ≡ none
      → ((i : ℕ) → (ws i).gen ≤ n)
      → Inv n c ws
  detached-Inv n c ws e counted = record {
    counted = counted;
    seen = λ i a. absurd (ground (arith, e, a));
    in_step = λ i a g. absurd (ground (arith, e, a));
    in_message = λ i m a. absurd (ground (arith, e, a));
  }

  -- The end of a chunk on window `i`, once the encoder has taken it.
  pub finish_chunk-Inv :
      (n i : ℕ) (p : List ℕ) (final : Bool) (ws : Store) (c : Compressor F.State)
      → last c.window (refers.history c.writer) ≡ last c.window (dict (ws i) ++ p)
      → c.window ≤ size (ws i)
      → ((j : ℕ) → (ws j).gen ≤ n)
      → suc n < 2 ^ 64
      → let r = finish_chunk F grow p (some i) final ws c in Inv (suc n) r.0.0 r.0.1
  unfolding finish_chunk
  finish_chunk-Inv n i p final ws c reached small counted few =
      let w = remember grow p (ws i) in
      let here : store i w ws i ≡ w = rw (==_refl i) refl in
      let step : InStep c w =
        reached
        ∙ sym (last_within c.window (size (ws i)) (dict (ws i) ++ p) small)
        ∙ ap (last c.window) (sym (dict-remember grow p (ws i))) in
      record {
        counted = λ j. elim (store_cases i j w ws) [
          | inl (e, k) ↦ rw k (gen-bounded grow p (ws i) n (counted i) few)
          | inr (e, k) ↦ rw k (let le = counted j in omega arith)
        ];
        seen = λ j a.
            subst (λ t. (store i w ws i).gen ≤ (store i w ws t).gen) (sym (some_eq i j a))
              (omega arith);
        in_step = λ j a g.
            subst (λ t. InStep c (store i w ws t)) (sym (some_eq i j a))
              (subst (InStep c) (sym here) step);
        in_message = λ j m a. ap (λ t. (store i w ws t).gen) (some_eq i j a);
      }

  -- Another path records `p` in window `i`, or forgets it, between messages of this compressor on it.
  pub changed-Inv :
      (n i : ℕ) (w : Window) (ws : Store) (c : Compressor F.State)
      → (w ≡ ws i) ⊎ (w.gen ≡ suc (ws i).gen)
      → (c.mid ≡ true → c.attached ≢ some i)
      → Inv n c ws
      → Inv (suc n) c (store i w ws)
  changed-Inv n i w ws c how free v = record {
    counted = λ j. elim (store_cases i j w ws) [
      | inl (e, k) ↦ rw k (at_most how)
      | inr (e, k) ↦ rw k (let le = v.counted j in omega arith)
    ];
    seen = λ j a. elim (store_cases i j w ws) [
      | inl (e, k) ↦ rw k (grown how (subst (λ t. c.attached ≡ some t) e a))
      | inr (e, k) ↦ rw k (v.seen j a)
    ];
    in_step = λ j a g. elim (store_cases i j w ws) [
      | inl (e, k) ↦
          rw k (kept how (subst (λ t. c.attached ≡ some t) e a) (ap (λ t. t.gen) (sym k) ∙ g))
      | inr (e, k) ↦ rw k (v.in_step j a (ap (λ t. t.gen) (sym k) ∙ g))
    ];
    in_message = λ j m a. elim (store_cases i j w ws) [
      | inl (e, k) ↦ absurd (free m (subst (λ t. c.attached ≡ some t) e a))
      | inr (e, k) ↦ rw k (v.in_message j m a)
    ];
  }
    where
      at_most : (w ≡ ws i) ⊎ (w.gen ≡ suc (ws i).gen) → w.gen ≤ suc n
      at_most (inl e) = let le = v.counted i in omega (arith, ap (λ t. t.gen) e)
      at_most (inr e) = let le = v.counted i in omega arith

      grown : (w ≡ ws i) ⊎ (w.gen ≡ suc (ws i).gen) → c.attached ≡ some i → c.gen ≤ w.gen
      grown (inl e) a = let le = v.seen i a in omega (arith, ap (λ t. t.gen) e)
      grown (inr e) a = let le = v.seen i a in omega arith

      kept :
          (w ≡ ws i) ⊎ (w.gen ≡ suc (ws i).gen) → c.attached ≡ some i → w.gen ≡ c.gen → InStep c w
      kept (inl e) a g = subst (InStep c) (sym e) (v.in_step i a (sym (ap (λ t. t.gen) e) ∙ g))
      kept (inr e) a g = absurd (let le = v.seen i a in omega arith)
