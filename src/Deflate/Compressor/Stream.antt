-- ===== src/Deflate/Compressor/Stream.antt =====
-- One compressor on many windows, with other paths that write to the windows.
use ews.Common.{
  ℕ, zero, suc, ◌≤◌, ◌<◌, ◌^◌, ◌≡◌, ◌≢◌, refl, sym, ap, subst, ◌∙◌, Bool, true, not, ◌&&◌, Option,
  none, some, List, ◌++◌, arith, ◌==◌, length, Bool-cases, inl, inr, ◌⊎◌,
}
use ews.Deflate.Window.{Window, size, dict, add, reset, remember}
use ews.Deflate.Window.History.{last, last-last}
use ews.Deflate.Compressor.{
  FlateWriter, Compressor, Compressed, Store, store, is_stale, reachable, prime, detach, remembered,
  gen_of, finish_chunk, encode_chunk, compress_chunk,
}
use ews.Deflate.Compressor
use ews.Deflate.Compressor.History.{
  Refers, InStep, Inv, MayChunk, prime-InStep, detached-Inv, finish_chunk-Inv, changed-Inv,
  gen-remember,
}

module _ (F : FlateWriter) (refers : Refers F) (grow : ℕ → ℕ → ℕ) where
  abbrev pub State : Type 0
  State = Compressor F.State × Store

  -- A chunk; `Add` or `Reset` of a window by another path, not inside this compressor's message on
  -- it; `Reset` of the compressor.
  pub data Step : State → State → Type 0 where
    chunk :
        (payload : List ℕ) (w : Option ℕ) (final : Bool) (c : Compressor F.State) (ws : Store)
        → MayChunk F refers grow w c ws
        → Step (c, ws) (compress_chunk F grow payload w final ws c).0
    added :
        (i : ℕ) (p : List ℕ) (c : Compressor F.State) (ws : Store)
        → (c.mid ≡ true → c.attached ≢ some i)
        → Step (c, ws) (c, store i (add grow p (ws i)) ws)
    forgotten :
        (i : ℕ) (c : Compressor F.State) (ws : Store)
        → (c.mid ≡ true → c.attached ≢ some i)
        → Step (c, ws) (c, store i (reset (ws i)) ws)
    recycled : (c : Compressor F.State) (ws : Store) → Step (c, ws) (Compressor.reset F c, ws)

  -- After `n` steps.
  pub data Steps (s : State) : ℕ → State → Type 0 where
    start : Steps s zero s
    then_step : {n : ℕ} {t u : State} → Steps s n t → Step t u → Steps s (suc n) u

  later : (n : ℕ) (ws : Store) → ((i : ℕ) → (ws i).gen ≤ n) → (i : ℕ) → (ws i).gen ≤ suc n
  later n ws counted i = let le = counted i in omega arith

  prime-window :
      (w : Option ℕ) (ws : Store) (c : Compressor F.State) → (prime F w ws c).window ≡ c.window
  unfolding prime
  prime-window none ws c = elim (Bool-cases c.mid) [ inl e ↦ rw e refl | inr e ↦ rw e refl ]
  prime-window (some i) ws c = elim (Bool-cases (not c.mid && is_stale i ws c)) [
    | inl e ↦ rw e refl
    | inr e ↦ rw e refl
  ]

  -- What the encoder's two calls do, whether they fail or not.
  abbrev MayReach : Option ℕ → Compressor F.State → Store → Type 0
  MayReach none c ws = Unit {0}
  MayReach (some i) c ws = InStep F refers grow c (ws i) × (c.window ≤ size (ws i))

  written :
      (p : List ℕ) (i : ℕ) (ws : Store) (c : Compressor F.State)
      → InStep F refers grow c (ws i)
      → last c.window (refers.history (F.flush (F.write p c.writer).0).0)
        ≡ last c.window (dict (ws i) ++ p)
  written p i ws c step =
      ap (last c.window) (refers.after_flush (F.write p c.writer).0 ∙ refers.after_write p c.writer)
      ∙ sym (last-last c.window (refers.history c.writer) p)
      ∙ ap (λ t. last c.window (t ++ p)) step
      ∙ last-last c.window (dict (ws i)) p

  encode_chunk-Inv :
      (n : ℕ) (p : List ℕ) (w : Option ℕ) (final : Bool) (ws : Store) (c : Compressor F.State)
      → ((i : ℕ) → (ws i).gen ≤ n)
      → suc n < 2 ^ 64
      → MayReach w c ws
      → let r = encode_chunk F grow p w final ws c in Inv F refers grow (suc n) r.0.0 r.0.1
  unfolding encode_chunk
  encode_chunk-Inv n p w final ws c counted few may = elim (Bool-cases (F.write p c.writer).2) [
    | inl e ↦ rw e (detached-Inv F refers grow (suc n) _ ws refl (later n ws counted))
    | inr e ↦ elim (Bool-cases (F.flush (F.write p c.writer).0).2) [
      | inl e' ↦ rw (e, e') (detached-Inv F refers grow (suc n) _ ws refl (later n ws counted))
      | inr e' ↦ rw (e, e') (finished w may)
    ]
  ]
    where
      finished :
          (w : Option ℕ)
          → MayReach w c ws
          → let s = F.write p c.writer in
            let s' = F.flush s.0 in
            let r =
              finish_chunk F grow p w final ws
                (record c { writer = s'.0; output = (c.output ++ s.1) ++ s'.1 }) in
            Inv F refers grow (suc n) r.0.0 r.0.1
      finished none may =
          unfold finish_chunk in detached-Inv F refers grow (suc n) _ ws refl (later n ws counted)
      finished (some i) (step, small) =
          finish_chunk-Inv F refers grow n i p final ws _ (written p i ws c step) small counted few

  MayChunk-MayReach :
      (n : ℕ) (w : Option ℕ) (ws : Store) (c : Compressor F.State)
      → Inv F refers grow n c ws
      → MayChunk F refers grow w c ws
      → MayReach w (prime F w ws c) ws
  MayChunk-MayReach n none ws c v may = tt
  MayChunk-MayReach n (some i) ws c v may = (
    prime-InStep F refers grow n i ws c v may,
    subst (λ k. k ≤ size (ws i)) (sym (prime-window (some i) ws c)) may.1,
  )

  add-how :
      (n : ℕ) (p : List ℕ) (w : Window)
      → w.gen ≤ n
      → suc n < 2 ^ 64
      → (add grow p w ≡ w) ⊎ ((add grow p w).gen ≡ suc w.gen)
  unfolding add remember
  add-how n p w le few = elim (Bool-cases (length p == 0)) [
    | inl e ↦ inl (rw e refl)
    | inr e ↦ inr (gen-remember grow p w ∙ (rw e (omega arith)))
  ]

  Step-Inv :
      (n : ℕ) (s t : State)
      → Step s t
      → suc n < 2 ^ 64
      → Inv F refers grow n s.0 s.1
      → Inv F refers grow (suc n) t.0 t.1
  unfolding compress_chunk
  Step-Inv n _ _ (chunk payload w final c ws may) few v =
      encode_chunk-Inv n payload w final ws (prime F w ws c) v.counted few
        (MayChunk-MayReach n w ws c v may)
  Step-Inv n _ _ (added i p c ws free) few v =
      changed-Inv F refers grow n i (add grow p (ws i)) ws c (add-how n p (ws i) (v.counted i) few)
        free v
  Step-Inv n _ _ (forgotten i c ws free) few v =
      changed-Inv F refers grow n i (reset (ws i)) ws c
        (inr (unfold reset in (let le = v.counted i in omega arith))) free v
  Step-Inv n _ _ (recycled c ws) few v =
      unfold Compressor.reset in detached-Inv F refers grow (suc n) _ ws refl (later n ws v.counted)

  Steps-Inv :
      (c₀ : Compressor F.State) (ws₀ : Store)
      → c₀.attached ≡ none
      → ((i : ℕ) → (ws₀ i).gen ≡ 0)
      → (n : ℕ) (t : State) → Steps (c₀, ws₀) n t
      → n < 2 ^ 64
      → Inv F refers grow n t.0 t.1
  Steps-Inv c₀ ws₀ a z _ _ start few =
      detached-Inv F refers grow 0 c₀ ws₀ a (λ i. let e = z i in omega arith)
  Steps-Inv c₀ ws₀ a z _ u (then_step {n} {t} steps step) few =
      Step-Inv n t u step few (Steps-Inv c₀ ws₀ a z n t steps (omega arith))

  -- A compressor that no window is attached to and windows that count from zero, used for fewer than
  -- 2^64 steps in any way: chunks on any windows, other paths that add to or reset a window, write
  -- errors, and resets of the compressor. Whenever the next chunk on window `i` may be encoded, the
  -- encoder's reach is exactly the window's history, as far back as the encoder's window goes,
  -- whether it primes itself or continues its stream. The steps keep the compressor's contract: a
  -- message's chunks go to one window, which no other path changes meanwhile, and the window is no
  -- smaller than the encoder's.
  pub prime_lem :
      (c₀ : Compressor F.State) (ws₀ : Store) (n i : ℕ) (c : Compressor F.State) (ws : Store)
      → c₀.attached ≡ none
      → ((j : ℕ) → (ws₀ j).gen ≡ 0)
      → Steps (c₀, ws₀) n (c, ws)
      → n < 2 ^ 64
      → MayChunk F refers grow (some i) c ws
      → last c.window (refers.history (prime F (some i) ws c).writer) ≡ last c.window (dict (ws i))
  prime_lem c₀ ws₀ n i c ws a z steps few may =
      let step =
        prime-InStep F refers grow n i ws c (Steps-Inv c₀ ws₀ a z n (c, ws) steps few) may in
      ap (λ k. last k (refers.history (prime F (some i) ws c).writer))
        (sym (prime-window (some i) ws c))
      ∙ step
      ∙ ap (λ k. last k (dict (ws i))) (prime-window (some i) ws c)
