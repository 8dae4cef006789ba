-- ===== src/Deflate/Window/Capacity.antt =====
-- The capacity of the window's buffer: when `remember` allocates.
use ews.Common.{
  ℕ, ◌+◌, ◌-◌, ◌*◌, ◌%◌, ◌^◌, ◌≤◌, ◌<◌, ◌≡◌, refl, sym, subst, false, List, [], ◌++◌, arith, ltb,
  leb, ◌==◌, length, drop, length-append, length-drop, Bool-cases, inl, inr, leb→le,
}
use ews.Deflate.Window.History.{size-bits}
use ews.Deflate.Window.{Window, size, append, enlarge, compact, remember, bump}

module _ (grow : ℕ → ℕ → ℕ) where
  append-fits :
      (p : List ℕ) (w : Window)
      → length w.buf + length p ≤ w.cap
      → append grow p w ≡ record w { buf = w.buf ++ p }
  unfolding append
  append-fits p w h =
      let e : ltb w.cap (length w.buf + length p) ≡ false = ground arith in rw e refl

  enlarge-large : (w : Window) → 2 * size w ≤ w.cap → enlarge grow w ≡ w
  unfolding enlarge
  enlarge-large w h = let e : ltb w.cap (2 * size w) ≡ false = ground arith in rw e refl

  compact-fits :
      (p : List ℕ) (w : Window)
      → length p < size w
      → 2 * size w ≤ w.cap
      → ((compact grow p w).cap ≡ w.cap) × (length (compact grow p w).buf + length p ≤ w.cap)
  unfolding compact
  compact-fits p w short big =
      ground (arith, length-drop {0} (length w.buf - (size w - length p)) w.buf)

  -- If the buffer has a capacity of at least twice the window's size and is within it, then
  -- recording a payload never allocates: the capacity stays, and the buffer stays within it.
  pub remember-cap :
      (p : List ℕ) (w : Window)
      → 2 * size w ≤ w.cap
      → length w.buf ≤ w.cap
      → ((remember grow p w).cap ≡ w.cap) × (length (remember grow p w).buf ≤ w.cap)
  unfolding remember bump
  remember-cap p w big fits =
      let w' : Window = record w { gen = (w.gen + 1) % 2 ^ 64 } in
      let same = size-bits w' w refl in
      let big' : 2 * size w' ≤ w'.cap = subst (λ n. 2 * n ≤ w.cap) (sym same) big in
      elim (Bool-cases (length p == 0)) [
        | inl e ↦ rw e (refl, fits)
        | inr e ↦ elim (Bool-cases (leb (size w) (length p))) [
          | inl long ↦
              let d = drop (length p - size w) p in
              let l = leb→le (size w) (length p) long in
              let room : length d ≤ w.cap = omega (arith, length-drop {0} (length p - size w) p) in
              rw (e, long, append-fits d (record w' { buf = [] }) (omega arith)) (refl, room)
          | inr short ↦
              let (a, b) = compact-fits p w' (rw same (ground arith)) big' in
              rw (e, short, enlarge-large w' big', append-fits p (compact grow p w') (omega arith))
                (a, omega (arith, length-append {0} (compact grow p w').buf p))
        ]
      ]
