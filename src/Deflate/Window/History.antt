-- ===== src/Deflate/Window/History.antt =====
-- The window against the whole history of the direction.
use ews.Common.{
  ℕ, ◌+◌, ◌-◌, ◌*◌, ◌%◌, ◌^◌, ◌≤◌, ◌<◌, ◌≡◌, refl, sym, ap, subst, ◌∙◌, false, List, [], ◌∷◌, ◌++◌,
  arith, ltb, leb, ltb→lt, ◌==◌, length, drop, take, length-append, length-drop, length-zero,
  drop-drop, Bool-cases, append-nil, append_assoc, inl, inr, ==_iff, leb→le, min,
  drop-length-append, take-append-drop,
}
use ews.Deflate.Window.{Window, size, dict, append, enlarge, compact, remember, add, bump}

-- The last `n` items.
unfoldable pub last : ℕ → List ℕ → List ℕ
last n xs = drop (length xs - n) xs

pub dict-last : (w : Window) → dict w ≡ last (size w) w.buf
unfolding dict last
dict-last w = elim (Bool-cases (ltb (size w) (length w.buf))) [
  | inl e ↦ rw e refl
  | inr e ↦ let z : length w.buf - size w ≡ 0 = ground arith in rw (e, z) refl
]

pub last-append : (n : ℕ) (xs ys : List ℕ) → n ≤ length ys → last n (xs ++ ys) ≡ last n ys
unfolding last
last-append n xs ys h =
    let e : length (xs ++ ys) - n ≡ length xs + (length ys - n) =
      omega (arith, length-append {0} xs ys) in
    rw e (
      sym (drop-drop (length ys - n) (length xs) (xs ++ ys))
      ∙ ap (drop (length ys - n)) (drop-length-append xs ys))

pub last-short : (n : ℕ) (xs : List ℕ) → length xs ≤ n → last n xs ≡ xs
unfolding last
last-short n xs h = let z : length xs - n ≡ 0 = omega arith in rw z refl

pub length-last : (n : ℕ) (xs : List ℕ) → length (last n xs) ≡ min n (length xs)
unfolding last
length-last n xs = omega (arith, length-drop {0} (length xs - n) xs)

-- Leaving out a prefix that does not reach the last `n`.
last-drop :
    (n k : ℕ) (xs ys : List ℕ)
    → n ≤ length (drop k xs) + length ys
    → last n (drop k xs ++ ys) ≡ last n (xs ++ ys)
last-drop n k xs ys h =
    sym (
      last-append n (take k xs) (drop k xs ++ ys) (omega (arith, length-append {0} (drop k xs) ys)))
    ∙ ap (last n) (sym (append_assoc (take k xs) (drop k xs) ys))
    ∙ ap (λ t. last n (t ++ ys)) (take-append-drop k xs)

pub last-last : (n : ℕ) (xs ys : List ℕ) → last n (last n xs ++ ys) ≡ last n (xs ++ ys)
unfolding last
last-last n xs ys = elim (Bool-cases (leb n (length xs))) [
  | inl e ↦
      last-drop n (length xs - n) xs ys
        (let l = leb→le n (length xs) e in omega (arith, length-drop {0} (length xs - n) xs))
  | inr e ↦ let z : length xs - n ≡ 0 = ground arith in rw z refl
]

pub last_idem : (n : ℕ) (xs : List ℕ) → last n (last n xs) ≡ last n xs
last_idem n xs = last-short n (last n xs) (omega (arith, length-last n xs))

last-drop_self : (n : ℕ) (xs : List ℕ) → last n (drop (length xs - n) xs) ≡ last n xs
unfolding last
last-drop_self n xs = last_idem n xs

length-dict : (w : Window) → length (dict w) ≤ size w
length-dict w = rw (dict-last w) (omega (arith, length-last (size w) w.buf))

pub size-bits : (v w : Window) → v.bits ≡ w.bits → size v ≡ size w
unfolding size
size-bits v w e = rw e refl

unfoldable pub joined : List (List ℕ) → List ℕ
joined [] = []
joined (p ∷ ps) = p ++ joined ps

module _ (grow : ℕ → ℕ → ℕ) where
  enlarge-keeps :
      (w : Window)
      → (last (size w) (enlarge grow w).buf ≡ last (size w) w.buf)
        × (size (enlarge grow w) ≡ size w)
        × (2 * size w ≤ (enlarge grow w).cap)
  unfolding enlarge append
  enlarge-keeps w = elim (Bool-cases (ltb w.cap (2 * size w))) [
    | inl e ↦
        let fits : ltb (2 * size w) (0 + length (dict w)) ≡ false =
          let l = length-dict w in ground arith in
        rw (e, fits)
          (
            ap (last (size w)) (dict-last w) ∙ last_idem (size w) w.buf,
            size-bits (record w { buf = dict w; cap = 2 * size w }) w refl,
            omega arith,
          )
    | inr e ↦ let l : 2 * size w ≤ w.cap = ground arith in rw e (refl, refl, l)
  ]

  compact-keeps :
      (p : List ℕ) (w : Window)
      → length p < size w
      → 2 * size w ≤ w.cap
      → (last (size w) ((compact grow p w).buf ++ p) ≡ last (size w) (w.buf ++ p))
        × (size (compact grow p w) ≡ size w)
  unfolding compact
  compact-keeps p w short big = elim (Bool-cases (ltb w.cap (length w.buf + length p))) [
    | inl e ↦
        let l = ltb→lt w.cap (length w.buf + length p) e in
        let keep : ℕ = length w.buf - (size w - length p) in
        rw e (
          last-drop (size w) keep w.buf p (omega (arith, length-drop {0} keep w.buf)),
          size-bits (record w { buf = drop keep w.buf }) w refl,
        )
    | inr e ↦ rw e (refl, refl)
  ]

  compact-enlarge :
      (p : List ℕ) (w : Window)
      → length p < size w
      → (last (size w) ((compact grow p (enlarge grow w)).buf ++ p) ≡ last (size w) (w.buf ++ p))
        × (size (compact grow p (enlarge grow w)) ≡ size w)
  compact-enlarge p w short =
      let (kept, same, big) = enlarge-keeps w in
      let e = enlarge grow w in
      let (a, b) =
        compact-keeps p e (subst (λ n. length p < n) (sym same) short)
          (subst (λ n. 2 * n ≤ e.cap) (sym same) big) in
      (
        subst (λ n. last n ((compact grow p e).buf ++ p) ≡ last n (e.buf ++ p)) same a
            ∙ sym (last-last (size w) e.buf p)
            ∙ ap (λ t. last (size w) (t ++ p)) kept
            ∙ last-last (size w) w.buf p,
        b ∙ same,
      )

  remember-buf :
      (p : List ℕ) (w : Window)
      → (last (size w) (remember grow p w).buf ≡ last (size w) (w.buf ++ p))
        × (size (remember grow p w) ≡ size w)
  unfolding remember append bump
  remember-buf p w = elim (Bool-cases (length p == 0)) [
    | inl e ↦ rw e (
      ap (last (size w)) (
          sym
            (ap (λ t. w.buf ++ t) (length-zero p ((==_iff (length p) 0).0 e)) ∙ append-nil w.buf)),
      refl,
    )
    | inr e ↦ elim (Bool-cases (leb (size w) (length p))) [
      | inl big ↦
          rw (e, big)
            (
              last-drop_self (size w) p
                  ∙ sym (last-append (size w) w.buf p (leb→le (size w) (length p) big)),
              size-bits
                  (append grow (drop (length p - size w) p)
                    (record w { buf = []; gen = (w.gen + 1) % 2 ^ 64 }))
                  w refl,
            )
      | inr small ↦
          let w' = record w { gen = (w.gen + 1) % 2 ^ 64 } in
          let same = size-bits w' w refl in
          let (a, b) = compact-enlarge p w' (rw same (ground arith)) in
          rw (e, small)
            (
              subst
                  (λ n. last n ((compact grow p (enlarge grow w')).buf ++ p) ≡ last n (w.buf ++ p))
                  same a,
              size-bits _ (compact grow p (enlarge grow w')) refl ∙ b ∙ same,
            )
    ]
  ]

  -- `remember` keeps the history: afterwards `dict` is exactly the last `Size` bytes of the history
  -- before it followed by `p`, whatever the capacity and however the runtime grows a slice.
  pub dict-remember :
      (p : List ℕ) (w : Window) → dict (remember grow p w) ≡ last (size w) (dict w ++ p)
  dict-remember p w =
      let (a, b) = remember-buf p w in
      dict-last (remember grow p w)
      ∙ ap (λ n. last n (remember grow p w).buf) b
      ∙ a
      ∙ sym (last-last (size w) w.buf p)
      ∙ ap (λ t. last (size w) (t ++ p)) (sym (dict-last w))

  pub size-remember : (p : List ℕ) (w : Window) → size (remember grow p w) ≡ size w
  size-remember p w = (remember-buf p w).1

  unfoldable pub add_all : List (List ℕ) → Window → Window
  add_all [] w = w
  add_all (p ∷ ps) w = add_all ps (add grow p w)

  -- After any sequence of payloads, `dict` is the last `Size` bytes of all of the history: of what
  -- the window held at first, followed by the payloads in their order, whatever the capacity and
  -- however the runtime grows a slice.
  pub dict-add_all :
      (ps : List (List ℕ)) (w : Window) → dict (add_all ps w) ≡ last (size w) (dict w ++ joined ps)
  unfolding add_all add joined
  dict-add_all [] w =
      dict-last w
      ∙ sym (last_idem (size w) w.buf)
      ∙ ap (last (size w)) (sym (dict-last w) ∙ sym (append-nil (dict w)))
  dict-add_all (p ∷ ps) w =
      let (a, b) = remember-buf p w in
      let v = remember grow p w in
      dict-add_all ps v
      ∙ ap (λ n. last n (dict v ++ joined ps)) b
      ∙ ap (λ t. last (size w) (t ++ joined ps)) (dict-remember p w)
      ∙ last-last (size w) (dict w ++ p) (joined ps)
      ∙ ap (last (size w)) (append_assoc (dict w) p (joined ps))

  pub size-add_all : (ps : List (List ℕ)) (w : Window) → size (add_all ps w) ≡ size w
  unfolding add_all add
  size-add_all [] w = refl
  size-add_all (p ∷ ps) w = size-add_all ps (remember grow p w) ∙ size-remember p w
