-- ===== src/Utf8/Outcome.antt =====
-- The standard library's function and the automaton against the scalar values.
use ews.Common.{
  ℕ, zero, suc, ◌+◌, ◌-◌, ◌*◌, ◌≤◌, ◌<◌, ◌≡◌, ◌≢◌, ◌↔◌, inl, inr, refl, sym, ap, ◌∙◌, false, ◌&&◌,
  Option, none, some, List, [], ◌∷◌, ◌++◌, arith, ltb, leb, length, All, Bool-cases, lt→ltb,
  ==-false, ◌==◌,
}
use ews.Utf8.{accept, reject, transition}
use ews.Utf8.Standard.{after_rune, runes_valid, std_valid, second, rest_of_2, rest_of_3, rest_of_4}
use ews.Utf8.Runes.{
  is_tail, transition-cont1, transition-cont2, transition_ascii, transition_bad_low,
  transition_bad_high, transition-reject, second_of_2, second_of_3, second_of_4, transition_lead,
}
use ews.Utf8.Machine.{run, run-reject}
use ews.Utf8.Scalars.{IsScalar, encode_rune, encode_runes, run-encode_runes}

-- What `after_rune` says of an input that starts with `a`: the first rune and what follows it, or
-- that the automaton does not accept.
abbrev Outcome : ℕ → List ℕ → Option (List ℕ) → Type 0
Outcome a s none = run accept (a ∷ s) ≢ accept
Outcome a s (some t) =
    (run accept (a ∷ s) ≡ run accept t)
    × (length t ≤ length s)
    × ((c : ℕ) × IsScalar c × (encode_rune c ++ t ≡ a ∷ s))

not_accepted : (n : ℕ) → n ≡ reject → n ≢ accept
not_accepted n e h = ground arith

Outcome-2 : (a : ℕ) (s : List ℕ) → 0xc2 ≤ a → a ≤ 0xdf → Outcome a s (rest_of_2 a s)
unfolding rest_of_2 run
Outcome-2 a [] h k = transition_lead a h (omega arith)
Outcome-2 a (b ∷ s) h k = elim (Bool-cases (second a b)) [
  | inl e ↦ rw e (
    rw (second_of_2 a b h k, e) refl,
    omega arith,
    (
      (a - 0xc0) * 64 + (b - 0x80),
      unfold second in ground arith,
      unfold second encode_rune in ground arith,
    ),
  )
  | inr e ↦ rw e (not_accepted _ (rw (second_of_2 a b h k, e) (run-reject s)))
]

Outcome-3 : (a : ℕ) (s : List ℕ) → 0xe0 ≤ a → a ≤ 0xef → Outcome a s (rest_of_3 a s)
unfolding rest_of_3 run
Outcome-3 a [] h k = transition_lead a (omega arith) (omega arith)
Outcome-3 a (b ∷ []) h k = rw (second_of_3 a b h k) (ground arith)
Outcome-3 a (b ∷ c ∷ s) h k = elim (Bool-cases (second a b)) [
  | inr e ↦ rw e (not_accepted _ (rw (second_of_3 a b h k, e, transition-reject c) (run-reject s)))
  | inl e ↦ elim (Bool-cases (is_tail c)) [
    | inr e' ↦
        rw (e, e')
          (not_accepted _ (rw (second_of_3 a b h k, e, transition-cont1 c, e') (run-reject s)))
    | inl e' ↦
        rw (e, e')
          (
            rw (second_of_3 a b h k, e, transition-cont1 c, e') refl,
            omega arith,
            (
              (a - 0xe0) * 4096 + (b - 0x80) * 64 + (c - 0x80),
              unfold second in ground arith,
              unfold second encode_rune in ground arith,
            ),
          )
  ]
]

Outcome-4 : (a : ℕ) (s : List ℕ) → 0xf0 ≤ a → a ≤ 0xf4 → Outcome a s (rest_of_4 a s)
unfolding rest_of_4 run
Outcome-4 a [] h k = transition_lead a (omega arith) (omega arith)
Outcome-4 a (b ∷ []) h k = rw (second_of_4 a b h k) (ground arith)
Outcome-4 a (b ∷ c ∷ []) h k = elim (Bool-cases (second a b)) [
  | inr e ↦ rw (second_of_4 a b h k, e, transition-reject c) (ground arith)
  | inl e ↦ rw (second_of_4 a b h k, e, transition-cont2 c) (ground arith)
]
Outcome-4 a (b ∷ c ∷ d ∷ s) h k = elim (Bool-cases (second a b)) [
  | inr e ↦ rw e (
      not_accepted _
        (rw (second_of_4 a b h k, e, transition-reject c, transition-reject d) (run-reject s)))
  | inl e ↦ elim (Bool-cases (is_tail c)) [
    | inr e' ↦
        rw (e, e')
          (not_accepted _ (
            rw (second_of_4 a b h k, e, transition-cont2 c, e', transition-reject d)
              (run-reject s)))
    | inl e' ↦ elim (Bool-cases (is_tail d)) [
      | inr e'' ↦
          rw (e, e', e'')
            (not_accepted _ (
              rw (second_of_4 a b h k, e, transition-cont2 c, e', transition-cont1 d, e'')
                (run-reject s)))
      | inl e'' ↦
          rw (e, e', e'')
            (
              rw (second_of_4 a b h k, e, transition-cont2 c, e', transition-cont1 d, e'') refl,
              omega arith,
              (
                (a - 0xf0) * 262144 + (b - 0x80) * 4096 + (c - 0x80) * 64 + (d - 0x80),
                unfold second in ground arith,
                unfold second encode_rune in ground arith,
              ),
            )
    ]
  ]
]

Outcome-1 : (a : ℕ) (s : List ℕ) → a < 0x80 → Outcome a s (some s)
unfolding run
Outcome-1 a s h = (
  ap (λ t. run t s) (transition_ascii a h),
  omega arith,
  (a, inl (omega arith), unfold encode_rune in rw (lt→ltb a 0x80 h) refl),
)

Outcome-bad : (a : ℕ) (s : List ℕ) → transition accept a ≡ reject → Outcome a s none
unfolding run
Outcome-bad a s e = not_accepted _ (rw e (run-reject s))

outcome : (a : ℕ) (s : List ℕ) → Outcome a s (after_rune a s)
unfolding after_rune
outcome a s = elim (Bool-cases (ltb a 0x80)) [
  | inl e ↦ rw e (Outcome-1 a s (ground arith))
  | inr e1 ↦ elim (Bool-cases (leb 0xc2 a && leb a 0xdf)) [
    | inl e ↦ rw (e1, e) (Outcome-2 a s (ground arith) (ground arith))
    | inr e2 ↦ elim (Bool-cases (leb 0xe0 a && leb a 0xef)) [
      | inl e ↦ rw (e1, e2, e) (Outcome-3 a s (ground arith) (ground arith))
      | inr e3 ↦ elim (Bool-cases (leb 0xf0 a && leb a 0xf4)) [
        | inl e ↦ rw (e1, e2, e3, e) (Outcome-4 a s (ground arith) (ground arith))
        | inr e4 ↦
            rw (e1, e2, e3, e4)
              (Outcome-bad a s (elim (Bool-cases (ltb a 0xc2)) [
                | inl low ↦ transition_bad_low a (ground arith) (ground arith)
                | inr up ↦ transition_bad_high a (ground arith)
              ]))
      ]
    ]
  ]
]

-- One round of the standard library's function.
runes_valid-step :
    (f a : ℕ) (s : List ℕ)
    → ((t : List ℕ) → length t ≤ f → runes_valid f t ≡ (run accept t == accept))
    → length s ≤ f
    → (o : Option (List ℕ)) → Outcome a s o
    → elim o [ none ↦ false | some t ↦ runes_valid f t ] ≡ (run accept (a ∷ s) == accept)
runes_valid-step f a s rec l none bad = sym (==-false _ accept bad)
runes_valid-step f a s rec l (some t) (e, shorter, c) = rw e (rec t (omega arith))

runes_valid-run : (f : ℕ) (s : List ℕ) → length s ≤ f → runes_valid f s ≡ (run accept s == accept)
unfolding runes_valid run
runes_valid-run f [] h = refl
runes_valid-run zero (a ∷ s) h = absurd (omega arith)
runes_valid-run (suc f) (a ∷ s) h =
    runes_valid-step f a s (runes_valid-run f) (omega arith) (after_rune a s) (outcome a s)

-- The standard library's function and the automaton agree.
pub std_valid-run : (s : List ℕ) → std_valid s ≡ (run accept s == accept)
unfolding std_valid
std_valid-run s = runes_valid-run (length s) s (omega arith)

-- The input is the encoding of a sequence of scalar values.
abbrev pub IsUtf8 : List ℕ → Type 0
IsUtf8 s = (cs : List ℕ) × All IsScalar cs × (encode_runes cs ≡ s)

runes_of_step :
    (f a : ℕ) (s : List ℕ)
    → ((t : List ℕ) → length t ≤ f → run accept t ≡ accept → IsUtf8 t)
    → length s ≤ f
    → run accept (a ∷ s) ≡ accept
    → (o : Option (List ℕ)) → Outcome a s o
    → IsUtf8 (a ∷ s)
unfolding encode_runes
runes_of_step f a s rec l e none bad = absurd (bad e)
runes_of_step f a s rec l e (some t) (next, shorter, (c, scalar, spelled)) =
    let (cs, all, whole) = rec t (omega arith) (sym next ∙ e) in
    (c ∷ cs, (scalar, all), ap (λ u. encode_rune c ++ u) whole ∙ spelled)

runes_of : (f : ℕ) (s : List ℕ) → length s ≤ f → run accept s ≡ accept → IsUtf8 s
unfolding encode_runes
runes_of f [] h e = ([], tt, refl)
runes_of zero (a ∷ s) h e = absurd (omega arith)
runes_of (suc f) (a ∷ s) h e =
    runes_of_step f a s (runes_of f) (omega arith) e (after_rune a s) (outcome a s)

-- The automaton accepts exactly the encodings of sequences of scalar values.
pub run-accept_iff : (s : List ℕ) → (run accept s ≡ accept) ↔ IsUtf8 s
run-accept_iff s =
    (runes_of (length s) s (omega arith), λ w. ap (run accept) (sym w.2) ∙ run-encode_runes w.0 w.1)
