-- ===== src/Utf8/Scalars.antt =====
-- UTF-8 as the encoding of Unicode scalar values.
use ews.Common.{
  ℕ, ◌+◌, ◌/◌, ◌%◌, ◌≤◌, ◌<◌, ◌≡◌, ◌⊎◌, inl, inr, refl, ◌∙◌, true, List, [], ◌∷◌, ◌++◌, arith, ltb,
  if◌then◌else◌, All, Bool-cases,
}
use ews.Utf8.{accept}
use ews.Utf8.Standard.{second}
use ews.Utf8.Runes.{
  is_tail, transition-cont1, transition-cont2, transition_ascii, second_of_2, second_of_3,
  second_of_4,
}
use ews.Utf8.Machine.{run}

-- A code point that is no surrogate half.
abbrev pub IsScalar : ℕ → Type 0
IsScalar c = (c < 0xd800) ⊎ ((0xe000 ≤ c) × (c < 0x110000))

-- The encoding of RFC 3629, section 3.
unfoldable pub encode_rune : ℕ → List ℕ
encode_rune c =
    if ltb c 0x80
    then c ∷ []
    else if ltb c 0x800
    then (0xc0 + c / 64) ∷ (0x80 + c % 64) ∷ []
    else if ltb c 0x10000
    then (0xe0 + c / 4096) ∷ (0x80 + c / 64 % 64) ∷ (0x80 + c % 64) ∷ []
    else (0xf0 + c / 262144) ∷ (0x80 + c / 4096 % 64) ∷ (0x80 + c / 64 % 64) ∷ (0x80 + c % 64) ∷ []

unfoldable pub encode_runes : List ℕ → List ℕ
encode_runes [] = []
encode_runes (c ∷ cs) = encode_rune c ++ encode_runes cs

-- The automaton reads the encoding of a scalar value and is back in its first state.
run-encode_rune : (c : ℕ) (t : List ℕ) → IsScalar c → run accept (encode_rune c ++ t) ≡ run accept t
unfolding run encode_rune
run-encode_rune c t h = elim (Bool-cases (ltb c 0x80)) [
  | inl e ↦ rw (e, transition_ascii c (ground arith)) refl
  | inr e1 ↦ elim (Bool-cases (ltb c 0x800)) [
    | inl e ↦
        let ok : second (0xc0 + c / 64) (0x80 + c % 64) ≡ true = unfold second in ground arith in
        rw (e1, e, second_of_2 (0xc0 + c / 64) (0x80 + c % 64) (ground arith) (ground arith), ok)
          refl
    | inr e2 ↦ elim (Bool-cases (ltb c 0x10000)) [
      | inl e ↦
          let a : ℕ = 0xe0 + c / 4096 in
          let b : ℕ = 0x80 + c / 64 % 64 in
          let ok : second (0xe0 + c / 4096) (0x80 + c / 64 % 64) ≡ true =
            unfold second in ground arith in
          let tail : is_tail (0x80 + c % 64) ≡ true = ground arith in
          rw
            (
              e1,
              e2,
              e,
              second_of_3 a b (ground arith) (ground arith),
              ok,
              transition-cont1 (0x80 + c % 64),
              tail,
            )
            refl
      | inr e3 ↦
          let a : ℕ = 0xf0 + c / 262144 in
          let b : ℕ = 0x80 + c / 4096 % 64 in
          let ok : second (0xf0 + c / 262144) (0x80 + c / 4096 % 64) ≡ true =
            unfold second in ground arith in
          let tail : is_tail (0x80 + c / 64 % 64) ≡ true = ground arith in
          let tail' : is_tail (0x80 + c % 64) ≡ true = ground arith in
          rw
            (
              e1,
              e2,
              e3,
              second_of_4 a b (ground arith) (ground arith),
              ok,
              transition-cont2 (0x80 + c / 64 % 64),
              tail,
              transition-cont1 (0x80 + c % 64),
              tail',
            )
            refl
    ]
  ]
]

pub run-encode_runes : (cs : List ℕ) → All IsScalar cs → run accept (encode_runes cs) ≡ accept
unfolding run encode_runes
run-encode_runes [] h = refl
run-encode_runes (c ∷ cs) h = run-encode_rune c (encode_runes cs) h.0 ∙ run-encode_runes cs h.1
