-- ===== src/Utf8/Prefix.antt =====
-- `asciiPrefix` (internal/utf8/ascii.go) against a run of ASCII bytes.
use ews.Common.{
  ℕ, zero, suc, ◌+◌, ◌≤◌, ◌≡◌, refl, ap, ◌∙◌, true, ◌&&◌, List, [], ◌∷◌, arith, bit_and, bit_or,
  ltb, leb, ◌==◌, if◌then◌else◌, length, take, drop, All-take, All-drop, length-drop, drop-drop,
  Bool-cases, inl, inr,
}
use ews.Common.Words.{IsBytes, le_word}
use ews.Utf8.{high, word_at, ascii_bytes, ascii_8, ascii_16, ascii_32, ascii_prefix, accept}
use ews.Utf8.Runes.{transition_ascii}
use ews.Utf8.Machine.{run}
use ews.Utf8.Words.{
  IsAscii, word_bytes, word-IsAscii, eight_bytes-IsWord, two_words-IsAscii, four_words-IsAscii,
}

-- The number of bytes below 0x80 at the front.
unfoldable pub ascii_run : List ℕ → ℕ
ascii_run [] = 0
ascii_run (b ∷ s) = if ltb b 0x80 then suc (ascii_run s) else 0

pub ascii_run-le : (s : List ℕ) → ascii_run s ≤ length s
unfolding ascii_run
ascii_run-le [] = omega arith
ascii_run-le (b ∷ s) = ground (arith, ascii_run-le s)

ascii_run-drop :
    (n : ℕ) (s : List ℕ)
    → n ≤ length s
    → IsAscii (take n s)
    → ascii_run s ≡ n + ascii_run (drop n s)
unfolding ascii_run
ascii_run-drop zero s l h = omega arith
ascii_run-drop (suc n) [] l h = absurd (omega arith)
ascii_run-drop (suc n) (b ∷ s) l h = ground (arith, ascii_run-drop n s (omega arith) h.1)

pub run-ascii_run : (s : List ℕ) → run accept s ≡ run accept (drop (ascii_run s) s)
unfolding run ascii_run
run-ascii_run [] = refl
run-ascii_run (b ∷ s) = elim (Bool-cases (ltb b 0x80)) [
  | inl e ↦ rw (e, transition_ascii b (ground arith)) (run-ascii_run s)
  | inr e ↦ rw e refl
]

ascii_run-drop_word :
    (k : ℕ) (s : List ℕ)
    → k + 8 ≤ length s
    → IsAscii (take 8 (drop k s))
    → ascii_run (drop k s) ≡ 8 + ascii_run (drop (k + 8) s)
ascii_run-drop_word k s h a =
    ascii_run-drop 8 (drop k s) (omega (arith, length-drop {0} k s)) a
    ∙ ap (λ t. 8 + ascii_run t) (drop-drop 8 k s)

ascii_bytes-eq : (i : ℕ) (s : List ℕ) → ascii_bytes i s ≡ i + ascii_run s
unfolding ascii_bytes ascii_run
ascii_bytes-eq i [] = omega arith
ascii_bytes-eq i (b ∷ s) = ground (arith, ascii_bytes-eq (i + 1) s)

ascii_8-eq : (i : ℕ) (s : List ℕ) → IsBytes s → ascii_8 i s ≡ i + ascii_run s
unfolding ascii_8 word_at
ascii_8-eq i s h = elim (Bool-cases (leb 8 (length s) && bit_and (word_at 0 s) high == 0)) [
  | inr e ↦ rw e (ascii_bytes-eq i s)
  | inl e ↦
      let long : 8 ≤ length s = ground arith in
      let clear : (bit_and (le_word (take 8 s)) high == 0) ≡ true = ground arith in
      let a = word-IsAscii (take 8 s) (word_bytes 0 s long) (All-take _ 8 s h) clear in
      rw e (ascii_bytes-eq (i + 8) (drop 8 s) ∙ omega (arith, ascii_run-drop_word 0 s long a))
]

ascii_16-eq : (i : ℕ) (s : List ℕ) → IsBytes s → ascii_16 i s ≡ i + ascii_run s
unfolding ascii_16 word_at
ascii_16-eq i s h =
    elim (Bool-cases
      (leb 16 (length s) && bit_and (bit_or (word_at 0 s) (word_at 8 s)) high == 0)) [
        | inr e ↦ rw e (ascii_8-eq i s h)
        | inl e ↦
            let long : 16 ≤ length s = ground arith in
            let (a, b) =
              two_words-IsAscii (take 8 s) (take 8 (drop 8 s))
                (eight_bytes-IsWord 0 s h (omega arith)) (eight_bytes-IsWord 8 s h long)
                (ground arith) in
            rw e (
              ascii_8-eq (i + 16) (drop 16 s) (All-drop _ 16 s h)
              ∙ omega
                  (arith, ascii_run-drop_word 0 s (omega arith) a, ascii_run-drop_word 8 s long b))
      ]

ascii_32-eq : (f i : ℕ) (s : List ℕ) → IsBytes s → ascii_32 f i s ≡ i + ascii_run s
unfolding ascii_32 word_at
ascii_32-eq zero i s h = ascii_16-eq i s h
ascii_32-eq (suc f) i s h =
    elim (Bool-cases (
      leb 32 (length s)
      && bit_and
          (bit_or (bit_or (bit_or (word_at 0 s) (word_at 8 s)) (word_at 16 s)) (word_at 24 s)) high
        == 0)) [
          | inr e ↦ rw (e, ascii_32) (ascii_16-eq i s h)
          | inl e ↦
              let long : 32 ≤ length s = ground arith in
              let (a, b, c, d) =
                four_words-IsAscii (take 8 s) (take 8 (drop 8 s)) (take 8 (drop 16 s))
                  (take 8 (drop 24 s)) (eight_bytes-IsWord 0 s h (omega arith))
                  (eight_bytes-IsWord 8 s h (omega arith)) (eight_bytes-IsWord 16 s h (omega arith))
                  (eight_bytes-IsWord 24 s h long) (ground arith) in
              rw (e, ascii_32)
                (ascii_32-eq f (i + 32) (drop 32 s) (All-drop _ 32 s h)
                  ∙ omega (
                    arith,
                    ascii_run-drop_word 0 s (omega arith) a,
                    ascii_run-drop_word 8 s (omega arith) b,
                    ascii_run-drop_word 16 s (omega arith) c,
                    ascii_run-drop_word 24 s long d,
                  ))
        ]

-- On bytes `asciiPrefix` returns the number of bytes before the first one from 0x80 on.
pub ascii_prefix-eq-ascii_run : (src : List ℕ) → IsBytes src → ascii_prefix src ≡ ascii_run src
unfolding ascii_prefix
ascii_prefix-eq-ascii_run src h = ascii_32-eq (length src) 0 src h ∙ omega arith

run-ascii : (n : ℕ) (s : List ℕ) → IsAscii (take n s) → run accept s ≡ run accept (drop n s)
unfolding run
run-ascii zero s h = refl
run-ascii (suc n) [] h = refl
run-ascii (suc n) (b ∷ s) h = rw (transition_ascii b h.0) (run-ascii n s h.1)

-- A word without high bits leaves the automaton in its first state.
pub word-skip :
    (s : List ℕ)
    → IsBytes s
    → 8 ≤ length s
    → (bit_and (word_at 0 s) high == 0) ≡ true
    → run accept s ≡ run accept (drop 8 s)
unfolding word_at
word-skip s h long clear =
    let w = eight_bytes-IsWord 0 s h long in run-ascii 8 s (word-IsAscii (take 8 s) w.0 w.1 clear)
