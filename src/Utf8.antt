-- ===== src/Utf8.antt =====
-- internal/utf8/ascii.go and internal/utf8/valid_swar.go. internal/utf8/doc.go holds a comment only.
-- `std_valid` stands for `Valid` of Go's package unicode/utf8, and `valid` is this package's own.
pub mod Standard
pub mod Machine
pub mod Runes
pub mod Scalars
pub mod Outcome
pub mod Words
pub mod Prefix
pub mod Valid
mod Tests
use ews.Common.{
  ℕ, zero, suc, ◌+◌, ◌-◌, ◌*◌, ◌/◌, ◌%◌, ◌^◌, Bool, true, false, ◌&&◌, List, [], ◌∷◌, bit_and,
  bit_or, ltb, leb, ◌==◌, if◌then◌else◌, length, take, drop,
}
use ews.Common.Words.{le_word}
use Standard.{std_valid}

abbrev pub high : ℕ
high = 0x8080808080808080

-- `binary.LittleEndian.Uint64(s[i:])`
unfoldable pub word_at : ℕ → List ℕ → ℕ
word_at i s = le_word (take 8 (drop i s))

-- The steps of `asciiPrefix`; each takes the bytes from `i` on.
unfoldable pub ascii_bytes : ℕ → List ℕ → ℕ
ascii_bytes i [] = i
ascii_bytes i (b ∷ s) = let more = ascii_bytes (i + 1) s in if ltb b 0x80 then more else i

unfoldable pub ascii_8 : ℕ → List ℕ → ℕ
ascii_8 i s =
    if leb 8 (length s) && bit_and (word_at 0 s) high == 0
    then ascii_bytes (i + 8) (drop 8 s)
    else ascii_bytes i s

unfoldable pub ascii_16 : ℕ → List ℕ → ℕ
ascii_16 i s =
    if leb 16 (length s) && bit_and (bit_or (word_at 0 s) (word_at 8 s)) high == 0
    then ascii_8 (i + 16) (drop 16 s)
    else ascii_8 i s

unfoldable pub ascii_32 : ℕ → ℕ → List ℕ → ℕ
ascii_32 zero i s = ascii_16 i s
ascii_32 (suc f) i s =
    let words =
      bit_or (bit_or (bit_or (word_at 0 s) (word_at 8 s)) (word_at 16 s)) (word_at 24 s) in
    elim (leb 32 (length s) && bit_and words high == 0) [
      | true ↦ ascii_32 f (i + 32) (drop 32 s)
      | false ↦ ascii_16 i s
    ]

unfoldable pub ascii_prefix : List ℕ → ℕ
unfolding ascii_32 ascii_16 ascii_8 ascii_bytes word_at
ascii_prefix src = ascii_32 (length src) 0 src

-- The states of the automaton.
abbrev pub accept : ℕ
accept = 0

abbrev pub cont1 : ℕ
cont1 = 6

abbrev pub cont2 : ℕ
cont2 = 12

abbrev pub after_e0 : ℕ
after_e0 = 18

abbrev pub after_ed : ℕ
after_ed = 24

abbrev pub after_f0 : ℕ
after_f0 = 30

abbrev pub after_f1 : ℕ
after_f1 = 36

abbrev pub after_f4 : ℕ
after_f4 = 42

abbrev pub reject : ℕ
reject = 48

abbrev pub within : ℕ → ℕ → ℕ → Bool
within lo hi b = leb lo b && leb b hi

-- The case `accept` of `transition`.
unfoldable pub from_accept : ℕ → ℕ
from_accept b =
    if ltb b 0x80
    then accept
    else if within 0xc2 0xdf b
    then cont1
    else if b == 0xe0
    then after_e0
    else if b == 0xed
    then after_ed
    else if within 0xe1 0xef b
    then cont2
    else if b == 0xf0
    then after_f0
    else if within 0xf1 0xf3 b
    then after_f1
    else if b == 0xf4
    then after_f4
    else reject

unfoldable pub transition : ℕ → ℕ → ℕ
transition state b =
    if state == accept
    then from_accept b
    else if state == cont1
    then (if within 0x80 0xbf b then accept else reject)
    else if state == cont2
    then (if within 0x80 0xbf b then cont1 else reject)
    else if state == after_e0
    then (if within 0xa0 0xbf b then cont1 else reject)
    else if state == after_ed
    then (if within 0x80 0x9f b then cont1 else reject)
    else if state == after_f0
    then (if within 0x90 0xbf b then cont2 else reject)
    else if state == after_f1
    then (if within 0x80 0xbf b then cont2 else reject)
    else if state == after_f4
    then (if within 0x80 0x8f b then cont2 else reject)
    else reject

abbrev states : List ℕ
states = accept ∷ cont1 ∷ cont2 ∷ after_e0 ∷ after_ed ∷ after_f0 ∷ after_f1 ∷ after_f4 ∷ reject ∷ []

-- `table[b] |= transition(s, byte(b)) << s`, over the states
unfoldable pub pack_row : ℕ → ℕ → List ℕ → ℕ
unfolding transition from_accept
pack_row b row [] = row
pack_row b row (s ∷ ss) = pack_row b (bit_or row (transition s b * 2 ^ s % 2 ^ 64)) ss

-- The table's entry for a byte.
unfoldable pub dfa : ℕ → ℕ
unfolding pack_row
dfa b = pack_row b 0 states

-- `state = dfa[b] >> (state & 63)`, over some bytes
unfoldable pub advance : ℕ → List ℕ → ℕ
advance state [] = state
advance state (b ∷ bs) = advance (dfa b / 2 ^ bit_and state 63) bs

-- The last loop and the result.
unfoldable pub valid_tail : ℕ → List ℕ → Bool
unfolding advance
valid_tail state s = bit_and (advance state s) 63 == accept

-- One round of eight bytes and the rest; the fuel is the number of bytes left at most.
unfoldable pub valid_words : ℕ → ℕ → List ℕ → Bool
unfolding advance word_at
valid_words zero state s = valid_tail state s
valid_words (suc f) state s = elim (leb 8 (length s)) [
  | false ↦ valid_tail state s
  | true ↦ elim (bit_and state 63 == accept && bit_and (word_at 0 s) high == 0) [
    | true ↦ valid_words f state (drop 8 s)
    | false ↦
        let state' = advance state (take 8 s) in
        elim (bit_and state' 63 == reject) [
          | true ↦ false
          | false ↦ valid_words f state' (drop 8 s)
        ]
  ]
]

-- `Valid`
unfoldable pub valid : List ℕ → Bool
unfolding valid_words valid_tail advance dfa ascii_prefix
valid src =
    let i = ascii_prefix src in
    if i == length src
    then true
    else if ltb (length src - i) 16
    then std_valid (drop i src)
    else valid_words (length src) 0 (drop i src)
