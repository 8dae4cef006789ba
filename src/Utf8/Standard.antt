-- ===== src/Utf8/Standard.antt =====
-- `Valid` of Go's package unicode/utf8, from its documentation: the input is a sequence of UTF-8
-- encodings of runes, each the shortest and none a surrogate half or above U+10FFFF.
use ews.Common.{
  ℕ, zero, suc, Bool, true, false, ◌&&◌, Option, none, some, List, [], ◌∷◌, ltb, leb, ◌==◌,
  if◌then◌else◌, length,
}

abbrev within : ℕ → ℕ → ℕ → Bool
within lo hi b = leb lo b && leb b hi

-- The least and the greatest second byte after a leading byte.
unfoldable pub second_min : ℕ → ℕ
second_min b = if b == 0xe0 then 0xa0 else if b == 0xf0 then 0x90 else 0x80

unfoldable pub second_max : ℕ → ℕ
second_max b = if b == 0xed then 0x9f else if b == 0xf4 then 0x8f else 0xbf

unfoldable pub second : ℕ → ℕ → Bool
unfolding second_min second_max
second a b = within (second_min a) (second_max a) b

-- What follows the first rune, if the input starts with a valid one.
unfoldable pub rest_of_2 : ℕ → List ℕ → Option (List ℕ)
rest_of_2 a (b ∷ s) = if second a b then some s else none
rest_of_2 a s = none

unfoldable pub rest_of_3 : ℕ → List ℕ → Option (List ℕ)
rest_of_3 a (b ∷ c ∷ s) = if second a b && within 0x80 0xbf c then some s else none
rest_of_3 a s = none

unfoldable pub rest_of_4 : ℕ → List ℕ → Option (List ℕ)
rest_of_4 a (b ∷ c ∷ d ∷ s) =
    if second a b && (within 0x80 0xbf c && within 0x80 0xbf d) then some s else none
rest_of_4 a s = none

unfoldable pub after_rune : ℕ → List ℕ → Option (List ℕ)
unfolding second rest_of_2 rest_of_3 rest_of_4
after_rune a s =
    if ltb a 0x80
    then some s
    else if within 0xc2 0xdf a
    then rest_of_2 a s
    else if within 0xe0 0xef a
    then rest_of_3 a s
    else if within 0xf0 0xf4 a
    then rest_of_4 a s
    else none

-- A rune has a byte at least, so as many rounds as there are bytes are enough.
unfoldable pub runes_valid : ℕ → List ℕ → Bool
unfolding after_rune
runes_valid f [] = true
runes_valid zero (a ∷ s) = false
runes_valid (suc f) (a ∷ s) = elim (after_rune a s) [ none ↦ false | some t ↦ runes_valid f t ]

unfoldable pub std_valid : List ℕ → Bool
unfolding runes_valid
std_valid s = runes_valid (length s) s
