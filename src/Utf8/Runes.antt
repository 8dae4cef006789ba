-- ===== src/Utf8/Runes.antt =====
-- The automaton on one rune, by the class of its leading byte.
use ews.Common.{ℕ, ◌≤◌, ◌<◌, ◌≡◌, ◌≢◌, Bool, ◌&&◌, arith, leb, if◌then◌else◌}
use ews.Utf8.{accept, cont1, cont2, reject, transition, from_accept}
use ews.Utf8.Standard.{second}

abbrev pub is_tail : ℕ → Bool
is_tail b = leb 0x80 b && leb b 0xbf

pub transition-cont1 : (b : ℕ) → transition cont1 b ≡ (if is_tail b then accept else reject)
unfolding transition
transition-cont1 b = ground arith

pub transition-cont2 : (b : ℕ) → transition cont2 b ≡ (if is_tail b then cont1 else reject)
unfolding transition
transition-cont2 b = ground arith

pub transition-reject : (b : ℕ) → transition reject b ≡ reject
unfolding transition
transition-reject b = ground arith

pub transition_ascii : (a : ℕ) → a < 0x80 → transition accept a ≡ accept
unfolding transition from_accept
transition_ascii a h = ground arith

pub transition_bad_low : (a : ℕ) → 0x80 ≤ a → a < 0xc2 → transition accept a ≡ reject
unfolding transition from_accept
transition_bad_low a h k = ground arith

pub transition_bad_high : (a : ℕ) → 0xf4 < a → transition accept a ≡ reject
unfolding transition from_accept
transition_bad_high a h = ground arith

-- The state after the second byte.
pub second_of_2 :
    (a b : ℕ)
    → 0xc2 ≤ a
    → a ≤ 0xdf
    → transition (transition accept a) b ≡ (if second a b then accept else reject)
unfolding transition from_accept second
second_of_2 a b h k = ground arith

pub second_of_3 :
    (a b : ℕ)
    → 0xe0 ≤ a
    → a ≤ 0xef
    → transition (transition accept a) b ≡ (if second a b then cont1 else reject)
unfolding transition from_accept second
second_of_3 a b h k = ground arith

pub second_of_4 :
    (a b : ℕ)
    → 0xf0 ≤ a
    → a ≤ 0xf4
    → transition (transition accept a) b ≡ (if second a b then cont2 else reject)
unfolding transition from_accept second
second_of_4 a b h k = ground arith

-- After the second byte no state but these three is left, and a leading byte alone is not enough.
pub transition_lead : (a : ℕ) → 0xc2 ≤ a → a ≤ 0xf4 → transition accept a ≢ accept
unfolding transition from_accept
transition_lead a h k = ground arith
