-- ===== src/Common/Text.antt =====
-- Text as bytes: what is used of Go's packages strings and strconv, on ASCII text. Beyond ASCII the
-- package strings also trims and folds some letters of Unicode, which is left out here.
use Prim.Native.Char.{code}
use Prim.Native.String.{String}
use Prim.Native.Nat.{ℕ, zero, suc, ◌+◌, ◌-◌, ◌*◌, ◌/◌, ◌%◌, ◌^◌}
use mathlib.Core.Path.{◌≡◌, refl}
use mathlib.Core.Bool.{Bool, true, false, ◌&&◌, ◌||◌}
use mathlib.Core.Option.{Option, none, some}
use mathlib.Core.List.{List, [], ◌∷◌, ◌++◌, map, reverse}
use native.Mathlib.Omega.{arith}
use ews.Common.Tests.{ltb, leb, ◌==◌, if◌then◌else◌}
use ews.Common.Int.{ℤ, pos, negsuc}

abbrev pub Text : Type 0
Text = List ℕ

abbrev pub codes : String → Text
codes String.[] = []
codes (String.◌∷◌ c s) = code c ∷ codes s

-- `==` of two strings.
unfoldable pub same : Text → Text → Bool
same [] [] = true
same [] (c ∷ t) = false
same (c ∷ s) [] = false
same (c ∷ s) (d ∷ t) = c == d && same s t

pub same_refl : (s : Text) → same s s ≡ true
unfolding same
same_refl [] = refl
same_refl (c ∷ s) = ground (arith, same_refl s)

pub same-eq : (s t : Text) → same s t ≡ true → s ≡ t
unfolding same
same-eq [] [] h = refl
same-eq [] (c ∷ t) h = ground arith
same-eq (c ∷ s) [] h = ground arith
same-eq (c ∷ s) (d ∷ t) h = ground (arith, same-eq s t)

-- A byte before the parts that follow it.
abbrev pub on_first : ℕ → List Text → List Text
on_first c [] = (c ∷ []) ∷ []
on_first c (p ∷ ps) = (c ∷ p) ∷ ps

-- `strings.Split` and `strings.SplitSeq` by a separator of one byte.
unfoldable pub split : ℕ → Text → List Text
split sep [] = [] ∷ []
split sep (c ∷ s) = let rest = split sep s in if c == sep then [] ∷ rest else on_first c rest

-- `strings.Cut` at one byte, without its third result.
unfoldable pub cut : ℕ → Text → Text × Text
cut sep [] = ([], [])
cut sep (c ∷ s) =
    let (before, after) = cut sep s in if c == sep then ([], s) else (c ∷ before, after)

unfoldable pub drop_while : (ℕ → Bool) → Text → Text
drop_while test [] = []
drop_while test (c ∷ s) = if test c then drop_while test s else c ∷ s

-- `strings.TrimFunc`
unfoldable pub trim : (ℕ → Bool) → Text → Text
unfolding drop_while
trim test s = reverse (drop_while test (reverse (drop_while test s)))

abbrev is_space : ℕ → Bool
is_space c = c == 32 || (leb 9 c && leb c 13)

-- `strings.TrimSpace`
unfoldable pub trim_space : Text → Text
unfolding trim
trim_space s = trim is_space s

-- `strings.Trim` with a set of one byte
unfoldable pub trim_byte : ℕ → Text → Text
unfolding trim
trim_byte c s = trim (λ d. d == c) s

abbrev lower : ℕ → ℕ
lower c = if leb 65 c && leb c 90 then c + 32 else c

-- `strings.ToLower`
unfoldable pub to_lower : Text → Text
to_lower s = map lower s

-- `strings.EqualFold`
unfoldable pub equal_fold : Text → Text → Bool
unfolding to_lower same
equal_fold s t = same (to_lower s) (to_lower t)

pub equal_fold_refl : (s : Text) → equal_fold s s ≡ true
unfolding equal_fold
equal_fold_refl s = same_refl (to_lower s)

-- `strings.Join`
unfoldable pub join : List Text → Text → Text
join [] sep = []
join (p ∷ []) sep = p
join (p ∷ q ∷ ps) sep = p ++ (sep ++ join (q ∷ ps) sep)

-- The decimal digits of a number, `none` where another byte stands.
unfoldable pub decimal : ℕ → Text → Option ℕ
decimal n [] = some n
decimal n (c ∷ s) =
    let rest = decimal (n * 10 + (c - 48)) s in if leb 48 c && leb c 57 then rest else none

-- One digit at least, and a number of 63 bits or the one more that a minus allows.
unfoldable pub digits_below : ℕ → Text → Option ℕ
digits_below limit [] = none
digits_below limit (c ∷ s) = elim (decimal 0 (c ∷ s)) [
  | none ↦ none
  | some n ↦ if ltb n limit then some n else none
]

abbrev negated : ℕ → ℤ
negated zero = pos 0
negated (suc n) = negsuc n

-- `strconv.Atoi`; `none` is its error.
unfoldable pub atoi : Text → Option ℤ
unfolding digits_below decimal
atoi [] = none
atoi (c ∷ s) =
    if c == 45
    then elim (digits_below (2 ^ 63 + 1) s) [ none ↦ none | some n ↦ some (negated n) ]
    else elim (digits_below (2 ^ 63) (if c == 43 then s else c ∷ s)) [
      | none ↦ none
      | some n ↦ some (pos n)
    ]

-- The digits of `n` before `out`. The fuel is the number itself.
unfoldable pub emit : ℕ → ℕ → Text → Text
emit zero n out = out
emit (suc f) n out =
    let rest = emit f (n / 10) ((48 + n % 10) ∷ out) in if n == 0 then out else rest

-- `strconv.Itoa` of a number that is not negative.
unfoldable pub itoa : ℕ → Text
unfolding emit
itoa n = if n == 0 then 48 ∷ [] else emit n n []
