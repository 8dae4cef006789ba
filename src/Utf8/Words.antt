-- ===== src/Utf8/Words.antt =====
-- Words of eight bytes without high bits.
use ews.Common.{
  ℕ, zero, suc, ◌+◌, ◌*◌, ◌≤◌, ◌<◌, ◌≡◌, refl, sym, ap, ◌∙◌, true, List, [], ◌∷◌, arith, bit_and,
  bit_or, ◌==◌, ==_iff, length, take, drop, replicate, All, All-take, All-drop, length-take,
  length-drop,
}
use ews.Common.Words.{IsBytes, le_word}
use ews.Common.Bits.{bit_and-0x80, bit_and-fields_byte, bit_or-fields_byte, bit_or-ge, bit_or-lt}
use ews.Utf8.{high}

abbrev pub IsAscii : List ℕ → Type 0
IsAscii = All (λ b. b < 0x80)

-- A word without high bits is eight ASCII bytes.
or_bytes : List ℕ → List ℕ → List ℕ
or_bytes [] ys = []
or_bytes (x ∷ xs) [] = []
or_bytes (x ∷ xs) (y ∷ ys) = bit_or x y ∷ or_bytes xs ys

bit_or-le_word :
    (xs ys : List ℕ)
    → length xs ≡ length ys
    → IsBytes xs
    → IsBytes ys
    → bit_or (le_word xs) (le_word ys) ≡ le_word (or_bytes xs ys)
unfolding le_word or_bytes
bit_or-le_word [] [] e p q = refl
bit_or-le_word [] (y ∷ ys) e p q = absurd (omega arith)
bit_or-le_word (x ∷ xs) [] e p q = absurd (omega arith)
bit_or-le_word (x ∷ xs) (y ∷ ys) e p q =
    bit_or-fields_byte x (le_word xs) y (le_word ys) p.0 q.0
    ∙ ap (λ t. bit_or x y + 256 * t) (bit_or-le_word xs ys (omega arith) p.1 q.1)

or_bytes_parts :
    (xs ys : List ℕ)
    → length xs ≡ length ys
    → (IsBytes xs → IsBytes ys → IsBytes (or_bytes xs ys))
      × (length (or_bytes xs ys) ≡ length xs)
      × (IsAscii (or_bytes xs ys) → IsAscii xs × IsAscii ys)
unfolding or_bytes
or_bytes_parts [] [] e = (λ p q. tt, refl, λ h. (tt, tt))
or_bytes_parts [] (y ∷ ys) e = absurd (omega arith)
or_bytes_parts (x ∷ xs) [] e = absurd (omega arith)
or_bytes_parts (x ∷ xs) (y ∷ ys) e =
    let (b, l, a) = or_bytes_parts xs ys (omega arith) in
    let (ge, ge') = bit_or-ge x y in
    (
      λ p q. (bit_or-lt x y p.0 q.0, b p.1 q.1),
      ap suc l,
      λ h. ((omega arith, (a h.1).0), (omega arith, (a h.1).1)),
    )

high_clear :
    (n : ℕ) (xs : List ℕ)
    → length xs ≡ n
    → IsBytes xs
    → bit_and (le_word xs) (le_word (replicate n 0x80)) ≡ 0
    → IsAscii xs
unfolding le_word
high_clear zero [] e h z = tt
high_clear zero (x ∷ xs) e h z = absurd (omega arith)
high_clear (suc n) [] e h z = absurd (omega arith)
high_clear (suc n) (x ∷ xs) e h z =
    let split =
      bit_and-fields_byte x (le_word xs) 0x80 (le_word (replicate n 0x80)) h.0 (omega arith) in
    (
      omega (arith, split, bit_and-0x80 x h.0),
      high_clear n xs (omega arith) h.1 (omega (arith, split)),
    )

pub word-IsAscii :
    (xs : List ℕ)
    → length xs ≡ 8
    → IsBytes xs
    → (bit_and (le_word xs) high == 0) ≡ true
    → IsAscii xs
unfolding le_word
word-IsAscii xs e h z = high_clear 8 xs e h ((==_iff _ 0).0 z)

-- The eight bytes of the word at `k`.
pub word_bytes : (k : ℕ) (s : List ℕ) → k + 8 ≤ length s → length (take 8 (drop k s)) ≡ 8
word_bytes k s h = omega (arith, length-take {0} 8 (drop k s), length-drop {0} k s)

abbrev pub IsWord : List ℕ → Type 0
IsWord xs = (length xs ≡ 8) × IsBytes xs

pub eight_bytes-IsWord :
    (k : ℕ) (s : List ℕ) → IsBytes s → k + 8 ≤ length s → IsWord (take 8 (drop k s))
eight_bytes-IsWord k s h l = (word_bytes k s l, All-take _ 8 (drop k s) (All-drop _ k s h))

-- `|` of two words is the word of the bytewise `|`.
or_words :
    (xs ys : List ℕ)
    → IsWord xs
    → IsWord ys
    → (bit_or (le_word xs) (le_word ys) ≡ le_word (or_bytes xs ys)) × IsWord (or_bytes xs ys)
or_words xs ys (lx, hx) (ly, hy) =
    let same : length xs ≡ length ys = omega arith in
    let (b, l, a) = or_bytes_parts xs ys same in
    (bit_or-le_word xs ys same hx hy, (l ∙ lx, b hx hy))

or_words-IsAscii :
    (xs ys : List ℕ) → IsWord xs → IsWord ys → IsAscii (or_bytes xs ys) → IsAscii xs × IsAscii ys
or_words-IsAscii xs ys (lx, hx) (ly, hy) = (or_bytes_parts xs ys (lx ∙ sym ly)).2

pub two_words-IsAscii :
    (a b : List ℕ)
    → IsWord a
    → IsWord b
    → (bit_and (bit_or (le_word a) (le_word b)) high == 0) ≡ true
    → IsAscii a × IsAscii b
two_words-IsAscii a b ha hb clear =
    let (e, w) = or_words a b ha hb in
    or_words-IsAscii a b ha hb (word-IsAscii (or_bytes a b) w.0 w.1 (rw (sym e) clear))

pub four_words-IsAscii :
    (a b c d : List ℕ)
    → IsWord a
    → IsWord b
    → IsWord c
    → IsWord d
    → (bit_and (bit_or (bit_or (bit_or (le_word a) (le_word b)) (le_word c)) (le_word d)) high == 0)
      ≡ true
    → IsAscii a × IsAscii b × IsAscii c × IsAscii d
four_words-IsAscii a b c d ha hb hc hd clear =
    let (e, ab) = or_words a b ha hb in
    let (e', abc) = or_words (or_bytes a b) c ab hc in
    let clear' : (bit_and (bit_or (le_word (or_bytes (or_bytes a b) c)) (le_word d)) high == 0)
        ≡ true =
      rw (sym e', sym e) clear in
    let (low, ad) = two_words-IsAscii (or_bytes (or_bytes a b) c) d abc hd clear' in
    let (low', ac) = or_words-IsAscii (or_bytes a b) c ab hc low in
    let (aa, bb) = or_words-IsAscii a b ha hb low' in (aa, bb, ac, ad)
