-- ===== src/Bufpool/Classes.antt =====
-- Size classes as powers of two.
use ews.Common.{
  ℕ, zero, suc, ◌+◌, ◌-◌, ◌*◌, ◌/◌, ◌%◌, ◌^◌, ◌≤◌, ◌<◌, ◌≡◌, ◌≢◌, ◌⊎◌, refl, sym, ap, ◌∙◌, false,
  arith, ltb, ◌==◌, ==_iff, max, bit_and, Bool-cases, inl, inr,
}
use ews.Common.Bits.{bit_and_step}
use ews.Bufpool.{bit_len, class}

bit_len-zero : (fuel : ℕ) → bit_len fuel 0 ≡ 0
unfolding bit_len
bit_len-zero zero = refl
bit_len-zero (suc fuel) = refl

bit_len-step : (fuel n : ℕ) → 1 ≤ n → bit_len (suc fuel) n ≡ suc (bit_len fuel (n / 2))
unfolding bit_len
bit_len-step fuel n one = let e : (n == 0) ≡ false = ground arith in rw e refl

-- `bits.Len`: the number is below its power of two, and not below the one before.
abbrev pub IsLen : ℕ → ℕ → Type 0
IsLen n l = (k : ℕ) × (l ≡ suc k) × (2 ^ k ≤ n) × (n < 2 ^ suc k)

pub bit_len-IsLen : (fuel n : ℕ) → n < 2 ^ fuel → 1 ≤ n → IsLen n (bit_len fuel n)
bit_len-IsLen zero n h one = absurd (omega arith)
bit_len-IsLen (suc fuel) n h one = elim (Bool-cases (n == 1)) [
  | inl e ↦
      let z = (==_iff n 1).0 e in
      let half : n / 2 ≡ 0 = omega arith in
      (
        0,
        bit_len-step fuel n one ∙ ap suc (ap (bit_len fuel) half ∙ bit_len-zero fuel),
        omega arith,
        omega arith,
      )
  | inr e ↦
      let (k, same, low, high) =
        bit_len-IsLen fuel (n / 2) (omega arith) (ground (arith, e, one)) in
      (suc k, bit_len-step fuel n one ∙ ap suc same, omega arith, omega arith)
]

bit_and_same : (k n : ℕ) → n ≤ k → bit_and n n ≡ n
bit_and_same zero n le = ground arith
bit_and_same (suc k) n le = elim (Bool-cases (n == 0)) [
  | inl e ↦ let z = (==_iff n 0).0 e in rw z refl
  | inr e ↦
      let rest = bit_and_same k (n / 2) (ground (arith, e)) in omega (arith, bit_and_step n n, rest)
]

halved : (c : ℕ) → 1 ≤ c → c % 2 ≡ 0 → bit_and c (c - 1) ≡ 0 → bit_and (c / 2) (c / 2 - 1) ≡ 0
halved c one even e =
    let q : (c - 1) / 2 ≡ c / 2 - 1 = omega arith in
    let s = bit_and_step c (c - 1) in ap (bit_and (c / 2)) (sym q) ∙ omega arith

odd_refused : (c : ℕ) → 2 ≤ c → c % 2 ≡ 1 → bit_and c (c - 1) ≢ 0
odd_refused c two odd e =
    let q : (c - 1) / 2 ≡ c / 2 = omega arith in
    let s = bit_and_step c (c - 1) in
    let same = ap (bit_and (c / 2)) q ∙ bit_and_same (c / 2) (c / 2) (omega arith) in
    absurd (omega arith)

-- `c & (c-1) == 0` only for a power of two.
pub power_of_two : (k c : ℕ) → 2 ^ k ≤ c → c < 2 ^ suc k → bit_and c (c - 1) ≡ 0 → c ≡ 2 ^ k
power_of_two zero c low high e = omega arith
power_of_two (suc k) c low high e = elim (Bool-cases (c % 2 == 0)) [
  | inr odd ↦ absurd (odd_refused c (omega (arith, one_le k)) (ground (arith, odd)) e)
  | inl even ↦
      let z = (==_iff (c % 2) 0).0 even in
      let rest =
        power_of_two k (c / 2) (omega arith) (omega arith)
          (halved c (omega (arith, one_le k)) z e) in
      omega arith
]
  where
    one_le : (k : ℕ) → 1 ≤ 2 ^ k
    one_le zero = omega arith
    one_le (suc k) = let r = one_le k in omega arith

pow_le : (a d : ℕ) → 2 ^ a ≤ 2 ^ (a + d)
pow_le a zero =
    let e : a + 0 ≡ a = omega arith in
    let same : 2 ^ (a + 0) ≡ 2 ^ a = ap (λ t. 2 ^ t) e in omega arith
pow_le a (suc d) =
    let e : a + suc d ≡ suc (a + d) = omega arith in
    let same : 2 ^ (a + suc d) ≡ 2 ^ suc (a + d) = ap (λ t. 2 ^ t) e in
    let rest = pow_le a d in omega arith

pow_mono : (a b : ℕ) → a ≤ b → 2 ^ a ≤ 2 ^ b
pow_mono a b le =
    let e : b ≡ a + (b - a) = omega arith in
    let grown = pow_le a (b - a) in
    let same : 2 ^ b ≡ 2 ^ (a + (b - a)) = ap (λ t. 2 ^ t) e in omega arith

len-small : (k m : ℕ) → 2 ^ k ≤ m → m < 2 ^ 26 → suc k ≤ 26
len-small k m low high = elim (Bool-cases (ltb k 26)) [
  | inl e ↦ ground (arith, e)
  | inr e ↦ let far = pow_mono 26 k (ground (arith, e)) in absurd (omega arith)
]

-- The largest class is the last one.
pub exponent_fits : (k c : ℕ) → 2 ^ k ≤ c → c ≤ 2 ^ 26 → k ≤ 26
exponent_fits k c low high = elim (Bool-cases (ltb 26 k)) [
  | inl e ↦ let far = pow_mono 27 k (ground (arith, e)) in absurd (omega arith)
  | inr e ↦ ground (arith, e)
]

-- `max(MinBits, l)` for a length of `n - 1`.
class_of_len :
    (n l : ℕ)
    → n ≤ 2 ^ 26
    → IsLen (n - 1) l
    → (n ≤ 2 ^ max 10 l)
      × (10 ≤ max 10 l)
      × (max 10 l ≤ 26)
      × ((max 10 l ≡ 10) ⊎ (2 ^ max 10 l < 2 * n))
class_of_len n l le (k, same, low, high) =
    let top = len-small k (n - 1) low (omega arith) in
    elim (Bool-cases (ltb 10 l)) [
      | inl e ↦
          let big : max 10 l ≡ suc k = ground (arith, e, same) in
          rw big (omega arith, ground (arith, e, same), top, inr (omega arith))
      | inr e ↦
          let ten : max 10 l ≡ 10 = ground (arith, e) in
          let grown = pow_mono (suc k) 10 (ground (arith, e, same)) in
          rw ten (omega arith, omega arith, omega arith, inl refl)
    ]

-- The class of a size that the pool serves: no smaller than the size, and less than twice it where it
-- is not the smallest class.
pub class_lem :
    (n : ℕ)
    → 1 ≤ n
    → n ≤ 2 ^ 26
    → (n ≤ 2 ^ class n) × (10 ≤ class n) × (class n ≤ 26) × ((class n ≡ 10) ⊎ (2 ^ class n < 2 * n))
unfolding class
class_lem n one le =
    let word : (n + (2 ^ 64 - 1)) % 2 ^ 64 ≡ n - 1 = omega arith in
    elim (Bool-cases (n == 1)) [
      | inl e ↦
          let z = (==_iff n 1).0 e in
          let zero_word : n - 1 ≡ 0 = omega arith in
          rw (word, zero_word, bit_len-zero 64) (omega arith, omega arith, omega arith, inl refl)
      | inr e ↦ rw word (
          class_of_len n (bit_len 64 (n - 1)) le
            (bit_len-IsLen 64 (n - 1) (omega arith) (ground (arith, e, one))))
    ]
