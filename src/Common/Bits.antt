-- ===== src/Common/Bits.antt =====
-- Bit operations at variables: one equation for the lowest digit, and fields of disjoint bits.
use Prim.Native.Nat.{
  ℕ, zero, suc, ◌+◌, ◌*◌, ◌/◌, ◌%◌, ◌^◌, ◌≤◌, ◌<◌, min, max, bit_and, bit_or, bit_xor, digits,
  bitwise, differ, bit_and-bitwise, bit_or-bitwise, bit_xor-bitwise,
}
use mathlib.Core.Path.{◌≡◌, refl, sym, ◌∙◌, ap, ap₂}
use mathlib.Core.Bool.{Bool, true, ◌&&◌}
use ews.Common.Tests.{◌==◌}
use native.Mathlib.Omega.{arith}
use native.Mathlib.Nat.{le_refl}

module _ (z : ℕ → ℕ) (f : ℕ → ℕ → ℕ) where
  -- Two fuels that both cover the first number give the same.
  digits-fuels : (x y k l : ℕ) → x ≤ l → x ≤ k → digits z f k x y ≡ digits z f l x y
  digits-fuels zero y zero zero in_l in_k = refl
  digits-fuels zero y zero (suc l) in_l in_k = refl
  digits-fuels zero y (suc k) zero in_l in_k = refl
  digits-fuels zero y (suc k) (suc l) in_l in_k = refl
  digits-fuels (suc x) y zero l in_l in_k = absurd (omega arith)
  digits-fuels (suc x) y (suc k) zero in_l in_k = absurd (omega arith)
  digits-fuels (suc x) y (suc k) (suc l) in_l in_k =
      let half : suc x / 2 ≤ l = omega arith in
      ap (λ t. t * 2 + f (suc x % 2) (y % 2))
        (digits-fuels (suc x / 2) (y / 2) k l half (omega arith))

  -- One step of the recursion takes the lowest digits off.
  bitwise_digit :
      (x y : ℕ)
      → bitwise z f (suc x) y ≡ f (suc x % 2) (y % 2) + 2 * bitwise z f (suc x / 2) (y / 2)
  bitwise_digit x y =
      let half : suc x / 2 ≤ x = omega arith in
      omega (arith, digits-fuels (suc x / 2) (y / 2) x (suc x / 2) (le_refl _) half)

differ-bits : (d e : ℕ) → e < 2 → d < 2 → differ d e < 2
differ-bits (suc (suc d)) (suc e) he hd = absurd (omega arith)
differ-bits (suc zero) (suc e) he hd = omega arith
differ-bits (suc d) zero he hd = hd
differ-bits zero e he hd = he

zero-bit_xor : (b : ℕ) → bit_xor 0 b ≡ b
zero-bit_xor b = bit_xor-bitwise 0 b

zero-bit_or : (b : ℕ) → bit_or 0 b ≡ b
zero-bit_or b = bit_or-bitwise 0 b

zero-bit_and : (b : ℕ) → bit_and 0 b ≡ 0
zero-bit_and b = bit_and-bitwise 0 b

pub bit_or_step : (x y : ℕ) → bit_or x y ≡ bit_or (x / 2) (y / 2) * 2 + max (x % 2) (y % 2)
bit_or_step (suc x) y =
    let digit = bitwise_digit (λ t. t) max x y in
    omega (arith, bit_or-bitwise (suc x) y, bit_or-bitwise (suc x / 2) (y / 2), digit)
bit_or_step zero y = omega (arith, zero-bit_or y, zero-bit_or (y / 2))

pub bit_xor_step : (x y : ℕ) → bit_xor x y ≡ bit_xor (x / 2) (y / 2) * 2 + differ (x % 2) (y % 2)
bit_xor_step (suc x) y =
    let digit = bitwise_digit (λ t. t) differ x y in
    omega (arith, bit_xor-bitwise (suc x) y, bit_xor-bitwise (suc x / 2) (y / 2), digit)
bit_xor_step zero y = omega (arith, zero-bit_xor y, zero-bit_xor (y / 2))

pub bit_and_step : (x y : ℕ) → bit_and x y ≡ bit_and (x / 2) (y / 2) * 2 + min (x % 2) (y % 2)
bit_and_step (suc x) y =
    let digit = bitwise_digit (λ t. 0) min x y in
    omega (arith, bit_and-bitwise (suc x) y, bit_and-bitwise (suc x / 2) (y / 2), digit)
bit_and_step zero y = omega (arith, zero-bit_and y, zero-bit_and (y / 2))

-- An operation on bits acts on fields of 8 and of 32 bits separately.
module _ (op f : ℕ → ℕ → ℕ) (step : (a b : ℕ) → op a b ≡ op (a / 2) (b / 2) * 2 + f (a % 2) (b % 2))
    (none_set : op 0 0 ≡ 0) where
  fields_2 : (a b c d : ℕ) → a < 2 → c < 2 → op (a + 2 * b) (c + 2 * d) ≡ op a c + 2 * op b d
  fields_2 a b c d p q =
      let ea : (a + 2 * b) / 2 ≡ b = omega arith in
      let ec : (c + 2 * d) / 2 ≡ d = omega arith in
      let ra : (a + 2 * b) % 2 ≡ a % 2 = omega arith in
      let rc : (c + 2 * d) % 2 ≡ c % 2 = omega arith in
      let za : a / 2 ≡ 0 = omega arith in
      let zc : c / 2 ≡ 0 = omega arith in
      rw (step (a + 2 * b) (c + 2 * d), step a c, ea, ec, ra, rc, za, zc, none_set) (omega arith)

  -- From fields of modulus `m` to fields of modulus `m * m`.
  fields_square :
      (m n : ℕ)
      → ((a b : ℕ) → a + n * b ≡ a % m + m * (a / m + m * b))
      → ((a : ℕ) → a ≡ a % m + m * (a / m))
      → ((a : ℕ) → (a % m < m) × (a < n → a / m < m))
      → ((x y z : ℕ) → x + m * (y + m * z) ≡ x + m * y + n * z)
      → ((a b c d : ℕ) → a < m → c < m → op (a + m * b) (c + m * d) ≡ op a c + m * op b d)
      → (a b c d : ℕ) → a < n
      → c < n
      → op (a + n * b) (c + n * d) ≡ op a c + n * op b d
  fields_square m n whole split small collect fields a b c d p q =
      let low : op a c ≡ op (a % m) (c % m) + m * op (a / m) (c / m) =
        ap₂ op (split a) (split c)
        ∙ fields (a % m) (a / m) (c % m) (c / m) (small a).0 (small c).0 in
      ap₂ op (whole a b) (whole c d)
      ∙ fields (a % m) (a / m + m * b) (c % m) (c / m + m * d) (small a).0 (small c).0
      ∙ ap (λ t. op (a % m) (c % m) + m * t)
          (fields (a / m) b (c / m) d ((small a).1 p) ((small c).1 q))
      ∙ collect _ _ _
      ∙ ap (λ t. t + n * op b d) (sym low)

  fields_4 : (a b c d : ℕ) → a < 4 → c < 4 → op (a + 4 * b) (c + 4 * d) ≡ op a c + 4 * op b d
  fields_4 =
      fields_square 2 4 (λ a b. omega arith) (λ a. omega arith) (λ a. omega arith)
        (λ x y z. omega arith) fields_2

  fields_16 : (a b c d : ℕ) → a < 16 → c < 16 → op (a + 16 * b) (c + 16 * d) ≡ op a c + 16 * op b d
  fields_16 =
      fields_square 4 16 (λ a b. omega arith) (λ a. omega arith) (λ a. omega arith)
        (λ x y z. omega arith) fields_4

  -- The low byte and the rest.
  pub fields_byte :
      (a b c d : ℕ) → a < 256 → c < 256 → op (a + 256 * b) (c + 256 * d) ≡ op a c + 256 * op b d
  fields_byte =
      fields_square 16 256 (λ a b. omega arith) (λ a. omega arith) (λ a. omega arith)
        (λ x y z. omega arith) fields_16

  fields_u16 :
      (a b c d : ℕ)
      → a < 65536
      → c < 65536
      → op (a + 65536 * b) (c + 65536 * d) ≡ op a c + 65536 * op b d
  fields_u16 =
      fields_square 256 65536 (λ a b. omega arith) (λ a. omega arith) (λ a. omega arith)
        (λ x y z. omega arith) fields_byte

  -- The low 32 bits and the rest.
  pub fields_u32 :
      (a b c d : ℕ)
      → a < 2 ^ 32
      → c < 2 ^ 32
      → op (a + 2 ^ 32 * b) (c + 2 ^ 32 * d) ≡ op a c + 2 ^ 32 * op b d
  fields_u32 =
      fields_square 65536 (2 ^ 32) (λ a b. omega arith) (λ a. omega arith) (λ a. omega arith)
        (λ x y z. omega arith) fields_u16

pub bit_xor-fields_byte :
    (a b c d : ℕ)
    → a < 256
    → c < 256
    → bit_xor (a + 256 * b) (c + 256 * d) ≡ bit_xor a c + 256 * bit_xor b d
bit_xor-fields_byte = fields_byte bit_xor differ bit_xor_step refl

pub bit_and-fields_byte :
    (a b c d : ℕ)
    → a < 256
    → c < 256
    → bit_and (a + 256 * b) (c + 256 * d) ≡ bit_and a c + 256 * bit_and b d
bit_and-fields_byte = fields_byte bit_and min bit_and_step refl

pub bit_or-fields_byte :
    (a b c d : ℕ)
    → a < 256
    → c < 256
    → bit_or (a + 256 * b) (c + 256 * d) ≡ bit_or a c + 256 * bit_or b d
bit_or-fields_byte = fields_byte bit_or max bit_or_step refl

bit_or-zero_fuel : (n a : ℕ) → a ≤ n → bit_or a 0 ≡ a
bit_or-zero_fuel n zero h = refl
bit_or-zero_fuel zero (suc a) h = absurd (omega arith)
bit_or-zero_fuel (suc n) (suc a) h =
    omega (arith, bit_or_step (suc a) 0, bit_or-zero_fuel n (suc a / 2) (omega arith))

-- `x | y << 32` is a sum when `x` fits 32 bits.
pub bit_or-high_half : (x y : ℕ) → x < 2 ^ 32 → bit_or x (y * 2 ^ 32) ≡ x + 2 ^ 32 * y
bit_or-high_half x y h =
    ap₂ bit_or (let e : x ≡ x + 2 ^ 32 * 0 = omega arith in e)
      (let e : y * 2 ^ 32 ≡ 0 + 2 ^ 32 * y = omega arith in e)
    ∙ fields_u32 bit_or max bit_or_step refl x 0 0 y h (omega arith)
    ∙ omega (arith, bit_or-zero_fuel x x (le_refl x), zero-bit_or y)

-- Masking by low bits, and a byte's bits, each a table of the values of a byte.
table : ℕ → (ℕ → ℕ) → (ℕ → ℕ) → Bool
table zero f g = true
table (suc n) f g = f n == g n && table n f g

table_sound : (n : ℕ) (f g : ℕ → ℕ) → table n f g ≡ true → (x : ℕ) → x < n → f x ≡ g x
unfolding table
table_sound zero f g h x lt = absurd (omega arith)
table_sound (suc n) f g h x lt = ground (arith, table_sound n f g (ground arith) x)

pub bit_and-0x80 : (b : ℕ) → b < 256 → bit_and b 0x80 ≡ b / 128 * 128
unfolding table
bit_and-0x80 = table_sound 256 (λ b. bit_and b 0x80) (λ b. b / 128 * 128) refl

pub bit_and-0x40 : (b : ℕ) → b < 256 → bit_and b 0x40 ≡ b / 64 % 2 * 64
unfolding table
bit_and-0x40 = table_sound 256 (λ b. bit_and b 0x40) (λ b. b / 64 % 2 * 64) refl

pub bit_and-0x20 : (b : ℕ) → b < 256 → bit_and b 0x20 ≡ b / 32 % 2 * 32
unfolding table
bit_and-0x20 = table_sound 256 (λ b. bit_and b 0x20) (λ b. b / 32 % 2 * 32) refl

pub bit_and-0x10 : (b : ℕ) → b < 256 → bit_and b 0x10 ≡ b / 16 % 2 * 16
unfolding table
bit_and-0x10 = table_sound 256 (λ b. bit_and b 0x10) (λ b. b / 16 % 2 * 16) refl

pub bit_and-0x0f : (b : ℕ) → b < 256 → bit_and b 0x0f ≡ b % 16
unfolding table
bit_and-0x0f = table_sound 256 (λ b. bit_and b 0x0f) (λ b. b % 16) refl

pub bit_and-0x7f : (b : ℕ) → b < 256 → bit_and b 0x7f ≡ b % 128
unfolding table
bit_and-0x7f = table_sound 256 (λ b. bit_and b 0x7f) (λ b. b % 128) refl

pub bit_or-0x80 : (b : ℕ) → b < 128 → bit_or b 0x80 ≡ b + 128
unfolding table
bit_or-0x80 = table_sound 128 (λ b. bit_or b 0x80) (λ b. b + 128) refl

no_bits-bit_and : (left x : ℕ) → x < suc left → bit_and x 0 ≡ 0
no_bits-bit_and (suc left) x below =
    let rest = no_bits-bit_and left (x / 2) (omega arith) in omega (arith, bit_and_step x 0, rest)
no_bits-bit_and zero x below = let none_left : x ≡ 0 = omega arith in rw none_left refl

-- `x & 3` at every width.
pub bit_and-3 : (x : ℕ) → bit_and x 3 ≡ x % 4
bit_and-3 x = omega (
  arith,
  bit_and_step x 3,
  bit_and_step (x / 2) 1,
  no_bits-bit_and (x / 2 / 2) (x / 2 / 2) (omega arith),
)

differ-differ : (x y : ℕ) → x < 2 → y < 2 → differ (differ x y) y ≡ x
differ-differ zero zero p q = refl
differ-differ zero (suc zero) p q = refl
differ-differ zero (suc (suc y)) p q = absurd (omega arith)
differ-differ (suc zero) zero p q = refl
differ-differ (suc zero) (suc zero) p q = refl
differ-differ (suc zero) (suc (suc y)) p q = absurd (omega arith)
differ-differ (suc (suc x)) y p q = absurd (omega arith)

bit_xor-lt_double :
    (n : ℕ)
    → ((a b : ℕ) → a < n → b < n → bit_xor a b < n)
    → (a b : ℕ) → a < n + n
    → b < n + n
    → bit_xor a b < n + n
bit_xor-lt_double n h a b p q = omega (
  arith,
  bit_xor_step a b,
  h (a / 2) (b / 2) (omega arith) (omega arith),
  differ-bits (a % 2) (b % 2) (omega arith) (omega arith),
)

bit_xor-lt_1 : (a b : ℕ) → a < 1 → b < 1 → bit_xor a b < 1
bit_xor-lt_1 zero b p q = omega (arith, zero-bit_xor b)
bit_xor-lt_1 (suc a) b p q = absurd (omega arith)

bit_xor-lt_16 : (a b : ℕ) → a < 16 → b < 16 → bit_xor a b < 16
bit_xor-lt_16 =
    bit_xor-lt_double 8
      (bit_xor-lt_double 4 (bit_xor-lt_double 2 (bit_xor-lt_double 1 bit_xor-lt_1)))

-- `^` on bytes gives a byte.
pub bit_xor-lt : (a b : ℕ) → a < 256 → b < 256 → bit_xor a b < 256
bit_xor-lt =
    bit_xor-lt_double 128
      (bit_xor-lt_double 64 (bit_xor-lt_double 32 (bit_xor-lt_double 16 bit_xor-lt_16)))

bit_xor-self_fuel : (n a b : ℕ) → a + b ≤ n → bit_xor (bit_xor a b) b ≡ a
bit_xor-self_fuel zero a b h =
    let ea : a ≡ 0 = omega arith in let eb : b ≡ 0 = omega arith in rw (ea, eb)
bit_xor-self_fuel (suc n) a b h =
    let ih : a / 2 + b / 2 ≤ n → bit_xor (bit_xor (a / 2) (b / 2)) (b / 2) ≡ a / 2 =
      bit_xor-self_fuel n (a / 2) (b / 2) in
    let small : differ (a % 2) (b % 2) < 2 =
      differ-bits (a % 2) (b % 2) (omega arith) (omega arith) in
    let half : bit_xor a b / 2 ≡ bit_xor (a / 2) (b / 2) = omega (arith, bit_xor_step a b) in
    let digit : bit_xor a b % 2 ≡ differ (a % 2) (b % 2) = omega (arith, bit_xor_step a b) in
    bit_xor_step (bit_xor a b) b
    ∙ rw (half, digit, ih (omega arith), differ-differ (a % 2) (b % 2) (omega arith) (omega arith))
        (omega arith)

-- `^` by the same number twice changes nothing.
pub bit_xor-bit_xor : (a b : ℕ) → bit_xor (bit_xor a b) b ≡ a
bit_xor-bit_xor a b = bit_xor-self_fuel (a + b) a b (le_refl _)

pub bit_or-0x40 :
    (b : ℕ) → b < 64 → (bit_or b 0x40 ≡ b + 64) × (bit_or (b + 128) 0x40 ≡ b + 128 + 64)
unfolding table
bit_or-0x40 b h = (
  table_sound 64 (λ x. bit_or x 0x40) (λ x. x + 64) refl b h,
  table_sound 64 (λ x. bit_or (x + 128) 0x40) (λ x. x + 128 + 64) refl b h,
)

-- `x & 63` at every width.
pub bit_and-63 : (x : ℕ) → bit_and x 63 ≡ x % 64
bit_and-63 x = omega (
  arith,
  bit_and_step x 63,
  bit_and_step (x / 2) 31,
  bit_and_step (x / 2 / 2) 15,
  bit_and_step (x / 2 / 2 / 2) 7,
  bit_and_step (x / 2 / 2 / 2 / 2) 3,
  bit_and_step (x / 2 / 2 / 2 / 2 / 2) 1,
  no_bits-bit_and (x / 2 / 2 / 2 / 2 / 2 / 2) (x / 2 / 2 / 2 / 2 / 2 / 2) (omega arith),
)

-- `|` keeps every bit of both sides.
bit_or-ge_fuel : (n a b : ℕ) → a + b ≤ n → (a ≤ bit_or a b) × (b ≤ bit_or a b)
bit_or-ge_fuel zero a b h =
    let ea : a ≡ 0 = omega arith in let eb : b ≡ 0 = omega arith in rw (ea, eb) (omega arith)
bit_or-ge_fuel (suc n) a b h =
    omega (arith, bit_or-ge_fuel n (a / 2) (b / 2) (omega arith), bit_or_step a b)

pub bit_or-ge : (a b : ℕ) → (a ≤ bit_or a b) × (b ≤ bit_or a b)
bit_or-ge a b = bit_or-ge_fuel (a + b) a b (le_refl _)

bit_or-lt_double :
    (n : ℕ)
    → ((a b : ℕ) → a < n → b < n → bit_or a b < n)
    → (a b : ℕ) → a < n + n
    → b < n + n
    → bit_or a b < n + n
bit_or-lt_double n h a b p q =
    omega (arith, bit_or_step a b, h (a / 2) (b / 2) (omega arith) (omega arith))

bit_or-lt_1 : (a b : ℕ) → a < 1 → b < 1 → bit_or a b < 1
bit_or-lt_1 zero b p q = omega (arith, zero-bit_or b)
bit_or-lt_1 (suc a) b p q = absurd (omega arith)

pub bit_or-lt_128 : (a b : ℕ) → a < 128 → b < 128 → bit_or a b < 128
bit_or-lt_128 = bit_or-lt_double 64 (
    bit_or-lt_double 32 (
      bit_or-lt_double 16 (
        bit_or-lt_double 8
          (bit_or-lt_double 4 (bit_or-lt_double 2 (bit_or-lt_double 1 bit_or-lt_1))))))

pub bit_or-lt : (a b : ℕ) → a < 256 → b < 256 → bit_or a b < 256
bit_or-lt = bit_or-lt_double 128 bit_or-lt_128
