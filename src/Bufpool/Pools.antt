-- ===== src/Bufpool/Pools.antt =====
-- What `Get` gives and what the pools hold, over any use.
use ews.Common.{
  ℕ, zero, suc, ◌-◌, ◌^◌, ◌≤◌, ◌≡◌, refl, sym, ap, ◌∙◌, false, not, ◌||◌, Option, none, some, List,
  [], ◌∷◌, arith, ltb, ◌==◌, ==_iff, bit_and, Bool-cases, Option-cases, subst, inl, inr, All,
}
use ews.Bufpool.{Buffer, Classes, bit_len, class, take_at, with_class, get, put}
use ews.Bufpool.Classes.{bit_len-IsLen, power_of_two, exponent_fits, class_lem}

-- A buffer of class `c`.
abbrev pub OfClass : ℕ → Buffer → Type 0
OfClass c b = b.cap ≡ 2 ^ c

abbrev pub AreSorted : Classes → Type 0
AreSorted pools = (c : ℕ) → All (OfClass c) (pools c)

with_class-AreSorted :
    (c : ℕ) (bs : List Buffer) (pools : Classes)
    → All (OfClass c) bs
    → AreSorted pools
    → AreSorted (with_class c bs pools)
with_class-AreSorted c bs pools ok sorted d = elim (Bool-cases (d == c)) [
  | inl e ↦ let z = (==_iff d c).0 e in rw e (rw z ok)
  | inr e ↦ rw e (sorted d)
]

take_at-OfClass :
    (c : ℕ) (place : Option ℕ) (bs : List Buffer)
    → All (OfClass c) bs
    → All (OfClass c) (take_at place bs).1
      × ((b : Buffer) → (take_at place bs).0 ≡ some b → OfClass c b)
unfolding take_at
take_at-OfClass c none bs ok = (ok, λ b e. absurd (ground (arith, e)))
take_at-OfClass c (some i) [] ok = (ok, λ b e. absurd (ground (arith, e)))
take_at-OfClass c (some zero) (a ∷ bs) (first, ok) =
    (ok, λ b e. ap (λ t. t.cap) (sym (some_eq a b e)) ∙ first)
  where
    some_eq : (x y : Buffer) → some x ≡ some y → x ≡ y
    some_eq x y e = ground arith
take_at-OfClass c (some (suc i)) (a ∷ bs) (first, ok) =
    let (rest, found) = take_at-OfClass c (some i) bs ok in ((first, rest), found)

-- From pools whose buffers are each of their class, a `Get` of at least one byte gives an empty buffer
-- of enough capacity, which is of the size's class up to 64 MiB, and leaves such pools.
pub get_lem :
    (n : ℕ) (place : Option ℕ) (pools : Classes)
    → 1 ≤ n
    → AreSorted pools
    → (pools' : Classes) × (b : Buffer) × (get n place pools ≡ some (pools', b))
      × (b.bytes ≡ [])
      × (n ≤ b.cap)
      × (n ≤ 2 ^ 26 → b.cap ≡ 2 ^ class n)
      × AreSorted pools'
unfolding get
get_lem n place pools one sorted = elim (Bool-cases (ltb (2 ^ 26) n)) [
  | inl e ↦ (
    pools,
    record { bytes = []; cap = n },
    rw e refl,
    refl,
    omega arith,
    λ le. absurd (ground (arith, e, le)),
    sorted,
  )
  | inr e ↦
      let (above, low, high, tight) = class_lem n one (ground (arith, e)) in
      let known : ltb 26 (class n) ≡ false = ground (arith, high) in
      let r = take_at place (pools (class n)) in
      let (rest, found) = take_at-OfClass (class n) place (pools (class n)) (sorted (class n)) in
      let sorted' = with_class-AreSorted (class n) r.1 pools rest sorted in
      elim (Option-cases r.0) [
        | inl none_left ↦ (
          with_class (class n) r.1 pools,
          record { bytes = []; cap = 2 ^ class n },
          simp (e, known, none_left, get) refl,
          refl,
          above,
          λ le. refl,
          sorted',
        )
        | inr (b, one_left) ↦ (
          with_class (class n) r.1 pools,
          record b { bytes = [] },
          simp (e, known, one_left, get) refl,
          refl,
          subst (λ k. n ≤ k) (sym (found b one_left)) above,
          λ le. found b one_left,
          sorted',
        )
      ]
]

-- A buffer goes to the class of its capacity, which the array has.
put-AreSorted :
    (b : Buffer) (pools : Classes)
    → AreSorted pools
    → (pools' : Classes) × (put (some b) pools ≡ some pools') × AreSorted pools'
unfolding put
put-AreSorted b pools sorted =
    elim (Bool-cases
      (ltb b.cap (2 ^ 10) || (ltb (2 ^ 26) b.cap || not (bit_and b.cap (b.cap - 1) == 0)))) [
        | inl e ↦ (pools, rw e refl, sorted)
        | inr e ↦
            let low : 2 ^ 10 ≤ b.cap = ground (arith, e) in
            let high : b.cap ≤ 2 ^ 26 = ground (arith, e) in
            let power : bit_and b.cap (b.cap - 1) ≡ 0 = (==_iff _ 0).0 (ground (arith, e)) in
            let (k, same, above, below) = bit_len-IsLen 64 b.cap (omega arith) (omega arith) in
            let place : bit_len 64 b.cap - 1 ≡ k = omega arith in
            let same_cap : b.cap ≡ 2 ^ k = power_of_two k b.cap above below power in
            let some_bits : (bit_len 64 b.cap == 0) ≡ false = ground (arith, same) in
            let known : ltb 26 (bit_len 64 b.cap - 1) ≡ false =
              ground (arith, place, exponent_fits k b.cap above high) in
            (
              with_class k (record b { bytes = [] } ∷ pools k) pools,
              rw (e, some_bits, known, place) refl,
              with_class-AreSorted k (record b { bytes = [] } ∷ pools k) pools (same_cap, sorted k)
                  sorted,
            )
      ]

-- A use of the pools: one buffer is taken, or one is given back.
pub data Use : Type 0 where
  takes : ℕ → Option ℕ → Use
  gives : Option Buffer → Use

unfoldable pub use_pools : List Use → Classes → Option Classes
use_pools [] pools = some pools
use_pools (takes n place ∷ us) pools = elim (get n place pools) [
  | none ↦ none
  | some (pools', b) ↦ use_pools us pools'
]
use_pools (gives b ∷ us) pools = elim (put b pools) [
  | none ↦ none
  | some pools' ↦ use_pools us pools'
]

abbrev pub TakesSome : Use → Type 0
TakesSome (takes n place) = 1 ≤ n
TakesSome (gives b) = Unit {0}

-- However the pools are used from such a state, with no `Get` of zero bytes, no index of `Get` or `Put`
-- is out of range, and each class goes on holding only buffers of its capacity.
pub use_pools-AreSorted :
    (us : List Use) (pools : Classes)
    → All TakesSome us
    → AreSorted pools
    → (pools' : Classes) × (use_pools us pools ≡ some pools') × AreSorted pools'
unfolding use_pools put
use_pools-AreSorted [] pools ok sorted = (pools, refl, sorted)
use_pools-AreSorted (takes n place ∷ us) pools (one, ok) sorted =
    let (pools₁, b, got, empty, fits, cap, sorted₁) = get_lem n place pools one sorted in
    let (pools', used, sorted') = use_pools-AreSorted us pools₁ ok sorted₁ in
    (pools', rw (got, use_pools) used, sorted')
use_pools-AreSorted (gives none ∷ us) pools (one, ok) sorted =
    use_pools-AreSorted us pools ok sorted
use_pools-AreSorted (gives (some b) ∷ us) pools (one, ok) sorted =
    let (pools₁, given, sorted₁) = put-AreSorted b pools sorted in
    let (pools', used, sorted') = use_pools-AreSorted us pools₁ ok sorted₁ in
    (pools', rw (given, use_pools) used, sorted')
