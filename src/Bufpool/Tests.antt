-- ===== src/Bufpool/Tests.antt =====
-- A buffer of 2000 bytes is taken, given back and taken again.
use ews.Common.{refl, ◌≤◌, ◌^◌, ◌≡◌, none, some, List, [], ◌∷◌, arith}
use ews.Bufpool.{Buffer, Classes, class, get, bit_len}
use ews.Bufpool.Pools.{AreSorted, get_lem, Use, takes, gives, use_pools, use_pools-AreSorted}

abbrev empty : Classes
empty = λ c. []

abbrev buffer : Buffer
buffer = record { bytes = 1 ∷ 2 ∷ []; cap = 2048 }

abbrev uses : List Use
uses = takes 2000 none ∷ gives (some buffer) ∷ gives none ∷ takes 1500 (some 0) ∷ []

empty-AreSorted : AreSorted empty
empty-AreSorted c = tt

get_lem_example :
    (pools' : Classes) × (b : Buffer) × (get 2000 none empty ≡ some (pools', b))
    × (b.bytes ≡ [])
    × (2000 ≤ b.cap)
    × (2000 ≤ 2 ^ 26 → b.cap ≡ 2 ^ class 2000)
    × AreSorted pools'
get_lem_example = get_lem 2000 none empty (omega arith) empty-AreSorted

use_pools-AreSorted_example :
    (pools' : Classes) × (use_pools uses empty ≡ some pools') × AreSorted pools'
use_pools-AreSorted_example =
    use_pools-AreSorted uses empty (omega arith, (tt, (tt, (omega arith, tt)))) empty-AreSorted

-- A `Get` of zero bytes has no class.
zero_has_no_class : get 0 none empty ≡ none
unfolding get class bit_len
zero_has_no_class = refl
