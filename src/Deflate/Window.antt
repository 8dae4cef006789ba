-- ===== src/Deflate/Window.antt =====
-- deflate/window.go. A slice is its content and its capacity. `append` beyond the capacity takes a
-- new one, which Go's runtime chooses: `grow`, of the old capacity and the length that is needed.
pub mod History
pub mod Capacity
use ews.Common.{
  ℕ, ◌+◌, ◌-◌, ◌*◌, ◌%◌, ◌^◌, ◌≡◌, Bool, true, false, ◌&&◌, Option, none, some, List, [], ◌++◌, ltb,
  leb, ◌==◌, if◌then◌else◌, length, drop, take,
}

-- `buf` and `cap` are the slice `buf`; `gen` wraps around at 2^64.
pub record Window : Type 0 where
  pub bits : ℕ
  pub buf : List ℕ
  pub cap : ℕ
  pub gen : ℕ

abbrev pub window_size : ℕ
window_size = 32768

-- `Size`. A `Bits` below zero counts as one out of range does.
unfoldable pub size : Window → ℕ
size w = if leb 8 w.bits && leb w.bits 15 then 2 ^ w.bits else window_size

-- `dict`, of a window that is not nil.
unfoldable pub dict : Window → List ℕ
dict w = if ltb (size w) (length w.buf) then drop (length w.buf - size w) w.buf else w.buf

bump : Window → Window
bump w = record w { gen = (w.gen + 1) % 2 ^ 64 }

-- `Reset`
unfoldable pub reset : Window → Window
unfolding bump
reset w = bump (record w { buf = [] })

module _ (grow : ℕ → ℕ → ℕ) where
  -- `w.buf = append(w.buf, p...)`
  unfoldable pub append : List ℕ → Window → Window
  append p w =
      let n = length w.buf + length p in
      record w { buf = w.buf ++ p; cap = if ltb w.cap n then grow w.cap n else w.cap }

  -- `append(make([]byte, 0, 2*size), w.dict()...)`
  unfoldable pub enlarge : Window → Window
  enlarge w =
      if ltb w.cap (2 * size w)
      then append (dict w) (record w { buf = []; cap = 2 * size w })
      else w

  -- The compaction, before `p` is appended.
  unfoldable pub compact : List ℕ → Window → Window
  compact p w =
      if ltb w.cap (length w.buf + length p)
      then record w { buf = drop (length w.buf - (size w - length p)) w.buf }
      else w

  -- `remember`
  unfoldable pub remember : List ℕ → Window → Window
  unfolding bump
  remember p w =
      if length p == 0
      then w
      else (let w' = bump w in
          let n = size w in
          if leb n (length p)
          then append (drop (length p - n) p) (record w' { buf = [] })
          else append p (compact p (enlarge w')))

  -- `Add`
  unfoldable pub add : List ℕ → Window → Window
  add payload w = remember payload w
