-- ===== src/Ws/Config.antt =====
-- ws/conn.go's check of the negotiated parameters, and ws/conn_compress.go's choice of a pool by them.
pub mod Windows
pub mod Agreed
use ews.Common.{
  ℕ, zero, suc, ◌+◌, ◌-◌, Bool, true, false, not, ◌&&◌, ◌||◌, Option, none, some, ltb, leb, ◌==◌,
  if◌then◌else◌,
}
use ews.Common.Int.{ℤ, pos, negsuc, ltb_ℤ}
use ews.Handshake.Types.{Compression}

-- `validBits`
unfoldable pub valid_bits : ℕ → Bool
valid_bits b = b == 0 || (leb 8 b && leb b 15)

-- The check of `NewConn` on `cfg.Compression`.
unfoldable pub valid_compression : Option Compression → Bool
unfolding valid_bits
valid_compression none = true
valid_compression (some c) = not (
    ltb_ℤ c.level (negsuc 1)
    || (ltb_ℤ (pos 9) c.level
        || (ltb_ℤ c.min_size (pos 0)
            || (not (valid_bits c.send_window_bits) || not (valid_bits c.receive_window_bits)))))

-- A place in `windowPools`, of 7, or in `compressorPools`, of 12.
pub data Pool : Type 0 where
  window_pool level_pool : ℕ → Pool

-- `level + 2` as an index; `none` if it is negative.
abbrev pub level_index : ℤ → Option ℕ
level_index (pos n) = some (n + 2)
level_index (negsuc zero) = some 1
level_index (negsuc (suc zero)) = some 0
level_index (negsuc (suc (suc n))) = none

-- `compressorPool`; `none` is the panic of an index out of range.
unfoldable pub compressor_pool : Compression → Option Pool
compressor_pool c =
    let bits = c.send_window_bits in
    if not (bits == 0) && not (bits == 15)
    then (if ltb bits 8 || not (ltb (bits - 8) 7) then none else some (window_pool (bits - 8)))
    else elim (level_index c.level) [
      | none ↦ none
      | some i ↦ if ltb i 12 then some (level_pool i) else none
    ]
