-- ===== src/Ws/Close.antt =====
-- ws/close.go
use ews.Common.{
  ℕ, Bool, true, not, ◌&&◌, ◌||◌, Option, none, some, List, [], ltb, leb, ◌==◌, if◌then◌else◌,
  length, take, drop,
}
use ews.Common.Words.{be_word}
use ews.Utf8.Standard.{std_valid}
use ews.Ws.Errors.{Cause, protocol, invalid_utf8}

abbrev pub no_status : ℕ
no_status = 1005

unfoldable pub valid_close_code : ℕ → Bool
valid_close_code code =
    if (leb 1000 code && leb code 1003) || (leb 1007 code && leb code 1014)
    then true
    else leb 3000 code && leb code 4999

-- `none` is the nil error. `binary.BigEndian.Uint16(payload)` reads the first two bytes.
unfoldable pub validate_close : List ℕ → Option Cause
unfolding valid_close_code
validate_close payload =
    if length payload == 0
    then none
    else if ltb (length payload) 2
        || (ltb 125 (length payload) || not (valid_close_code (be_word (take 2 payload))))
    then some protocol
    else if not (std_valid (drop 2 payload))
    then some invalid_utf8
    else none

unfoldable pub parse_close : List ℕ → ℕ × List ℕ
parse_close payload =
    if ltb (length payload) 2 then (no_status, []) else (be_word (take 2 payload), drop 2 payload)
