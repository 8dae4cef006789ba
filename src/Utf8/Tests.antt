-- ===== src/Utf8/Tests.antt =====
-- Runs of the UTF-8 checks on concrete input.
use ews.Common.{ℕ, ◌≡◌, ◌↔◌, true, List, [], ◌∷◌, arith}
use ews.Common.Words.{IsBytes}
use ews.Utf8.{ascii_prefix, valid}
use ews.Utf8.Outcome.{IsUtf8}
use ews.Utf8.Prefix.{ascii_run, ascii_prefix-eq-ascii_run}
use ews.Utf8.Valid.{valid_iff}

-- "Grüße"
abbrev greeting : List ℕ
greeting = 71 ∷ 114 ∷ 195 ∷ 188 ∷ 195 ∷ 159 ∷ 101 ∷ []

greeting-IsBytes : IsBytes greeting
greeting-IsBytes = ground arith

valid_iff_example : (valid greeting ≡ true) ↔ IsUtf8 greeting
valid_iff_example = valid_iff greeting greeting-IsBytes

ascii_prefix-eq-ascii_run_example : ascii_prefix greeting ≡ ascii_run greeting
ascii_prefix-eq-ascii_run_example = ascii_prefix-eq-ascii_run greeting greeting-IsBytes
