-- ===== src/Handshake/Extension.antt =====
-- handshake/extension.go
pub mod Format
use ews.Common.{
  ℕ, ◌<◌, ◌≡◌, Bool, true, false, not, ◌&&◌, ◌||◌, Option, none, some, List, [], ◌∷◌, ◌++◌, ◌==◌,
  if◌then◌else◌, length, ltb,
}
use ews.Common.Int.{ℤ, pos, negsuc, ltb_ℤ}
use ews.Common.Text.{Text, codes, split, cut, trim_space, trim_byte, to_lower, same, atoi, itoa}
use ews.Handshake.Types.{HandshakeError, Compression}

abbrev pub deflate_name : Text
deflate_name = codes "permessage-deflate"

pub record Param : Type 0 where
  pub name : Text
  pub value : Text

pub record Extension : Type 0 where
  pub name : Text
  pub params : List Param

abbrev pub is_empty : Text → Bool
is_empty [] = true
is_empty (c ∷ s) = false

-- One parameter; `none` is `ErrBadExtension`, here and below.
unfoldable pub parse_param : Text → Option Param
parse_param p =
    let (before, after) = cut 61 (trim_space p) in
    let name = trim_space before in
    if is_empty name
    then none
    else some (record { name = name; value = trim_byte 34 (trim_space after) })

unfoldable pub parse_params : List Text → Option (List Param)
parse_params [] = some []
parse_params (p ∷ ps) = elim (parse_param p) [
  | none ↦ none
  | some kv ↦ elim (parse_params ps) [ none ↦ none | some kvs ↦ some (kv ∷ kvs) ]
]

-- One offer that is not blank. `strings.Split` gives one part at least.
unfoldable pub parse_parts : List Text → Option Extension
parse_parts [] = none
parse_parts (first ∷ rest) =
    let name = trim_space first in
    if is_empty name then none else elim (parse_params rest) [
      | none ↦ none
      | some params ↦ some (record { name = name; params = params })
    ]

unfoldable pub parse_offers : List Text → Option (List Extension)
parse_offers [] = some []
parse_offers (o ∷ os) =
    let offer = trim_space o in
    let rest = parse_offers os in
    if is_empty offer then rest else elim (parse_parts (split 59 offer)) [
      | none ↦ none
      | some e ↦ elim rest [ none ↦ none | some es ↦ some (e ∷ es) ]
    ]

-- `parseExtensions`
unfoldable pub parse_extensions : Text → Option (List Extension)
unfolding parse_offers parse_parts parse_params parse_param
parse_extensions header = parse_offers (split 44 header)

-- `deflateParams`
pub record DeflateParams : Type 0 where
  pub server_no_context_takeover : Bool
  pub client_no_context_takeover : Bool
  pub server_max_window_bits : ℕ
  pub client_max_window_bits : ℕ

-- `windowBits`; `none` is `false`.
unfoldable pub window_bits : Text → Option ℕ
window_bits [] = some 0
window_bits (c ∷ s) = elim (atoi (c ∷ s)) [
  | none ↦ none
  | some (negsuc n) ↦ none
  | some (pos n) ↦ if ltb n 8 || ltb 15 n then none else some n
]

-- The switch of `parseDeflate` on a name in lower case; `none` is `ok` false.
unfoldable pub deflate_param : Text → Text → DeflateParams → Option DeflateParams
unfolding window_bits
deflate_param name value p =
    if same name (codes "server_no_context_takeover")
    then (if is_empty value then some (record p { server_no_context_takeover = true }) else none)
    else if same name (codes "client_no_context_takeover")
    then (if is_empty value then some (record p { client_no_context_takeover = true }) else none)
    else if same name (codes "server_max_window_bits")
    then elim (window_bits value) [
      | none ↦ none
      | some bits ↦ if bits == 0 then none else some (record p { server_max_window_bits = bits })
    ]
    else if same name (codes "client_max_window_bits")
    then elim (window_bits value) [
      | none ↦ none
      | some bits ↦ some (record p { client_max_window_bits = if bits == 0 then 15 else bits })
    ]
    else none

-- A key of the map `seen`.
unfoldable pub is_seen : Text → List Text → Bool
is_seen name [] = false
is_seen name (s ∷ seen) = if same s name then true else is_seen name seen

-- The loop of `parseDeflate`.
unfoldable pub parse_deflate_from : List Text → List Param → DeflateParams → Option DeflateParams
parse_deflate_from seen [] p = some p
parse_deflate_from seen (kv ∷ kvs) p =
    let name = to_lower kv.name in
    if is_seen name seen then none else elim (deflate_param name kv.value p) [
      | none ↦ none
      | some p' ↦ parse_deflate_from (name ∷ seen) kvs p'
    ]

abbrev pub no_params : DeflateParams
no_params = record {
  server_no_context_takeover = false;
  client_no_context_takeover = false;
  server_max_window_bits = 0;
  client_max_window_bits = 0;
}

-- `parseDeflate`
unfoldable pub parse_deflate : Extension → Option DeflateParams
unfolding parse_deflate_from deflate_param is_seen
parse_deflate e = parse_deflate_from [] e.params no_params

-- `formatDeflate`
unfoldable pub format_deflate : Compression → Text
format_deflate c =
    deflate_name
    ++ ((if not c.send_context_takeover then codes "; server_no_context_takeover" else [])
        ++ ((if not c.receive_context_takeover then codes "; client_no_context_takeover" else [])
            ++ (if not (c.send_window_bits == 0) && not (c.send_window_bits == 15)
                then codes "; server_max_window_bits=" ++ itoa c.send_window_bits
                else [])))
