-- ===== src/Ws/Prepared/Tests.antt =====
-- A message prepared both ways, and its compressed frame for a configuration that was seen before.
use ews.Common.{ℕ, ◌≡◌, refl, Option, some, List, [], ◌∷◌, ◌++◌, replicate}
use ews.Common.Int.{pos}
use ews.Codec.Opcode.{text}
use ews.Ws.Prepared.{CompressKey, Prepared, prepare, prepare_append, variant_frame, compressed_for}
use ews.Ws.Prepared.Equal.{IsCached, prepare_append-prepare, compressed_for-IsCached}

abbrev appending : List ℕ → Option (List ℕ)
appending dst = some (dst ++ 72 ∷ 105 ∷ [])

prepare_append-prepare_example : prepare_append text appending ≡ prepare text (72 ∷ 105 ∷ [])
prepare_append-prepare_example =
    prepare_append-prepare text appending (replicate 14 0) (72 ∷ 105 ∷ []) refl refl

abbrev copying : CompressKey → List ℕ → Option (List ℕ)
copying key payload = some payload

abbrev key : CompressKey
key = record { level = pos 6; bits = 15 }

abbrev fresh : Prepared
fresh = record { op = text; frame = 129 ∷ 1 ∷ 72 ∷ []; payload = 72 ∷ []; variants = [] }

abbrev greeting : Prepared
greeting = record fresh {
  variants = record { key = key; frame = variant_frame copying key fresh } ∷ [];
}

greeting-IsCached : IsCached copying greeting
unfolding variant_frame
greeting-IsCached = (refl, tt)

compressed_for-IsCached_example :
    let r = compressed_for copying key greeting in
    (r.1 ≡ variant_frame copying key greeting)
    × IsCached copying r.0
    × (r.0.frame ≡ greeting.frame)
    × (r.0.payload ≡ greeting.payload)
compressed_for-IsCached_example = compressed_for-IsCached copying key greeting greeting-IsCached
