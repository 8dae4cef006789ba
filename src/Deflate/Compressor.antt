-- ===== src/Deflate/Compressor.antt =====
-- deflate/compressor.go. A window is a pointer: its number in a store of windows, `none` for nil. The
-- encoder of the flate package is a parameter.
pub mod History
pub mod Stream
mod Tests
use ews.Common.{
  ℕ, ◌-◌, Bool, true, false, not, ◌&&◌, ◌||◌, Option, none, some, List, [], ◌∷◌, ◌++◌, ltb, ◌==◌,
  if◌then◌else◌, length, take, drop,
}
use ews.Deflate.Window.{Window, dict, remember}

-- `flate.Writer` on a buffer: `ResetDict`, and `Write` and `Flush` with what they append to the output
-- and whether they return an error.
pub record FlateWriter : Type 1 where
  pub State : Type 0
  pub reset_dict : List ℕ → State → State
  pub write : List ℕ → State → State × List ℕ × Bool
  pub flush : State → State × List ℕ × Bool

-- `Compressor`; `window` is the field of that name.
pub record Compressor (S : Type 0) : Type 0 where
  pub writer : S
  pub output : List ℕ
  pub window : ℕ
  pub attached : Option ℕ
  pub gen : ℕ
  pub mid : Bool

pub data Compressed : Type 0 where
  bytes : List ℕ → Compressed
  error : Compressed
  panics : Compressed

-- The windows, by their number.
abbrev pub Store : Type 0
Store = ℕ → Window

abbrev pub store : ℕ → Window → Store → Store
store i w ws = λ j. if j == i then w else ws j

-- `w != c.attached || w.gen != c.gen` for a window that is not nil.
unfoldable pub is_stale : {S : Type 0} → ℕ → Store → Compressor S → Bool
is_stale i ws c = elim c.attached [
  | none ↦ true
  | some j ↦ not (i == j) || not ((ws i).gen == c.gen)
]

-- The dictionary to prime with: as much as the encoder can reach.
unfoldable pub reachable : ℕ → List ℕ → List ℕ
reachable window d = if ltb window (length d) then drop (length d - window) d else d

-- `output[:len(output)-4]` of a final chunk.
unfoldable pub strip_tail : Bool → List ℕ → Compressed
strip_tail final out =
    if not final
    then bytes out
    else if ltb (length out) 4
    then panics
    else bytes (take (length out - 4) out)

module _ (F : FlateWriter) where
  -- The first half of `CompressChunk`.
  unfoldable pub prime : Option ℕ → Store → Compressor F.State → Compressor F.State
  prime none ws c =
      let c' = record c { output = [] } in
      if c.mid then c' else record c' { writer = F.reset_dict [] c.writer }
  prime (some i) ws c =
      let c' = record c { output = [] } in
      if not c.mid && is_stale i ws c
      then record c' { writer = F.reset_dict (reachable c.window (dict (ws i))) c.writer }
      else c'

  -- `c.attached, c.mid = nil, false`
  abbrev pub detach : Compressor F.State → Compressor F.State
  detach c = record c { attached = none; mid = false }

  -- `Reset`
  unfoldable pub reset : Compressor F.State → Compressor F.State
  reset c = record c {
    output = [];
    writer = F.reset_dict [] c.writer;
    attached = none;
    mid = false;
  }

  module _ (grow : ℕ → ℕ → ℕ) where
    -- What the window is after a message, and `gen` with it.
    abbrev pub remembered : Option ℕ → List ℕ → Store → Store
    remembered none p ws = ws
    remembered (some i) p ws = store i (remember grow p (ws i)) ws

    abbrev pub gen_of : Option ℕ → Store → ℕ → ℕ
    gen_of none ws gen = gen
    gen_of (some i) ws gen = (ws i).gen

    -- The second half of `CompressChunk`, after a `Write` and a `Flush` without an error.
    unfoldable pub finish_chunk :
        List ℕ
        → Option ℕ
        → Bool
        → Store
        → Compressor F.State
        → (Compressor F.State × Store) × Compressed
    finish_chunk payload w final ws c =
        let ws' = remembered w payload ws in
        (
          (record c { attached = w; mid = not final; gen = gen_of w ws' c.gen }, ws'),
          strip_tail final c.output,
        )

    -- `Write` and `Flush`.
    unfoldable pub encode_chunk :
        List ℕ
        → Option ℕ
        → Bool
        → Store
        → Compressor F.State
        → (Compressor F.State × Store) × Compressed
    encode_chunk payload w final ws c =
        let (s, out, failed) = F.write payload c.writer in
        let c₁ : Compressor F.State = record c { writer = s; output = c.output ++ out } in
        if failed
        then ((detach c₁, ws), error)
        else (let (s', out', failed') = F.flush s in
            let c₂ : Compressor F.State = record c₁ { writer = s'; output = c₁.output ++ out' } in
            if failed' then ((detach c₂, ws), error) else finish_chunk payload w final ws c₂)

    -- `CompressChunk`
    unfoldable pub compress_chunk :
        List ℕ
        → Option ℕ
        → Bool
        → Store
        → Compressor F.State
        → (Compressor F.State × Store) × Compressed
    compress_chunk payload w final ws c = encode_chunk payload w final ws (prime w ws c)

    -- `Compress`
    unfoldable pub compress :
        List ℕ → Option ℕ → Store → Compressor F.State → (Compressor F.State × Store) × Compressed
    compress payload w ws c = compress_chunk payload w true ws c
