-- ===== src/Ws/PreparedHistory.antt =====
-- ws/conn_compress.go: the prepared payloads that a connection has sent compressed and not yet
-- copied into its send window. A `Prepared` stands for its payload; the array of eight slots and
-- `npending` are the list of the slots in use.
pub mod Lazy
mod Tests
use ews.Common.{
  ℕ, ◌+◌, ◌-◌, ◌≤◌, ◌≡◌, Bool, true, false, Option, none, some, List, [], ◌∷◌, ◌++◌, leb, ltb, ◌==◌,
  if◌then◌else◌, length,
}
use ews.Deflate.Window.{Window, size, add, remember}

abbrev pub pending_history : ℕ
pending_history = 8

pub record SendHistory : Type 0 where
  pub window : Window
  pub pending : List (List ℕ)
  pub pending_bytes : ℕ

-- `dropPending`
unfoldable pub drop_pending : SendHistory → SendHistory
drop_pending h = record h { pending = []; pending_bytes = 0 }

-- `dropOldestPending` while the later payloads cover the window with the new one, of `n` bytes. The
-- test `pendingBytes - len + n >= size` is written without the subtraction.
unfoldable pub drop_covered : ℕ → ℕ → List (List ℕ) → ℕ → List (List ℕ) × ℕ
drop_covered n size [] bytes = ([], bytes)
drop_covered n size (q ∷ qs) bytes =
    if leb (size + length q) (bytes + n)
    then drop_covered n size qs (bytes - length q)
    else (q ∷ qs, bytes)

module _ (grow : ℕ → ℕ → ℕ) where
  -- The loop of `applyPending`.
  unfoldable pub add_pending : List (List ℕ) → Window → Window
  add_pending [] w = w
  add_pending (p ∷ ps) w = add_pending ps (add grow p w)

  -- `applyPending`
  unfoldable pub apply_pending : SendHistory → SendHistory
  unfolding drop_pending
  apply_pending h = drop_pending (record h { window = add_pending h.pending h.window })

  -- The first half of `notePrepared`, which makes room for a payload of `n` bytes.
  unfoldable pub make_room : ℕ → SendHistory → SendHistory
  unfolding drop_pending
  make_room n h =
      if leb (size h.window) n
      then drop_pending h
      else (let (pending, bytes) = drop_covered n (size h.window) h.pending h.pending_bytes in
          let h' : SendHistory = record h { pending = pending; pending_bytes = bytes } in
          if length pending == pending_history then apply_pending h' else h')

  -- `notePrepared`; `none` is the panic of a store behind the array's end.
  unfoldable pub note_prepared : List ℕ → SendHistory → Option SendHistory
  note_prepared p h =
      let h' = make_room (length p) h in
      if ltb (length h'.pending) pending_history
      then some (record h' {
        pending = h'.pending ++ p ∷ [];
        pending_bytes = h'.pending_bytes + length p;
      })
      else none

  -- What `encodeData` does to the history: `applyPending`, and `Compress` records the payload.
  unfoldable pub compress_own : List ℕ → SendHistory → SendHistory
  compress_own payload h =
      let h' = apply_pending h in record h' { window = remember grow payload h'.window }
