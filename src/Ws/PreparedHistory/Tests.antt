-- ===== src/Ws/PreparedHistory/Tests.antt =====
-- Two prepared payloads and one of the connection's own, on a window of 256 bytes.
use ews.Common.{ℕ, ◌*◌, ◌≡◌, refl, max, some, List, [], ◌∷◌, ◌++◌, arith, map}
use ews.Deflate.Window.{size}
use ews.Deflate.Window.History.{last, joined}
use ews.Ws.PreparedHistory.{SendHistory}
use ews.Ws.PreparedHistory.Lazy.{
  IsValid, seen, Sent, prepared, own, content, send_all, send_all_lem,
}

abbrev double : ℕ → ℕ → ℕ
double cap n = max (2 * cap) n

abbrev earlier : SendHistory
earlier = record {
  window = record { bits = 8; buf = 1 ∷ 2 ∷ []; cap = 512; gen = 0 };
  pending = (3 ∷ []) ∷ [];
  pending_bytes = 1;
}

abbrev messages : List Sent
messages = prepared (4 ∷ 5 ∷ []) ∷ own (6 ∷ []) ∷ prepared (7 ∷ 8 ∷ []) ∷ []

earlier-IsValid : IsValid earlier
unfolding joined
earlier-IsValid = record { counted = refl; fits = omega arith }

send_all_lem_example :
    (h' : SendHistory) × (send_all double messages earlier ≡ some h')
    × IsValid h'
    × (seen double h'
        ≡ last (size earlier.window) (seen double earlier ++ joined (map content messages)))
send_all_lem_example = send_all_lem double messages earlier earlier-IsValid
