-- ===== src/Deflate/Tests.antt =====
-- Runs of the window on concrete payloads.
use ews.Common.{ℕ, ◌*◌, ◌≤◌, ◌≡◌, max, List, [], ◌∷◌, ◌++◌, arith, length}
use ews.Deflate.Window.{Window, size, dict, remember}
use ews.Deflate.Window.Capacity.{remember-cap}
use ews.Deflate.Window.History.{last, joined, add_all, dict-add_all}

-- Doubling, as an example of the runtime's choice.
abbrev double : ℕ → ℕ → ℕ
double cap n = max (2 * cap) n

abbrev small : Window
small = record { bits = 8; buf = 1 ∷ 2 ∷ []; cap = 512; gen = 0 }

abbrev hello : List ℕ
hello = 72 ∷ 101 ∷ 108 ∷ 108 ∷ 111 ∷ []

dict-add_all_example :
    dict (add_all double (hello ∷ hello ∷ []) small)
    ≡ last (size small) (dict small ++ joined (hello ∷ hello ∷ []))
dict-add_all_example = dict-add_all double (hello ∷ hello ∷ []) small

large_enough : 2 * size small ≤ 512
unfolding size
large_enough = omega arith

remember-cap_example :
    ((remember double hello small).cap ≡ 512) × (length (remember double hello small).buf ≤ 512)
remember-cap_example = remember-cap double hello small large_enough (omega arith)
