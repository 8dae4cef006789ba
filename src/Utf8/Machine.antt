-- ===== src/Utf8/Machine.antt =====
-- The packed table and the automaton, one byte at a time.
use ews.Common.{
  ℕ, ◌*◌, ◌/◌, ◌%◌, ◌^◌, ◌<◌, ◌≡◌, refl, ap, ◌∙◌, Bool, true, List, [], ◌∷◌, ◌++◌, arith, bit_and,
  ◌==◌, ==_iff, all_below, all_below_sound,
}
use ews.Common.Words.{IsBytes}
use ews.Common.Bits.{bit_and-63}
use ews.Utf8.{reject, dfa, transition, from_accept, advance}

-- The automaton on a byte sequence.
unfoldable pub run : ℕ → List ℕ → ℕ
run state [] = state
run state (b ∷ s) = run (transition state b) s

abbrev pub IsState : ℕ → Type 0
IsState s = (s % 6 ≡ 0) × (s < 54)

pub transition-IsState : (s b : ℕ) → IsState (transition s b)
unfolding transition from_accept
transition-IsState s b = ground arith

pub run-append : (s : ℕ) (xs ys : List ℕ) → run s (xs ++ ys) ≡ run (run s xs) ys
unfolding run
run-append s [] ys = refl
run-append s (x ∷ xs) ys = run-append (transition s x) xs ys

pub run-reject : (s : List ℕ) → run reject s ≡ reject
unfolding run transition
run-reject [] = refl
run-reject (b ∷ s) = run-reject s

-- Every entry of the table, checked by evaluation.
row_agrees : ℕ → ℕ → Bool
row_agrees b k = dfa b / 2 ^ (6 * k) % 64 == transition (6 * k) b

table_agrees : all_below 256 (λ b. all_below 9 (row_agrees b)) ≡ true
unfolding all_below row_agrees dfa transition from_accept
table_agrees = refl

row_sound : (b k : ℕ) → b < 256 → k < 9 → dfa b / 2 ^ (6 * k) % 64 ≡ transition (6 * k) b
row_sound b k hb hk =
    let row : row_agrees b k ≡ true =
      all_below_sound 9 (row_agrees b) k
        (all_below_sound 256 (λ b. all_below 9 (row_agrees b)) b table_agrees hb) hk in
    (==_iff _ _).0 (unfold row_agrees in row)

-- The shift by a state leaves the next state in the low six bits.
dfa-transition : (b s : ℕ) → b < 256 → IsState s → dfa b / 2 ^ s % 64 ≡ transition s b
dfa-transition b s small st =
    let e : 6 * (s / 6) ≡ s = omega arith in rw e at (row_sound b (s / 6) small (omega arith))

-- What the loop over the bytes computes, in the low six bits of its state.
pub advance-run :
    (state : ℕ) (s : List ℕ)
    → IsBytes s
    → IsState (state % 64)
    → (advance state s % 64 ≡ run (state % 64) s)
unfolding advance run
advance-run state [] h st = refl
advance-run state (b ∷ s) h st =
    let step : dfa b / 2 ^ bit_and state 63 % 64 ≡ transition (state % 64) b =
      rw (bit_and-63 state) (dfa-transition b (state % 64) h.0 st) in
    advance-run (dfa b / 2 ^ bit_and state 63) s h.1 (rw step (transition-IsState (state % 64) b))
    ∙ ap (λ t. run t s) step

pub run-IsState : (state : ℕ) (s : List ℕ) → IsState state → IsState (run state s)
unfolding run
run-IsState state [] h = h
run-IsState state (b ∷ s) h = run-IsState (transition state b) s (transition-IsState state b)
