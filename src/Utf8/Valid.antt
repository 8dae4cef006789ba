-- ===== src/Utf8/Valid.antt =====
-- `Valid` (internal/utf8/valid_swar.go) against the scalar values.
use ews.Common.{
  ℕ, zero, suc, ◌-◌, ◌%◌, ◌≡◌, ◌↔◌, refl, sym, ap, ◌∙◌, true, ◌&&◌, List, arith, bit_and, ltb, leb,
  ◌==◌, ==_iff, length, take, drop, All-take, All-drop, take-append-drop, Bool-cases, inl, inr,
  leb→le, drop-all,
}
use ews.Common.Words.{IsBytes}
use ews.Common.Bits.{bit_and-63}
use ews.Utf8.{high, word_at, accept, reject, advance, valid_tail, valid_words, valid}
use ews.Utf8.Machine.{run, run-append, run-reject, IsState, advance-run, run-IsState}
use ews.Utf8.Outcome.{std_valid-run, IsUtf8, run-accept_iff}
use ews.Utf8.Prefix.{ascii_run, ascii_prefix-eq-ascii_run, run-ascii_run, word-skip}

valid_tail-run :
    (state : ℕ) (s : List ℕ)
    → IsBytes s
    → IsState (state % 64)
    → valid_tail state s ≡ (run (state % 64) s == accept)
unfolding valid_tail
valid_tail-run state s h st = rw (bit_and-63 (advance state s), advance-run state s h st) refl

run-take-drop : (n state : ℕ) (s : List ℕ) → run (run state (take n s)) (drop n s) ≡ run state s
run-take-drop n state s =
    sym (run-append state (take n s) (drop n s)) ∙ ap (run state) (take-append-drop n s)

valid_words-run :
    (f state : ℕ) (s : List ℕ)
    → IsBytes s
    → IsState (state % 64)
    → valid_words f state s ≡ (run (state % 64) s == accept)
unfolding valid_words
valid_words-run zero state s h st = valid_tail-run state s h st
valid_words-run (suc f) state s h st = elim (Bool-cases (leb 8 (length s))) [
  | inr e ↦ rw (e, valid_words) (valid_tail-run state s h st)
  | inl e ↦ elim (Bool-cases (bit_and state 63 == accept && bit_and (word_at 0 s) high == 0)) [
    | inl e' ↦
        let start : state % 64 ≡ accept =
          omega (arith, (==_iff (bit_and state 63) accept).0 (ground arith), bit_and-63 state) in
        rw (e, e', valid_words)
          (valid_words-run f state (drop 8 s) (All-drop _ 8 s h) st
            ∙ rw start (
                ap (λ t. t == accept) (sym (word-skip s h (leb→le 8 (length s) e) (ground arith)))))
    | inr e' ↦
        let state' : ℕ = advance state (take 8 s) in
        let here : advance state (take 8 s) % 64 ≡ run (state % 64) (take 8 s) =
          advance-run state (take 8 s) (All-take _ 8 s h) st in
        let st' : IsState (advance state (take 8 s) % 64) =
          rw here (run-IsState (state % 64) (take 8 s) st) in
        let whole : run (advance state (take 8 s) % 64) (drop 8 s) ≡ run (state % 64) s =
          ap (λ t. run t (drop 8 s)) here ∙ run-take-drop 8 (state % 64) s in
        elim (Bool-cases (bit_and (advance state (take 8 s)) 63 == reject)) [
          | inl r ↦
              let stuck : advance state (take 8 s) % 64 ≡ reject =
                sym (bit_and-63 (advance state (take 8 s))) ∙ (==_iff _ reject).0 r in
              rw (e, e', r, valid_words, sym whole, stuck, run-reject (drop 8 s)) refl
          | inr r ↦
              rw (e, e', r, valid_words)
                (valid_words-run f (advance state (take 8 s)) (drop 8 s) (All-drop _ 8 s h) st'
                  ∙ ap (λ t. t == accept) whole)
        ]
  ]
]

valid-run : (src : List ℕ) → IsBytes src → valid src ≡ (run accept src == accept)
unfolding valid
valid-run src h =
    let n : ℕ = ascii_run src in
    let e = ascii_prefix-eq-ascii_run src h in
    let skip = run-ascii_run src in
    elim (Bool-cases (ascii_run src == length src)) [
      | inl all ↦
          rw (e, all, skip, drop-all (ascii_run src) src (ground arith)) (unfold run in refl)
      | inr some_left ↦ elim (Bool-cases (ltb (length src - ascii_run src) 16)) [
        | inl short ↦ rw (e, some_left, short, skip) (std_valid-run (drop (ascii_run src) src))
        | inr long ↦
            rw (e, some_left, long, skip)
              (valid_words-run (length src) 0 (drop (ascii_run src) src)
                (All-drop _ (ascii_run src) src h) (omega arith))
      ]
    ]

-- On bytes `Valid` is true exactly when the input is the UTF-8 encoding of a sequence of Unicode
-- scalar values (RFC 3629): whichever of its three ways the input takes, and both directions.
pub valid_iff : (src : List ℕ) → IsBytes src → (valid src ≡ true) ↔ IsUtf8 src
valid_iff src h =
    let (to, from) = run-accept_iff src in
    let e = valid-run src h in
    (
      λ v. to ((==_iff (run accept src) accept).0 (sym e ∙ v)),
      λ u. e ∙ (==_iff (run accept src) accept).1 (from u),
    )
