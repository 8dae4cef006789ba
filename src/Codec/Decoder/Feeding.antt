-- ===== src/Codec/Decoder/Feeding.antt =====
-- `Feed`: input in several parts.
use ews.Common.{
  ℕ, zero, suc, ◌+◌, ◌≤◌, ◌<◌, ◌≡◌, ◌≢◌, ◌⊎◌, refl, true, false, none, List, [], ◌∷◌, ◌++◌, arith,
  length, get_or, append-nil, length-append, take-append_left, drop-append_left, inl, inr,
  Bool-cases, ◌==◌, ltb, suc-==-zero, le→ltb,
}
use ews.Codec.Header.{Header}
use ews.Codec.Decoder.Consume.{header_size_bounds}
use ews.Codec.Decoder.{Decoder, next_header_into, feed, header_size}

feed-pending_from :
    (x : ℕ) (b p s : List ℕ) (r : ℕ)
    → (feed (x ∷ b) (record { pending = p; scratch = s; remaining = r })).pending ≡ p ++ x ∷ b
unfolding feed
feed-pending_from x b [] s r = rw (suc-==-zero (length b))
feed-pending_from x b (y ∷ p) s r = rw (suc-==-zero (length b), suc-==-zero (length p))

-- `Feed` puts its argument behind the input that is pending, on each of its branches.
pub feed-pending : (b : List ℕ) (d : Decoder) → (feed b d).pending ≡ d.pending ++ b
feed-pending [] d = unfold feed in rw (append-nil d.pending)
feed-pending (x ∷ b) d = feed-pending_from x b d.pending d.scratch d.remaining

pub feed-remaining : (b : List ℕ) (d : Decoder) → (feed b d).remaining ≡ d.remaining
unfolding feed
feed-remaining b d = ground arith

get_or-append : (xs ys : List ℕ) (i : ℕ) → i < length xs → get_or (xs ++ ys) i 0 ≡ get_or xs i 0
get_or-append [] ys i h = absurd (omega arith)
get_or-append (x ∷ xs) ys zero h = refl
get_or-append (x ∷ xs) ys (suc i) h = get_or-append xs ys i (omega arith)

-- If the decoder finds a complete header or an error, then more input changes no header that is
-- complete, and no error: the header, the error and the payload's length are the same, and the
-- input behind the header is longer by what was fed.
pub next_header_into-feed :
    (d : Decoder) (h : Header) (b : List ℕ)
    → let r = next_header_into d h in
      let r' = next_header_into (feed b d) h in
      (r.2 ≡ true) ⊎ (r.3 ≢ none)
      → (r'.1 ≡ r.1)
        × (r'.2 ≡ r.2)
        × (r'.3 ≡ r.3)
        × (r'.0.pending ≡ r.0.pending ++ b)
        × (r'.0.remaining ≡ r.0.remaining)
unfolding next_header_into
next_header_into-feed d h b = elim (Bool-cases (d.remaining == 0)) [
  | inr e ↦ rw (feed-remaining b d, e) (ground (arith, feed-pending b d))
  | inl e ↦
      let n : ℕ = header_size (get_or d.pending 1 0) in
      let two : 2 ≤ n = (header_size_bounds (get_or d.pending 1 0)).0 in
      elim (Bool-cases (ltb (length d.pending) n)) [
        | inl short ↦ rw (e, short) (ground arith)
        | inr long ↦
            let enough : n ≤ length d.pending = ground arith in
            let total : length (d.pending ++ b) ≡ length d.pending + length b =
              length-append d.pending b in
            let over2 : ltb (length d.pending) 2 ≡ false = le→ltb _ 2 (omega arith) in
            let over2' : ltb (length (d.pending ++ b)) 2 ≡ false = le→ltb _ 2 (omega arith) in
            let long' : ltb (length (d.pending ++ b)) n ≡ false = le→ltb _ n (omega arith) in
            rw
              (
                feed-remaining b d,
                feed-pending b d,
                e,
                over2,
                over2',
                long,
                get_or-append d.pending b 1 (omega arith),
                long',
                take-append_left n d.pending b enough,
                drop-append_left n d.pending b enough,
              )
              (ground (arith, feed-pending b d))
      ]
]
