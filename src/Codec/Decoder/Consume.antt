-- ===== src/Codec/Decoder/Consume.antt =====
-- What the decoder consumes of its input.
use ews.Common.{
  ℕ, ◌+◌, ◌-◌, ◌≤◌, ◌≡◌, Bool, true, false, none, List, ◌++◌, arith, length, take, drop,
  take-append-drop, length-take, ◌==◌, min, get_or, take-length-append,
}
use ews.Codec.Header.{Header, bytes, payload_len}
use ews.Codec.Decoder.{Decoder, next_header_into, payload_n, header_size}

-- The result that `PayloadN` returns beside the decoder.
abbrev pub chunk_of : Decoder × List ℕ × Bool → List ℕ
chunk_of r = r.1

-- `PayloadN` takes a prefix of the input, of at most `n` bytes and within the frame; what is left
-- of the input and of the frame is the rest; and it reports completion exactly when nothing of the
-- frame is left.
pub payload_n-consumes :
    (n : ℕ) (d : Decoder)
    → let r = payload_n n d in
      (r.1 ++ r.0.pending ≡ d.pending)
      × (r.0.remaining + length r.1 ≡ d.remaining)
      × (length r.1 ≤ n)
      × (r.2 ≡ (r.0.remaining == 0))
unfolding payload_n
payload_n-consumes n d =
    let k : ℕ = min (min n (length d.pending)) d.remaining in
    ground (arith, take-append-drop k d.pending, length-take k d.pending)

pub header_size_bounds : (b : ℕ) → (2 ≤ header_size b) × (header_size b ≤ 14)
unfolding header_size
header_size_bounds b = ground arith

-- The array's first `n` bytes, and what is left of the input.
taken-append-drop :
    (n : ℕ) (p x : List ℕ) → n ≤ length p → take (n - 0) (take n p ++ x) ++ drop n p ≡ p
taken-append-drop n p x h =
    let l : n - 0 ≡ length (take n p) = omega (arith, length-take n p) in
    rw (l, take-length-append (take n p) x) (take-append-drop n p)

-- A call that gives no header leaves the decoder as it was, also when it fails.
pub next_header_into-refused :
    (d : Decoder) (h : Header) → let r = next_header_into d h in r.2 ≡ false → r.0 ≡ d
unfolding next_header_into
next_header_into-refused d h = ground arith

-- A call that gives a header takes exactly the header's bytes off the input, at most 14 of them,
-- and announces the header's payload.
pub next_header_into-accepted :
    (d : Decoder) (h : Header)
    → let r = next_header_into d h in
      r.2 ≡ true
      → (bytes r.1 ++ r.0.pending ≡ d.pending)
        × (r.1.len ≤ 14)
        × (r.0.remaining ≡ payload_len r.1)
        × (d.remaining ≡ 0)
        × (r.3 ≡ none)
unfolding next_header_into bytes
next_header_into-accepted d h =
    let n : ℕ = header_size (get_or d.pending 1 0) in
    ground (
      arith,
      header_size_bounds (get_or d.pending 1 0),
      taken-append-drop n d.pending (drop n h.raw),
    )
