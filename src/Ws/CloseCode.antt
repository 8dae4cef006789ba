-- ===== src/Ws/CloseCode.antt =====
-- The code and the reason that a close frame carries, from ws/sender.go to ws/close.go.
use ews.Common.{
  ℕ, zero, suc, ◌<◌, ◌^◌, ◌≡◌, ◌≢◌, refl, sym, ap, subst, ◌∙◌, true, false, not, ◌&&◌, none, List,
  [], ◌++◌, arith, ◌==◌, ltb, length, if◌then◌else◌, Bool-cases, Option-cases, All-append, inl, inr,
  suc-==-zero, take, drop, length-append, take-append_left, drop-append_left, take-all, drop-all,
}
use ews.Common.Words.{IsBytes, put_be, be_word-put_be_2, put_be-IsBytes, length-put_be}
use ews.Codec.Opcode.{close, pong}
use ews.Codec.Mask.{MaskKey}
use ews.Codec.Mask.Reference.{IsKey}
use ews.Codec.Header.{zero_header}
use ews.Codec.Encoder.{header_bytes, payload_bytes}
use ews.Codec.RoundTrip.{decode-encode, unmask}
use ews.Ws.Errors.{Cause, closing, protocol}
use ews.Ws.Close.{no_status, validate_close, parse_close}
use ews.Ws.Sender.{
  Sender, Encoded, frame, error, key_for, encode_frame, encode_checked, encode, encode_close,
  check_message,
}
use ews.Ws.Interop.{encode_frame-frame, key_for-IsKeyOption}

not_error :
    (s s' : Sender) (err : Cause) (head body : List ℕ) (x : Sender × Encoded)
    → x ≡ (s, error err)
    → x ≢ (s', frame head body)
not_error s s' err head body x e eq = ground arith

encode-close :
    (random : MaskKey) (p : List ℕ) (s s' : Sender) (head body : List ℕ)
    → encode random close p s ≡ (s', frame head body)
    → (validate_close p ≡ none) × (encode_frame random close true p false s ≡ (s', frame head body))
unfolding encode encode_checked check_message
encode-close random p s s' head body eq = elim (Bool-cases (s.close_sent && not (close == pong))) [
  | inl e ↦ absurd (not_error s s' closing head body _ (rw e refl) eq)
  | inr e ↦ elim (Option-cases (validate_close p)) [
    | inr (err, bad) ↦ absurd (not_error s s' err head body _ (rw (e, bad) refl) eq)
    | inl ok ↦ (ok, sym (rw (e, ok) refl) ∙ eq)
  ]
]

-- What the frame's body is to the peer.
unmask-body :
    (random : MaskKey) (p : List ℕ) (s s' : Sender) (head body : List ℕ)
    → encode_frame random close true p false s ≡ (s', frame head body)
    → IsBytes p
    → IsKey random
    → length p < 2 ^ 63
    → unmask (key_for s.role random) body ≡ p
unmask-body random p s s' head body sent ok key_ok short =
    let (e, coded, eh, eb) = encode_frame-frame random close true p s s' head body sent in
    let (h, taken, f, o, r1, r2, r3, l, m, k, drain, size, plain) =
      decode-encode true close p (key_for s.role random) s.enc e
        (record {
          pending = header_bytes e ++ (payload_bytes e ++ []);
          scratch = [];
          remaining = 0;
        })
        zero_header [] coded ok (key_for-IsKeyOption s.role random key_ok) short refl refl in
    ap (unmask (key_for s.role random)) (sym eb) ∙ plain

parse_close-put_be :
    (code : ℕ) (reason : List ℕ)
    → code < 65536
    → parse_close (put_be 2 code ++ reason) ≡ (code, reason)
unfolding parse_close
parse_close-put_be code reason c =
    let size = length-put_be 2 code in
    let long : ltb (length (put_be 2 code ++ reason)) 2 ≡ false =
      ground (arith, length-append (put_be 2 code) reason) in
    let front : take 2 (put_be 2 code ++ reason) ≡ put_be 2 code =
      take-append_left 2 (put_be 2 code) reason (omega arith)
      ∙ take-all 2 (put_be 2 code) (omega arith) in
    let back : drop 2 (put_be 2 code ++ reason) ≡ reason =
      drop-append_left 2 (put_be 2 code) reason (omega arith)
      ∙ ap (λ t. t ++ reason) (drop-all 2 (put_be 2 code) (omega arith)) in
    rw (long, front, back, be_word-put_be_2 code c) refl

empty_close : parse_close [] ≡ (no_status, [])
unfolding parse_close
empty_close = refl

-- What the peer reads of the close frame.
abbrev Arrives : ℕ × List ℕ → List ℕ → Type 0
Arrives sent p = (validate_close p ≡ none) × (parse_close p ≡ sent)

encode-Arrives :
    (random : MaskKey) (p : List ℕ) (sent : ℕ × List ℕ) (s s' : Sender) (head body : List ℕ)
    → encode random close p s ≡ (s', frame head body)
    → parse_close p ≡ sent
    → IsBytes p
    → IsKey random
    → length p < 2 ^ 63
    → Arrives sent (unmask (key_for s.role random) body)
encode-Arrives random p sent s s' head body eq read ok key_ok short =
    let (checked, framed) = encode-close random p s s' head body eq in
    subst (Arrives sent) (sym (unmask-body random p s s' head body framed ok key_ok short))
      (checked, read)

-- A close frame that `EncodeClose` makes of a 16-bit code and a reason of bytes, on a key of bytes,
-- passes the peer's `validateClose` once it is unmasked, and `parseClose` gives the code and the
-- reason back, or 1005 with no reason where the code is zero.
pub parse_close-encode_close :
    (random : MaskKey) (code : ℕ) (reason : List ℕ) (s s' : Sender) (head body : List ℕ)
    → encode_close random code reason s ≡ (s', frame head body)
    → code < 65536
    → IsBytes reason
    → IsKey random
    → Arrives
        (if code == 0 then (no_status, []) else (code, reason))
        (unmask (key_for s.role random) body)
unfolding encode_close
parse_close-encode_close random zero reason s s' head body eq c ok key_ok =
    elim (Bool-cases (length reason == 0)) [
      | inr e ↦ absurd (not_error s s' protocol head body _ (rw e refl) eq)
      | inl e ↦
          encode-Arrives random [] (no_status, []) s s' head body (sym (rw e refl) ∙ eq) empty_close
            tt key_ok (omega arith)
    ]
parse_close-encode_close random (suc n) reason s s' head body eq c ok key_ok =
    elim (Bool-cases (ltb 123 (length reason))) [
      | inl e ↦ absurd (not_error s s' protocol head body _ (rw (suc-==-zero n, e) refl) eq)
      | inr e ↦
          let p = put_be 2 (suc n) ++ reason in
          let short : length p < 2 ^ 63 =
            ground (arith, length-append (put_be 2 (suc n)) reason, length-put_be 2 (suc n)) in
          rw (suc-==-zero n) (
            encode-Arrives random p (suc n, reason) s s' head body
              (sym (rw (suc-==-zero n, e) refl) ∙ eq) (parse_close-put_be (suc n) reason c)
              (All-append (λ b. b < 256) (put_be 2 (suc n)) reason (put_be-IsBytes 2 (suc n)) ok)
              key_ok short)
    ]
